-- ===== src/Fs/Inodes/Added.antt =====
-- `register_inode` of src/fs/inode.c for an inode that is not in the table.
use unstable_os.Base.{
  Bool-cases, Errno, Outcome, ap, arith, err, get_or, inl, inr, length, none, not, ok, refl, set,
  some, true, ℕ, ◌&&◌, ◌+◌, ◌<◌, ◌∙◌, ◌≡◌, ◌⊎◌,
}
use unstable_os.Fs.Inodes.Slots.{first_slot-added}
use unstable_os.Fs.Inodes.{
  Inode, Inodes, Opens, count_superblock, get_inode, inode_at, is_at, is_dev, is_free, o_path,
  one_less, one_more, put, register_new,
}
use unstable_os.Fs.Inodes.Keys.{
  IsPlain, Registers, Registers-same, at_own, free_not_at, not_found, put_again, put_elsewhere,
}

module _ (o : Opens) (plain : IsPlain o) (i : Inode) (flags k : ℕ) (s : Inodes) where
  abbrev filled : Inodes
  filled = put k (record i { instances = 1 }) (count_superblock one_more i.backing_superblock s)

  filled-Registers :
      get_inode i.backing_superblock i.id s.kernel_inodes ≡ none
      → k < length s.kernel_inodes
      → is_free (get_or s.kernel_inodes k none) ≡ true
      → Registers i s (ok 0, some k, filled)
  unfolding get_inode
  filled-Registers absent lt free =
      let new : Inode = record i { instances = 1 } in
      let sbs = i.backing_superblock in
      let from_zero : 0 + k ≡ k = omega arith in
      (
        put_elsewhere i new k s (refl, refl) (λ sb id h. free_not_at sb id _ free),
        λ j e.
            first_slot-added (is_at sbs i.id) 0 s.kernel_inodes k (some new) absent lt
              (at_own new (omega arith))
            ∙ ap some from_zero
            ∙ e,
      )

  -- A slot whose inode is no longer used is found under no other key.
  emptied-Registers :
      (e : Errno) (s' : Inodes)
      → k < length s.kernel_inodes
      → is_free (get_or s.kernel_inodes k none) ≡ true
      → s'.kernel_inodes ≡ set s.kernel_inodes k (some (record i { instances = 0 }))
      → Registers i s (err e, none, s')
  unfolding get_inode
  emptied-Registers e s' lt free at =
      let dead : Inode = record i { instances = 0 } in
      (
        λ sb id h.
            ap (get_inode sb id) at
            ∙ put_elsewhere i dead k s (refl, refl) (λ sb id h. free_not_at sb id _ free) sb id h,
        λ j absurd_slot. absurd (not_found absurd_slot),
      )

  pub register_new-Registers :
      get_inode i.backing_superblock i.id s.kernel_inodes ≡ none
      → k < length s.kernel_inodes
      → is_free (get_or s.kernel_inodes k none) ≡ true
      → Registers i s (register_new o i flags k s)
  unfolding register_new IsPlain
  register_new-Registers absent lt free =
      let (own, same) = plain flags k filled in
      let here = filled-Registers absent lt free in
      let after = o.open_dev flags k filled in
      let new = inode_at after.1 after.2 in
      let dead =
        put after.1 (record new { instances = 0 })
          (count_superblock one_less new.backing_superblock after.2) in
      elim (Bool-cases (is_dev i.kind && not (o_path flags))) [
        | inl opened ↦ elim (outcome_cases after.0) [
          | inl (n, fine) ↦
              rw (opened, fine)
                (Registers-same i s (ok 0, some k, filled) (ok n, some after.1, after.2)
                  (ap some own) same here)
          | inr (e, failed) ↦
              rw (opened, failed)
                (emptied-Registers e dead lt free (
                  put_again (λ v. record v { instances = 0 }) (record i { instances = 1 }) k after.1
                    s.kernel_inodes after.2 lt own same))
        ]
        | inr unopened ↦ rw unopened here
      ]
    where
      outcome_cases : (x : Outcome) → ((n : ℕ) × (x ≡ ok n)) ⊎ ((e : Errno) × (x ≡ err e))
      outcome_cases (ok n) = inl (n, refl)
      outcome_cases (err e) = inr (e, refl)

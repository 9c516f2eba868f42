-- ===== src/Fs/Inodes/Again.antt =====
-- `register_inode` of src/fs/inode.c for an inode that is in the table already.
use mathlib.Core.Path.{subst}
use unstable_os.Base.{
  Bool-cases, Errno, Option-cases, ap, arith, err, false, get_or, inl, inr, length, none, not, ok,
  refl, set, some, true, ℕ, ◌&&◌, ◌-◌, ◌<◌, ◌^◌, ◌∙◌, ◌≡◌, ◌⊎◌,
}
use unstable_os.Fs.Inodes.Slots.{first_slot-found, first_slot-in}
use unstable_os.Fs.Inodes.{
  Inode, Inodes, Opens, first_slot, get_inode, inode_at, is_at, is_dev, is_pipe, o_path, one_less,
  one_more, open_pipe_again, put, register_again,
}
use unstable_os.Fs.Inodes.Keys.{
  IsOther, IsPlain, Registers, Registers-same, at_key, if_either, not_found, own_key, own_not_other,
  put_again, put_elsewhere,
}

module _ (o : Opens) (plain : IsPlain o) (i x : Inode) (flags k : ℕ) (s : Inodes)
    (found : get_inode i.backing_superblock i.id s.kernel_inodes ≡ some k)
    (at : get_or s.kernel_inodes k none ≡ some x) (few : x.instances < 2 ^ 32 - 1) where
  seen : (k < length s.kernel_inodes) × (is_at i.backing_superblock i.id (some x) ≡ true)
  unfolding get_inode
  seen =
      let sbs = i.backing_superblock in
      let (k', eq, lt, seen_there) = first_slot-in (is_at sbs i.id) 0 s.kernel_inodes k found in
      let same : k' ≡ k = omega (arith, eq) in
      (
        omega (arith, lt, same),
        subst (λ y. is_at sbs i.id y ≡ true) (ap (λ n. get_or s.kernel_inodes n none) same ∙ at)
            seen_there,
      )

  abbrev more : Inode
  more = record x { instances = one_more x.instances }

  unseen : (sb id : ℕ) → IsOther sb id i → is_at sb id (get_or s.kernel_inodes k none) ≡ false
  unseen sb id h = rw at (own_not_other i (some x) seen.1 sb id h)

  counted-Registers : Registers i s (ok 0, some k, put k more s)
  unfolding get_inode
  counted-Registers =
      let sbs = i.backing_superblock in
      let key = own_key i x seen.1 in
      let (j, eq', seen', still) =
        first_slot-found (is_at sbs i.id) 0 s.kernel_inodes k (some more) found
          (at_key i more key (omega arith)) in
      let own_slot : j ≡ k = omega (arith, eq') in
      (
        put_elsewhere i more k s key unseen,
        λ n e.
            subst (λ m. first_slot (is_at sbs i.id) 0 (set s.kernel_inodes m (some more)) ≡ some k)
              own_slot still
            ∙ e,
      )

  -- A pipe that does not open gives the user back.
  uncounted-Registers :
      (e : Errno) (v : Inode) (s' : Inodes)
      → (v.backing_superblock ≡ x.backing_superblock) × (v.id ≡ x.id)
      → s'.kernel_inodes ≡ set s.kernel_inodes k (some v)
      → Registers i s (err e, none, s')
  uncounted-Registers e v s' (sb_same, id_same) at' =
      let (sb_own, id_own) = own_key i x seen.1 in
      (
        λ sb id h.
            ap (get_inode sb id) at'
            ∙ put_elsewhere i v k s (sb_same ∙ sb_own, id_same ∙ id_own) unseen sb id h,
        λ j none_there. absurd (not_found none_there),
      )

  answered :
      (slot : ℕ) (s' : Inodes)
      → slot ≡ k
      → s'.kernel_inodes ≡ (put k more s).kernel_inodes
      → (o.open_pipe flags (inode_at slot s') ≡ none)
        ⊎ ((e : Errno) × (o.open_pipe flags (inode_at slot s') ≡ some e))
      → Registers i s (open_pipe_again o i flags slot s')
  unfolding open_pipe_again
  answered slot s' own same pipe =
      let kept =
        Registers-same i s (ok 0, some k, put k more s) (ok 0, some slot, s') (ap some own) same
          counted-Registers in
      elim pipe [
        | inl fine ↦ rw fine (if_either (Registers i s) (is_pipe i.kind) kept kept)
        | inr (e, failed) ↦
            let new = inode_at slot s' in
            let back = put slot (record new { instances = one_less new.instances }) s' in
            let less : Inode = record more { instances = one_less more.instances } in
            rw failed (
              if_either (Registers i s) (is_pipe i.kind)
                (uncounted-Registers e less back (refl, refl)
                  (put_again (λ v. record v { instances = one_less v.instances }) more k slot
                    s.kernel_inodes s' seen.0 own same))
                kept)
      ]

pub register_again-Registers :
    (o : Opens)
    → IsPlain o
    → (i : Inode) (flags k : ℕ) (s : Inodes)
    → get_inode i.backing_superblock i.id s.kernel_inodes ≡ some k
    → get_or s.kernel_inodes k none ≡ some (inode_at k s)
    → (inode_at k s).instances < 2 ^ 32 - 1
    → Registers i s (register_again o i flags k s)
unfolding register_again IsPlain
register_again-Registers o plain i flags k s found at few =
    let old = inode_at k s in
    let counted = put k (record old { instances = one_more old.instances }) s in
    let (own, same) = plain flags k counted in
    let after = o.open_dev flags k counted in
    let done = answered o plain i old flags k s found at few in
    elim (Bool-cases (is_dev i.kind && not (o_path flags))) [
      | inl opened ↦ rw opened (done after.1 after.2 own same (Option-cases _))
      | inr unopened ↦ rw unopened (done k counted refl refl (Option-cases _))
    ]

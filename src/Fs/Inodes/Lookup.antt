-- ===== src/Fs/Inodes/Lookup.antt =====
-- The table of inodes as a map from superblocks and ids to slots, src/fs/inode.c.
use mathlib.Core.Path.{subst}
use unstable_os.Base.{
  Bool-cases, Option, Option-cases, Outcome, ap, arith, get_or, inl, inr, none, refl, some, sym,
  true, ℕ, ◌&&◌, ◌-◌, ◌<◌, ◌==◌, ◌^◌, ◌∙◌, ◌≡◌, ◌⊎◌,
}
use unstable_os.Fs.Inodes.Slots.{first_slot-in}
use unstable_os.Fs.Inodes.{
  Inode, Inodes, Opens, get_free_inode, get_inode, inode_at, is_at, is_free, register_again,
  register_inode, register_new,
}
use unstable_os.Fs.Inodes.Keys.{IsPlain, Registers}
use unstable_os.Fs.Inodes.Added.{register_new-Registers}
use unstable_os.Fs.Inodes.Again.{register_again-Registers}

-- The slot of a found inode holds one.
found_inode :
    (i : Inode) (s : Inodes) (k : ℕ)
    → get_inode i.backing_superblock i.id s.kernel_inodes ≡ some k
    → (x : Inode) × (get_or s.kernel_inodes k none ≡ some x)
unfolding get_inode is_at
found_inode i s k e =
    let (k', eq, lt, seen) =
      first_slot-in (is_at i.backing_superblock i.id) 0 s.kernel_inodes k e in
    let same : k' ≡ k = omega (arith, eq) in
    holds_one (get_or s.kernel_inodes k none) (
      subst (λ n. is_at i.backing_superblock i.id (get_or s.kernel_inodes n none) ≡ true) same seen)
  where
    holds_one :
        (y : Option Inode) → is_at i.backing_superblock i.id y ≡ true → (x : Inode) × (y ≡ some x)
    holds_one none h = absurd (cc h)
    holds_one (some x) h = (x, refl)

module _ (o : Opens) (i : Inode) (flags : ℕ) (s : Inodes) where
  registers_again :
      (k : ℕ)
      → get_inode i.backing_superblock i.id s.kernel_inodes ≡ some k
      → register_inode o i flags s ≡ some (register_again o i flags k s)
  unfolding register_inode
  registers_again k e = rw (register_inode, e) refl

  registers_new :
      (k : ℕ)
      → get_inode i.backing_superblock i.id s.kernel_inodes ≡ none
      → get_free_inode s.kernel_inodes ≡ some k
      → register_inode o i flags s ≡ some (register_new o i flags k s)
  unfolding register_inode
  registers_new k e free = rw (register_inode, e, free) refl

  panics :
      get_inode i.backing_superblock i.id s.kernel_inodes ≡ none
      → get_free_inode s.kernel_inodes ≡ none
      → register_inode o i flags s ≡ none
  unfolding register_inode
  panics e full = rw (register_inode, e, full) refl

same_result : {A : Type 0} {m : Option A} {x y : A} → m ≡ some x → m ≡ some y → x ≡ y
same_result e e' = cc

register_inode-Registers :
    (o : Opens)
    → IsPlain o
    → (i : Inode) (flags : ℕ) (s : Inodes) (r : Outcome × Option ℕ × Inodes)
    → ((k : ℕ) → (inode_at k s).instances < 2 ^ 32 - 1)
    → register_inode o i flags s ≡ some r
    → Registers i s r
unfolding get_free_inode
register_inode-Registers o plain i flags s r few e =
    elim (Option-cases (get_inode i.backing_superblock i.id s.kernel_inodes)) [
      | inr (k, found) ↦
          let (x, at) = found_inode i s k found in
          let held_at : inode_at k s ≡ x = rw (inode_at, at) refl in
          subst (Registers i s) (same_result (registers_again o i flags s k found) e) (
            register_again-Registers o plain i flags k s found (at ∙ ap some (sym held_at)) (few k))
      | inl absent ↦ elim (Option-cases (get_free_inode s.kernel_inodes)) [
        | inl full ↦ absurd (cc (panics o i flags s absent full))
        | inr (k, free) ↦
            let (k', eq, lt, seen) = first_slot-in is_free 0 s.kernel_inodes k free in
            let same : k' ≡ k = omega (arith, eq) in
            subst (Registers i s) (same_result (registers_new o i flags s k absent free) e) (
              register_new-Registers o plain i flags k s absent (omega (arith, lt, same))
                (subst (λ n. is_free (get_or s.kernel_inodes n none) ≡ true) same seen))
      ]
    ]

-- What a call has done to the map from superblocks and ids to slots.
abbrev pub IsRegistered : Inode → Inodes → Outcome × Option ℕ × Inodes → Type 0
IsRegistered i s (o, slot, s') =
    ((sb id : ℕ)
      → (get_inode sb id s'.kernel_inodes ≡ get_inode sb id s.kernel_inodes)
        ⊎ ((i.backing_superblock == sb && i.id == id) ≡ true))
    × ((slot ≡ none) ⊎ (get_inode i.backing_superblock i.id s'.kernel_inodes ≡ slot))

-- `register_inode`, where `open_dev` leaves the inode in its slot and the table as it was, so that it is not a
-- `repl_open`, where no inode is used so often that its count would overflow, and if it does not panic
-- for want of a slot: the lookups of all other superblocks and ids give what they gave before, whether the
-- call fails or not, and a slot that the call returns is the one that a lookup of the inode then gives.
pub register_inode-IsRegistered :
    (o : Opens)
    → IsPlain o
    → (i : Inode) (flags : ℕ) (s : Inodes) (r : Outcome × Option ℕ × Inodes)
    → ((k : ℕ) → (inode_at k s).instances < 2 ^ 32 - 1)
    → register_inode o i flags s ≡ some r
    → IsRegistered i s r
register_inode-IsRegistered o plain i flags s r few e =
    let (elsewhere, own) = register_inode-Registers o plain i flags s r few e in
    (
      λ sb id. elim (Bool-cases (i.backing_superblock == sb && i.id == id)) [
        | inl same ↦ inr same
        | inr unlike ↦ inl (elsewhere sb id unlike)
      ],
      elim (Option-cases r.1) [
        | inl failed ↦ inl failed
        | inr (k, got) ↦ inr (own k got ∙ sym got)
      ],
    )

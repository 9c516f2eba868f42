-- ===== src/Fs/Inodes/Slots.antt =====
-- Searches of the table of inodes after a write to one slot, src/fs/inode.c.
use unstable_os.Base.{
  Bool, Bool-cases, Option, [], ap, arith, false, get_or, if◌then◌else◌, inl, inr, length, none,
  refl, set, some, suc, true, zero, ℕ, ◌+◌, ◌<◌, ◌∙◌, ◌∷◌, ◌≡◌,
}
use unstable_os.Fs.Inodes.{Inode, Slots, first_slot}

module _ (p : Option Inode → Bool) where
  -- A write that the test does not see before or after.
  pub first_slot-unseen :
      (k : ℕ) (xs : Slots) (i : ℕ) (v : Option Inode)
      → p (get_or xs i none) ≡ false
      → p v ≡ false
      → first_slot p k (set xs i v) ≡ first_slot p k xs
  unfolding first_slot
  first_slot-unseen k [] i v e e' = refl
  first_slot-unseen k (x ∷ xs) zero v e e' = rw (e, e') refl
  first_slot-unseen k (x ∷ xs) (suc i) v e e' =
      ap (λ r. if p x then some k else r) (first_slot-unseen (k + 1) xs i v e e')

  -- A write to the slot that was found.
  pub first_slot-found :
      (k : ℕ) (xs : Slots) (j : ℕ) (v : Option Inode)
      → first_slot p k xs ≡ some j
      → p v ≡ true
      → (i : ℕ) × (j ≡ k + i)
        × (p (get_or xs i none) ≡ true)
        × (first_slot p k (set xs i v) ≡ some j)
  unfolding first_slot
  first_slot-found k [] j v e pv = absurd cc
  first_slot-found k (x ∷ xs) j v e pv = elim (Bool-cases (p x)) [
    | inl here ↦ let same : k ≡ j = cc in (zero, omega (arith, same), here, rw pv (ap some same))
    | inr away ↦
        let tail : first_slot p (k + 1) xs ≡ some j = cc in
        let (i, eq, seen, still) = first_slot-found (k + 1) xs j v tail pv in
        (suc i, omega (arith, eq), seen, rw away still)
  ]

  -- A write to an empty place of a table without a match.
  pub first_slot-added :
      (k : ℕ) (xs : Slots) (i : ℕ) (v : Option Inode)
      → first_slot p k xs ≡ none
      → i < length xs
      → p v ≡ true
      → first_slot p k (set xs i v) ≡ some (k + i)
  unfolding first_slot
  first_slot-added k [] i v e lt pv = absurd (omega arith)
  first_slot-added k (x ∷ xs) zero v e lt pv = rw pv (ap some (omega arith))
  first_slot-added k (x ∷ xs) (suc i) v e lt pv = elim (Bool-cases (p x)) [
    | inl here ↦ absurd cc
    | inr away ↦
        let tail : first_slot p (k + 1) xs ≡ none = cc in
        let place : (k + 1) + i ≡ k + suc i = omega arith in
        rw away (first_slot-added (k + 1) xs i v tail (omega arith) pv ∙ ap some place)
  ]

  pub first_slot-in :
      (k : ℕ) (xs : Slots) (j : ℕ)
      → first_slot p k xs ≡ some j
      → (i : ℕ) × (j ≡ k + i) × (i < length xs) × (p (get_or xs i none) ≡ true)
  unfolding first_slot
  first_slot-in k [] j e = absurd cc
  first_slot-in k (x ∷ xs) j e = elim (Bool-cases (p x)) [
    | inl here ↦ let same : k ≡ j = cc in (zero, omega (arith, same), omega arith, here)
    | inr away ↦
        let tail : first_slot p (k + 1) xs ≡ some j = cc in
        let (i, eq, lt, seen) = first_slot-in (k + 1) xs j tail in
        (suc i, omega (arith, eq), omega arith, seen)
  ]

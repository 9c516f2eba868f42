-- ===== src/Libc/Qsort/Part.antt =====
-- The two inner loops of qsort_part of libc/src/qsort.c.
use unstable_os.Base.{
  Bool-cases, arith, eqb_false→ne, eqb→eq, if◌then◌else◌, inl, inr, ltb, ltb_false→le, ltb→lt, refl,
  some, suc, sym, zero, ℕ, ◌+◌, ◌-◌, ◌<◌, ◌==◌, ◌≡◌, ◌≢◌, ◌≤◌,
}
use mathlib.Core.Path.{subst}
use unstable_os.Libc.Strings.{Sign, less, more, same}
use unstable_os.Libc.Qsort.{scan_down, scan_up}

-- An order by a key.
abbrev pub by_key : ℕ → ℕ → Sign
by_key m n = if ltb m n then less else if ltb n m then more else same

module _ {A : Type 0} (compar : A → A → Sign) (key : A → ℕ)
    (law : (x y : A) → compar x y ≡ by_key (key x) (key y)) where
  -- Where a place with a key that is not below that of `f a` comes at `s`, the scan stops at or before it.
  pub scan_up_lem :
      (fuel : ℕ) (f : ℕ → A) (a i s : ℕ)
      → i ≤ s
      → s - i < fuel
      → key (f a) ≤ key (f s)
      → (i' : ℕ) × (scan_up compar fuel f a i ≡ some i')
        × (i ≤ i')
        × (i' ≤ s)
        × ((k : ℕ) → i ≤ k → k < i' → key (f k) < key (f a))
        × (key (f a) ≤ key (f i'))
  unfolding scan_up
  scan_up_lem zero f a i s le lt h = absurd (omega arith)
  scan_up_lem (suc fuel) f a i s le lt h = elim (Bool-cases (ltb (key (f i)) (key (f a)))) [
    | inl e ↦
        let below = ltb→lt (key (f i)) (key (f a)) e in
        let apart : i ≢ s =
          λ q. absurd (omega (arith, subst (λ x. key (f a) ≤ key (f x)) (sym q) h)) in
        let r = scan_up_lem fuel f a (i + 1) s (omega arith) (omega arith) h in
        (
          r.0,
          rw (scan_up, law (f i) (f a), e) r.1,
          omega (arith, r.2),
          r.3,
          λ k lo hi. elim (Bool-cases (k == i)) [
            | inl q ↦ subst (λ x. key (f x) < key (f a)) (sym (eqb→eq k i q)) below
            | inr q ↦ r.4 k (omega (arith, eqb_false→ne k i q)) hi
          ],
          r.5,
        )
    | inr e ↦ elim (Bool-cases (ltb (key (f a)) (key (f i)))) [
      | inl d ↦ (
        i,
        rw (scan_up, law (f i) (f a), e, d) refl,
        omega arith,
        le,
        λ k lo hi. absurd (omega arith),
        omega (arith, ltb→lt (key (f a)) (key (f i)) d),
      )
      | inr d ↦ (
        i,
        rw (scan_up, law (f i) (f a), e, d) refl,
        omega arith,
        le,
        λ k lo hi. absurd (omega arith),
        ltb_false→le (key (f i)) (key (f a)) e,
      )
    ]
  ]

  -- The scan down stops at `a` at the latest.
  pub scan_down_lem :
      (fuel : ℕ) (f : ℕ → A) (a j : ℕ)
      → a ≤ j
      → j - a < fuel
      → (j' : ℕ) × (scan_down compar fuel f a j ≡ some j')
        × (a ≤ j')
        × (j' ≤ j)
        × ((k : ℕ) → j' < k → k ≤ j → key (f a) < key (f k))
        × (key (f j') ≤ key (f a))
  unfolding scan_down
  scan_down_lem zero f a j le lt = absurd (omega arith)
  scan_down_lem (suc fuel) f a j le lt = elim (Bool-cases (ltb (key (f j)) (key (f a)))) [
    | inl e ↦ (
      j,
      rw (scan_down, law (f j) (f a), e) refl,
      le,
      omega arith,
      λ k lo hi. absurd (omega arith),
      omega (arith, ltb→lt (key (f j)) (key (f a)) e),
    )
    | inr e ↦ elim (Bool-cases (ltb (key (f a)) (key (f j)))) [
      | inl d ↦
          let above = ltb→lt (key (f a)) (key (f j)) d in
          let apart : j ≢ a =
            λ q. absurd (omega (arith, subst (λ x. key (f a) < key (f x)) q above)) in
          let r = scan_down_lem fuel f a (j - 1) (omega arith) (omega arith) in
          (
            r.0,
            rw (scan_down, law (f j) (f a), e, d) r.1,
            r.2,
            omega (arith, r.3),
            λ k lo hi. elim (Bool-cases (k == j)) [
              | inl q ↦ subst (λ x. key (f a) < key (f x)) (sym (eqb→eq k j q)) above
              | inr q ↦ r.4 k lo (omega (arith, eqb_false→ne k j q))
            ],
            r.5,
          )
      | inr d ↦ (
        j,
        rw (scan_down, law (f j) (f a), e, d) refl,
        le,
        omega arith,
        λ k lo hi. absurd (omega arith),
        ltb_false→le (key (f a)) (key (f j)) d,
      )
    ]
  ]

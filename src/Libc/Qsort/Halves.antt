-- ===== src/Libc/Qsort/Halves.antt =====
-- qsort_part of libc/src/qsort.c: the smaller elements and the larger ones.
use unstable_os.Base.{
  Bool-cases, ap, arith, eqb_false→ne, eqb→eq, inl, inr, leb, leb_false→lt, leb→le, ltb,
  ltb_false→le, ltb→lt, refl, some, suc, sym, zero, ℕ, ◌+◌, ◌-◌, ◌<◌, ◌==◌, ◌≡◌, ◌≤◌, ◌⊎◌,
}
use mathlib.Core.Path.{subst}
use unstable_os.Libc.Strings.{Sign}
use unstable_os.Libc.Qsort.Rounds.{
  Rearranged, in_turn, qsort_swap-Rearranged, swap_first, swap_other, swap_second, unmoved,
}
use unstable_os.Libc.Qsort.Part.{by_key, scan_down_lem, scan_up_lem}
use unstable_os.Libc.Qsort.{Parted, part_loop, qsort_swap}

module _ {A : Type 0} (key : A → ℕ) where
  -- Before a round: what is behind the scans is on its side of the first element, and each scan has a
  -- place where it stops.
  pub record Between (f : ℕ → A) (a b i j : ℕ) : Type 0 where
    pub lo : a ≤ i
    pub hi : j ≤ b
    pub start : a ≤ j
    pub meet : i ≤ j + 1
    pub below : (k : ℕ) → a ≤ k → k < i → key (f k) ≤ key (f a)
    pub above : (k : ℕ) → j < k → k ≤ b → key (f a) ≤ key (f k)
    pub stop : (i ≡ a) ⊎ (j < b)

  -- The elements up to `m` are at most `p`, and those behind it at least.
  pub record Halves (g : ℕ → A) (a b m : ℕ) : Type 0 where
    pub first : a ≤ m
    pub last : m < b
    pub pivot : ℕ
    pub small : (k : ℕ) → a ≤ k → k ≤ m → key (g k) ≤ pivot
    pub large : (k : ℕ) → m < k → k ≤ b → pivot ≤ key (g k)

  -- A place where the scan up stops.
  sentinel :
      (f : ℕ → A) (a b i j : ℕ)
      → Between f a b i j
      → (s : ℕ) × (i ≤ s) × (s ≤ b) × (key (f a) ≤ key (f s)) × ((i ≡ a) → s ≡ a)
  sentinel f a b i j v = elim v.stop [
    | inl e ↦ (a, omega (arith, e), omega (arith, v.start, v.hi), omega arith, λ q. refl)
    | inr d ↦ elim (Bool-cases (i == a)) [
      | inl e ↦
          (a, omega (arith, eqb→eq i a e), omega (arith, v.start, v.hi), omega arith, λ q. refl)
      | inr e ↦ (
        j + 1,
        v.meet,
        omega arith,
        v.above (j + 1) (omega arith) (omega arith),
        λ q. absurd (eqb_false→ne i a e q),
      )
    ]
  ]

  -- The swap of two elements on the wrong sides.
  module _ (f : ℕ → A) (a b i j i' j' : ℕ) (v : Between f a b i j) (lt : i' < j') where
    -- The first element afterwards.
    first_after :
        i ≤ i'
        → key (f j') ≤ key (f a)
        → (key (qsort_swap f i' j' a) ≤ key (f a))
          × ((a < i') → key (qsort_swap f i' j' a) ≡ key (f a))
    first_after li at_j = elim (Bool-cases (a == i')) [
      | inl e ↦
          let q = eqb→eq a i' e in
          (
            subst (λ x. key (qsort_swap f i' j' x) ≤ key (f a)) (sym q)
                (rw (ap key (swap_first f i' j')) at_j),
            λ l. absurd (omega arith),
          )
      | inr e ↦
          let q = swap_other f i' j' a (eqb_false→ne a i' e) (omega (arith, v.lo)) in
          (omega (arith, ap key q), λ l. ap key q)
    ]

    below_after :
        i ≤ i'
        → key (f j') ≤ key (f a)
        → ((k : ℕ) → i ≤ k → k < i' → key (f k) < key (f a))
        → (k : ℕ) → a < k
        → k ≤ i'
        → key (qsort_swap f i' j' k) ≤ key (qsort_swap f i' j' a)
    below_after li at_j up k far kh =
        let same_first = (first_after li at_j).1 (omega arith) in
        elim (Bool-cases (k == i')) [
          | inl d ↦
              subst (λ x. key (qsort_swap f i' j' x) ≤ key (qsort_swap f i' j' a))
                (sym (eqb→eq k i' d)) (omega (arith, ap key (swap_first f i' j'), at_j, same_first))
          | inr d ↦
              let q = ap key (swap_other f i' j' k (eqb_false→ne k i' d) (omega arith)) in
              let before : k < i' = omega (arith, eqb_false→ne k i' d) in
              elim (Bool-cases (ltb k i)) [
                | inl c ↦ omega (arith, q, same_first, v.below k (omega arith) (ltb→lt k i c))
                | inr c ↦ omega (arith, q, same_first, up k (ltb_false→le k i c) before)
              ]
        ]

    above_after :
        i ≤ i'
        → key (f j') ≤ key (f a)
        → key (f a) ≤ key (f i')
        → ((k : ℕ) → j' < k → k ≤ j → key (f a) < key (f k))
        → (k : ℕ) → j' ≤ k
        → k ≤ b
        → key (qsort_swap f i' j' a) ≤ key (qsort_swap f i' j' k)
    above_after li at_j at_i down k kl kh = elim (Bool-cases (k == j')) [
      | inl e ↦
          subst (λ x. key (qsort_swap f i' j' a) ≤ key (qsort_swap f i' j' x)) (sym (eqb→eq k j' e))
            (omega
              (arith, ap key (swap_second f i' j' (omega arith)), at_i, (first_after li at_j).0))
      | inr e ↦
          let past : j' < k = omega (arith, eqb_false→ne k j' e) in
          let q = ap key (swap_other f i' j' k (omega arith) (eqb_false→ne k j' e)) in
          elim (Bool-cases (ltb j k)) [
            | inl c ↦ omega (arith, q, (first_after li at_j).0, v.above k (ltb→lt j k c) kh)
            | inr c ↦ omega (arith, q, (first_after li at_j).0, down k past (ltb_false→le j k c))
          ]
    ]

    next-Between :
        i ≤ i'
        → j' ≤ j
        → ((k : ℕ) → i ≤ k → k < i' → key (f k) < key (f a))
        → key (f a) ≤ key (f i')
        → ((k : ℕ) → j' < k → k ≤ j → key (f a) < key (f k))
        → key (f j') ≤ key (f a)
        → Between (qsort_swap f i' j') a b (i' + 1) (j' - 1)
    next-Between li lj up at_i down at_j = record {
      lo = omega (arith, v.lo);
      hi = omega (arith, v.hi);
      start = omega (arith, v.lo);
      meet = omega arith;
      below = λ k kl kh. elim (Bool-cases (k == a)) [
        | inl e ↦
            subst (λ x. key (qsort_swap f i' j' x) ≤ key (qsort_swap f i' j' a))
              (sym (eqb→eq k a e)) (omega arith)
        | inr e ↦ below_after li at_j up k (omega (arith, eqb_false→ne k a e)) (omega arith)
      ];
      above = λ k kl kh. above_after li at_j at_i down k (omega arith) kh;
      stop = inr (omega (arith, v.hi));
    }

  -- Where the scans meet, both sides are in order.
  met-Halves :
      (f : ℕ → A) (a b i j i' j' : ℕ)
      → a < b
      → Between f a b i j
      → a ≤ j'
      → j' ≤ j
      → j' ≤ i'
      → ((i ≡ a) → i' ≤ a)
      → ((k : ℕ) → i ≤ k → k < i' → key (f k) < key (f a))
      → ((k : ℕ) → j' < k → k ≤ j → key (f a) < key (f k))
      → key (f j') ≤ key (f a)
      → Halves f a b j'
  met-Halves f a b i j i' j' ab v first lj met at_start up down at_j = record {
    first = first;
    last = elim v.stop [ inl q ↦ omega (arith, at_start q) | inr q ↦ omega (arith, q) ];
    pivot = key (f a);
    small = λ k kl kh. elim (Bool-cases (ltb k i)) [
      | inl c ↦ v.below k kl (ltb→lt k i c)
      | inr c ↦ elim (Bool-cases (ltb k i')) [
        | inl x ↦ omega (arith, up k (ltb_false→le k i c) (ltb→lt k i' x))
        | inr x ↦
            let at : j' ≡ k = omega (arith, ltb_false→le k i' x) in
            subst (λ y. key (f y) ≤ key (f a)) at at_j
      ]
    ];
    large = λ k kl kh. elim (Bool-cases (ltb j k)) [
      | inl c ↦ v.above k (ltb→lt j k c) kh
      | inr c ↦ omega (arith, down k kl (ltb_false→le j k c))
    ];
  }

module _ {A : Type 0} (compar : A → A → Sign) (key : A → ℕ)
    (law : (x y : A) → compar x y ≡ by_key (key x) (key y)) where
  abbrev pub IsPart : Parted A → (ℕ → A) → ℕ → ℕ → Type 1
  IsPart r f a b =
      (m : ℕ) × (g : ℕ → A) × (r ≡ some (m, g)) × Rearranged f g a b × Halves key g a b m

  pub part_loop-IsPart :
      (fuel : ℕ) (f : ℕ → A) (a b i j : ℕ)
      → a < b
      → j + 1 - i < fuel
      → Between key f a b i j
      → IsPart (part_loop compar fuel f a b i j) f a b
  unfolding part_loop
  part_loop-IsPart zero f a b i j ab enough v = absurd (omega arith)
  part_loop-IsPart (suc fuel) f a b i j ab enough v =
      let s = sentinel key f a b i j v in
      let u =
        scan_up_lem compar key law (suc (b - a)) f a i s.0 s.1 (omega (arith, v.lo, s.2)) s.3 in
      let d = scan_down_lem compar key law (suc (b - a)) f a j v.start (omega (arith, v.hi)) in
      let i' = u.0 in
      let j' = d.0 in
      elim (Bool-cases (leb j' i')) [
        | inl e ↦
            let met = leb→le j' i' e in
            (
              j',
              f,
              rw (u.1, d.1, e) refl,
              unmoved f a b,
              met-Halves key f a b i j i' j' ab v d.2 d.3 met (λ q. omega (arith, u.3, s.4 q)) u.4
                  d.4 d.5,
            )
        | inr e ↦
            let apart = leb_false→lt j' i' e in
            let g = qsort_swap f i' j' in
            let w = next-Between key f a b i j i' j' v apart u.2 d.3 u.4 u.5 d.4 d.5 in
            let moved =
              qsort_swap-Rearranged f a b i' j' (omega (arith, v.lo, u.2)) apart
                (omega (arith, v.hi, d.3)) in
            let r = part_loop-IsPart fuel g a b (i' + 1) (j' - 1) ab (omega (arith, u.2, d.3)) w in
            (r.0, r.1, rw (u.1, d.1, e) r.2, in_turn {h = r.1} moved r.3, r.4)
      ]

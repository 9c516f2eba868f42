-- ===== src/Libc/Qsort/Sorting.antt =====
-- qsort_sort and qsort_r of libc/src/qsort.c: the order of what they leave.
use unstable_os.Base.{
  Bool-cases, ap, arith, eqb_false→ne, eqb→eq, inl, inr, leb, leb_false→lt, leb→le, ltb,
  ltb_false→le, ltb→lt, refl, some, suc, sym, zero, ℕ, ◌&&◌, ◌+◌, ◌-◌, ◌<◌, ◌==◌, ◌||◌, ◌≡◌, ◌≤◌,
}
use mathlib.Core.Path.{subst}
use unstable_os.Libc.Strings.{Sign}
use unstable_os.Libc.Qsort.Rounds.{Rearranged, in_turn, unmoved}
use unstable_os.Libc.Qsort.Halves.{Halves, IsPart, part_loop-IsPart}
use unstable_os.Libc.Qsort.Part.{by_key}
use unstable_os.Libc.Qsort.{qsort_part, qsort_r, qsort_sort}
use unstable_os.Sync.Threads.{tally}

abbrev pub Ascending : {A : Type 0} → (A → ℕ) → (ℕ → A) → ℕ → ℕ → Type 0
Ascending key f a b = (k : ℕ) → a ≤ k → k < b → key (f k) ≤ key (f (k + 1))

widen :
    {A : Type 0} (f g : ℕ → A) (a b c d : ℕ)
    → Rearranged f g c d
    → a ≤ c
    → d ≤ b
    → Rearranged f g a b
widen f g a b c d r lo hi = record {
  outside = λ k q.
      r.outside k (elim q [ inl x ↦ inl (omega (arith, x)) | inr x ↦ inr (omega (arith, x)) ]);
  keeps = λ p h k kl kh. elim (Bool-cases (leb c k && leb k d)) [
    | inl e ↦ r.keeps p (λ x xl xh. h x (omega arith) (omega arith)) k (ground arith) (ground arith)
    | inr e ↦
        subst p
          (sym (
            r.outside k (elim (Bool-cases (ltb k c)) [
              | inl x ↦ inl (ltb→lt k c x)
              | inr x ↦ inr (ground arith)
            ])))
          (h k kl kh)
  ];
  counts = λ w n h. r.counts w n (omega arith);
}

module _ {A : Type 0} (compar : A → A → Sign) (key : A → ℕ)
    (law : (x y : A) → compar x y ≡ by_key (key x) (key y)) where
  qsort_part-IsPart :
      (f : ℕ → A) (a b : ℕ) → a < b → IsPart compar key law (qsort_part compar f a b) f a b
  unfolding qsort_part
  qsort_part-IsPart f a b h =
      part_loop-IsPart compar key law (suc (suc (b - a))) f a b a b h (omega arith) (record {
        lo = omega arith;
        hi = omega arith;
        start = omega arith;
        meet = omega arith;
        below = λ k kl kh. absurd (omega arith);
        above = λ k kl kh. absurd (omega arith);
        stop = inl refl;
      })

  -- Both parts sorted make the whole sorted.
  joined :
      (f g h : ℕ → A) (a b m : ℕ)
      → Halves key f a b m
      → Rearranged f g a m
      → Ascending key g a m
      → Rearranged g h (m + 1) b
      → Ascending key h (m + 1) b
      → Ascending key h a b
  joined f g h a b m v r1 s1 r2 s2 k kl kh = elim (Bool-cases (ltb k m)) [
    | inl e ↦
        let lt = ltb→lt k m e in
        omega (
          arith,
          ap key (r2.outside k (inl (omega arith))),
          ap key (r2.outside (k + 1) (inl (omega arith))),
          s1 k kl lt,
        )
    | inr e ↦ elim (Bool-cases (k == m)) [
      | inl d ↦
          let at = eqb→eq k m d in
          let left = r1.keeps (λ x. key x ≤ v.pivot) v.small k kl (omega arith) in
          let right =
            r2.keeps (λ x. v.pivot ≤ key x)
              (λ x xl xh.
                omega
                  (arith, ap key (r1.outside x (inr (omega arith))), v.large x (omega arith) xh))
              (k + 1) (omega arith) (omega arith) in
          omega (arith, left, right, ap key (r2.outside k (inl (omega arith))))
      | inr d ↦ s2 k (omega (arith, ltb_false→le k m e, eqb_false→ne k m d)) kh
    ]
  ]

  qsort_sort_lem :
      (fuel : ℕ) (f : ℕ → A) (a b : ℕ)
      → b - a < fuel
      → (g : ℕ → A) × (qsort_sort compar fuel f a b ≡ some g)
        × Rearranged f g a b
        × Ascending key g a b
  unfolding qsort_sort
  qsort_sort_lem zero f a b h = absurd (omega arith)
  qsort_sort_lem (suc fuel) f a b h = elim (Bool-cases (leb b a)) [
    | inl e ↦
        (f, rw (qsort_sort, e) refl, unmoved f a b, λ k kl kh. absurd (omega (arith, leb→le b a e)))
    | inr e ↦
        let r = qsort_part-IsPart f a b (leb_false→lt b a e) in
        let v = r.4 in
        let x = qsort_sort_lem fuel r.1 a r.0 (omega (arith, v.first, v.last)) in
        let y = qsort_sort_lem fuel x.0 (r.0 + 1) b (omega (arith, v.first, v.last)) in
        (
          y.0,
          rw (qsort_sort, e, r.2, x.1) y.1,
          in_turn {h = y.0} r.3 (
              in_turn {h = y.0} (widen r.1 x.0 a b a r.0 x.2 (omega arith) (omega (arith, v.last)))
                (widen x.0 y.0 a b (r.0 + 1) b y.2 (omega (arith, v.first)) (omega arith))),
          joined r.1 x.0 y.0 a b r.0 v x.2 x.3 y.2 y.3,
        )
  ]

-- Where the caller's function orders by some key, qsort ends, leaves the first `nel` elements in ascending
-- order, with each as often as before, and all others as they were.
pub qsort_r-Ascending :
    {A : Type 0} (compar : A → A → Sign) (key : A → ℕ) (f : ℕ → A) (nel : ℕ)
    → ((x y : A) → compar x y ≡ by_key (key x) (key y))
    → (g : ℕ → A) × (qsort_r compar f nel ≡ some g)
      × ((k : ℕ) → k + 1 < nel → key (g k) ≤ key (g (k + 1)))
      × ((w : A → ℕ) → tally w nel g ≡ tally w nel f)
      × ((k : ℕ) → nel ≤ k → g k ≡ f k)
unfolding qsort_r
qsort_r-Ascending compar key f nel law = elim (Bool-cases (nel == 0 || nel == 1)) [
  | inl e ↦ (f, rw e refl, λ k h. absurd (ground arith), λ w. refl, λ k h. refl)
  | inr e ↦
      let big : 1 < nel = ground arith in
      let r = qsort_sort_lem compar key law nel f 0 (nel - 1) (omega arith) in
      (
        r.0,
        rw e r.1,
        λ k h. r.3 k (omega arith) (omega arith),
        λ w. r.2.counts w nel (omega arith),
        λ k h. r.2.outside k (inr (omega arith)),
      )
]

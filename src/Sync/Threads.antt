-- ===== src/Sync/Threads.antt =====
-- The place in the program of every thread, and counts over the threads below a bound.
use mathlib.Core.Path.{subst}
use unstable_os.Base.{
  Bool-cases, arith, eqb_false→ne, eqb_refl, eqb→eq, if◌then◌else◌, inl, inr, ltb, ltb_false→le,
  ltb→lt, ne→eqb_false, refl, suc, sym, zero, ℕ, ◌+◌, ◌<◌, ◌==◌, ◌≡◌, ◌≢◌, ◌≤◌,
}

abbrev pub set_at {ℓ} : {A : Type ℓ} → ℕ → A → (ℕ → A) → ℕ → A
set_at i a f j = if j == i then a else f j

pub set_at_self {ℓ} : {A : Type ℓ} (i : ℕ) (a : A) (f : ℕ → A) → set_at i a f i ≡ a
set_at_self i a f = rw (eqb_refl i) refl

-- How many of the first `n` threads are at a place that the weight counts.
pub tally {ℓ} : {A : Type ℓ} → (A → ℕ) → ℕ → (ℕ → A) → ℕ
tally w zero f = 0
tally w (suc n) f = w (f n) + tally w n f

tally-above {ℓ} :
    {A : Type ℓ} (w : A → ℕ) (n i : ℕ) (a : A) (f : ℕ → A)
    → n ≤ i
    → tally w n (set_at i a f) ≡ tally w n f
unfolding tally
tally-above w zero i a f h = refl
tally-above w (suc n) i a f h =
    rw (ne→eqb_false n i (omega arith)) (omega (arith, tally-above w n i a f (omega arith)))

-- A step of one thread.
pub tally-set_at {ℓ} :
    {A : Type ℓ} (w : A → ℕ) (n i : ℕ) (a : A) (f : ℕ → A)
    → i < n
    → tally w n (set_at i a f) + w (f i) ≡ tally w n f + w a
unfolding tally
tally-set_at w zero i a f h = absurd (omega arith)
tally-set_at w (suc n) i a f h = elim (Bool-cases (n == i)) [
  | inl e ↦ rw e (
      subst (λ k. (w a + tally w n (set_at i a f)) + w (f i) ≡ (w (f k) + tally w n f) + w a)
        (sym (eqb→eq n i e)) (omega (arith, tally-above w n i a f (omega (arith, eqb→eq n i e)))))
  | inr e ↦ rw e (omega (arith, tally-set_at w n i a f (omega (arith, eqb_false→ne n i e))))
]

pub tally-zero {ℓ} :
    {A : Type ℓ} (w : A → ℕ) (n : ℕ) (f : ℕ → A) → ((i : ℕ) → w (f i) ≡ 0) → tally w n f ≡ 0
unfolding tally
tally-zero w zero f h = refl
tally-zero w (suc n) f h = omega (arith, h n, tally-zero w n f h)

-- A thread that is counted makes the count positive, and two make it more than one.
pub tally-one {ℓ} : {A : Type ℓ} (w : A → ℕ) (n i : ℕ) (f : ℕ → A) → i < n → w (f i) ≤ tally w n f
unfolding tally
tally-one w zero i f h = absurd (omega arith)
tally-one w (suc n) i f h = elim (Bool-cases (n == i)) [
  | inl e ↦ subst (λ k. w (f k) ≤ w (f n) + tally w n f) (eqb→eq n i e) (omega arith)
  | inr e ↦ omega (arith, tally-one w n i f (omega (arith, eqb_false→ne n i e)))
]

pub tally-two {ℓ} :
    {A : Type ℓ} (w : A → ℕ) (n i j : ℕ) (f : ℕ → A)
    → i < n
    → j < n
    → i ≢ j
    → w (f i) + w (f j) ≤ tally w n f
unfolding tally
tally-two w zero i j f h k ne = absurd (omega arith)
tally-two w (suc n) i j f h k ne = elim (Bool-cases (n == i)) [
  | inl e ↦
      let q = eqb→eq n i e in
      subst (λ x. w (f x) + w (f j) ≤ w (f n) + tally w n f) q
        (omega (arith, tally-one w n j f (omega (arith, q))))
  | inr e ↦ elim (Bool-cases (n == j)) [
    | inl d ↦
        let q = eqb→eq n j d in
        subst (λ x. w (f i) + w (f x) ≤ w (f n) + tally w n f) q
          (omega (arith, tally-one w n i f (omega (arith, eqb_false→ne n i e))))
    | inr d ↦ omega (
      arith,
      tally-two w n i j f (omega (arith, eqb_false→ne n i e)) (omega (arith, eqb_false→ne n j d))
          ne,
    )
  ]
]

pub tally-le-bound {ℓ} :
    {A : Type ℓ} (w : A → ℕ) (n : ℕ) (f : ℕ → A) → ((a : A) → w a ≤ 1) → tally w n f ≤ n
unfolding tally
tally-le-bound w zero f h = omega arith
tally-le-bound w (suc n) f h = omega (arith, h (f n), tally-le-bound w n f h)

pub tally-le {ℓ} :
    {A : Type ℓ} (w u : A → ℕ) (n : ℕ) (f : ℕ → A)
    → ((a : A) → w a ≤ u a)
    → tally w n f ≤ tally u n f
unfolding tally
tally-le w u zero f h = omega arith
tally-le w u (suc n) f h = omega (arith, h (f n), tally-le w u n f h)

-- A positive count has a thread that is counted.
pub tally-find {ℓ} :
    {A : Type ℓ} (w : A → ℕ) (n : ℕ) (f : ℕ → A)
    → 0 < tally w n f
    → (i : ℕ) × (i < n) × (0 < w (f i))
unfolding tally
tally-find w zero f h = absurd (omega arith)
tally-find w (suc n) f h = elim (Bool-cases (ltb 0 (w (f n)))) [
  | inl e ↦ (n, omega arith, ltb→lt 0 (w (f n)) e)
  | inr e ↦
      let r = tally-find w n f (omega (arith, ltb_false→le 0 (w (f n)) e)) in
      (r.0, omega (arith, r.1), r.2)
]

pub tally-sum {ℓ} :
    {A : Type ℓ} (w u c : A → ℕ) (n : ℕ) (f : ℕ → A)
    → ((a : A) → w a + u a ≡ c a)
    → tally w n f + tally u n f ≡ tally c n f
unfolding tally
tally-sum w u c zero f h = omega arith
tally-sum w u c (suc n) f h = omega (arith, h (f n), tally-sum w u c n f h)

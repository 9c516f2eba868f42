-- ===== src/Libc/Qsort/Rounds.antt =====
-- The swaps of qsort_part of libc/src/qsort.c: elements in another order.
use unstable_os.Base.{
  Bool-cases, arith, eqb_refl, inl, inr, ne→eqb_false, refl, sym, ℕ, ◌<◌, ◌==◌, ◌∙◌, ◌≡◌, ◌≢◌, ◌≤◌,
  ◌⊎◌,
}
use unstable_os.Sync.Threads.{set_at, tally, tally-set_at}
use unstable_os.Libc.Qsort.{qsort_swap}

-- `g` has the elements of `f` with those from `a` to `b` in another order: the others stay in place, what
-- holds of all from `a` to `b` still does, and every count of elements is the same.
pub record Rearranged {A : Type 0} (f g : ℕ → A) (a b : ℕ) : Type 1 where
  pub outside : (k : ℕ) → (k < a) ⊎ (b < k) → g k ≡ f k
  pub keeps :
      (p : A → Type 0) → ((k : ℕ) → a ≤ k → k ≤ b → p (f k)) → (k : ℕ) → a ≤ k → k ≤ b → p (g k)
  pub counts : (w : A → ℕ) (n : ℕ) → b < n → tally w n g ≡ tally w n f

module _ {A : Type 0} where
  pub unmoved : (f : ℕ → A) (a b : ℕ) → Rearranged f f a b
  unmoved f a b = record { outside = λ k h. refl; keeps = λ p h. h; counts = λ w n h. refl }

  pub in_turn :
      {f g h : ℕ → A} {a b : ℕ} → Rearranged f g a b → Rearranged g h a b → Rearranged f h a b
  in_turn r s = record {
    outside = λ k q. s.outside k q ∙ r.outside k q;
    keeps = λ p q. s.keeps p (r.keeps p q);
    counts = λ w n q. s.counts w n q ∙ r.counts w n q;
  }

  pub swap_other : (f : ℕ → A) (i j k : ℕ) → k ≢ i → k ≢ j → qsort_swap f i j k ≡ f k
  swap_other f i j k hi hj = rw (ne→eqb_false k i hi, ne→eqb_false k j hj) refl

  pub swap_first : (f : ℕ → A) (i j : ℕ) → qsort_swap f i j i ≡ f j
  swap_first f i j = rw (eqb_refl i) refl

  pub swap_second : (f : ℕ → A) (i j : ℕ) → i ≢ j → qsort_swap f i j j ≡ f i
  swap_second f i j h = rw (ne→eqb_false j i (λ e. h (sym e)), eqb_refl j) refl

  pub qsort_swap-Rearranged :
      (f : ℕ → A) (a b i j : ℕ) → a ≤ i → i < j → j ≤ b → Rearranged f (qsort_swap f i j) a b
  qsort_swap-Rearranged f a b i j lo lt hi = record {
    outside = λ k q.
        swap_other f i j k
          (λ e. absurd (elim q [ inl x ↦ omega (arith, x, e) | inr x ↦ omega (arith, x, e) ]))
          (λ e. absurd (elim q [ inl x ↦ omega (arith, x, e) | inr x ↦ omega (arith, x, e) ]));
    keeps = λ p q k kl kh. elim (Bool-cases (k == i)) [
      | inl e ↦ rw e (q j (omega arith) hi)
      | inr e ↦ elim (Bool-cases (k == j)) [
        | inl d ↦ rw (e, d) (q i lo (omega arith))
        | inr d ↦ rw (e, d) (q k kl kh)
      ]
    ];
    counts = λ w n q.
        let one = tally-set_at w n j (f i) f (omega arith) in
        let mid = set_at j (f i) f in
        let at : w (mid i) ≡ w (f i) = rw (ne→eqb_false i j (omega arith)) refl in
        let two = tally-set_at w n i (f j) mid (omega arith) in omega (arith, one, two, at);
  }

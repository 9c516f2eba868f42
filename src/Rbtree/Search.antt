-- ===== src/Rbtree/Search.antt =====
-- What the searches of src/rbtree.c find in an ordered tree.
use unstable_os.Base.{
  Bool-cases, Option, arith, eqb→eq, inl, inr, ltb, ltb→lt, none, refl, some, ℕ, ◌<◌, ◌==◌, ◌↔◌,
  ◌≡◌, ◌≤◌, ◌⊎◌,
}
use unstable_os.Rbtree.{
  Rbtree, gte_loop, leaf, lte_loop, node, search_exact, search_gte, search_lte,
}
use mathlib.Core.Path.{subst}

-- Every `val` of the tree satisfies the predicate.
abbrev pub All : (ℕ → Type 0) → Rbtree → Type 0
All p leaf = Unit
All p (node c a v l r) = p v × All p l × All p r

abbrev pub Ordered : Rbtree → Type 0
Ordered leaf = Unit
Ordered (node c a v l r) = All (λ w. w < v) l × All (λ w. v < w) r × Ordered l × Ordered r

-- The tree has the node `a` with the value `x`.
abbrev pub Has : ℕ → ℕ → Rbtree → Type 0
Has a x leaf = ⊥
Has a x (node c b v l r) = ((b ≡ a) × (v ≡ x)) ⊎ (Has a x l ⊎ Has a x r)

pub All-weaken : {p q : ℕ → Type 0} (t : Rbtree) → ((w : ℕ) → p w → q w) → All p t → All q t
All-weaken leaf f h = tt
All-weaken (node c a v l r) f h = (f v h.0, All-weaken l f h.1, All-weaken r f h.2)

pub All-Has : (p : ℕ → Type 0) (a x : ℕ) (t : Rbtree) → All p t → Has a x t → p x
All-Has p a x leaf h k = absurd k
All-Has p a x (node c b v l r) h (inl e) = subst p e.1 h.0
All-Has p a x (node c b v l r) h (inr (inl k)) = All-Has p a x l h.1 k
All-Has p a x (node c b v l r) h (inr (inr k)) = All-Has p a x r h.2 k

search_exact-Has : (a x : ℕ) (t : Rbtree) → search_exact t x ≡ some a → Has a x t
unfolding search_exact
search_exact-Has a x leaf h = absurd (ground arith)
search_exact-Has a x (node c b v l r) h = elim (Bool-cases (v == x)) [
  | inl e ↦ inl (ground arith, ground arith)
  | inr e ↦ elim (Bool-cases (ltb v x)) [
    | inl k ↦ inr (inr (search_exact-Has a x r (ground arith)))
    | inr k ↦ inr (inl (search_exact-Has a x l (ground arith)))
  ]
]

Has-search_exact : (a x : ℕ) (t : Rbtree) → Ordered t → Has a x t → search_exact t x ≡ some a
unfolding search_exact
Has-search_exact a x leaf o h = absurd h
Has-search_exact a x (node c b v l r) o (inl e) = ground (arith, e)
Has-search_exact a x (node c b v l r) o (inr (inl k)) =
    let less = All-Has (λ w. w < v) a x l o.0 k in
    let found = Has-search_exact a x l o.2 k in ground (arith, less, found)
Has-search_exact a x (node c b v l r) o (inr (inr k)) =
    let more = All-Has (λ w. v < w) a x r o.1 k in
    let found = Has-search_exact a x r o.3 k in ground (arith, more, found)

-- In an ordered tree the exact search returns a node exactly when the tree has it with that value.
pub search_exact_iff : (a x : ℕ) (t : Rbtree) → Ordered t → (search_exact t x ≡ some a) ↔ Has a x t
search_exact_iff a x t o = (search_exact-Has a x t, Has-search_exact a x t o)

-- The node `a` with value `w` is one of the tree, `w` is at most `x`, and no value at most `x` is more.
abbrev pub IsFloor : ℕ → Rbtree → ℕ → ℕ → Type 0
IsFloor x t a w = Has a w t × (w ≤ x) × All (λ u. (u ≤ w) ⊎ (x < u)) t

abbrev pub IsCeiling : ℕ → Rbtree → ℕ → ℕ → Type 0
IsCeiling x t a w = Has a w t × (x ≤ w) × All (λ u. (w ≤ u) ⊎ (u < x)) t

-- Either the loop improves on `best` by the floor of its tree, or every value of the tree is too large.
abbrev FloorFrom : Option (ℕ × ℕ) → ℕ → Rbtree → Option (ℕ × ℕ) → Type 0
FloorFrom best x t r =
    ((a : ℕ) × (w : ℕ) × (r ≡ some (a, w)) × IsFloor x t a w) ⊎ ((r ≡ best) × All (λ u. x < u) t)

lte_loop-FloorFrom :
    (best : Option (ℕ × ℕ)) (x : ℕ) (t : Rbtree)
    → Ordered t
    → FloorFrom best x t (lte_loop best t x)
unfolding lte_loop
lte_loop-FloorFrom best x leaf o = inr (refl, tt)
lte_loop-FloorFrom best x (node c a v l r) o = elim (Bool-cases (ltb v x)) [
  | inl k ↦
      let lt = ltb→lt v x k in
      elim (lte_loop-FloorFrom (some (a, v)) x r o.3) [
        | inl (b, w, e, (h, le, m)) ↦
            let gt = All-Has (λ u. v < u) b w r o.1 h in
            inl (
              b,
              w,
              rw k e,
              (
                inr (inr h),
                le,
                (inl (omega arith), All-weaken l (λ u q. inl (omega arith)) o.0, m),
              ),
            )
        | inr (e, m) ↦ inl (
          a,
          v,
          rw k e,
          (
            inl (refl, refl),
            omega arith,
            (
              inl (omega arith),
              All-weaken l (λ u q. inl (omega arith)) o.0,
              All-weaken r (λ u q. inr q) m,
            ),
          ),
        )
      ]
  | inr k ↦ elim (Bool-cases (v == x)) [
    | inl s ↦
        let eq = eqb→eq v x s in
        inl (
          a,
          v,
          rw (k, s) refl,
          (
            inl (refl, refl),
            omega arith,
            (
              inl (omega arith),
              All-weaken l (λ u q. inl (omega arith)) o.0,
              All-weaken r (λ u q. inr (omega arith)) o.1,
            ),
          ),
        )
    | inr s ↦
        let gt : x < v = ground arith in
        elim (lte_loop-FloorFrom best x l o.2) [
          | inl (b, w, e, (h, le, m)) ↦ inl (
            b,
            w,
            rw (k, s) e,
            (inr (inl h), le, (inr gt, m, All-weaken r (λ u q. inr (omega arith)) o.1)),
          )
          | inr (e, m) ↦ inr (rw (k, s) e, (gt, m, All-weaken r (λ u q. omega arith) o.1))
        ]
  ]
]

-- In an ordered tree `rbtree_search_lte` returns the node with the largest value that is at most `x`,
-- or nothing where every value is larger.
pub search_lte-IsFloor :
    (x : ℕ) (t : Rbtree)
    → Ordered t
    → ((a : ℕ) × (w : ℕ) × (search_lte t x ≡ some (a, w)) × IsFloor x t a w)
      ⊎ ((search_lte t x ≡ none) × All (λ u. x < u) t)
unfolding search_lte
search_lte-IsFloor x t o = lte_loop-FloorFrom none x t o

abbrev CeilingFrom : Option (ℕ × ℕ) → ℕ → Rbtree → Option (ℕ × ℕ) → Type 0
CeilingFrom best x t r =
    ((a : ℕ) × (w : ℕ) × (r ≡ some (a, w)) × IsCeiling x t a w) ⊎ ((r ≡ best) × All (λ u. u < x) t)

gte_loop-CeilingFrom :
    (best : Option (ℕ × ℕ)) (x : ℕ) (t : Rbtree)
    → Ordered t
    → CeilingFrom best x t (gte_loop best t x)
unfolding gte_loop
gte_loop-CeilingFrom best x leaf o = inr (refl, tt)
gte_loop-CeilingFrom best x (node c a v l r) o = elim (Bool-cases (ltb v x)) [
  | inl k ↦
      let lt = ltb→lt v x k in
      elim (gte_loop-CeilingFrom best x r o.3) [
        | inl (b, w, e, (h, le, m)) ↦ inl (
          b,
          w,
          rw k e,
          (inr (inr h), le, (inr lt, All-weaken l (λ u q. inr (omega arith)) o.0, m)),
        )
        | inr (e, m) ↦ inr (rw k e, (lt, All-weaken l (λ u q. omega arith) o.0, m))
      ]
  | inr k ↦ elim (Bool-cases (v == x)) [
    | inl s ↦
        let eq = eqb→eq v x s in
        inl (
          a,
          v,
          rw (k, s) refl,
          (
            inl (refl, refl),
            omega arith,
            (
              inl (omega arith),
              All-weaken l (λ u q. inr (omega arith)) o.0,
              All-weaken r (λ u q. inl (omega arith)) o.1,
            ),
          ),
        )
    | inr s ↦
        let gt : x < v = ground arith in
        elim (gte_loop-CeilingFrom (some (a, v)) x l o.2) [
          | inl (b, w, e, (h, le, m)) ↦
              let lt = All-Has (λ u. u < v) b w l o.0 h in
              inl (
                b,
                w,
                rw (k, s) e,
                (
                  inr (inl h),
                  le,
                  (inl (omega arith), m, All-weaken r (λ u q. inl (omega arith)) o.1),
                ),
              )
          | inr (e, m) ↦ inl (
            a,
            v,
            rw (k, s) e,
            (
              inl (refl, refl),
              omega arith,
              (
                inl (omega arith),
                All-weaken l (λ u q. inr q) m,
                All-weaken r (λ u q. inl (omega arith)) o.1,
              ),
            ),
          )
        ]
  ]
]

-- In an ordered tree `rbtree_search_gte` returns the node with the smallest value that is at least
-- `x`, or nothing where every value is smaller.
pub search_gte-IsCeiling :
    (x : ℕ) (t : Rbtree)
    → Ordered t
    → ((a : ℕ) × (w : ℕ) × (search_gte t x ≡ some (a, w)) × IsCeiling x t a w)
      ⊎ ((search_gte t x ≡ none) × All (λ u. u < x) t)
unfolding search_gte
search_gte-IsCeiling x t o = gte_loop-CeilingFrom none x t o

-- ===== src/Rbtree/Order.antt =====
-- The nodes of a tree of src/rbtree.c in the order of their values, as a list.
use unstable_os.Base.{List, [], ap, arith, inl, inr, ℕ, ◌++◌, ◌<◌, ◌∷◌, ◌≡◌, ◌≤◌, ◌⊎◌}
use unstable_os.Rbtree.{Crumb, Rbtree, crumb, leaf, left, node, plug, right}
use unstable_os.Rbtree.Search.{All, Has, Ordered}

-- The addresses and values from left to right.
abbrev pub inorder : Rbtree → List (ℕ × ℕ)
inorder leaf = []
inorder (node c a v l r) = inorder l ++ ((a, v) ∷ inorder r)

abbrev pub Every : (ℕ → Type 0) → List (ℕ × ℕ) → Type 0
Every p [] = Unit
Every p (e ∷ l) = p e.1 × Every p l

abbrev pub Sorted : List (ℕ × ℕ) → Type 0
Sorted [] = Unit
Sorted (e ∷ l) = Every (λ w. e.1 < w) l × Sorted l

abbrev pub Lists : ℕ → ℕ → List (ℕ × ℕ) → Type 0
Lists a x [] = ⊥
Lists a x (e ∷ l) = ((e.0 ≡ a) × (e.1 ≡ x)) ⊎ Lists a x l

Every-append :
    (p : ℕ → Type 0) (xs ys : List (ℕ × ℕ)) → Every p xs → Every p ys → Every p (xs ++ ys)
Every-append p [] ys h k = k
Every-append p (x ∷ xs) ys h k = (h.0, Every-append p xs ys h.1 k)

append-Every :
    (p : ℕ → Type 0) (xs ys : List (ℕ × ℕ)) → Every p (xs ++ ys) → Every p xs × Every p ys
append-Every p [] ys h = (tt, h)
append-Every p (x ∷ xs) ys h = let r = append-Every p xs ys h.1 in ((h.0, r.0), r.1)

Every-weaken : {p q : ℕ → Type 0} (l : List (ℕ × ℕ)) → ((w : ℕ) → p w → q w) → Every p l → Every q l
Every-weaken [] f h = tt
Every-weaken (e ∷ l) f h = (f e.1 h.0, Every-weaken l f h.1)

All-Every : (p : ℕ → Type 0) (t : Rbtree) → All p t → Every p (inorder t)
All-Every p leaf h = tt
All-Every p (node c a v l r) h =
    Every-append p (inorder l) ((a, v) ∷ inorder r) (All-Every p l h.1) (h.0, All-Every p r h.2)

Every-All : (p : ℕ → Type 0) (t : Rbtree) → Every p (inorder t) → All p t
Every-All p leaf h = tt
Every-All p (node c a v l r) h =
    let s = append-Every p (inorder l) ((a, v) ∷ inorder r) h in
    (s.1.0, Every-All p l s.0, Every-All p r s.1.1)

Sorted-append :
    (xs ys : List (ℕ × ℕ)) (v : ℕ)
    → Every (λ w. w < v) xs
    → Every (λ w. v ≤ w) ys
    → Sorted xs
    → Sorted ys
    → Sorted (xs ++ ys)
Sorted-append [] ys v h k s u = u
Sorted-append (x ∷ xs) ys v h k s u = (
  Every-append (λ w. x.1 < w) xs ys s.0 (Every-weaken ys (λ w q. omega (arith, h.0, q)) k),
  Sorted-append xs ys v h.1 k s.1 u,
)

append-Sorted :
    (xs : List (ℕ × ℕ)) (e : ℕ × ℕ) (ys : List (ℕ × ℕ))
    → Sorted (xs ++ (e ∷ ys))
    → Every (λ w. w < e.1) xs × Sorted xs × Sorted ys
append-Sorted [] e ys h = (tt, tt, h.1)
append-Sorted (x ∷ xs) e ys h =
    let r = append-Sorted xs e ys h.1 in
    let s = append-Every (λ w. x.1 < w) xs (e ∷ ys) h.0 in ((s.1.0, r.0), (s.0, r.1), r.2)

append-Sorted_tail :
    (xs : List (ℕ × ℕ)) (e : ℕ × ℕ) (ys : List (ℕ × ℕ))
    → Sorted (xs ++ (e ∷ ys))
    → Every (λ w. e.1 < w) ys
append-Sorted_tail [] e ys h = h.0
append-Sorted_tail (x ∷ xs) e ys h = append-Sorted_tail xs e ys h.1

pub Ordered-Sorted : (t : Rbtree) → Ordered t → Sorted (inorder t)
Ordered-Sorted leaf o = tt
Ordered-Sorted (node c a v l r) o =
    Sorted-append (inorder l) ((a, v) ∷ inorder r) v (All-Every (λ w. w < v) l o.0)
      (
        omega arith,
        Every-weaken (inorder r) (λ w q. omega (arith, q)) (All-Every (λ w. v < w) r o.1),
      )
      (Ordered-Sorted l o.2) (All-Every (λ w. v < w) r o.1, Ordered-Sorted r o.3)

pub Sorted-Ordered : (t : Rbtree) → Sorted (inorder t) → Ordered t
Sorted-Ordered leaf s = tt
Sorted-Ordered (node c a v l r) s =
    let p = append-Sorted (inorder l) (a, v) (inorder r) s in
    (
      Every-All (λ w. w < v) l p.0,
      Every-All (λ w. v < w) r (append-Sorted_tail (inorder l) (a, v) (inorder r) s),
      Sorted-Ordered l p.1,
      Sorted-Ordered r p.2,
    )

Lists-left : (a x : ℕ) (xs ys : List (ℕ × ℕ)) → Lists a x xs → Lists a x (xs ++ ys)
Lists-left a x [] ys h = absurd h
Lists-left a x (e ∷ xs) ys (inl h) = inl h
Lists-left a x (e ∷ xs) ys (inr h) = inr (Lists-left a x xs ys h)

Lists-right : (a x : ℕ) (xs ys : List (ℕ × ℕ)) → Lists a x ys → Lists a x (xs ++ ys)
Lists-right a x [] ys h = h
Lists-right a x (e ∷ xs) ys h = inr (Lists-right a x xs ys h)

Lists-append : (a x : ℕ) (xs ys : List (ℕ × ℕ)) → Lists a x (xs ++ ys) → Lists a x xs ⊎ Lists a x ys
Lists-append a x [] ys h = inr h
Lists-append a x (e ∷ xs) ys (inl h) = inl (inl h)
Lists-append a x (e ∷ xs) ys (inr h) = elim (Lists-append a x xs ys h) [
  | inl k ↦ inl (inr k)
  | inr k ↦ inr k
]

pub Has-Lists : (a x : ℕ) (t : Rbtree) → Has a x t → Lists a x (inorder t)
Has-Lists a x leaf h = absurd h
Has-Lists a x (node c b v l r) (inl h) = Lists-right a x (inorder l) ((b, v) ∷ inorder r) (inl h)
Has-Lists a x (node c b v l r) (inr (inl h)) =
    Lists-left a x (inorder l) ((b, v) ∷ inorder r) (Has-Lists a x l h)
Has-Lists a x (node c b v l r) (inr (inr h)) =
    Lists-right a x (inorder l) ((b, v) ∷ inorder r) (inr (Has-Lists a x r h))

pub Lists-Has : (a x : ℕ) (t : Rbtree) → Lists a x (inorder t) → Has a x t
Lists-Has a x leaf h = absurd h
Lists-Has a x (node c b v l r) h = elim (Lists-append a x (inorder l) ((b, v) ∷ inorder r) h) [
  | inl k ↦ inr (inl (Lists-Has a x l k))
  | inr (inl k) ↦ inl k
  | inr (inr k) ↦ inr (inr (Lists-Has a x r k))
]

-- Trees with the same nodes in the same order are the same in any place.
pub inorder-plug :
    (path : List Crumb) (t u : Rbtree)
    → inorder t ≡ inorder u
    → inorder (plug t path) ≡ inorder (plug u path)
inorder-plug [] t u e = e
inorder-plug (crumb left c a v s ∷ path) t u e =
    inorder-plug path (node c a v t s) (node c a v u s) (ap (λ l. l ++ ((a, v) ∷ inorder s)) e)
inorder-plug (crumb right c a v s ∷ path) t u e =
    inorder-plug path (node c a v s t) (node c a v s u) (ap (λ l. inorder s ++ ((a, v) ∷ l)) e)

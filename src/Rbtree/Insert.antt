-- ===== src/Rbtree/Insert.antt =====
-- Adding a node with the rotations of rbtree_add of src/rbtree.c, against the insertion without them.
use unstable_os.Base.{
  Bool-cases, List, [], ap, arith, if◌then◌else◌, inl, inr, ltb, ltb→lt, none, refl, some, sym, ℕ,
  ◌++◌, ◌<◌, ◌==◌, ◌↔◌, ◌∙◌, ◌∷◌, ◌≡◌, ◌⊎◌,
}
use unstable_os.Rbtree.{
  Color, Crumb, Rbtree, Side, add, add_below, black, crumb, is_black, leaf, left, node, other,
  outside, paint, plug, recolor, red, right, rotate, search_exact, settle, solve, up,
}
use unstable_os.Rbtree.Search.{All, Has, Ordered, search_exact_iff}
use unstable_os.Rbtree.Order.{
  Has-Lists, Lists, Lists-Has, Ordered-Sorted, Sorted, Sorted-Ordered, inorder, inorder-plug,
}
use mathlib.Core.List.{append_assoc}
use mathlib.Core.Path.{subst}

-- The insertion into a search tree.
pub insert : ℕ → ℕ → Rbtree → Rbtree
insert a v leaf = node red a v leaf leaf
insert a v (node c b w l r) =
    let on_right = insert a v r in
    let on_left = insert a v l in if ltb w v then node c b w l on_right else node c b w on_left r

inorder-paint : (c : Color) (t : Rbtree) → inorder (paint c t) ≡ inorder t
inorder-paint c leaf = refl
inorder-paint c (node d a v l r) = refl

inorder-rotate : (i : Side) (t : Rbtree) → inorder (rotate i t) ≡ inorder t
unfolding rotate
inorder-rotate left leaf = refl
inorder-rotate left (node c a v l leaf) = refl
inorder-rotate left (node c a v l (node d b w m r)) =
    append_assoc (inorder l) ((a, v) ∷ inorder m) ((b, w) ∷ inorder r)
inorder-rotate right leaf = refl
inorder-rotate right (node c a v leaf r) = refl
inorder-rotate right (node c a v (node d b w l m) r) =
    sym (append_assoc (inorder l) ((b, w) ∷ inorder m) ((a, v) ∷ inorder r))

inorder-recolor : (i : Side) (t : Rbtree) → inorder (recolor i t) ≡ inorder t
inorder-recolor left leaf = refl
inorder-recolor right (node c a v l r) = ap (λ l'. inorder l ++ ((a, v) ∷ l')) (inorder-paint red r)
inorder-recolor right leaf = refl
inorder-recolor left (node c a v l r) = ap (λ l'. l' ++ ((a, v) ∷ inorder r)) (inorder-paint red l)

inorder-up :
    (k : Crumb) (t u : Rbtree) → inorder t ≡ inorder u → inorder (up k t) ≡ inorder (up k u)
inorder-up k t u e = inorder-plug (k ∷ []) t u e

inorder-outside : (i : Side) (k : Crumb) (t : Rbtree) → inorder (outside i k t) ≡ inorder (up k t)
inorder-outside left (crumb left c a v s) t = refl
inorder-outside left (crumb right c a v s) t = inorder-rotate left (node c a v s t)
inorder-outside right (crumb left c a v s) t = inorder-rotate right (node c a v t s)
inorder-outside right (crumb right c a v s) t = refl

inorder-settle : (p g : Crumb) (t : Rbtree) → inorder (settle p g t) ≡ inorder (up g (up p t))
inorder-settle p (crumb j c b w u) t =
    inorder-recolor (other j) (rotate (other j) (up (crumb j c b w u) (outside j p t)))
    ∙ inorder-rotate (other j) (up (crumb j c b w u) (outside j p t))
    ∙ inorder-up (crumb j c b w u) (outside j p t) (up p t) (inorder-outside j p t)

inorder-raised :
    (i j : Side) (a v b w : ℕ) (c : Color) (s u t : Rbtree)
    → inorder (up (crumb j red b w (paint black u)) (up (crumb i black a v s) t))
      ≡ inorder (up (crumb j c b w u) (up (crumb i red a v s) t))
inorder-raised left left a v b w c s u t = rw (inorder-paint black u) refl
inorder-raised left right a v b w c s u t = rw (inorder-paint black u) refl
inorder-raised right left a v b w c s u t = rw (inorder-paint black u) refl
inorder-raised right right a v b w c s u t = rw (inorder-paint black u) refl

-- The rotations and colors change nothing in the order of the nodes.
inorder-solve : (t : Rbtree) (path : List Crumb) → inorder (solve t path) ≡ inorder (plug t path)
unfolding solve
inorder-solve t [] = inorder-paint black t
inorder-solve t (p ∷ []) = inorder-paint black (up p t)
inorder-solve t (crumb i black a v s ∷ (k ∷ path)) = refl
inorder-solve t (crumb i red a v s ∷ (crumb j c b w u ∷ path)) = elim (Bool-cases (is_black u)) [
  | inl e ↦
      let g = crumb j c b w u in
      let p = crumb i red a v s in
      rw e (inorder-plug path (settle p g t) (up g (up p t)) (inorder-settle p g t))
  | inr e ↦
      let t' = up (crumb j red b w (paint black u)) (up (crumb i black a v s) t) in
      rw e (
        inorder-solve t' path
        ∙ inorder-plug path t' (up (crumb j c b w u) (up (crumb i red a v s) t))
            (inorder-raised i j a v b w c s u t))
]

inorder-add_below :
    (a v : ℕ) (t : Rbtree) (path : List Crumb)
    → inorder (add_below a v t path) ≡ inorder (plug (insert a v t) path)
unfolding add_below insert
inorder-add_below a v leaf path = inorder-solve (node red a v leaf leaf) path
inorder-add_below a v (node c b w l r) path = elim (Bool-cases (ltb w v)) [
  | inl e ↦ rw e (inorder-add_below a v r (crumb right c b w l ∷ path))
  | inr e ↦ rw e (inorder-add_below a v l (crumb left c b w r ∷ path))
]

-- `rbtree_add` leaves the nodes in the order in which the insertion without rotations leaves them, for
-- any tree.
pub inorder-add : (a v : ℕ) (t : Rbtree) → inorder (add a v t) ≡ inorder (insert a v t)
unfolding add
inorder-add a v leaf = unfold insert in refl
inorder-add a v (node c b w l r) = inorder-add_below a v (node c b w l r) []

All-insert : (p : ℕ → Type 0) (a v : ℕ) (t : Rbtree) → p v → All p t → All p (insert a v t)
unfolding insert
All-insert p a v leaf h k = (h, tt, tt)
All-insert p a v (node c b w l r) h k = elim (Bool-cases (ltb w v)) [
  | inl e ↦ rw e (k.0, k.1, All-insert p a v r h k.2)
  | inr e ↦ rw e (k.0, All-insert p a v l h k.1, k.2)
]

insert-Ordered :
    (a v : ℕ) (t : Rbtree) → Ordered t → search_exact t v ≡ none → Ordered (insert a v t)
unfolding insert search_exact
insert-Ordered a v leaf o h = (tt, tt, tt, tt)
insert-Ordered a v (node c b w l r) o h = elim (Bool-cases (w == v)) [
  | inl q ↦ absurd (ground arith)
  | inr q ↦ elim (Bool-cases (ltb w v)) [
    | inl e ↦
        let k : search_exact r v ≡ none = ground arith in
        rw e
          (o.0, All-insert (λ x. w < x) a v r (ltb→lt w v e) o.1, o.2, insert-Ordered a v r o.3 k)
    | inr e ↦
        let k : search_exact l v ≡ none = ground arith in
        let below : v < w = ground arith in
        rw e (All-insert (λ x. x < w) a v l below o.0, o.1, insert-Ordered a v l o.2 k, o.3)
  ]
]

insert-Has : (b x a v : ℕ) (t : Rbtree) → Has b x (insert a v t) → ((a ≡ b) × (v ≡ x)) ⊎ Has b x t
unfolding insert
insert-Has b x a v leaf (inl h) = inl h
insert-Has b x a v leaf (inr (inl h)) = absurd h
insert-Has b x a v leaf (inr (inr h)) = absurd h
insert-Has b x a v (node c d w l r) h = elim (Bool-cases (ltb w v)) [
  | inl e ↦ elim (rw e at h) [
    | inl k ↦ inr (inl k)
    | inr (inl k) ↦ inr (inr (inl k))
    | inr (inr k) ↦ elim (insert-Has b x a v r k) [ inl q ↦ inl q | inr q ↦ inr (inr (inr q)) ]
  ]
  | inr e ↦ elim (rw e at h) [
    | inl k ↦ inr (inl k)
    | inr (inl k) ↦ elim (insert-Has b x a v l k) [ inl q ↦ inl q | inr q ↦ inr (inr (inl q)) ]
    | inr (inr k) ↦ inr (inr (inr k))
  ]
]

Has-insert : (b x a v : ℕ) (t : Rbtree) → ((a ≡ b) × (v ≡ x)) ⊎ Has b x t → Has b x (insert a v t)
unfolding insert
Has-insert b x a v leaf (inl h) = inl h
Has-insert b x a v leaf (inr h) = absurd h
Has-insert b x a v (node c d w l r) h = elim (Bool-cases (ltb w v)) [
  | inl e ↦ rw e (elim h [
    | inl k ↦ inr (inr (Has-insert b x a v r (inl k)))
    | inr (inl k) ↦ inl k
    | inr (inr (inl k)) ↦ inr (inl k)
    | inr (inr (inr k)) ↦ inr (inr (Has-insert b x a v r (inr k)))
  ])
  | inr e ↦ rw e (elim h [
    | inl k ↦ inr (inl (Has-insert b x a v l (inl k)))
    | inr (inl k) ↦ inl k
    | inr (inr (inl k)) ↦ inr (inl (Has-insert b x a v l (inr k)))
    | inr (inr (inr k)) ↦ inr (inr k)
  ])
]

-- Adding a node with a new value to an ordered tree leaves it ordered.
pub add-Ordered : (a v : ℕ) (t : Rbtree) → Ordered t → search_exact t v ≡ none → Ordered (add a v t)
add-Ordered a v t o h = Sorted-Ordered (add a v t) (
    subst (λ l. Sorted l) (sym (inorder-add a v t))
      (Ordered-Sorted (insert a v t) (insert-Ordered a v t o h)))

add-Has : (b x a v : ℕ) (t : Rbtree) → Has b x (add a v t) ↔ (((a ≡ b) × (v ≡ x)) ⊎ Has b x t)
add-Has b x a v t =
    let e = inorder-add a v t in
    (
      λ h.
          insert-Has b x a v t (
            Lists-Has b x (insert a v t)
              (subst (λ l. Lists b x l) e (Has-Lists b x (add a v t) h))),
      λ h. Lists-Has b x (add a v t) (
          subst (λ l. Lists b x l) (sym e) (Has-Lists b x (insert a v t) (Has-insert b x a v t h))),
    )

-- Adding a node with a value that an ordered tree does not have leaves it ordered. The searches then
-- find that node for its value, and for any other value the node that they found before.
pub search_exact-add :
    (a v : ℕ) (t : Rbtree)
    → Ordered t
    → search_exact t v ≡ none
    → Ordered (add a v t)
      × ((b x : ℕ)
          → (search_exact (add a v t) x ≡ some b)
            ↔ (((a ≡ b) × (v ≡ x)) ⊎ (search_exact t x ≡ some b)))
search_exact-add a v t o h =
    let o' = add-Ordered a v t o h in
    (
      o',
      λ b x.
          let was = search_exact_iff b x t o in
          let is = search_exact_iff b x (add a v t) o' in
          let both = add-Has b x a v t in
          (
            λ k. elim (both.0 (is.0 k)) [ inl q ↦ inl q | inr q ↦ inr (was.1 q) ],
            λ k. is.1 (both.1 (elim k [ inl q ↦ inl q | inr q ↦ inr (was.0 q) ])),
          ),
    )

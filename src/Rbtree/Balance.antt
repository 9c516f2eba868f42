-- ===== src/Rbtree/Balance.antt =====
-- The colors that rbtree_add of src/rbtree.c keeps: no red node has a red child, and every way down
-- passes as many black nodes.
use Prim.Native.Nat.{max}
use unstable_os.Base.{
  Bool-cases, List, [], arith, inl, inr, ltb, ltb_false→le, ltb→lt, suc, zero, ℕ, ◌*◌, ◌+◌, ◌<◌,
  ◌^◌, ◌∷◌, ◌≤◌,
}
use unstable_os.Rbtree.{
  Color, Crumb, Rbtree, Side, add, add_below, black, crumb, leaf, left, node, paint, plug, red,
  right, rotate, settle, solve, up,
}

-- A tree whose root has the color, with `n` black nodes on every way down. A leaf counts as black.
pub data Balanced : Rbtree → Color → ℕ → Type 0 where
  no_node : Balanced leaf black 0
  red_node :
      {a v n : ℕ} {l r : Rbtree}
      → Balanced l black n
      → Balanced r black n
      → Balanced (node red a v l r) red n
  black_node :
      {a v n : ℕ} {l r : Rbtree} {c d : Color}
      → Balanced l c n
      → Balanced r d n
      → Balanced (node black a v l r) black (suc n)

-- A path from a place with `n` black nodes on every way down, below a node of the color, up to a black
-- root.
pub data Climb : List Crumb → Color → ℕ → Type 0 where
  at_root : {n : ℕ} → Climb [] black n
  below_red :
      {i : Side} {a v n : ℕ} {s : Rbtree} {k : Crumb} {path : List Crumb}
      → Balanced s black n
      → Climb (k ∷ path) black n
      → Climb (crumb i red a v s ∷ (k ∷ path)) red n
  below_black :
      {i : Side} {a v n : ℕ} {s : Rbtree} {c d : Color} {path : List Crumb}
      → Balanced s c n
      → Climb path d (suc n)
      → Climb (crumb i black a v s ∷ path) black n

abbrev pub IsBalanced : Rbtree → Type 0
IsBalanced t = (n : ℕ) × Balanced t black n

up_black :
    {c d : Color} {n : ℕ} {s t : Rbtree} (i : Side) (a v : ℕ)
    → Balanced t c n
    → Balanced s d n
    → Balanced (up (crumb i black a v s) t) black (suc n)
up_black left a v ht hs = black_node ht hs
up_black right a v ht hs = black_node hs ht

up_red :
    {n : ℕ} {s t : Rbtree} (i : Side) (a v : ℕ)
    → Balanced t black n
    → Balanced s black n
    → Balanced (up (crumb i red a v s) t) red n
up_red left a v ht hs = red_node ht hs
up_red right a v ht hs = red_node hs ht

-- A black tree fits anywhere, a red one where the node above is black.
plug_black :
    {d : Color} {n : ℕ} (path : List Crumb) (t : Rbtree)
    → Balanced t black n
    → Climb path d n
    → IsBalanced (plug t path)
plug_black _ t h at_root = (_, h)
plug_black _ t h (below_red {i} {a} {v} hs (below_black {i = j} {a = b} {v = w} {path} hu p)) =
    plug_black path _ (up_black j b w (up_red i a v h hs) hu) p
plug_black _ t h (below_black {i} {a} {v} {path} hs p) = plug_black path _ (up_black i a v h hs) p

paint_black :
    {c : Color} {n : ℕ} (t : Rbtree) → Balanced t c n → (m : ℕ) × Balanced (paint black t) black m
paint_black _ no_node = (0, no_node)
paint_black _ (red_node hl hr) = (_, black_node hl hr)
paint_black _ (black_node hl hr) = (_, black_node hl hr)

-- The uncle is black: the two rotations and the colors make a black tree of the grandparent's height.
settle_lem :
    {n : ℕ} {s t u : Rbtree} (i j : Side) (a v b w : ℕ)
    → Balanced t red n
    → Balanced s black n
    → Balanced u black n
    → Balanced (settle (crumb i red a v s) (crumb j black b w u) t) black (suc n)
unfolding rotate
settle_lem left left a v b w ht hs hu = black_node ht (red_node hs hu)
settle_lem left right a v b w (red_node hl hr) hs hu = black_node (red_node hu hl) (red_node hr hs)
settle_lem right left a v b w (red_node hl hr) hs hu = black_node (red_node hs hl) (red_node hr hu)
settle_lem right right a v b w ht hs hu = black_node (red_node hu hs) ht

raised_lem :
    {n : ℕ} {s t u : Rbtree} (i j : Side) (a v b w : ℕ)
    → Balanced t red n
    → Balanced s black n
    → Balanced u red n
    → Balanced (up (crumb j red b w (paint black u)) (up (crumb i black a v s) t)) red (suc n)
raised_lem i j a v b w ht hs (red_node hl hr) =
    up_red j b w (up_black i a v ht hs) (black_node hl hr)

solve_lem :
    {d : Color} {n : ℕ} (t : Rbtree) (path : List Crumb)
    → Balanced t red n
    → Climb path d n
    → IsBalanced (solve t path)
unfolding solve
solve_lem t _ h at_root = paint_black t h
solve_lem t _ h (below_black {i} {a} {v} hs at_root) = paint_black _ (up_black i a v h hs)
solve_lem t _ h (below_black {i} {a} {v} hs (below_red hk p)) =
    plug_black _ _ (up_black i a v h hs) (below_red hk p)
solve_lem t _ h (below_black {i} {a} {v} hs (below_black hk p)) =
    plug_black _ _ (up_black i a v h hs) (below_black hk p)
solve_lem t _ h (below_red {i} {a} {v} hs (below_black {i = j} {a = b} {v = w} {path} no_node p)) =
    plug_black path _ (settle_lem i j a v b w h hs no_node) p
solve_lem t _ h
      (below_red {i} {a} {v} hs (below_black {i = j} {a = b} {v = w} {path} (black_node hl hr) p)) =
    plug_black path _ (settle_lem i j a v b w h hs (black_node hl hr)) p
solve_lem t _ h
      (below_red {i} {a} {v} hs (below_black {i = j} {a = b} {v = w} {path} (red_node hl hr) p)) =
    solve_lem _ path (raised_lem i j a v b w h hs (red_node hl hr)) p

-- A tree with a root of the color fits at the end of the path.
data Room : Color → List Crumb → Color → ℕ → Type 0 where
  for_black : {path : List Crumb} {d : Color} {n : ℕ} → Climb path d n → Room black path d n
  for_any :
      {c : Color} {k : Crumb} {path : List Crumb} {n : ℕ}
      → Climb (k ∷ path) black n
      → Room c (k ∷ path) black n

Room-Climb : {c d : Color} {path : List Crumb} {n : ℕ} → Room c path d n → Climb path d n
Room-Climb (for_black p) = p
Room-Climb (for_any p) = p

add_below_lem :
    {c d : Color} {n : ℕ} (a v : ℕ) (t : Rbtree) (path : List Crumb)
    → Balanced t c n
    → Room c path d n
    → IsBalanced (add_below a v t path)
unfolding add_below
add_below_lem a v _ path no_node p =
    solve_lem (node red a v leaf leaf) path (red_node no_node no_node) (Room-Climb p)
add_below_lem a v _ path (black_node {a = b} {v = w} {l} {r} hl hr) p =
    elim (Bool-cases (ltb w v)) [
      | inl e ↦ rw e (
          add_below_lem a v r (crumb right black b w l ∷ path) hr
            (for_any (below_black hl (Room-Climb p))))
      | inr e ↦ rw e (
          add_below_lem a v l (crumb left black b w r ∷ path) hl
            (for_any (below_black hr (Room-Climb p))))
    ]
add_below_lem a v _ _ (red_node {a = b} {v = w} {l} {r} hl hr) (for_any {k} {path} p) =
    elim (Bool-cases (ltb w v)) [
      | inl e ↦
          rw e (
            add_below_lem a v r (crumb right red b w l ∷ (k ∷ path)) hr
              (for_black (below_red hl p)))
      | inr e ↦
          rw e (
            add_below_lem a v l (crumb left red b w r ∷ (k ∷ path)) hl (for_black (below_red hr p)))
    ]

-- Adding a node to a tree with a black root, in which no red node has a red child and every way down
-- passes as many black nodes, leaves such a tree.
pub add-IsBalanced : (a v : ℕ) (t : Rbtree) → IsBalanced t → IsBalanced (add a v t)
unfolding add
add-IsBalanced a v leaf h = (1, black_node no_node no_node)
add-IsBalanced a v (node c b w l r) (n, h) =
    add_below_lem a v (node c b w l r) [] h (for_black at_root)

-- The nodes on the longest way down.
abbrev pub height : Rbtree → ℕ
height leaf = 0
height (node c a v l r) = suc (max (height l) (height r))

abbrev pub count : Rbtree → ℕ
count leaf = 0
count (node c a v l r) = suc (count l + count r)

abbrev redness : Color → ℕ
redness red = 1
redness black = 0

height_lem : {c : Color} {n : ℕ} (t : Rbtree) → Balanced t c n → height t ≤ 2 * n + redness c
height_lem _ no_node = omega arith
height_lem _ (red_node {l} {r} hl hr) = omega (arith, height_lem l hl, height_lem r hr)
height_lem _ (black_node {l} {r} {c} {d} hl hr) = ground (arith, height_lem l hl, height_lem r hr)

count_lem : {c : Color} {n : ℕ} (t : Rbtree) → Balanced t c n → 2 ^ n ≤ count t + 1
count_lem _ no_node = omega arith
count_lem _ (red_node {l} {r} hl hr) = omega (arith, count_lem l hl, count_lem r hr)
count_lem _ (black_node {l} {r} hl hr) = omega (arith, count_lem l hl, count_lem r hr)

pow_le : (k n : ℕ) → k ≤ n → 2 ^ k ≤ 2 ^ n
pow_le zero zero h = omega arith
pow_le zero (suc n) h = omega (arith, pow_le zero n (omega arith))
pow_le (suc k) zero h = absurd (omega arith)
pow_le (suc k) (suc n) h = omega (arith, pow_le k n (omega arith))

-- In a tree as above with fewer than `2 ^ k - 1` nodes, every way down has fewer than `2 * k`.
pub height-IsBalanced : (t : Rbtree) (k : ℕ) → IsBalanced t → count t + 1 < 2 ^ k → height t < 2 * k
height-IsBalanced t k (n, h) few = elim (Bool-cases (ltb n k)) [
  | inl e ↦ omega (arith, height_lem t h, ltb→lt n k e)
  | inr e ↦ absurd (omega (arith, count_lem t h, pow_le k n (ltb_false→le n k e)))
]

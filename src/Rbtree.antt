-- ===== src/Rbtree.antt =====
-- The search tree of src/rbtree.c, as the tree that its pointers span. A node stands for the struct
-- that it is embedded in, named by its address; the parent pointers follow from the shape.
pub mod Search
pub mod Order
pub mod Insert
pub mod Balance
mod Tests
use unstable_os.Base.{
  Bool, List, Option, [], false, if◌then◌else◌, ltb, none, some, true, ℕ, ◌==◌, ◌∷◌,
}

pub data Color : Type 0 where
  red black : Color

-- Color, address, `val`, `nodes[0]` and `nodes[1]`.
pub data Rbtree : Type 0 where
  leaf : Rbtree
  node : Color → ℕ → ℕ → Rbtree → Rbtree → Rbtree

unfoldable pub search_exact : Rbtree → ℕ → Option ℕ
search_exact leaf x = none
search_exact (node c a v l r) x =
    let left = search_exact l x in
    let right = search_exact r x in if v == x then some a else if ltb v x then right else left

-- The loops of `rbtree_search_lte` and `rbtree_search_gte`, with the `best` node so far and its `val`.
pub lte_loop : Option (ℕ × ℕ) → Rbtree → ℕ → Option (ℕ × ℕ)
lte_loop best leaf x = best
lte_loop best (node c a v l r) x =
    let right = lte_loop (some (a, v)) r x in
    let left = lte_loop best l x in if ltb v x then right else if v == x then some (a, v) else left

pub search_lte : Rbtree → ℕ → Option (ℕ × ℕ)
unfolding lte_loop
search_lte t x = lte_loop none t x

pub gte_loop : Option (ℕ × ℕ) → Rbtree → ℕ → Option (ℕ × ℕ)
gte_loop best leaf x = best
gte_loop best (node c a v l r) x =
    let right = gte_loop best r x in
    let left = gte_loop (some (a, v)) l x in
    if ltb v x then right else if v == x then some (a, v) else left

pub search_gte : Rbtree → ℕ → Option (ℕ × ℕ)
unfolding gte_loop
search_gte t x = gte_loop none t x

-- The index of a child in `nodes`.
pub data Side : Type 0 where
  left right : Side

abbrev pub other : Side → Side
other left = right
other right = left

-- A step down from a node to its child on the side: the color, the address and the `val` of the node,
-- and its other child. A path leads from a node up to the root.
pub data Crumb : Type 0 where
  crumb : Side → Color → ℕ → ℕ → Rbtree → Crumb

abbrev pub up : Crumb → Rbtree → Rbtree
up (crumb left c a v s) t = node c a v t s
up (crumb right c a v s) t = node c a v s t

abbrev pub plug : Rbtree → List Crumb → Rbtree
plug t [] = t
plug t (k ∷ path) = plug (up k t) path

abbrev pub is_black : Rbtree → Bool
is_black (node red a v l r) = false
is_black t = true

abbrev pub paint : Color → Rbtree → Rbtree
paint c leaf = leaf
paint c (node d a v l r) = node c a v l r

-- `bstree_rotate`: the child on the other side takes the place of the node.
unfoldable pub rotate : Side → Rbtree → Rbtree
rotate left (node c a v l (node d b w m r)) = node d b w (node c a v l m) r
rotate right (node c a v (node d b w l m) r) = node d b w l (node c a v m r)
rotate side t = t

-- The parent `p` on the side `i` of the grandparent whose sibling is black: `node` is moved to the
-- outside, the parent takes the place of the grandparent, and the two swap colors.
abbrev pub outside : Side → Crumb → Rbtree → Rbtree
outside left (crumb right c a v s) t = rotate left (node c a v s t)
outside right (crumb left c a v s) t = rotate right (node c a v t s)
outside i k t = up k t

-- `prev->parent &= ~1; gp->parent |= 1`, where `prev` is on top and `gp` its child on the side.
abbrev pub recolor : Side → Rbtree → Rbtree
recolor side leaf = leaf
recolor left (node c a v l r) = node black a v (paint red l) r
recolor right (node c a v l r) = node black a v l (paint red r)

abbrev pub settle : Crumb → Crumb → Rbtree → Rbtree
settle p (crumb j c b w u) t =
    recolor (other j) (rotate (other j) (up (crumb j c b w u) (outside j p t)))

-- The loop that `rbtree_add` ends with, for a red node on its path.
unfoldable pub solve : Rbtree → List Crumb → Rbtree
solve t [] = paint black t
solve t (p ∷ []) = paint black (up p t)
solve t (crumb i black a v s ∷ path) = plug (up (crumb i black a v s) t) path
solve t (crumb i red a v s ∷ crumb j c b w u ∷ path) =
    let higher = solve (up (crumb j red b w (paint black u)) (up (crumb i black a v s) t)) path in
    if is_black u then plug (settle (crumb i red a v s) (crumb j c b w u) t) path else higher

-- The descent to the place of the new node, and the loop from there.
unfoldable pub add_below : ℕ → ℕ → Rbtree → List Crumb → Rbtree
unfolding solve
add_below a v leaf path = solve (node red a v leaf leaf) path
add_below a v (node c b w l r) path =
    let on_right = add_below a v r (crumb right c b w l ∷ path) in
    let on_left = add_below a v l (crumb left c b w r ∷ path) in
    if ltb w v then on_right else on_left

-- `rbtree_add` of a node with the address `a` and the value `v`.
unfoldable pub add : ℕ → ℕ → Rbtree → Rbtree
unfolding add_below
add a v leaf = node black a v leaf leaf
add a v (node c b w l r) = add_below a v (node c b w l r) []

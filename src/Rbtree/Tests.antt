-- ===== src/Rbtree/Tests.antt =====
-- The searches and the addition on trees of four nodes.
use unstable_os.Base.{arith, refl, some, ℕ, ◌↔◌, ◌≡◌, ◌⊎◌}
use unstable_os.Rbtree.{Rbtree, add, black, leaf, node, red, search_exact}
use unstable_os.Rbtree.Search.{Ordered}
use unstable_os.Rbtree.Insert.{search_exact-add}
use unstable_os.Rbtree.Balance.{IsBalanced, add-IsBalanced, black_node, no_node, red_node}

abbrev small : Rbtree
small =
    node black 101 20 (node red 102 10 leaf leaf)
      (node black 103 30 leaf (node red 104 40 leaf leaf))

small-Ordered : Ordered small
small-Ordered = (
  (omega arith, tt, tt),
  (omega arith, tt, (omega arith, tt, tt)),
  (tt, tt, tt, tt),
  (tt, (omega arith, tt, tt), tt, (tt, tt, tt, tt)),
)

-- Two red nodes below a black root.
abbrev level : Rbtree
level = node black 201 20 (node red 202 10 leaf leaf) (node red 203 30 leaf leaf)

search_exact-add_example :
    Ordered (add 105 50 small)
    × ((b x : ℕ)
        → (search_exact (add 105 50 small) x ≡ some b)
          ↔ (((105 ≡ b) × (50 ≡ x)) ⊎ (search_exact small x ≡ some b)))
unfolding search_exact
search_exact-add_example = search_exact-add 105 50 small small-Ordered refl

level-IsBalanced : IsBalanced level
level-IsBalanced = (1, black_node (red_node no_node no_node) (red_node no_node no_node))

add-IsBalanced_example : IsBalanced (add 204 40 level)
add-IsBalanced_example = add-IsBalanced 204 40 level level-IsBalanced

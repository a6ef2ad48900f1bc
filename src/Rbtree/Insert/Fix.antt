-- ===== src/Rbtree/Insert/Fix.antt =====
-- What `insert_color` does to the represented tree: the walk up from a red node.
use fping.Base.{ℕ, suc, true, false}
use fping.Rbtree.{Ptr, Side}
use fping.Rbtree.Shape.{
  Color, red, black, Tree, leaf, node, join, Ctx, top, frame, plug, is_red_tree, paint,
}

-- The new subtree where the uncle `u` is black: `p` is on side `s` of `g`, `t` on side `s'` of `p`.
unfoldable pub lift : Side → Side → Tree → Ptr → Tree → Ptr → Tree → Tree
lift Side.left Side.left t p y g u = node black t p (node red y g u)
lift Side.left Side.right (node c l n r) p y g u = node black (node red y p l) n (node red r g u)
lift Side.right Side.left (node c l n r) p y g u = node black (node red u g l) n (node red r p y)
lift Side.right Side.right t p y g u = node black (node red u g y) p t
lift Side.left Side.right leaf p y g u = leaf
lift Side.right Side.left leaf p y g u = leaf

unfoldable pub fix : Tree → Ctx → Tree
unfolding lift
fix t top = t
fix t (frame s black p y up) = plug (frame s black p y up) t
fix t (frame s red p y top) = join s red t p y
fix t (frame s' red p y (frame s c g u up)) = elim (is_red_tree u) [
  | true ↦ fix (join s red (join s' black t p y) g (paint black u)) up
  | false ↦ plug up (lift s s' t p y g u)
]

abbrev pub depth : Ctx → ℕ
depth top = 0
depth (frame s c a y up) = suc (depth up)

-- the root of the tree is not red
abbrev pub IsRooted : Ctx → Type 0
IsRooted top = Unit {0}
IsRooted (frame s red a y top) = ⊥
IsRooted (frame s black a y top) = Unit {0}
IsRooted (frame s c a y (frame s' c' a' y' up)) = IsRooted (frame s' c' a' y' up)

pub IsRooted-up :
    (s : Side) (c : Color) (a : Ptr) (y : Tree) (up : Ctx)
    → IsRooted (frame s c a y up)
    → IsRooted up
IsRooted-up s c a y top r = tt
IsRooted-up s red a y (frame s' c' a' y' up) r = r
IsRooted-up s black a y (frame s' c' a' y' up) r = r

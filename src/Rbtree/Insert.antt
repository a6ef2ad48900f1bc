-- ===== src/Rbtree/Insert.antt =====
-- `ks_rb_insert_color` of ks_rbtree.c. Its loop takes fuel: the depth of the new node is enough.
pub mod Balance
pub mod Fix
pub mod Loop
pub mod Step
use fping.Base.{ℕ, zero, suc, ◌==◌, if◌then◌else◌, Bool, true, false}
use fping.Rbtree.{
  Ptr, null, Side, other, M, ◌>>=◌, ◌>>◌, pure, fault, get_root, child, parent, is_red, set_red,
  set_black,
}
use fping.Rbtree.Rotate.{rotate}

-- `p && ks_rb_is_red(p)`
unfoldable pub exists_red : Ptr → M Bool
exists_red p = if p == null then pure false else is_red p

-- the turn at `parent` that makes `node` an outer grandchild; the two change their names
unfoldable pub turn_inner : Side → Ptr → Ptr → M (Ptr × Ptr)
turn_inner s node up = do
  inner ← child (other s) up
  if inner == node then (do rotate s up; pure (up, node)) else pure (node, up)

-- the body of the loop where `parent` is the child of `gparent` on side `s`; the result is `node` of
-- the next round
unfoldable pub insert_step : Side → Ptr → Ptr → Ptr → M Ptr
unfolding exists_red turn_inner
insert_step s node up gparent = do
  uncle ← child (other s) gparent
  uncle_red ← exists_red uncle
  if uncle_red then (do set_black uncle; set_black up; set_red gparent; pure gparent) else (do
    nodes ← turn_inner s node up
    set_black nodes.1
    set_red gparent
    rotate (other s) gparent
    pure nodes.0)

unfoldable pub insert_color : ℕ → Ptr → M (Unit {0})
unfolding insert_step
insert_color zero node = fault
insert_color (suc fuel) node = do
  up ← parent node
  up_red ← exists_red up
  if up_red
      then (do
        gparent ← parent up
        first ← child Side.left gparent
        node ← insert_step (if up == first then Side.left else Side.right) node up gparent
        insert_color fuel node)
      else (do root ← get_root; set_black root)

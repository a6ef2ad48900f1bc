-- ===== src/Rbtree/Walk.antt =====
-- `ks_rb_first`, `ks_rb_last`, `ks_rb_next` and `ks_rb_prev` of ks_rbtree.c, and the loop
-- `table_for_each` of table.h over the first and the next nodes. The loops take fuel: as many rounds as
-- there are nodes are enough.
pub mod Cleared
pub mod Ends
pub mod Next
pub mod Sequence
use fping.Base.{ℕ, zero, suc, ◌==◌, if◌then◌else◌, not, List, [], ◌∷◌}
use fping.Rbtree.{Ptr, null, Side, other, M, ◌>>=◌, pure, fault, get_root, child, parent}

-- `while (n->rb_left) n = n->rb_left`, and its mirror image
unfoldable pub descend : Side → ℕ → Ptr → M Ptr
descend s zero n = fault
descend s (suc fuel) n = do c ← child s n; if c == null then pure n else descend s fuel c

-- `ks_rb_first` for the left side, `ks_rb_last` for the right one
unfoldable pub outermost : Side → ℕ → M Ptr
outermost s fuel = do n ← get_root; if n == null then pure null else descend s fuel n

-- the last loop of `ks_rb_next` and of `ks_rb_prev`
unfoldable pub climb : Side → ℕ → Ptr → M Ptr
climb s zero node = fault
climb s (suc fuel) node = do
  up ← parent node
  if up == null
      then pure null
      else (do c ← child s up; if node == c then climb s fuel up else pure up)

-- `ks_rb_next` for the right side, `ks_rb_prev` for the left one
unfoldable pub neighbor : Side → ℕ → Ptr → M Ptr
neighbor s fuel node = do
  up ← parent node
  if up == node then pure null else (do
    c ← child s node
    if not (c == null) then descend (other s) fuel c else climb s fuel node)

-- the nodes that `table_for_each` comes to from `node` on, where its body leaves the tree alone
unfoldable pub each_from : ℕ → ℕ → Ptr → M (List Ptr)
each_from fuel zero node = fault
each_from fuel (suc rounds) node = if node == null then pure [] else (do
  next ← neighbor Side.right fuel node
  rest ← each_from fuel rounds next
  pure (node ∷ rest))

unfoldable pub for_each : ℕ → M (List Ptr)
for_each fuel = do node ← outermost Side.left fuel; each_from fuel fuel node

-- ===== src/Rbtree/Rotate.antt =====
-- `__rb_rotate_left` and `__rb_rotate_right` of ks_rbtree.c.
use fping.Base.{◌==◌, if◌then◌else◌, not}
use fping.Rbtree.{
  Ptr, null, Side, other, M, ◌>>=◌, ◌>>◌, when, set_root, child, set_child, parent, set_parent,
}

-- `p` in the place of `node` below `up`: `node` is looked for on side `s` first
unfoldable pub relink : Side → Ptr → Ptr → Ptr → M (Unit {0})
relink s up node p =
    if up == null
    then set_root p
    else (do c ← child s up; if c == node then set_child s up p else set_child (other s) up p)

-- `__rb_rotate_left` for the left side and `__rb_rotate_right`, its mirror image, for the right one
unfoldable pub rotate : Side → Ptr → M (Unit {0})
unfolding relink
rotate s node = do
  pivot ← child (other s) node
  up ← parent node
  inner ← child s pivot
  set_child (other s) node inner
  when (not (inner == null)) (set_parent inner node)
  set_child s pivot node
  set_parent pivot up
  relink s up node pivot
  set_parent node pivot

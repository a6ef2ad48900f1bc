-- ===== src/Rbtree/Augment.antt =====
-- The callbacks of ks_rbtree.c: what they are called with after an insertion and around an erasure. The
-- callback and its `data`, here `payload`, are parameters; the loop takes fuel.
pub mod Along
pub mod Deepest
pub mod First
pub mod Insert
pub mod Path
pub mod Update
pub mod Values
use fping.Base.{ℕ, zero, suc, ◌==◌, if◌then◌else◌, not, ◌&&◌}
use fping.Rbtree.{Ptr, null, Side, M, ◌>>=◌, pure, fault, child, parent}
use fping.Rbtree.Walk.{neighbor}

-- `ks_rb_augment_f`, with its data passed on
abbrev pub AugmentF : Type 0 → Type 0
AugmentF D = Ptr → D → M D

module _ {D : Type 0} where
  -- the call for the sibling, or where a left child has none for the node itself
  unfoldable pub augment_sibling : AugmentF D → Ptr → Ptr → D → M D
  augment_sibling func node parent payload = do
    left ← child Side.left parent
    right ← child Side.right parent
    if (node == left) && not (right == null)
        then func right payload
        else if not (left == null)
        then func left payload
        else pure payload

  unfoldable pub augment_path : ℕ → Ptr → AugmentF D → D → M D
  unfolding augment_sibling
  augment_path zero node func payload = fault
  augment_path (suc fuel) node func payload = do
    payload ← func node payload
    up ← parent node
    if up == null
        then pure payload
        else (do payload ← augment_sibling func node up payload; augment_path fuel up func payload)

  unfoldable pub augment_insert : ℕ → Ptr → AugmentF D → D → M D
  unfolding augment_path
  augment_insert fuel node func payload = do
    left ← child Side.left node
    right ← child Side.right node
    let node = if not (left == null) then left else if not (right == null) then right else node
    augment_path fuel node func payload

  unfoldable pub augment_erase_end : ℕ → Ptr → AugmentF D → D → M D
  unfolding augment_path
  augment_erase_end fuel node func payload =
      if node == null then pure payload else augment_path fuel node func payload

unfoldable pub augment_erase_begin : ℕ → Ptr → M Ptr
augment_erase_begin fuel node = do
  right ← child Side.right node
  left ← child Side.left node
  if (right == null) && (left == null)
      then parent node
      else if right == null
      then pure left
      else if left == null
      then pure right
      else (do
        deepest ← neighbor Side.right fuel node
        below ← child Side.right deepest
        up ← parent deepest
        if not (below == null)
            then pure below
            else if not (up == node)
            then pure up
            else pure deepest)

-- ===== src/Rbtree/Erase.antt =====
-- `__rb_erase_color` of ks_rbtree.c, the rebalancing of `ks_rb_erase`. Its loop takes fuel: two rounds more
-- than the depth of the place are enough.
pub mod Read
pub mod Balance
pub mod Color
pub mod Exit
pub mod Settled
pub mod Step
use fping.Base.{ℕ, zero, suc, ◌==◌, if◌then◌else◌, Bool, true, false, not, ◌&&◌}
use fping.Rbtree.{
  Ptr, null, Side, other, M, ◌>>=◌, ◌>>◌, pure, fault, when, load, store, get_root, child,
  set_child, parent, color, is_red, set_parent, set_color, set_red, set_black,
}
use fping.Rbtree.Rotate.{relink, rotate}
use fping.Rbtree.Walk.{descend}

-- `!p || ks_rb_is_black(p)`
unfoldable pub absent_or_black : Ptr → M Bool
absent_or_black p = if p == null then pure true else (do red ← is_red p; pure (not red))

-- `if (node) ks_rb_set_black(node)`
unfoldable pub blacken : Ptr → M (Unit {0})
blacken p = when (not (p == null)) (set_black p)

-- the first case: a red sibling is turned away; the result is `other`
unfoldable pub turn_red : Side → Ptr → M Ptr
turn_red s up = do
  sibling ← child (other s) up
  red ← is_red sibling
  if red then (do set_black sibling; set_red up; rotate s up; child (other s) up) else pure sibling

unfoldable pub both_black : Ptr → M Bool
unfolding absent_or_black
both_black p = do
  l ← child Side.left p
  l_black ← absent_or_black l
  if l_black then (do r ← child Side.right p; absent_or_black r) else pure false

-- what a round leaves: `node` and `parent` of the next one, or the `break`
pub data Round : Type 0 where
  more : Ptr → Ptr → Round
  done : Round

-- the sibling gets a red child on the far side
unfoldable pub turn_near : Side → Ptr → Ptr → M Ptr
unfolding absent_or_black
turn_near s up sibling = do
  far ← child (other s) sibling
  far_black ← absent_or_black far
  if far_black
      then (do
        near ← child s sibling
        set_black near
        set_red sibling
        rotate (other s) sibling
        child (other s) up)
      else pure sibling

unfoldable pub settle : Side → Ptr → Ptr → M Round
unfolding both_black turn_near
settle s up sibling = do
  plain ← both_black sibling
  if plain then (do set_red sibling; above ← parent up; pure (more up above)) else (do
    sibling ← turn_near s up sibling
    c ← color up
    set_color sibling c
    set_black up
    far ← child (other s) sibling
    set_black far
    rotate s up
    pure done)

-- behind a round: the next one, or the end with `node = root->rb_node`
abbrev pub next_round : (Ptr → Ptr → M (Unit {0})) → Round → M (Unit {0})
next_round loop (more node up) = loop node up
next_round loop done = do root ← get_root; blacken root

unfoldable pub erase_color : ℕ → Ptr → Ptr → M (Unit {0})
unfolding absent_or_black turn_red settle blacken
erase_color zero node up = fault
erase_color (suc fuel) node up = do
  black ← absent_or_black node
  root ← get_root
  if black && not (node == root)
      then (do
        first ← child Side.left up
        let s = if first == node then Side.left else Side.right
        sibling ← turn_red s up
        round ← settle s up sibling
        next_round (erase_color fuel) round)
      else blacken node

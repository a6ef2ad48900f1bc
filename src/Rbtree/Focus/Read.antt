-- ===== src/Rbtree/Focus/Read.antt =====
-- Tests of colours and of sides through the focus.
use fping.Base.{◌≤◌, ◌≡◌, ◌≢◌, refl, ◌==◌, if◌then◌else◌, false, some, arith}
use fping.Rbtree.{Ptr, null, Side, Heap, child}
use fping.Rbtree.Shape.{
  Color, Tree, leaf, node, Ctx, frame, ptr, count, is_red_color, is_red_tree, at_self,
}
use fping.Rbtree.Focus.{Focus}
use fping.Rbtree.Focus.Holds.{child-ok, child-other-ok, is_red-ok}
use fping.Rbtree.Focus.Frame.{ptr-ne}
use fping.Rbtree.Focus.Paint.{Focus-Holds, Focus-owner}
use fping.Rbtree.Insert.{exists_red}

-- the tests of a pointer that may be NULL
pub exists_red-Focus :
    (k : Ctx) (t : Tree) (h : Heap) → Focus h k t → exists_red (ptr t) h ≡ some (is_red_tree t, h)
unfolding exists_red
exists_red-Focus k leaf h f = refl
exists_red-Focus k (node c l a r) h f =
    let nn : (a == null) ≡ false = ground (arith, f.inside.0.ne_null) in
    rw (nn, is_red-ok Side.left (Focus-Holds k c l a r f)) refl

-- what the focus is below
pub exists_red-owner :
    (s : Side) (c : Color) (p : Ptr) (y : Tree) (up : Ctx) (t : Tree) (h : Heap)
    → Focus h (frame s c p y up) t
    → exists_red p h ≡ some (is_red_color c, h)
unfolding exists_red
exists_red-owner s c p y up t h f =
    let nn : (p == null) ≡ false = ground (arith, f.around.0.ne_null) in
    rw (nn, is_red-ok s (Focus-owner s c p y up t f)) refl

pub count-ptr : (t : Tree) → ptr t ≢ null → 1 ≤ count (ptr t) t
count-ptr leaf ne = absurd (ne refl)
count-ptr (node c l a r) ne = omega (arith, at_self a)

-- on which side of its parent the code finds a node
pub side_found :
    (s : Side) (c : Color) (a : Ptr) (y : Tree) (up : Ctx) (t : Tree) (h : Heap)
    → Focus h (frame s c a y up) t
    → ptr t ≢ null
    → (first : Ptr) × (child Side.left a h ≡ some (first, h))
      × ((if ptr t == first then Side.left else Side.right) ≡ s)
side_found Side.left c a y up t h f ne =
    (ptr t, child-ok Side.left (Focus-owner Side.left c a y up t f), ground arith)
side_found Side.right c a y up t h f ne =
    let apart = ptr-ne y h.nodes a (ptr t) ne (omega (arith, count-ptr t ne, f.once (ptr t))) in
    (ptr y, child-other-ok Side.right (Focus-owner Side.right c a y up t f), ground (arith, apart))

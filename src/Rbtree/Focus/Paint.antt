-- ===== src/Rbtree/Focus/Paint.antt =====
-- A change of a colour, and what is read at and above the focus.
use fping.Base.{◌≡◌, ◌≢◌, refl, some, arith, ◌∙◌, sym, ap}
use fping.Rbtree.{Ptr, null, Side, Heap, set_color, parent, set_black, get_root, ◌>>=◌}
use fping.Rbtree.Shape.{
  Color, black, Tree, leaf, node, join, Ctx, top, frame, plug, ptr, owner, at_self, paint, ptr-join,
}
use fping.Rbtree.Focus.{bit, cell, Focus, Focus-up, Focus-down, Rep-write, Around-write}
use fping.Rbtree.Focus.Holds.{put, put_eq, Holds, Holds-other, set_color-ok, parent-ok}
use fping.Rbtree.Focus.Frame.{owner_aligned, frame-Holds}

pub Focus-Holds :
    (k : Ctx) (c : Color) (l : Tree) (a : Ptr) (r : Tree) {h : Heap}
    → Focus h k (node c l a r)
    → Holds Side.left h a (owner k) c (ptr l) (ptr r)
Focus-Holds k c l a r {h} f = record {
  is = f.inside.0;
  holds = f.inside.1;
  aligned = owner_aligned k h.nodes h.root a f.around;
}

pub Focus-Holds-join :
    (s : Side) (k : Ctx) (c : Color) (x : Tree) (a : Ptr) (y : Tree) {h : Heap}
    → Focus h k (join s c x a y)
    → Holds s h a (owner k) c (ptr x) (ptr y)
Focus-Holds-join Side.left k c x a y f = Focus-Holds k c x a y f
Focus-Holds-join Side.right k c x a y f = Holds-other Side.left (Focus-Holds k c y a x f)

pub parent-Focus :
    (k : Ctx) (t : Tree) {h : Heap}
    → ptr t ≢ null
    → Focus h k t
    → parent (ptr t) h ≡ some (owner k, h)
parent-Focus k leaf ne f = absurd (ne refl)
parent-Focus k (node c l a r) ne f = parent-ok Side.left (Focus-Holds k c l a r f)

pub Focus-owner :
    (s : Side) (c : Color) (a : Ptr) (y : Tree) (up : Ctx) (t : Tree) {h : Heap}
    → Focus h (frame s c a y up) t
    → Holds s h a (owner up) c (ptr t) (ptr y)
Focus-owner s c a y up t {h} f = frame-Holds s c a y up h (ptr t) f.around

pub set_color-Focus :
    (k : Ctx) (c d : Color) (l : Tree) (a : Ptr) (r : Tree) (h : Heap)
    → Focus h k (node c l a r)
    → (g : Heap) × (set_color a (bit d) h ≡ some (tt, g)) × Focus g k (node d l a r)
set_color-Focus k c d l a r h f =
    let n = cell Side.left (owner k) d (ptr l) (ptr r) in
    let g = put h a n in
    (
      g,
      set_color-ok Side.left d (Focus-Holds k c l a r f),
      record {
        around = Around-write k h.nodes h.root a a n (omega (arith, at_self a, f.once a)) f.around;
        inside = (
          f.inside.0,
          put_eq h a n,
          Rep-write l h.nodes a a n (omega (arith, at_self a, f.once a)) f.inside.2,
          Rep-write r h.nodes a a n (omega (arith, at_self a, f.once a)) f.inside.3,
        );
        once = f.once;
      },
    )

pub Focus-top : (k : Ctx) (t : Tree) {h : Heap} → Focus h k t → Focus h top (plug k t)
Focus-top top t f = f
Focus-top (frame s c a y up) t f = Focus-top up (join s c t a y) (Focus-up s f)

-- `set_color` for a node written with its near side first
pub set_color-Focus-join :
    (s : Side) (k : Ctx) (c d : Color) (x : Tree) (a : Ptr) (y : Tree) (h : Heap)
    → Focus h k (join s c x a y)
    → (g : Heap) × (set_color a (bit d) h ≡ some (tt, g)) × Focus g k (join s d x a y)
set_color-Focus-join Side.left k c d x a y h f = set_color-Focus k c d x a y h f
set_color-Focus-join Side.right k c d x a y h f = set_color-Focus k c d y a x h f

pub ptr-plug-ne_null :
    (k : Ctx) (t : Tree) {h : Heap} → Focus h k t → ptr t ≢ null → ptr (plug k t) ≢ null
ptr-plug-ne_null top t f ne = ne
ptr-plug-ne_null (frame s c a y up) t f ne =
    ptr-plug-ne_null up (join s c t a y) (Focus-up s f)
      (λ e. f.around.0.ne_null (sym (ptr-join s c t a y) ∙ e))

-- the end of `ks_rb_insert_color`
pub set_black_root-Focus :
    (t : Tree) (h : Heap)
    → ptr t ≢ null
    → Focus h top t
    → (g : Heap) × ((do root ← get_root; set_black root) h ≡ some (tt, g))
      × Focus g top (paint black t)
set_black_root-Focus leaf h ne f = absurd (ne refl)
set_black_root-Focus (node c l a r) h ne f =
    let (g, run, f') = set_color-Focus top c black l a r h f in
    (g, ap (λ p. set_black p h) f.around ∙ run, f')

-- the focus anywhere in a whole tree
pub Focus-unplug : (k : Ctx) (t : Tree) {h : Heap} → Focus h top (plug k t) → Focus h k t
Focus-unplug top t f = f
Focus-unplug (frame s c a y up) t f = Focus-down s (Focus-unplug up (join s c t a y) f)

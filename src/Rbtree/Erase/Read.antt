-- ===== src/Rbtree/Erase/Read.antt =====
-- The tests and the first case of a round of `erase_color` in memory.
use fping.Base.{
  ◌≡◌, refl, ne→false, if◌then◌else◌, Bool, Bool-cases, inl, inr, true, false, not, ◌&&◌, some, ◌∙◌,
  ap,
}
use fping.Rbtree.{Ptr, null, Side, other, Heap, is_red}
use fping.Rbtree.Shape.{
  Color, red, black, Tree, leaf, node, join, Ctx, frame, ptr, is_red_tree, ptr-join, paint,
}
use fping.Rbtree.Focus.{Focus, Focus-up, Focus-down, Focus-across, Focus-back}
use fping.Rbtree.Focus.Holds.{child-ok, child-other-ok, is_red-ok}
use fping.Rbtree.Focus.Paint.{
  Focus-Holds, Focus-Holds-join, Focus-owner, set_color-Focus, set_color-Focus-join,
}
use fping.Rbtree.Focus.Turn.{rotate-Focus}
use fping.Rbtree.Erase.{absent_or_black, blacken, turn_red, both_black}

pub absent_or_black-Focus :
    (k : Ctx) (t : Tree) (h : Heap)
    → Focus h k t
    → absent_or_black (ptr t) h ≡ some (not (is_red_tree t), h)
unfolding absent_or_black
absent_or_black-Focus k leaf h f = refl
absent_or_black-Focus k (node c l a r) h f =
    rw (ne→false a null f.inside.0.ne_null, is_red-ok Side.left (Focus-Holds k c l a r f)) refl

pub blacken-Focus :
    (k : Ctx) (t : Tree) (h : Heap)
    → Focus h k t
    → (g : Heap) × (blacken (ptr t) h ≡ some (tt, g)) × Focus g k (paint black t)
unfolding blacken
blacken-Focus k leaf h f = (h, refl, f)
blacken-Focus k (node c l a r) h f =
    let (g, run, f') = set_color-Focus k c black l a r h f in
    (g, rw (ne→false a null f.inside.0.ne_null) run, f')

both_black-Focus :
    (k : Ctx) (c : Color) (l : Tree) (a : Ptr) (r : Tree) (h : Heap)
    → Focus h k (node c l a r)
    → both_black a h ≡ some (if not (is_red_tree l) then not (is_red_tree r) else false, h)
unfolding both_black
both_black-Focus k c l a r h f =
    let held = Focus-Holds k c l a r f in
    let left = absent_or_black-Focus (frame Side.left c a r k) l h (Focus-down Side.left f) in
    let right = absent_or_black-Focus (frame Side.right c a l k) r h (Focus-down Side.right f) in
    elim (Bool-cases (is_red_tree l)) [
      | inl is_red ↦ rw (child-ok Side.left held, left, is_red) refl
      | inr is_black ↦
          rw (child-ok Side.left held, left, is_black, child-other-ok Side.left held, right) refl
    ]

pub both_left : (x y : Bool) → (if x then y else false) ≡ (x && y)
both_left true y = refl
both_left false y = refl

both_right : (x y : Bool) → (if y then x else false) ≡ (x && y)
both_right true true = refl
both_right true false = refl
both_right false true = refl
both_right false false = refl

-- the test of the two children of the sibling
pub both_black-join :
    (s : Side) (k : Ctx) (c : Color) (x : Tree) (a : Ptr) (y : Tree) (h : Heap)
    → Focus h k (join s c x a y)
    → both_black a h ≡ some (not (is_red_tree x) && not (is_red_tree y), h)
both_black-join Side.left k c x a y h f =
    both_black-Focus k c x a y h f
    ∙ ap (λ b. some (b, h)) (both_left (not (is_red_tree x)) (not (is_red_tree y)))
both_black-join Side.right k c x a y h f =
    both_black-Focus k c y a x h f
    ∙ ap (λ b. some (b, h)) (both_right (not (is_red_tree x)) (not (is_red_tree y)))

pub turn_red-black :
    (s : Side) (c : Color) (p : Ptr) (near : Tree) (b : Ptr) (far : Tree) (up : Ctx) (t : Tree)
    (h : Heap)
    → Focus h (frame s c p (join s black near b far) up) t
    → turn_red s p h ≡ some (b, h)
unfolding turn_red
turn_red-black s c p near b far up t h f =
    let y = join s black near b far in
    let below =
      child-other-ok s (Focus-owner s c p y up t f)
      ∙ ap (λ q. some (q, h)) (ptr-join s black near b far) in
    rw
      (
        below,
        is_red-ok s
            (Focus-Holds-join s (frame (other s) c p t up) black near b far (Focus-across s f)),
      )
      refl

pub turn_red-red :
    (s : Side) (c : Color) (p : Ptr) (near : Tree) (b : Ptr) (far : Tree) (up : Ctx) (t : Tree)
    (h : Heap)
    → Focus h (frame s c p (join s red near b far) up) t
    → (g : Heap) × (turn_red s p h ≡ some (ptr near, g))
      × Focus g (frame s red p near (frame s black b far up)) t
unfolding turn_red
turn_red-red s c p near b far up t h f =
    let y = join s red near b far in
    let fs = Focus-across s f in
    let k = frame (other s) c p t up in
    let below =
      child-other-ok s (Focus-owner s c p y up t f)
      ∙ ap (λ q. some (q, h)) (ptr-join s red near b far) in
    let (h1, run1, f1) = set_color-Focus-join s k red black near b far h fs in
    let (h2, run2, f2) =
      set_color-Focus-join s up c red t p (join s black near b far) h1
        (Focus-up s (Focus-back s f1)) in
    let (h3, run3, f3) = rotate-Focus s up red black t near far p b h2 f2 in
    let f4 = Focus-down s (Focus-down s f3) in
    (
      h3,
      rw (below, is_red-ok s (Focus-Holds-join s k red near b far fs), run1, run2, run3)
          (child-other-ok s (Focus-owner s red p near (frame s black b far up) t f4)),
      f4,
    )

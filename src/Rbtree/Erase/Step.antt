-- ===== src/Rbtree/Erase/Step.antt =====
-- The end of a round of `erase_color` in memory, by the colours of the sibling's children.
use fping.Base.{◌≡◌, refl, if◌then◌else◌, Bool, true, false, not, ◌&&◌, some, ◌∙◌, sym, ap}
use fping.Rbtree.{Ptr, Side, other, Heap, pure, ◌>>=◌, ◌>>◌, color, set_color, set_black, child}
use fping.Rbtree.Rotate.{rotate}
use fping.Rbtree.Shape.{
  Color, red, black, Tree, node, join, Ctx, frame, owner, is_red_tree, ptr-join,
}
use fping.Rbtree.Shape.Balance.{is_red_join}
use fping.Rbtree.Focus.{Focus, Focus-up, Focus-down, Focus-across, Focus-back}
use fping.Rbtree.Focus.Holds.{child-ok, child-other-ok, color-ok, parent-ok}
use fping.Rbtree.Focus.Paint.{Focus-Holds-join, Focus-owner, set_color-Focus-join}
use fping.Rbtree.Focus.Turn.{rotate-Focus, rotate-other-Focus}
use fping.Rbtree.Erase.{both_black, more, done, turn_near, settle}
use fping.Rbtree.Erase.Read.{absent_or_black-Focus, both_black-join, both_left}

-- both children of a black sibling are black: it becomes red, and the next round is above
pub settle_plain :
    (s : Side) (c : Color) (p : Ptr) (near : Tree) (b : Ptr) (far : Tree) (up : Ctx) (t : Tree)
    (h : Heap)
    → is_red_tree near ≡ false
    → is_red_tree far ≡ false
    → Focus h (frame s c p (join s black near b far) up) t
    → (g : Heap) × (settle s p b h ≡ some (more p (owner up), g))
      × Focus g up (join s c t p (join s red near b far))
unfolding settle
settle_plain s c p near b far up t h bn bf f =
    let k = frame (other s) c p t up in
    let fs = Focus-across s f in
    let (h1, run1, f1) = set_color-Focus-join s k black red near b far h fs in
    let f2 = Focus-back s f1 in
    (
      h1,
      rw
          (
            both_black-join s k black near b far h fs,
            bn,
            bf,
            run1,
            parent-ok s (Focus-owner s c p (join s red near b far) up t f2),
          )
          refl,
      Focus-up s f2,
    )

-- the end, once the far child of the sibling is red
settle_end :
    (s e : Side) (c d : Color) (p : Ptr) (near : Tree) (b : Ptr) (fl : Tree) (fa : Ptr) (fr : Tree)
    (up : Ctx) (t : Tree) (h : Heap)
    → Focus h (frame s c p (join s d near b (join e red fl fa fr)) up) t
    → (g : Heap) × ((do
      c ← color p
      set_color b c
      set_black p
      far ← child (other s) b
      set_black far
      rotate s p
      pure done)
          h
        ≡ some (done, g))
      × Focus g up (join s c (join s black t p near) b (join e black fl fa fr))
settle_end s e c d p near b fl fa fr up t h f =
    let far = join e red fl fa fr in
    let far' = join e black fl fa fr in
    let (h1, run1, f1) =
      set_color-Focus-join s (frame (other s) c p t up) d c near b far h (Focus-across s f) in
    let (h2, run2, f2) =
      set_color-Focus-join s up c black t p (join s c near b far) h1
        (Focus-up s (Focus-back s f1)) in
    let k = frame (other s) black p t up in
    let f3 = Focus-across s (Focus-down s f2) in
    let (h4, run4, f4) =
      set_color-Focus-join e (frame (other s) c b near k) red black fl fa fr h2
        (Focus-across s (Focus-down s f3)) in
    let f5 = Focus-up s (Focus-back s (Focus-up s (Focus-back s f4))) in
    let (h6, run6, f6) = rotate-Focus s up black c t near far' p b h4 f5 in
    (
      h6,
      rw
          (
            color-ok s (Focus-owner s c p (join s d near b far) up t f),
            run1,
            run2,
            child-other-ok s (Focus-Holds-join s k c near b far f3)
                ∙ ap (λ q. some (q, h2)) (ptr-join e red fl fa fr),
            run4,
            run6,
          )
          refl,
      f6,
    )

either_false : (x : Bool) → (if x then false else false) ≡ false
either_false true = refl
either_false false = refl

-- the far child is red
pub settle_far :
    (s : Side) (c : Color) (p : Ptr) (near : Tree) (b : Ptr) (fl : Tree) (fa : Ptr) (fr : Tree)
    (up : Ctx) (t : Tree) (h : Heap)
    → Focus h (frame s c p (join s black near b (node red fl fa fr)) up) t
    → (g : Heap) × (settle s p b h ≡ some (done, g))
      × Focus g up (join s c (join s black t p near) b (node black fl fa fr))
unfolding settle turn_near
settle_far s c p near b fl fa fr up t h f =
    let far = node red fl fa fr in
    let k = frame (other s) c p t up in
    let fs = Focus-across s f in
    let (g, run, f') = settle_end s Side.left c black p near b fl fa fr up t h f in
    let plain : both_black b h ≡ some (false, h) =
      both_black-join s k black near b far h fs
      ∙ ap (λ x. some (x, h))
          (sym (both_left (not (is_red_tree near)) false)
            ∙ either_false (not (is_red_tree near))) in
    (
      g,
      rw
          (
            plain,
            child-other-ok s (Focus-Holds-join s k black near b far fs),
            absent_or_black-Focus (frame (other s) black b near k) far h
                (Focus-across s (Focus-down s fs)),
          )
          run,
      f',
    )

-- only the near child is red
pub settle_near :
    (s : Side) (c : Color) (p : Ptr) (nn : Tree) (q : Ptr) (nf : Tree) (b : Ptr) (far : Tree)
    (up : Ctx) (t : Tree) (h : Heap)
    → is_red_tree far ≡ false
    → Focus h (frame s c p (join s black (join s red nn q nf) b far) up) t
    → (g : Heap) × (settle s p b h ≡ some (done, g))
      × Focus g up (join s c (join s black t p nn) q (join s black nf b far))
unfolding settle turn_near
settle_near s c p nn q nf b far up t h bf f =
    let near = join s red nn q nf in
    let k = frame (other s) c p t up in
    let fs = Focus-across s f in
    let plain : both_black b h ≡ some (false, h) =
      both_black-join s k black near b far h fs
      ∙ ap (λ x. some (not x && not (is_red_tree far), h)) (is_red_join s red nn q nf) in
    let held = Focus-Holds-join s k black near b far fs in
    let (h1, run1, f1) =
      set_color-Focus-join s (frame s black b far k) red black nn q nf h (Focus-down s fs) in
    let (h2, run2, f2) =
      set_color-Focus-join s k black red (join s black nn q nf) b far h1 (Focus-up s f1) in
    let (h3, run3, f3) = rotate-other-Focus s k red black nn nf far b q h2 f2 in
    let f4 = Focus-back s f3 in
    let (g, run, f') = settle_end s s c black p nn q nf b far up t h3 f4 in
    let found = child-ok s held ∙ ap (λ r. some (r, h)) (ptr-join s red nn q nf) in
    let next =
      child-other-ok s (Focus-owner s c p (join s black nn q (join s red nf b far)) up t f4)
      ∙ ap (λ r. some (r, h3)) (ptr-join s black nn q (join s red nf b far)) in
    (
      g,
      rw
          (
            plain,
            child-other-ok s held,
            absent_or_black-Focus (frame (other s) black b near k) far h
                (Focus-across s (Focus-down s fs)),
            bf,
            found,
            run1,
            run2,
            run3,
            next,
          )
          run,
      f',
    )

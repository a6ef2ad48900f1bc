-- ===== src/Rbtree/Erase/Settled.antt =====
-- A round of `erase_color` at a black sibling, by the colours of the sibling's children.
use fping.Base.{ℕ, suc, ◌≡◌, refl, false, some, ◌∙◌, sym, subst}
use fping.Rbtree.{Ptr, Side, Heap}
use fping.Rbtree.Shape.{
  Color, red, black, Tree, leaf, node, join, Ctx, frame, plug, owner, is_red_tree, inorder,
}
use fping.Rbtree.Shape.Order.{inorder-join, inorder-plug, inorder_turn}
use fping.Rbtree.Shape.Balance.{NoRedRed, HasHeight-join_black, NoRedRed-join_black, is_red_join}
use fping.Rbtree.Shape.Unplug.{join_red-NoRedRed, join_black-NoRedRed, join_red-HasHeight}
use fping.Rbtree.Focus.{Focus}
use fping.Rbtree.Erase.{Round, more, done, settle, next_round, erase_color}
use fping.Rbtree.Erase.Step.{settle_plain, settle_far, settle_near}
use fping.Rbtree.Erase.Balance.{
  Short, paint-black, turn-IsBalanced, sibling-NoRedRed, sibling-HasHeight, black-HasHeight,
}
use fping.Rbtree.Erase.Exit.{Ends, exit_done}

-- A round at a black sibling. `Above` is how the walk goes on where both children of the sibling are
-- black.
module _ (fuel : ℕ) (s : Side) (c : Color) (p : Ptr) (b : Ptr) (up : Ctx) (t : Tree) (h : Heap)
    (n : ℕ) (bt : is_red_tree t ≡ false) where
  abbrev pub Settled : Tree → Tree → Type 0
  Settled near far =
      (r : Round) × (h2 : Heap) × (settle s p b h ≡ some (r, h2))
      × Ends (next_round (erase_color fuel) r) h2
          (inorder (plug (frame s c p (join s black near b far) up) t))

  abbrev pub Above : Tree → Tree → Type 0
  Above near far =
      (g : Heap)
      → is_red_tree near ≡ false
      → is_red_tree far ≡ false
      → Focus g up (join s c t p (join s red near b far))
      → Ends (erase_color fuel p (owner up)) g
          (inorder (plug (frame s c p (join s black near b far) up) t))

  Settled-plain :
      (near far : Tree)
      → is_red_tree near ≡ false
      → is_red_tree far ≡ false
      → Focus h (frame s c p (join s black near b far) up) t
      → Above near far
      → Settled near far
  Settled-plain near far bn bf f above =
      let (g, run, f') = settle_plain s c p near b far up t h bn bf f in
      (more p (owner up), g, run, above g bn bf f')

  Settled-far :
      (near : Tree) (fl : Tree) (fa : Ptr) (fr : Tree)
      → Short (frame s c p (join s black near b (node red fl fa fr)) up) t n
      → Focus h (frame s c p (join s black near b (node red fl fa fr)) up) t
      → Settled near (node red fl fa fr)
  Settled-far near fl fa fr d f =
      let far = node red fl fa fr in
      let far' = node black fl fa fr in
      let y = join s black near b far in
      let x = join s black t p near in
      let (ny, nup) = sibling-NoRedRed s c p y up d.around in
      let (nn, nf) = join_black-NoRedRed s near b far ny in
      let (hn, hf) = black-HasHeight s near b far n (sibling-HasHeight s c p y up (suc n) d.fits) in
      let nt = subst NoRedRed (paint-black t bt) d.no_red_red in
      let (g, run, f') = settle_far s c p near b fl fa fr up t h f in
      let balanced =
        turn-IsBalanced s s c p y up (suc n) x b far' d.around d.fits (is_red_join s black t p near)
          refl (NoRedRed-join_black s t p near nt nn) (nf.2, nf.3)
          (HasHeight-join_black s t p near n d.height hn) (n, refl, hf.0, hf.1) in
      let order = inorder-plug up (join s c x b far') (join s c t p y) (
        inorder-join s c c x x b far' far refl refl
        ∙ inorder_turn s c black c black t p near b far) in
      let (g', run', w, fw, bw, ow) =
        exit_done (erase_color fuel) up (join s c x b far') g f' balanced in
      (done, g, run, (g', run', w, fw, bw, ow ∙ order))

  Settled-near :
      (nn : Tree) (q : Ptr) (nf : Tree) (far : Tree)
      → is_red_tree far ≡ false
      → Short (frame s c p (join s black (join s red nn q nf) b far) up) t n
      → Focus h (frame s c p (join s black (join s red nn q nf) b far) up) t
      → Settled (join s red nn q nf) far
  Settled-near nn q nf far bf d f =
      let near = join s red nn q nf in
      let y = join s black near b far in
      let x = join s black t p nn in
      let z = join s black nf b far in
      let (ny, nup) = sibling-NoRedRed s c p y up d.around in
      let (nnear, nfar) = join_black-NoRedRed s near b far ny in
      let (bx, by, nx, ny') = join_red-NoRedRed s nn q nf nnear in
      let (hn, hf) = black-HasHeight s near b far n (sibling-HasHeight s c p y up (suc n) d.fits) in
      let (hx, hy) = join_red-HasHeight s nn q nf n hn in
      let nt = subst NoRedRed (paint-black t bt) d.no_red_red in
      let (g, run, f') = settle_near s c p nn q nf b far up t h bf f in
      let balanced =
        turn-IsBalanced s s c p y up (suc n) x q z d.around d.fits (is_red_join s black t p nn)
          (is_red_join s black nf b far) (NoRedRed-join_black s t p nn nt nx)
          (NoRedRed-join_black s nf b far ny' nfar) (HasHeight-join_black s t p nn n d.height hx)
          (HasHeight-join_black s nf b far n hy hf) in
      let order = inorder-plug up (join s c x q z) (join s c t p y) (
        inorder_turn s c black c black t p nn q z
        ∙ inorder-join s c c t t p (join s black nn q z) y refl
            (sym (inorder_turn s black red black black nn q nf b far))) in
      let (g', run', w, fw, bw, ow) =
        exit_done (erase_color fuel) up (join s c x q z) g f' balanced in
      (done, g, run, (g', run', w, fw, bw, ow ∙ order))

Settled-black :
    (fuel : ℕ) (s : Side) (c : Color) (p : Ptr) (b : Ptr) (up : Ctx) (t : Tree) (h : Heap) (n : ℕ)
    (bt : is_red_tree t ≡ false) (near far : Tree)
    → is_red_tree far ≡ false
    → Short (frame s c p (join s black near b far) up) t n
    → Focus h (frame s c p (join s black near b far) up) t
    → Above fuel s c p b up t h n bt near far
    → Settled fuel s c p b up t h n bt near far
Settled-black fuel s c p b up t h n bt leaf far bf d f above =
    Settled-plain fuel s c p b up t h n bt leaf far refl bf f above
Settled-black fuel s c p b up t h n bt (node black l q r) far bf d f above =
    Settled-plain fuel s c p b up t h n bt (node black l q r) far refl bf f above
Settled-black fuel Side.left c p b up t h n bt (node red l q r) far bf d f above =
    Settled-near fuel Side.left c p b up t h n bt l q r far bf d f
Settled-black fuel Side.right c p b up t h n bt (node red l q r) far bf d f above =
    Settled-near fuel Side.right c p b up t h n bt r q l far bf d f

pub Settled-cases :
    (fuel : ℕ) (s : Side) (c : Color) (p : Ptr) (b : Ptr) (up : Ctx) (t : Tree) (h : Heap) (n : ℕ)
    (bt : is_red_tree t ≡ false) (near far : Tree)
    → Short (frame s c p (join s black near b far) up) t n
    → Focus h (frame s c p (join s black near b far) up) t
    → Above fuel s c p b up t h n bt near far
    → Settled fuel s c p b up t h n bt near far
Settled-cases fuel s c p b up t h n bt near leaf d f above =
    Settled-black fuel s c p b up t h n bt near leaf refl d f above
Settled-cases fuel s c p b up t h n bt near (node black l a r) d f above =
    Settled-black fuel s c p b up t h n bt near (node black l a r) refl d f above
Settled-cases fuel s c p b up t h n bt near (node red l a r) d f above =
    Settled-far fuel s c p b up t h n bt near l a r d f

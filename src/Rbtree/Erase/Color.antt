-- ===== src/Rbtree/Erase/Color.antt =====
-- `erase_color` in memory: it ends, and what it leaves is balanced.
use fping.Base.{
  ℕ, zero, suc, ◌<◌, ◌≡◌, ◌≢◌, refl, Bool-cases, inl, inr, false, some, arith, ◌∙◌, sym, ap,
}
use fping.Rbtree.{Ptr, null, Side, other, Heap}
use fping.Rbtree.Shape.{
  Color, red, black, Tree, leaf, node, join, Ctx, top, frame, plug, ptr, owner, is_red_tree,
  ptr-join, inorder,
}
use fping.Rbtree.Shape.Order.{inorder-join, inorder-plug, inorder_turn}
use fping.Rbtree.Shape.Balance.{is_red_join}
use fping.Rbtree.Shape.Unplug.{join_red-NoRedRed, join_red-HasHeight}
use fping.Rbtree.Insert.Fix.{depth, IsRooted}
use fping.Rbtree.Focus.{Focus, Focus-across}
use fping.Rbtree.Focus.Paint.{Focus-Holds-join}
use fping.Rbtree.Erase.{next_round, erase_color}
use fping.Rbtree.Erase.Read.{turn_red-black, turn_red-red}
use fping.Rbtree.Erase.Balance.{Short, sibling-HasHeight, Short-up}
use fping.Rbtree.Erase.Exit.{Ends, Ends-run, exit_top, exit_red, round_run}
use fping.Rbtree.Erase.Settled.{Above, Settled-cases}

-- how the walk goes on above
abbrev Onward : ℕ → Ctx → Type 0
Onward fuel up =
    (t : Tree) (g : Heap) (m : ℕ)
    → Short up t m
    → Focus g up t
    → Ends (erase_color fuel (ptr t) (owner up)) g (inorder (plug up t))

-- a round where the sibling is black
round_black :
    (fuel : ℕ) (s : Side) (c : Color) (p : Ptr) (near : Tree) (b : Ptr) (far : Tree) (up : Ctx)
    (t : Tree) (h : Heap) (n : ℕ)
    → is_red_tree t ≡ false
    → Short (frame s c p (join s black near b far) up) t n
    → Focus h (frame s c p (join s black near b far) up) t
    → Onward fuel up
    → Ends
        (erase_color (suc fuel) (ptr t) p)
        h
        (inorder (plug (frame s c p (join s black near b far) up) t))
round_black fuel s c p near b far up t h n bt d f onward =
    let y = join s black near b far in
    let here = ptr-join s black near b far in
    let above : Above fuel s c p b up t h n bt near far = λ g bn bf fg.
      let z = join s c t p (join s red near b far) in
      let (m, dz) = Short-up s c p near b far up t n bt bn bf d in
      let (g', run, w, fw, bw, ow) = onward z g m dz fg in
      (
        g',
        ap (λ q. erase_color fuel q (owner up) g) (sym (ptr-join s c t p (join s red near b far)))
            ∙ run,
        w,
        fw,
        bw,
        ow
            ∙ inorder-plug up z (join s c t p y) (
                inorder-join s c c t t p (join s red near b far) y refl
                  (inorder-join s red black near near b far far refl refl)),
      ) in
    let (r, h2, run, ends) = Settled-cases fuel s c p b up t h n bt near far d f above in
    let ne : ptr y ≢ null = λ e.
      (Focus-Holds-join s (frame (other s) c p t up) black near b far (Focus-across s f)).is.ne_null
        (sym here ∙ e) in
    Ends-run (erase_color (suc fuel) (ptr t) p) (next_round (erase_color fuel) r) h h2 _
      (round_run fuel s c p y up t h h h2 b r bt ne f (turn_red-black s c p near b far up t h f)
        run)
      ends

IsRooted-turn :
    (s s' : Side) (p b : Ptr) (y z : Tree) (up : Ctx)
    → IsRooted (frame s black p y up)
    → IsRooted (frame s' black b z up)
IsRooted-turn s s' p b y z top r = r
IsRooted-turn s s' p b y z (frame _ _ _ _ _) r = r

-- a hole below the parent that the turn has made red
Short-turn :
    (s : Side) (p : Ptr) (near : Tree) (b : Ptr) (far : Tree) (up : Ctx) (t : Tree) (n : ℕ)
    → Short (frame s black p (join s red near b far) up) t n
    → Short (frame s red p near (frame s black b far up)) t n
Short-turn s p near b far up t n d =
    let (bn, bf, nn, nf) = join_red-NoRedRed s near b far d.around.0 in
    let (hn, hf) = join_red-HasHeight s near b far (suc n) d.fits.0 in
    record {
      rooted = IsRooted-turn s s p b (join s red near b far) far up d.rooted;
      no_red_red = d.no_red_red;
      around = (bn, refl, nn, (nf, d.around.1));
      height = d.height;
      fits = (hn, (hf, d.fits.1));
    }

-- the round below a red sibling, once its near child `near` has become the sibling
round_turned :
    (fuel : ℕ) (s : Side) (p : Ptr) (nn : Tree) (q : Ptr) (nf : Tree) (b : Ptr) (far : Tree)
    (up : Ctx) (t : Tree) (h : Heap) (n : ℕ)
    → is_red_tree t ≡ false
    → Short (frame s black p (join s red (join s black nn q nf) b far) up) t n
    → Focus h (frame s black p (join s red (join s black nn q nf) b far) up) t
    → Ends
        (erase_color (suc (suc fuel)) (ptr t) p)
        h
        (inorder (plug (frame s black p (join s red (join s black nn q nf) b far) up) t))
round_turned fuel s p nn q nf b far up t h n bt d f =
    let near = join s black nn q nf in
    let y = join s red near b far in
    let here = ptr-join s red near b far in
    let k = frame s black b far up in
    let (h1, turn, f1) = turn_red-red s black p near b far up t h f in
    let d1 = Short-turn s p near b far up t n d in
    let above : Above (suc fuel) s red p q k t h1 n bt nn nf = λ g bn bf fg.
      let z = join s red t p (join s red nn q nf) in
      let (m, dz) = Short-up s red p nn q nf k t n bt bn bf d1 in
      let (g', run, w, fw, bw, ow) =
        exit_red fuel s black b far up z g m (is_red_join s red t p (join s red nn q nf)) dz fg in
      (
        g',
        ap (λ v. erase_color (suc fuel) v b g) (sym (ptr-join s red t p (join s red nn q nf)))
            ∙ run,
        w,
        fw,
        bw,
        ow
            ∙ inorder-plug k z (join s red t p near) (
                inorder-join s red red t t p (join s red nn q nf) near refl
                  (inorder-join s red black nn nn q nf nf refl refl)),
      ) in
    let (r, h2, run, ends) = Settled-cases (suc fuel) s red p q k t h1 n bt nn nf d1 f1 above in
    let (g', run', w, fw, bw, ow) = ends in
    let ne : ptr y ≢ null = λ e.
      (Focus-Holds-join s (frame (other s) black p t up) red near b far
          (Focus-across s f)).is.ne_null
        (sym here ∙ e) in
    let turned = turn ∙ ap (λ v. some (v, h1)) (ptr-join s black nn q nf) in
    (
      g',
      round_run (suc fuel) s black p y up t h h1 h2 q r bt ne f turned run ∙ run',
      w,
      fw,
      bw,
      ow
          ∙ inorder-plug up (join s black (join s red t p near) b far) (join s black t p y)
              (inorder_turn s black red black red t p near b far),
    )

round_red :
    (fuel : ℕ) (s : Side) (c : Color) (p : Ptr) (near : Tree) (b : Ptr) (far : Tree) (up : Ctx)
    (t : Tree) (h : Heap) (n : ℕ)
    → is_red_tree t ≡ false
    → Short (frame s c p (join s red near b far) up) t n
    → Focus h (frame s c p (join s red near b far) up) t
    → Ends
        (erase_color (suc (suc fuel)) (ptr t) p)
        h
        (inorder (plug (frame s c p (join s red near b far) up) t))
round_red fuel s red p near b far up t h n bt d f =
    absurd (ground (arith, d.around.0, is_red_join s red near b far))
round_red fuel s black p leaf b far up t h n bt d f =
    absurd (omega (arith, (join_red-HasHeight s leaf b far (suc n) d.fits.0).0))
round_red fuel s black p (node red l a r) b far up t h n bt d f =
    absurd (ground (arith, (join_red-NoRedRed s (node red l a r) b far d.around.0).0))
round_red fuel Side.left black p (node black l a r) b far up t h n bt d f =
    round_turned fuel Side.left p l a r b far up t h n bt d f
round_red fuel Side.right black p (node black l a r) b far up t h n bt d f =
    round_turned fuel Side.right p r a l b far up t h n bt d f

-- a round at a sibling with its colour and its children
round_sibling :
    (fuel : ℕ) (s : Side) (c d : Color) (p : Ptr) (near : Tree) (b : Ptr) (far : Tree) (up : Ctx)
    (t : Tree) (h : Heap) (n : ℕ)
    → is_red_tree t ≡ false
    → Short (frame s c p (join s d near b far) up) t n
    → Focus h (frame s c p (join s d near b far) up) t
    → Onward (suc fuel) up
    → Ends
        (erase_color (suc (suc fuel)) (ptr t) p)
        h
        (inorder (plug (frame s c p (join s d near b far) up) t))
round_sibling fuel s c red p near b far up t h n bt d f onward =
    round_red fuel s c p near b far up t h n bt d f
round_sibling fuel s c black p near b far up t h n bt d f onward =
    round_black (suc fuel) s c p near b far up t h n bt d f onward

round_cases :
    (fuel : ℕ) (s : Side) (c : Color) (p : Ptr) (y : Tree) (up : Ctx) (t : Tree) (h : Heap) (n : ℕ)
    → Short (frame s c p y up) t n
    → Focus h (frame s c p y up) t
    → Onward (suc fuel) up
    → Ends (erase_color (suc (suc fuel)) (ptr t) p) h (inorder (plug (frame s c p y up) t))
round_cases fuel s c p leaf up t h n d f onward =
    absurd (omega (arith, sibling-HasHeight s c p leaf up (suc n) d.fits))
round_cases fuel Side.left c p (node e l b r) up t h n d f onward =
    elim (Bool-cases (is_red_tree t)) [
      | inl bad ↦ exit_red (suc fuel) Side.left c p (node e l b r) up t h n bad d f
      | inr bt ↦ round_sibling fuel Side.left c e p l b r up t h n bt d f onward
    ]
round_cases fuel Side.right c p (node e l b r) up t h n d f onward =
    elim (Bool-cases (is_red_tree t)) [
      | inl bad ↦ exit_red (suc fuel) Side.right c p (node e l b r) up t h n bad d f
      | inr bt ↦ round_sibling fuel Side.right c e p r b l up t h n bt d f onward
    ]

-- In memory that holds a tree which is balanced but for one subtree that is too low by one black node:
-- `__rb_erase_color` at that subtree ends, within fuel for two rounds more than its depth, and memory
-- then holds a balanced tree with the same addresses from left to right.
pub erase_color-Ends :
    (fuel : ℕ) (t : Tree) (k : Ctx) (h : Heap) (n : ℕ)
    → suc (depth k) < fuel
    → Short k t n
    → Focus h k t
    → Ends (erase_color fuel (ptr t) (owner k)) h (inorder (plug k t))
erase_color-Ends zero t k h n lt d f = absurd (omega arith)
erase_color-Ends (suc zero) t k h n lt d f = absurd (omega arith)
erase_color-Ends (suc (suc fuel)) t top h n lt d f = exit_top (suc fuel) t h n d f
erase_color-Ends (suc (suc fuel)) t (frame s c p y up) h n lt d f =
    round_cases fuel s c p y up t h n d f
      (λ t' g m d' f'. erase_color-Ends (suc fuel) t' up g m (omega arith) d' f')

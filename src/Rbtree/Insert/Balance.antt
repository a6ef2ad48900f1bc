-- ===== src/Rbtree/Insert/Balance.antt =====
-- `fix` keeps the order and restores the red-black invariant.
use fping.Base.{ℕ, suc, ◌≡◌, refl, true, false, arith, ◌∙◌, sym}
use mathlib.Core.List.{append_assoc}
use fping.Rbtree.{Ptr, Side}
use fping.Rbtree.Shape.{
  Color, red, black, Tree, leaf, node, join, Ctx, top, frame, plug, paint, is_red_tree, inorder,
}
use fping.Rbtree.Shape.Order.{inorder-join, inorder-plug, inorder_rotate}
use fping.Rbtree.Shape.Balance.{
  HasHeight, NoRedRed, FitsHeight, NoRedRedCtx, IsBalanced, plug-NoRedRed, plug-HasHeight,
  paint-IsBalanced, HasHeight-join_black, HasHeight-join_red, NoRedRed-join_black,
  NoRedRed-join_red, is_red_join,
}
use fping.Rbtree.Insert.Fix.{lift, fix, IsRooted, IsRooted-up}

inorder-lift :
    (s s' : Side) (c d : Color) (t : Tree) (p : Ptr) (y : Tree) (g : Ptr) (u : Tree)
    → is_red_tree t ≡ true
    → inorder (lift s s' t p y g u) ≡ inorder (join s c (join s' d t p y) g u)
unfolding lift
inorder-lift Side.left Side.left c d t p y g u ne = sym (inorder_rotate c d black red t p y g u)
inorder-lift Side.right Side.right c d t p y g u ne = inorder_rotate black red c d u g y p t
inorder-lift Side.left Side.right c d leaf p y g u ne = absurd (ground arith)
inorder-lift Side.right Side.left c d leaf p y g u ne = absurd (ground arith)
inorder-lift Side.left Side.right c d (node e l n r) p y g u ne = simp append_assoc
inorder-lift Side.right Side.left c d (node e l n r) p y g u ne = simp append_assoc

-- `fix` keeps the addresses and their order.
pub inorder-fix :
    (k : Ctx) (t : Tree) → is_red_tree t ≡ true → inorder (fix t k) ≡ inorder (plug k t)
unfolding fix
inorder-fix top t ne = refl
inorder-fix (frame s black p y up) t ne = refl
inorder-fix (frame s red p y top) t ne = refl
inorder-fix (frame s' red p y (frame s c g (node red ul ua ur) up)) t ne =
    let t' = join s red (join s' black t p y) g (node black ul ua ur) in
    inorder-fix up t' (is_red_join s red (join s' black t p y) g (node black ul ua ur))
    ∙ inorder-plug up t' (join s c (join s' red t p y) g (node red ul ua ur)) (
        inorder-join s red c (join s' black t p y) (join s' red t p y) g (node black ul ua ur)
          (node red ul ua ur) (inorder-join s' black red t t p y y refl refl) refl)
inorder-fix (frame s' red p y (frame s c g (node black ul ua ur) up)) t ne =
    inorder-plug up _ _ (inorder-lift s s' c red t p y g (node black ul ua ur) ne)
inorder-fix (frame s' red p y (frame s c g leaf up)) t ne =
    inorder-plug up _ _ (inorder-lift s s' c red t p y g leaf ne)

lift-NoRedRed :
    (s s' : Side) (t : Tree) (p : Ptr) (y : Tree) (g : Ptr) (u : Tree)
    → is_red_tree t ≡ true
    → is_red_tree y ≡ false
    → is_red_tree u ≡ false
    → NoRedRed t
    → NoRedRed y
    → NoRedRed u
    → NoRedRed (lift s s' t p y g u) × (is_red_tree (lift s s' t p y g u) ≡ false)
unfolding lift
lift-NoRedRed Side.left Side.left t p y g u rt by bu ht hy hu = ((ht, (by, bu, hy, hu)), refl)
lift-NoRedRed Side.right Side.right t p y g u rt by bu ht hy hu = (((bu, by, hu, hy), ht), refl)
lift-NoRedRed Side.left Side.right (node red l n r) p y g u rt by bu (bl, br, hl, hr) hy hu =
    (((by, bl, hy, hl), (br, bu, hr, hu)), refl)
lift-NoRedRed Side.right Side.left (node red l n r) p y g u rt by bu (bl, br, hl, hr) hy hu =
    (((bu, bl, hu, hl), (br, by, hr, hy)), refl)
lift-NoRedRed Side.left Side.right (node black l n r) p y g u rt by bu ht hy hu =
    absurd (ground arith)
lift-NoRedRed Side.right Side.left (node black l n r) p y g u rt by bu ht hy hu =
    absurd (ground arith)
lift-NoRedRed Side.left Side.right leaf p y g u rt by bu ht hy hu = absurd (ground arith)
lift-NoRedRed Side.right Side.left leaf p y g u rt by bu ht hy hu = absurd (ground arith)

lift-HasHeight :
    (s s' : Side) (t : Tree) (p : Ptr) (y : Tree) (g : Ptr) (u : Tree) (n : ℕ)
    → is_red_tree t ≡ true
    → HasHeight t n
    → HasHeight y n
    → HasHeight u n
    → HasHeight (lift s s' t p y g u) (suc n)
unfolding lift
lift-HasHeight Side.left Side.left t p y g u n rt ht hy hu = (n, refl, ht, (hy, hu))
lift-HasHeight Side.right Side.right t p y g u n rt ht hy hu = (n, refl, (hu, hy), ht)
lift-HasHeight Side.left Side.right (node red l a r) p y g u n rt (hl, hr) hy hu =
    (n, refl, (hy, hl), (hr, hu))
lift-HasHeight Side.right Side.left (node red l a r) p y g u n rt (hl, hr) hy hu =
    (n, refl, (hu, hl), (hr, hy))
lift-HasHeight Side.left Side.right (node black l a r) p y g u n rt ht hy hu = absurd (ground arith)
lift-HasHeight Side.right Side.left (node black l a r) p y g u n rt ht hy hu = absurd (ground arith)
lift-HasHeight Side.left Side.right leaf p y g u n rt ht hy hu = absurd (ground arith)
lift-HasHeight Side.right Side.left leaf p y g u n rt ht hy hu = absurd (ground arith)

-- the black uncle
fix-IsBalanced-lift :
    (s s' : Side) (t : Tree) (p : Ptr) (y : Tree) (g : Ptr) (u : Tree) (up : Ctx) (n : ℕ)
    → is_red_tree u ≡ false
    → is_red_tree t ≡ true
    → NoRedRed t
    → HasHeight t n
    → NoRedRedCtx (frame s' red p y (frame s black g u up))
    → FitsHeight (frame s' red p y (frame s black g u up)) n
    → IsBalanced (paint black (plug up (lift s s' t p y g u)))
fix-IsBalanced-lift s s' t p y g u up n bu rt nt ht (by, _, ny, (nu, nup)) (hy, (hu, hup)) =
    let (nl, bl) = lift-NoRedRed s s' t p y g u rt by bu nt ny nu in
    let (m, hm) =
      plug-HasHeight up (lift s s' t p y g u) (suc n) hup
        (lift-HasHeight s s' t p y g u n rt ht hy hu) in
    paint-IsBalanced (plug up (lift s s' t p y g u)) m
      (plug-NoRedRed up (lift s s' t p y g u) nup nl (rw bl (ground arith))) hm

-- Where the tree is balanced but for an edge between a red `t` and what is above, `fix` and the black
-- root balance it.
pub fix-IsBalanced :
    (k : Ctx) (t : Tree) (n : ℕ)
    → IsRooted k
    → is_red_tree t ≡ true
    → NoRedRed t
    → HasHeight t n
    → NoRedRedCtx k
    → FitsHeight k n
    → IsBalanced (paint black (fix t k))
unfolding fix
fix-IsBalanced top t n rooted rt nt ht nk hk = paint-IsBalanced t n nt ht
fix-IsBalanced (frame s black p y up) t n rooted rt nt ht nk hk =
    let (m, hm) = plug-HasHeight (frame s black p y up) t n hk ht in
    paint-IsBalanced (plug (frame s black p y up) t) m
      (plug-NoRedRed (frame s black p y up) t nk nt refl) hm
fix-IsBalanced (frame s red p y top) t n rooted rt nt ht nk hk = elim rooted [ ]
fix-IsBalanced (frame s' red p y (frame s red g u up)) t n rooted rt nt ht nk hk =
    absurd (ground (arith, nk.1))
fix-IsBalanced (frame s' red p y (frame s black g (node red ul ua ur) up)) t n rooted rt nt ht
      (by, _, ny, (nu, nup)) (hy, (hu, hup)) =
    fix-IsBalanced up (join s red (join s' black t p y) g (node black ul ua ur)) (suc n)
      (IsRooted-up s black g (node red ul ua ur) up rooted)
      (is_red_join s red (join s' black t p y) g (node black ul ua ur))
      (NoRedRed-join_red s (join s' black t p y) g (node black ul ua ur)
        (is_red_join s' black t p y) refl (NoRedRed-join_black s' t p y nt ny) (nu.2, nu.3))
      (HasHeight-join_red s (join s' black t p y) g (node black ul ua ur) (suc n)
        (HasHeight-join_black s' t p y n ht hy) (n, refl, hu.0, hu.1))
      nup hup
fix-IsBalanced (frame s' red p y (frame s black g (node black ul ua ur) up)) t n rooted rt nt ht nk
      hk =
    fix-IsBalanced-lift s s' t p y g (node black ul ua ur) up n refl rt nt ht nk hk
fix-IsBalanced (frame s' red p y (frame s black g leaf up)) t n rooted rt nt ht nk hk =
    fix-IsBalanced-lift s s' t p y g leaf up n refl rt nt ht nk hk

-- ===== src/Rbtree/Erase/Exit.antt =====
-- How the loop of `erase_color` ends, and one round of it by what its calls do.
use fping.Base.{
  ℕ, suc, ◌≤◌, ◌≡◌, ◌≢◌, refl, ne→false, eq→true, if◌then◌else◌, ◌==◌, true, false, not, some, List,
  arith, ◌∙◌, sym, ap,
}
use fping.Rbtree.{Ptr, null, Side, Heap, M, child}
use fping.Rbtree.Shape.{
  Color, black, Tree, Ctx, top, frame, plug, ptr, is_red_tree, paint, inorder, count_ctx, at_self,
}
use fping.Rbtree.Shape.Order.{inorder-plug, inorder-paint}
use fping.Rbtree.Shape.Balance.{IsBalanced}
use fping.Rbtree.Focus.{Nodes, Around, Focus}
use fping.Rbtree.Focus.Holds.{child-ok, child-other-ok}
use fping.Rbtree.Focus.Frame.{ptr-ne}
use fping.Rbtree.Focus.Paint.{Focus-owner, Focus-top}
use fping.Rbtree.Focus.Read.{count-ptr}
use fping.Rbtree.Erase.{blacken, turn_red, Round, done, settle, next_round, erase_color}
use fping.Rbtree.Erase.Read.{absent_or_black-Focus, blacken-Focus}
use fping.Rbtree.Erase.Balance.{Short, top-IsBalanced, red-IsBalanced, both_false}

-- a run that ends with a balanced tree in memory, with the addresses `order`
abbrev pub Ends : M (Unit {0}) → Heap → List Ptr → Type 0
Ends m h order =
    (g : Heap) × (m h ≡ some (tt, g))
    × (w : Tree) × Focus g top w
    × IsBalanced w
    × (inorder w ≡ order)

pub Ends-run :
    (m m' : M (Unit {0})) (h h' : Heap) (order : List Ptr)
    → m h ≡ m' h'
    → Ends m' h' order
    → Ends m h order
Ends-run m m' h h' order e (g, run, w, f, b, o) = (g, e ∙ run, w, f, b, o)

-- the root is a node around the hole
root_counted :
    (s : Side) (c : Color) (a : Ptr) (y : Tree) (up : Ctx) (h : Nodes) (root p : Ptr)
    → Around h root (frame s c a y up) p
    → (root ≢ null) × (1 ≤ count_ctx root (frame s c a y up))
root_counted s c a y top h root p (is, e, x, same) =
    (λ z. is.ne_null (sym same ∙ z), ground (arith, same, at_self a))
root_counted s c a y (frame s' c' a' y' up) h root p (is, e, x, rest) =
    let (ne, there) = root_counted s' c' a' y' up h root a rest in (ne, omega (arith, there))

root_ne :
    (s : Side) (c : Color) (a : Ptr) (y : Tree) (up : Ctx) (t : Tree) (h : Heap)
    → Focus h (frame s c a y up) t
    → (ptr t == h.root) ≡ false
root_ne s c a y up t h f =
    let (ne, there) = root_counted s c a y up h.nodes h.root (ptr t) f.around in
    ne→false (ptr t) h.root (ptr-ne t h.nodes a h.root ne (omega (arith, there, f.once h.root)))

-- on which side of its parent a hole is found, where its sibling is a node
pub hole_found :
    (s : Side) (c : Color) (a : Ptr) (y : Tree) (up : Ctx) (t : Tree) (h : Heap)
    → Focus h (frame s c a y up) t
    → ptr y ≢ null
    → (first : Ptr) × (child Side.left a h ≡ some (first, h))
      × ((if first == ptr t then Side.left else Side.right) ≡ s)
hole_found Side.left c a y up t h f ne =
    (ptr t, child-ok Side.left (Focus-owner Side.left c a y up t f), rw (eq→true (ptr t)) refl)
hole_found Side.right c a y up t h f ne =
    let apart = ptr-ne t h.nodes a (ptr y) ne (omega (arith, count-ptr y ne, f.once (ptr y))) in
    (
      ptr y,
      child-other-ok Side.right (Focus-owner Side.right c a y up t f),
      rw (ne→false (ptr y) (ptr t) (λ e. apart (sym e))) refl,
    )

pub exit_top :
    (fuel : ℕ) (t : Tree) (h : Heap) (n : ℕ)
    → Short top t n
    → Focus h top t
    → Ends (erase_color (suc fuel) (ptr t) null) h (inorder t)
unfolding erase_color
exit_top fuel t h n d f =
    let (g, run, f') = blacken-Focus top t h f in
    let same : (ptr t == h.root) ≡ true = ap (λ p. ptr t == p) f.around ∙ eq→true (ptr t) in
    (
      g,
      rw (absent_or_black-Focus top t h f, same, both_false (not (is_red_tree t))) run,
      paint black t,
      f',
      top-IsBalanced t n d.no_red_red d.height,
      inorder-paint black t,
    )

-- the walk ends at a red node
pub exit_red :
    (fuel : ℕ) (s : Side) (c : Color) (a : Ptr) (y : Tree) (up : Ctx) (t : Tree) (h : Heap) (n : ℕ)
    → is_red_tree t ≡ true
    → Short (frame s c a y up) t n
    → Focus h (frame s c a y up) t
    → Ends (erase_color (suc fuel) (ptr t) a) h (inorder (plug (frame s c a y up) t))
unfolding erase_color
exit_red fuel s c a y up t h n e d f =
    let k = frame s c a y up in
    let (g, run, f') = blacken-Focus k t h f in
    (
      g,
      rw (absent_or_black-Focus k t h f, e) run,
      plug k (paint black t),
      Focus-top k (paint black t) f',
      red-IsBalanced s c a y up t n e d,
      inorder-plug k (paint black t) t (inorder-paint black t),
    )

-- the end behind a round
pub exit_done :
    (loop : Ptr → Ptr → M (Unit {0})) (up : Ctx) (w : Tree) (h : Heap)
    → Focus h up w
    → IsBalanced (paint black (plug up w))
    → Ends (next_round loop done) h (inorder (plug up w))
exit_done loop up w h f b =
    let (g, run, f') = blacken-Focus top (plug up w) h (Focus-top up w f) in
    (
      g,
      ap (λ p. blacken p h) (Focus-top up w f).around ∙ run,
      paint black (plug up w),
      f',
      b,
      inorder-paint black (plug up w),
    )

pub round_run :
    (fuel : ℕ) (s : Side) (c : Color) (p : Ptr) (y : Tree) (up : Ctx) (t : Tree) (h h1 h2 : Heap)
    (v : Ptr) (r : Round)
    → is_red_tree t ≡ false
    → ptr y ≢ null
    → Focus h (frame s c p y up) t
    → turn_red s p h ≡ some (v, h1)
    → settle s p v h1 ≡ some (r, h2)
    → erase_color (suc fuel) (ptr t) p h ≡ next_round (erase_color fuel) r h2
unfolding erase_color
round_run fuel s c p y up t h h1 h2 v r bt ne f turn settled =
    let (first, run, side) = hole_found s c p y up t h f ne in
    rw
      (
        absent_or_black-Focus (frame s c p y up) t h f,
        bt,
        root_ne s c p y up t h f,
        run,
        side,
        turn,
        settled,
      )
      refl

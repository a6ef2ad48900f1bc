-- ===== src/Rbtree/Walk/Ends.antt =====
-- Where the walks end.
use fping.Base.{
  ℕ, zero, suc, ◌<◌, ◌≡◌, ◌≢◌, ne→false, eq→true, refl, ◌==◌, true, false, some, List, [], ◌∷◌,
  ◌++◌, arith, ◌∙◌, sym, ap, subst,
}
use mathlib.Core.List.{append_assoc}
use fping.Rbtree.{Ptr, null, Side, other, Heap, child}
use fping.Rbtree.Shape.{Color, Tree, leaf, node, join, Ctx, top, frame, plug, ptr, size, ptr-join}
use fping.Rbtree.Insert.Fix.{depth}
use fping.Rbtree.Focus.{Focus, Focus-up, Focus-down}
use fping.Rbtree.Focus.Holds.{Holds, child-ok, child-other-ok}
use fping.Rbtree.Focus.Frame.{ptr-ne}
use fping.Rbtree.Focus.Paint.{Focus-Holds-join, Focus-owner, parent-Focus}
use fping.Rbtree.Focus.Read.{count-ptr}
use fping.Rbtree.Walk.{descend, climb}
use fping.Rbtree.Walk.Sequence.{seq, after, seq-join, seq-leaf, after_near, after_far}

-- a node `b` of the tree `w`, and the addresses that follow it in direction `s`
pub record Reached (s : Side) (h : Heap) (w : Tree) (b : Ptr) (rest : List Ptr) : Type 0 where
  pub k : Ctx
  pub c : Color
  pub x : Tree
  pub y : Tree
  pub focus : Focus h k (join (other s) c x b y)
  pub whole : plug k (join (other s) c x b y) ≡ w
  pub follow : seq s y ++ after s k ≡ rest

module _ (s : Side) (h : Heap) where
  -- what `descend` finds below a node
  abbrev pub Descends : ℕ → Tree → Ctx → Type 0
  Descends fuel t k =
      (b : Ptr) × (rest : List Ptr) × (descend (other s) fuel (ptr t) h ≡ some (b, h))
      × Reached s h (plug k t) b rest
      × (seq s t ++ after s k ≡ b ∷ rest)

  descend_leaf :
      (fuel : ℕ) (k : Ctx) (c : Color) (a : Ptr) (y : Tree)
      → Focus h k (join (other s) c leaf a y)
      → Descends (suc fuel) (join (other s) c leaf a y) k
  unfolding descend
  descend_leaf fuel k c a y f = (
    a,
    seq s y ++ after s k,
    rw
        (
          ptr-join (other s) c leaf a y,
          child-ok (other s) (Focus-Holds-join (other s) k c leaf a y f),
        )
        refl,
    record { k = k; c = c; x = leaf; y = y; focus = f; whole = refl; follow = refl },
    rw (seq-join s c leaf a y, seq-leaf s) refl,
  )

  descend_more :
      (fuel : ℕ) (k : Ctx) (c : Color) (x : Tree) (a : Ptr) (y : Tree)
      → ptr x ≢ null
      → Focus h k (join (other s) c x a y)
      → Descends fuel x (frame (other s) c a y k)
      → Descends (suc fuel) (join (other s) c x a y) k
  unfolding descend
  descend_more fuel k c x a y ne f (b, rest, run, reached, e) =
      let nn : (ptr x == null) ≡ false = ne→false (ptr x) null ne in
      (
        b,
        rest,
        rw
            (
              ptr-join (other s) c x a y,
              child-ok (other s) (Focus-Holds-join (other s) k c x a y f),
              nn,
            )
            run,
        reached,
        rw (seq-join s c x a y) (
            append_assoc (seq s x) (a ∷ seq s y) (after s k)
            ∙ ap (λ l. seq s x ++ l) (sym (after_near s c a y k))
            ∙ e),
      )

pub descend-Reached :
    (s : Side) (h : Heap) (fuel : ℕ) (t : Tree) (k : Ctx)
    → size t < fuel
    → ptr t ≢ null
    → Focus h k t
    → Descends s h fuel t k
descend-Reached s h zero t k lt ne f = absurd (omega arith)
descend-Reached s h (suc fuel) leaf k lt ne f = absurd (ne refl)
descend-Reached Side.right h (suc fuel) (node c leaf a r) k lt ne f =
    descend_leaf Side.right h fuel k c a r f
descend-Reached Side.right h (suc fuel) (node c (node d l b m) a r) k lt ne f =
    let f' = Focus-down Side.left f in
    descend_more Side.right h fuel k c (node d l b m) a r f'.inside.0.ne_null f (
      descend-Reached Side.right h fuel (node d l b m) (frame Side.left c a r k) (omega arith)
        f'.inside.0.ne_null f')
descend-Reached Side.left h (suc fuel) (node c l a leaf) k lt ne f =
    descend_leaf Side.left h fuel k c a l f
descend-Reached Side.left h (suc fuel) (node c l a (node d m b r)) k lt ne f =
    let f' = Focus-down Side.right f in
    descend_more Side.left h fuel k c (node d m b r) a l f'.inside.0.ne_null f (
      descend-Reached Side.left h fuel (node d m b r) (frame Side.right c a l k) (omega arith)
        f'.inside.0.ne_null f')

pub child_far-ok :
    (s : Side) {h : Heap} {a up : Ptr} {c : Color} {p q : Ptr}
    → Holds (other s) h a up c p q
    → child s a h ≡ some (q, h)
child_far-ok Side.left e = child-other-ok Side.right e
child_far-ok Side.right e = child-other-ok Side.left e

after_top : (s : Side) → after s top ≡ []
after_top s = refl

-- the outcome of a walk to the next node: its address and what follows, or NULL
pub data Outcome (s : Side) (h : Heap) (w : Tree) (rest : List Ptr) : Ptr → Type 0 where
  ended : rest ≡ [] → Outcome s h w rest null
  found :
      {b : Ptr} (more : List Ptr) → Reached s h w b more → rest ≡ b ∷ more → Outcome s h w rest b

module _ (s : Side) (h : Heap) where
  abbrev pub Climbs : ℕ → Tree → Ctx → Type 0
  Climbs fuel t k =
      (b : Ptr) × (climb s fuel (ptr t) h ≡ some (b, h)) × Outcome s h (plug k t) (after s k) b

  climb_near :
      (fuel : ℕ) (t : Tree) (c : Color) (a : Ptr) (y : Tree) (k : Ctx)
      → ptr t ≢ null
      → Focus h (frame (other s) c a y k) t
      → Climbs (suc fuel) t (frame (other s) c a y k)
  unfolding climb
  climb_near fuel t c a y k ne f =
      let held = Focus-owner (other s) c a y k t f in
      let apart = ptr-ne y h.nodes a (ptr t) ne (omega (arith, count-ptr t ne, f.once (ptr t))) in
      (
        a,
        rw
            (
              parent-Focus (frame (other s) c a y k) t ne f,
              ne→false a null held.is.ne_null,
              child_far-ok s held,
              ne→false (ptr t) (ptr y) (λ e. apart (sym e)),
            )
            refl,
        found (seq s y ++ after s k)
            (record {
              k = k;
              c = c;
              x = t;
              y = y;
              focus = Focus-up (other s) f;
              whole = refl;
              follow = refl;
            })
            (after_near s c a y k),
      )

  climb_far :
      (fuel : ℕ) (t : Tree) (c : Color) (a : Ptr) (y : Tree) (k : Ctx)
      → ptr t ≢ null
      → Focus h (frame s c a y k) t
      → Climbs fuel (join s c t a y) k
      → Climbs (suc fuel) t (frame s c a y k)
  unfolding climb
  climb_far fuel t c a y k ne f (b, run, out) =
      let held = Focus-owner s c a y k t f in
      let self : (ptr t == ptr t) ≡ true = eq→true (ptr t) in
      (
        b,
        rw
            (
              parent-Focus (frame s c a y k) t ne f,
              ne→false a null held.is.ne_null,
              child-ok s held,
              self,
            )
            (ap (λ p. climb s fuel p h) (sym (ptr-join s c t a y)) ∙ run),
        subst (λ l. Outcome s h (plug k (join s c t a y)) l b) (sym (after_far s c a y k)) out,
      )

  climb_top : (fuel : ℕ) (t : Tree) → ptr t ≢ null → Focus h top t → Climbs (suc fuel) t top
  unfolding climb
  climb_top fuel t ne f = (null, rw (parent-Focus top t ne f) refl, ended (after_top s))

pub climb-Outcome :
    (s : Side) (h : Heap) (fuel : ℕ) (t : Tree) (k : Ctx)
    → depth k < fuel
    → ptr t ≢ null
    → Focus h k t
    → Climbs s h fuel t k
climb-Outcome s h zero t k lt ne f = absurd (omega arith)
climb-Outcome s h (suc fuel) t top lt ne f = climb_top s h fuel t ne f
climb-Outcome Side.left h (suc fuel) t (frame Side.right c a y k) lt ne f =
    climb_near Side.left h fuel t c a y k ne f
climb-Outcome Side.right h (suc fuel) t (frame Side.left c a y k) lt ne f =
    climb_near Side.right h fuel t c a y k ne f
climb-Outcome Side.left h (suc fuel) t (frame Side.left c a y k) lt ne f =
    climb_far Side.left h fuel t c a y k ne f (
      climb-Outcome Side.left h fuel (node c t a y) k (omega arith) f.around.0.ne_null
        (Focus-up Side.left f))
climb-Outcome Side.right h (suc fuel) t (frame Side.right c a y k) lt ne f =
    climb_far Side.right h fuel t c a y k ne f (
      climb-Outcome Side.right h fuel (node c y a t) k (omega arith) f.around.0.ne_null
        (Focus-up Side.right f))

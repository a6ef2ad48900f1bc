-- ===== src/Rbtree/Walk/Next.antt =====
-- The walks over a tree: the next node, the first one, and all of them.
use fping.Base.{
  ℕ, zero, suc, ◌+◌, ◌<◌, ◌≤◌, ◌≡◌, ◌≢◌, ne→false, refl, ◌==◌, if◌then◌else◌, not, some, length,
  length-append, List, [], ◌∷◌, ◌++◌, arith, ◌∙◌, sym, ap, subst,
}
use mathlib.Core.List.{append-nil}
use fping.Rbtree.{Ptr, null, Side, other, Heap, and_then, pure, parent}
use fping.Rbtree.Shape.{
  Color, Tree, leaf, node, join, Ctx, top, frame, plug, ptr, owner, size, inorder, at_eq, ptr-join,
  join-other,
}
use fping.Rbtree.Insert.Fix.{depth}
use fping.Rbtree.Focus.{Focus, Focus-down}
use fping.Rbtree.Focus.Paint.{Focus-Holds-join, parent-Focus}
use fping.Rbtree.Focus.Read.{count-ptr}
use fping.Rbtree.Walk.{descend, outermost, climb, neighbor, each_from, for_each}
use fping.Rbtree.Walk.Sequence.{seq, after, head_or_null, seq_right, seq-leaf, after_far}
use fping.Rbtree.Walk.Ends.{
  Reached, Outcome, ended, found, descend-Reached, climb-Outcome, child_far-ok, Descends,
}

pub size-join :
    (s : Side) (c : Color) (x : Tree) (a : Ptr) (y : Tree)
    → size (join s c x a y) ≡ suc (size x + size y)
size-join Side.left c x a y = refl
size-join Side.right c x a y = omega arith

pub depth-plug : (k : Ctx) (t : Tree) → depth k + size t ≤ size (plug k t)
depth-plug top t = omega arith
depth-plug (frame s c a y up) t = omega (arith, depth-plug up (join s c t a y), size-join s c t a y)

owner_ne : (k : Ctx) (t : Tree) {h : Heap} → ptr t ≢ null → Focus h k t → owner k ≢ ptr t
owner_ne top t ne f e = ne (sym e)
owner_ne (frame s c a y up) t ne f e =
    omega (arith, count-ptr t ne, f.once (ptr t), at_eq (ptr t) a (sym e))

next_down :
    (s : Side) (h : Heap) (fuel : ℕ) (k : Ctx) (c : Color) (x : Tree) (b : Ptr) (y : Tree)
    → size y < fuel
    → ptr y ≢ null
    → Focus h k (join (other s) c x b y)
    → Descends s h fuel y (frame s c b x k)
next_down s h fuel k c x b y lt ne f =
    descend-Reached s h fuel y (frame s c b x k) lt ne
      (Focus-down s (subst (λ t. Focus h k t) (join-other s c x b y) f))

pub neighbor_start :
    (s : Side) (h : Heap) (fuel : ℕ) (k : Ctx) (c : Color) (x : Tree) (b : Ptr) (y : Tree)
    → Focus h k (join (other s) c x b y)
    → neighbor s fuel b h
      ≡ (if not (ptr y == null) then descend (other s) fuel (ptr y) else climb s fuel b) h
unfolding neighbor
neighbor_start s h fuel k c x b y f =
    let held = Focus-Holds-join (other s) k c x b y f in
    let e = ptr-join (other s) c x b y in
    let ne : ptr (join (other s) c x b y) ≢ null = λ z. held.is.ne_null (sym e ∙ z) in
    let apart : owner k ≢ b = λ z. owner_ne k (join (other s) c x b y) ne f (z ∙ sym e) in
    let up : parent b h ≡ some (owner k, h) =
      ap (λ p. parent p h) (sym e) ∙ parent-Focus k (join (other s) c x b y) ne f in
    rw (up, ne→false (owner k) b apart, child_far-ok s held) refl

module _ (s : Side) (h : Heap) (fuel : ℕ) (w : Tree) (small : size w < fuel) where
  Moves : Ptr → List Ptr → Type 0
  Moves b rest = (p : Ptr) × (neighbor s fuel b h ≡ some (p, h)) × Outcome s h w rest p

  Moves-at :
      (k : Ctx) (c : Color) (x : Tree) (b : Ptr) (y : Tree)
      → Focus h k (join (other s) c x b y)
      → plug k (join (other s) c x b y) ≡ w
      → Moves b (seq s y ++ after s k)
  unfolding Moves
  Moves-at k c x b leaf f e =
      let t = join (other s) c x b leaf in
      let pe : ptr t ≡ b = ptr-join (other s) c x b leaf in
      let ne : ptr t ≢ null =
        λ z. (Focus-Holds-join (other s) k c x b leaf f).is.ne_null (sym pe ∙ z) in
      let lt : depth k < fuel = omega (arith, depth-plug k t, ap size e) in
      let (p, run, out) = climb-Outcome s h fuel t k lt ne f in
      (
        p,
        neighbor_start s h fuel k c x b leaf f ∙ ap (λ q. climb s fuel q h) (sym pe) ∙ run,
        subst (λ v. Outcome s h v (seq s leaf ++ after s k) p) e
            (subst (λ l. Outcome s h (plug k t) l p) (ap (λ l. l ++ after s k) (sym (seq-leaf s)))
              out),
      )
  Moves-at k c x b (node d l m r) f e =
      let y = node d l m r in
      let t = join (other s) c x b y in
      let whole : plug k (join s c y b x) ≡ w = ap (plug k) (sym (join-other s c x b y)) ∙ e in
      let f' = Focus-down s (subst (λ t. Focus h k t) (join-other s c x b y) f) in
      let lt : size y < fuel =
        omega (arith, depth-plug k t, ap size e, size-join (other s) c x b y) in
      let ne = f'.inside.0.ne_null in
      let (p, more, run, reached, eq) = descend-Reached s h fuel y (frame s c b x k) lt ne f' in
      (
        p,
        neighbor_start s h fuel k c x b y f ∙ rw (ne→false m null ne) run,
        found more (subst (λ v. Reached s h v p more) whole reached)
            (ap (λ l. seq s y ++ l) (sym (after_far s c b x k)) ∙ eq),
      )

outcome-head :
    (s : Side) (h : Heap) (w : Tree) (rest : List Ptr) (p : Ptr)
    → Outcome s h w rest p
    → p ≡ head_or_null rest
outcome-head s h w rest _ (ended e) = ap head_or_null (sym e)
outcome-head s h w rest p (found more r e) = ap head_or_null (sym e)

-- From any node of a tree in memory, with fuel for its nodes, `ks_rb_next` (for the right side) and
-- `ks_rb_prev` (for the left one) return the address that follows the node in the order of that side, or
-- NULL where none does, and leave memory alone.
pub neighbor-follows :
    (s : Side) (h : Heap) (fuel : ℕ) (k : Ctx) (c : Color) (x : Tree) (b : Ptr) (y : Tree)
    → Focus h k (join (other s) c x b y)
    → size (plug k (join (other s) c x b y)) < fuel
    → neighbor s fuel b h ≡ some (head_or_null (seq s y ++ after s k), h)
unfolding Moves
neighbor-follows s h fuel k c x b y f small =
    let w = plug k (join (other s) c x b y) in
    let (p, run, out) = Moves-at s h fuel w small k c x b y f refl in
    run ∙ ap (λ q. some (q, h)) (outcome-head s h w (seq s y ++ after s k) p out)

each_from-Outcome :
    (h : Heap) (fuel rounds : ℕ) (w : Tree) (rest : List Ptr) (p : Ptr)
    → size w < fuel
    → length rest < rounds
    → Outcome Side.right h w rest p
    → each_from fuel rounds p h ≡ some (rest, h)
unfolding each_from Moves
each_from-Outcome h fuel zero w rest p small lt out = absurd (omega arith)
each_from-Outcome h fuel (suc rounds) w rest _ small lt (ended e) = rw e refl
each_from-Outcome h fuel (suc rounds) w rest p small lt (found more r e) =
    let (q, run, out) = Moves-at Side.right h fuel w small r.k r.c r.x p r.y r.focus r.whole in
    let ne = (Focus-Holds-join Side.left r.k r.c r.x p r.y r.focus).is.ne_null in
    let again =
      each_from-Outcome h fuel rounds w more q small (omega (arith, ap length e))
        (subst (λ l. Outcome Side.right h w l q) r.follow out) in
    rw (e, ne→false p null ne, run, again) refl

length-inorder : (t : Tree) → length (inorder t) ≡ size t
length-inorder leaf = refl
length-inorder (node c l a r) =
    omega (arith, length-append (inorder l) (a ∷ inorder r), length-inorder l, length-inorder r)

-- Over a tree in memory, with fuel for more rounds than it has nodes, `table_for_each` comes to every node
-- once, from left to right, and then ends.
pub for_each-inorder :
    (h : Heap) (t : Tree) (fuel : ℕ)
    → Focus h top t
    → size t < fuel
    → for_each fuel h ≡ some (inorder t, h)
unfolding for_each outermost
for_each-inorder h leaf fuel f lt =
    ap
      (λ q.
        and_then ((if q == null then pure null else descend Side.left fuel q) h)
          (λ b. each_from fuel fuel b))
      f.around
    ∙ each_from-Outcome h fuel fuel leaf [] null lt lt (ended refl)
for_each-inorder h (node c l a r) fuel f lt =
    let t = node c l a r in
    let ne = f.inside.0.ne_null in
    let (p, rest, run, reached, e) = descend-Reached Side.right h fuel t top lt ne f in
    let all : inorder t ≡ p ∷ rest = sym (seq_right t) ∙ sym (append-nil (seq Side.right t)) ∙ e in
    let go =
      each_from-Outcome h fuel fuel t (inorder t) p lt (omega (arith, length-inorder t))
        (found rest reached all) in
    ap
      (λ q.
        and_then ((if q == null then pure null else descend Side.left fuel q) h)
          (λ b. each_from fuel fuel b))
      f.around
    ∙ rw (ne→false a null ne, run) go

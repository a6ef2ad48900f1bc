-- ===== src/Rbtree/Augment/First.antt =====
-- The first node of a subtree, as `ks_rb_next` comes to it.
use fping.Base.{
  ℕ, zero, suc, ◌≤◌, ◌<◌, ◌≡◌, ◌≢◌, refl, ◌==◌, ne→false, true, false, some, arith, inl, inr, ◌⊎◌,
}
use fping.Rbtree.{Ptr, null, Side, Heap, child, parent}
use fping.Rbtree.Shape.{Tree, leaf, node, Ctx, frame, ptr, owner, at_self, at_eq, count, size}
use fping.Rbtree.Focus.{Focus, Focus-down}
use fping.Rbtree.Focus.Holds.{child-ok, child-other-ok, parent-ok}
use fping.Rbtree.Focus.Paint.{Focus-Holds}
use fping.Rbtree.Walk.{descend}

-- The bottom of the path that changes when a node with at most one subtree leaves its place below `up`:
-- what comes into the place, or `up` where nothing does.
abbrev pub place : Tree → Ptr → Ptr
place leaf up = up
place (node c l a r) up = a

-- the same for the first node, in order, of a subtree below `up`
unfoldable pub first_place : Tree → Ptr → Ptr
first_place leaf up = up
first_place (node c leaf a r) up = place r up
first_place (node c (node d l b m) a r) up = first_place (node d l b m) a

-- The first node of a subtree, its right subtree and its parent, read from memory: the child lies in
-- the subtree, and so does the parent or the node is the root of the subtree.
pub record First (h : Heap) (k : Ctx) (t : Tree) (fuel : ℕ) : Type 0 where
  pub p : Ptr
  pub z : Tree
  pub up : Ptr
  pub run : descend Side.left fuel (ptr t) h ≡ some (p, h)
  pub inside : 1 ≤ count p t
  pub right : child Side.right p h ≡ some (ptr z, h)
  pub right_inside : (ptr z ≡ null) ⊎ (1 ≤ count (ptr z) t)
  pub filled : (q : Ptr) → (ptr z == null) ≡ false → place z q ≡ ptr z
  pub unfilled : (q : Ptr) → (ptr z == null) ≡ true → place z q ≡ q
  pub above : parent p h ≡ some (up, h)
  pub above_inside :
      ((up ≡ owner k) × (p ≡ ptr t) × ((q : Ptr) → first_place t q ≡ place z q))
      ⊎ ((1 ≤ count up t) × ((q : Ptr) → first_place t q ≡ place z up))

pub apart : (p q : Ptr) → (p == q) ≡ false → p ≢ q
apart p q e = ground arith

root_inside : (t : Tree) → (ptr t ≡ null) ⊎ (1 ≤ count (ptr t) t)
root_inside leaf = inl refl
root_inside (node c l a r) = inr (omega (arith, at_self a))

-- the root of the right subtree is not NULL
place_filled :
    (h : Heap) (k : Ctx) (r : Tree) (q : Ptr)
    → Focus h k r
    → ((ptr r == null) ≡ false → place r q ≡ ptr r) × ((ptr r == null) ≡ true → place r q ≡ q)
place_filled h k leaf q f = (λ e. absurd (ground (arith, e)), λ e. refl)
place_filled h k (node c l a r) q f =
    let ne = ne→false a null f.inside.0.ne_null in (λ e. refl, λ e. absurd (ground (arith, e, ne)))

pub first :
    (h : Heap) (fuel : ℕ) (t : Tree) (k : Ctx)
    → size t < fuel
    → ptr t ≢ null
    → Focus h k t
    → First h k t fuel
unfolding descend first_place
first h zero t k lt ne f = absurd (omega arith)
first h (suc fuel) leaf k lt ne f = absurd (ne refl)
first h (suc fuel) (node c leaf a r) k lt ne f =
    let held = Focus-Holds k c leaf a r f in
    record {
      p = a;
      z = r;
      up = owner k;
      run = rw (child-ok Side.left held) refl;
      inside = omega (arith, at_self a);
      right = child-other-ok Side.left held;
      filled = λ u. (place_filled h (frame Side.right c a leaf k) r u (Focus-down Side.right f)).0;
      unfilled =
          λ u. (place_filled h (frame Side.right c a leaf k) r u (Focus-down Side.right f)).1;
      right_inside = elim (root_inside r) [ inl e ↦ inl e | inr le ↦ inr (omega (arith, le)) ];
      above = parent-ok Side.left held;
      above_inside = inl (refl, refl, λ u. refl);
    }
first h (suc fuel) (node c (node d l b m) a r) k lt ne f =
    let held = Focus-Holds k c (node d l b m) a r f in
    let f' = Focus-down Side.left f in
    let ne_b = f'.inside.0.ne_null in
    let q = first h fuel (node d l b m) (frame Side.left c a r k) (omega arith) ne_b f' in
    record {
      p = q.p;
      z = q.z;
      up = q.up;
      run = rw (child-ok Side.left held, ne→false b null ne_b) q.run;
      inside = omega (arith, q.inside);
      right = q.right;
      filled = q.filled;
      unfilled = q.unfilled;
      right_inside = elim q.right_inside [ inl e ↦ inl e | inr le ↦ inr (omega (arith, le)) ];
      above = q.above;
      above_inside = elim q.above_inside [
        | inl (e, top, spot) ↦ inr (omega (arith, at_eq q.up a e), λ u. rw e (spot a))
        | inr (le, spot) ↦ inr (omega (arith, le), λ u. spot a)
      ];
    }

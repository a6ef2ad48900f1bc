-- ===== src/Rbtree/Focus/Frame.antt =====
-- What stays when memory changes elsewhere, and the two changes at the edge of a subtree: its root
-- gets another parent, or what is around it another child.
use fping.Base.{◌%◌, ◌≤◌, ◌≡◌, ◌≢◌, refl, ◌==◌, true, false, not, some, arith, ◌∙◌, sym}
use fping.Rbtree.{Ptr, null, Side, Heap, write, set_parent, when}
use fping.Rbtree.Rotate.{relink}
use fping.Rbtree.Shape.{
  Color, Tree, leaf, node, Ctx, top, frame, ptr, owner, at_self, count, count_ctx,
}
use fping.Rbtree.Focus.{cell, Nodes, Rep, Around}
use fping.Rbtree.Focus.Holds.{put, Holds, child-ok, child-other-ok, set_child-ok, set_parent-ok}

pub Rep-same :
    (t : Tree) (h g : Nodes) (up : Ptr)
    → ((q : Ptr) → 1 ≤ count q t → g q ≡ h q)
    → Rep h up t
    → Rep g up t
Rep-same leaf h g up same r = tt
Rep-same (node c l a r) h g up same (is, e, x, y) = (
  is,
  same a (omega (arith, at_self a)) ∙ e,
  Rep-same l h g a (λ q i. same q (omega arith)) x,
  Rep-same r h g a (λ q i. same q (omega arith)) y,
)

pub Around-same :
    (k : Ctx) (h g : Nodes) (root p : Ptr)
    → ((q : Ptr) → 1 ≤ count_ctx q k → g q ≡ h q)
    → Around h root k p
    → Around g root k p
Around-same top h g root p same r = r
Around-same (frame s c a sibling up) h g root p same (is, e, x, y) = (
  is,
  same a (omega (arith, at_self a)) ∙ e,
  Rep-same sibling h g a (λ q i. same q (omega arith)) x,
  Around-same up h g root a (λ q i. same q (omega arith)) y,
)

pub owner_aligned : (k : Ctx) (h : Nodes) (root p : Ptr) → Around h root k p → owner k % 4 ≡ 0
owner_aligned top h root p r = omega arith
owner_aligned (frame s c a sibling up) h root p r = r.0.aligned

pub ptr-ne_null :
    (c : Color) (l : Tree) (a : Ptr) (r : Tree) (h : Nodes) (up : Ptr)
    → Rep h up (node c l a r)
    → (a == null) ≡ false
ptr-ne_null c l a r h up rep = ground (arith, rep.0.ne_null)

-- the root of a subtree is no address outside it
pub ptr-ne : (t : Tree) (h : Nodes) (up p : Ptr) → p ≢ null → count p t ≡ 0 → ptr t ≢ p
ptr-ne leaf h up p ne none_there = λ e. ne (sym e)
ptr-ne (node c l a r) h up p ne none_there = λ e. absurd (ground arith)

-- a subtree whose root, if it has one, gets the parent `q`
pub record Moved (h : Heap) (q : Ptr) (t : Tree) (g : Heap) : Type 0 where
  pub rep : Rep g.nodes q t
  pub same : (r : Ptr) → count r t ≡ 0 → g.nodes r ≡ h.nodes r
  pub root : g.root ≡ h.root

pub reparent :
    (t : Tree) (h : Heap) (up q : Ptr)
    → up % 4 ≡ 0
    → ((r : Ptr) → count r t ≤ 1)
    → Rep h.nodes up t
    → (g : Heap) × (when (not (ptr t == null)) (set_parent (ptr t) q) h ≡ some (tt, g))
      × Moved h q t g
unfolding write
reparent leaf h up q aligned once r =
    (h, refl, record { rep = tt; same = λ r i. refl; root = refl })
reparent (node c l a r) h up q aligned once (is, e, x, y) =
    let holds : Holds Side.left h a up c (ptr l) (ptr r) = record {
      is = is;
      holds = e;
      aligned = aligned;
    } in
    let g = put h a (cell Side.left q c (ptr l) (ptr r)) in
    (
      g,
      rw (ptr-ne_null c l a r h.nodes up (is, e, x, y)) (set_parent-ok Side.left q holds),
      record {
        rep = (
          is,
          ground arith,
          Rep-same l h.nodes g.nodes a (λ b i. ground (arith, once b)) x,
          Rep-same r h.nodes g.nodes a (λ b i. ground (arith, once b)) y,
        );
        same = λ b i. ground arith;
        root = refl;
      },
    )

-- memory with the address `r` in the hole
abbrev pub hooked : Ctx → Ptr → Heap → Heap
hooked top r h = record h { root = r }
hooked (frame s c a sibling up) r h = put h a (cell s (owner up) c r (ptr sibling))

pub frame-Holds :
    (s : Side) (c : Color) (a : Ptr) (sibling : Tree) (up : Ctx) (h : Heap) (p : Ptr)
    → Around h.nodes h.root (frame s c a sibling up) p
    → Holds s h a (owner up) c p (ptr sibling)
frame-Holds s c a sibling up h p (is, e, x, y) = record {
  is = is;
  holds = e;
  aligned = owner_aligned up h.nodes h.root a y;
}

pub relink-hooked :
    (s : Side) (k : Ctx) (h : Heap) (p r : Ptr)
    → p ≢ null
    → count_ctx p k ≡ 0
    → Around h.nodes h.root k p
    → relink s (owner k) p r h ≡ some (tt, hooked k r h)
unfolding relink
relink-hooked s top h p r ne out x = refl
relink-hooked Side.left (frame Side.left c a sibling up) h p r ne out x =
    let e = frame-Holds Side.left c a sibling up h p x in
    let nn : (a == null) ≡ false = ground (arith, x.0.ne_null) in
    let eq : (p == p) ≡ true = ground arith in
    rw (nn, child-ok Side.left e, eq) (set_child-ok Side.left r e)
relink-hooked Side.right (frame Side.right c a sibling up) h p r ne out x =
    let e = frame-Holds Side.right c a sibling up h p x in
    let nn : (a == null) ≡ false = ground (arith, x.0.ne_null) in
    let eq : (p == p) ≡ true = ground arith in
    rw (nn, child-ok Side.right e, eq) (set_child-ok Side.right r e)
relink-hooked Side.left (frame Side.right c a sibling up) h p r ne out x =
    let e = frame-Holds Side.right c a sibling up h p x in
    let nn : (a == null) ≡ false = ground (arith, x.0.ne_null) in
    let ne : (ptr sibling == p) ≡ false =
      ground (arith, ptr-ne sibling h.nodes a p ne (ground arith)) in
    rw (nn, child-other-ok Side.right e, ne) (set_child-ok Side.right r e)
relink-hooked Side.right (frame Side.left c a sibling up) h p r ne out x =
    let e = frame-Holds Side.left c a sibling up h p x in
    let nn : (a == null) ≡ false = ground (arith, x.0.ne_null) in
    let ne : (ptr sibling == p) ≡ false =
      ground (arith, ptr-ne sibling h.nodes a p ne (ground arith)) in
    rw (nn, child-other-ok Side.left e, ne) (set_child-ok Side.left r e)

pub hooked-Around :
    (k : Ctx) (h : Heap) (p r : Ptr)
    → ((q : Ptr) → count_ctx q k ≤ 1)
    → Around h.nodes h.root k p
    → Around (hooked k r h).nodes (hooked k r h).root k r
unfolding write
hooked-Around top h p r once x = refl
hooked-Around (frame s c a sibling up) h p r once (is, e, x, y) = (
  is,
  ground arith,
  Rep-same sibling h.nodes _ a (λ q i. ground (arith, once q)) x,
  Around-same up h.nodes _ h.root a (λ q i. ground (arith, once q)) y,
)

pub hooked_same :
    (k : Ctx) (r : Ptr) (h : Heap) (q : Ptr)
    → count_ctx q k ≡ 0
    → (hooked k r h).nodes q ≡ h.nodes q
unfolding write
hooked_same top r h q out = refl
hooked_same (frame s c a sibling up) r h q out = ground arith

-- ===== src/Rbtree/Remove/Next.antt =====
-- The next node below a node with two children: the leftmost one on its right.
use fping.Base.{
  ℕ, zero, suc, ◌%◌, ◌≤◌, ◌<◌, ◌≡◌, refl, ne→false, some, ◌∷◌, ◌++◌, arith, ◌∙◌, sym, ap,
}
use fping.Rbtree.{Ptr, null, Side, Heap, child}
use fping.Rbtree.Shape.{
  Color, ptr-join, Tree, leaf, node, join, Ctx, top, frame, plug, ptr, inorder, size, count_ctx,
  at_self,
}
use fping.Rbtree.Focus.{Rep-join, join-Rep, cell, Nodes, Rep, Focus, Focus-down}
use fping.Rbtree.Focus.Holds.{load-ok}
use fping.Rbtree.Focus.Frame.{Rep-same}
use fping.Rbtree.Walk.{descend}

-- a hole in a subtree, with what is around the subtree
abbrev pub stack : Ctx → Ctx → Ctx
stack top k = k
stack (frame s c a y up) k = frame s c a y (stack up k)

pub plug-stack : (j k : Ctx) (t : Tree) → plug (stack j k) t ≡ plug k (plug j t)
plug-stack top k t = refl
plug-stack (frame s c a y up) k t = plug-stack up k (join s c t a y)

pub Focus-stack : (j k : Ctx) (t : Tree) {h : Heap} → Focus h k (plug j t) → Focus h (stack j k) t
Focus-stack top k t f = f
Focus-stack (frame s c a y up) k t f = Focus-down s (Focus-stack up k (join s c t a y) f)

-- the hole is on the left of its parent
abbrev pub IsLeft : Ctx → Type 0
IsLeft top = Unit {0}
IsLeft (frame Side.left c a y up) = Unit {0}
IsLeft (frame Side.right c a y up) = ⊥

-- the first node `m` of a tree
pub record Leftmost (t : Tree) : Type 0 where
  pub k : Ctx
  pub c : Color
  pub m : Ptr
  pub z : Tree
  pub whole : plug k (node c leaf m z) ≡ t
  pub left : IsLeft k
  pub order : m ∷ inorder (plug k z) ≡ inorder t

IsLeft-stack : (j k : Ctx) → IsLeft j → IsLeft k → IsLeft (stack j k)
IsLeft-stack top k hj hk = hk
IsLeft-stack (frame Side.left c a y up) k hj hk = tt
IsLeft-stack (frame Side.right c a y up) k hj hk = hj

-- the inner loop of `ks_rb_erase`
pub descend-Leftmost :
    (fuel : ℕ) (c : Color) (l : Tree) (a : Ptr) (r : Tree) (h : Heap) (up : Ptr)
    → size (node c l a r) < fuel
    → Rep h.nodes up (node c l a r)
    → (i : Leftmost (node c l a r)) × (descend Side.left fuel a h ≡ some (i.m, h))
unfolding descend child
descend-Leftmost zero c l a r h up lt rep = absurd (omega arith)
descend-Leftmost (suc fuel) c leaf a r h up lt (is, e, x, y) = (
  record { k = top; c = c; m = a; z = r; whole = refl; left = tt; order = refl },
  rw (load-ok h a _ is e) refl,
)
descend-Leftmost (suc fuel) c (node d x b y) a r h up lt (is, e, rl, rr) =
    let (i, run) = descend-Leftmost fuel d x b y h a (omega arith) rl in
    let j = frame Side.left c a r top in
    (
      record {
        k = stack i.k j;
        c = i.c;
        m = i.m;
        z = i.z;
        whole = plug-stack i.k j (node i.c leaf i.m i.z) ∙ ap (λ t. node c t a r) i.whole;
        left = IsLeft-stack i.k j i.left tt;
        order =
            ap (λ t. i.m ∷ inorder t) (plug-stack i.k j i.z)
            ∙ ap (λ l. l ++ (a ∷ inorder r)) i.order;
      },
      rw (load-ok h a _ is e, ne→false b null rl.0.ne_null) run,
    )

-- the parent of what is in the hole, where the subtree around it has the parent `b`
abbrev pub owner_in : Ptr → Ctx → Ptr
owner_in b top = b
owner_in b (frame s c a y up) = a

-- a part of a subtree in memory, and the subtree again when the part has changed
pub record Part (h : Nodes) (b : Ptr) (k : Ctx) (t : Tree) : Type 0 where
  pub rep : Rep h (owner_in b k) t
  pub aligned : owner_in b k % 4 ≡ 0
  pub back :
      (g : Nodes) (t' : Tree)
      → ptr t' ≡ ptr t
      → ((q : Ptr) → 1 ≤ count_ctx q k → g q ≡ h q)
      → Rep g (owner_in b k) t'
      → Rep g b (plug k t')

pub Rep-Part :
    (h : Nodes) (b : Ptr) (k : Ctx) (t : Tree) → b % 4 ≡ 0 → Rep h b (plug k t) → Part h b k t
Rep-Part h b top t al r = record { rep = r; aligned = al; back = λ g t' e same r'. r' }
Rep-Part h b (frame s c a y up) t al r =
    let p = Rep-Part h b up (join s c t a y) al r in
    let (is, e, rt, ry) = Rep-join s h (owner_in b up) c t a y p.rep in
    record {
      rep = rt;
      aligned = is.aligned;
      back = λ g t' pe same r'.
          p.back g (join s c t' a y) (ptr-join s c t' a y ∙ sym (ptr-join s c t a y))
            (λ q i. same q (omega arith))
            (join-Rep s g (owner_in b up) c t' a y (
              is,
              same a (omega (arith, at_self a))
                  ∙ e
                  ∙ ap (λ v. some (cell s (owner_in b up) c v (ptr y))) (sym pe),
              r',
              Rep-same y h g a (λ q i. same q (omega arith)) ry,
            ));
    }

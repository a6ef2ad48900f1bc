-- ===== src/Table/Delete.antt =====
-- `table_del` takes one entry out of the table.
use fping.Base.{
  ℕ, suc, ◌≤◌, ◌≡◌, refl, ◌==◌, Bool-cases, inl, inr, some, List, [], ◌∷◌, map, length, All, arith,
  ℤ, ◌∙◌, sym, ap, subst,
}
use fping.Result.{Key}
use fping.Rbtree.{Ptr, Side}
use fping.Rbtree.Shape.{Color, Tree, leaf, node, Ctx, top, frame, plug, inorder, size, count, at}
use fping.Rbtree.Shape.Balance.{IsBalanced}
use fping.Rbtree.Shape.Order.{occurs, count-occurs, size-length}
use fping.Rbtree.Focus.{Focus}
use fping.Rbtree.Focus.Paint.{Focus-unplug}
use fping.Rbtree.Walk.{for_each}
use fping.Rbtree.Walk.Next.{for_each-inorder}
use fping.Rbtree.Remove.Order.{remove}
use fping.Rbtree.Remove.Next.{stack, plug-stack}
use fping.Rbtree.Remove.Whole.{erase-Ends}
use fping.Table.{Above}
use fping.Table.Sorted.{IsSorted}
use fping.Table.Tree.{Table, table_del}
use fping.Table.Search.{entry}
use fping.Table.Meets.{Represents}

-- where a node is in its tree
record Found (t : Tree) (a : Ptr) : Type 0 where
  k : Ctx
  c : Color
  l : Tree
  r : Tree
  whole : plug k (node c l a r) ≡ t

count-Found : (t : Tree) (a : Ptr) → 1 ≤ count a t → Found t a
count-Found leaf a there = absurd (omega arith)
count-Found (node c l b r) a there = elim (Bool-cases (a == b)) [
  | inl same ↦
      let e : a ≡ b = ground arith in
      record { k = top; c = c; l = l; r = r; whole = ap (λ q. node c l q r) e }
  | inr apart ↦
      let out : at a b ≡ 0 = rw apart refl in
      elim (Bool-cases (count a l == 0)) [
        | inl none_left ↦
            let nl : count a l ≡ 0 = ground arith in
            let i = count-Found r a (omega (arith, there, out, nl)) in
            let j = frame Side.right c b l top in
            record {
              k = stack i.k j;
              c = i.c;
              l = i.l;
              r = i.r;
              whole = plug-stack i.k j (node i.c i.l a i.r) ∙ ap (λ t. node c l b t) i.whole;
            }
        | inr left ↦
            let i = count-Found l a (ground arith) in
            let j = frame Side.left c b r top in
            record {
              k = stack i.k j;
              c = i.c;
              l = i.l;
              r = i.r;
              whole = plug-stack i.k j (node i.c i.l a i.r) ∙ ap (λ t. node c t b r) i.whole;
            }
      ]
]

occurs-remove : (q a : Ptr) (l : List Ptr) → occurs q (remove a l) ≤ occurs q l
unfolding remove
occurs-remove q a [] = omega arith
occurs-remove q a (b ∷ l) = elim (Bool-cases (a == b)) [
  | inl same ↦ rw same (omega (arith, occurs-remove q a l))
  | inr apart ↦ rw apart (omega (arith, occurs-remove q a l))
]

length-remove : (a : Ptr) (l : List Ptr) → length (remove a l) ≤ length l
unfolding remove
length-remove a [] = omega arith
length-remove a (b ∷ l) = elim (Bool-cases (a == b)) [
  | inl same ↦ rw same (omega (arith, length-remove a l))
  | inr apart ↦ rw apart (omega (arith, length-remove a l))
]

module _ (strcmp : Key → Key → ℤ) (t : Table) where
  pairs : List Ptr → List (Key × ℕ)
  pairs ps = map (entry t.keys t.values) ps

  All-remove :
      (P : Key × ℕ → Type 0) (a : Ptr) (ps : List Ptr)
      → All P (pairs ps)
      → All P (pairs (remove a ps))
  unfolding remove pairs
  All-remove P a [] h = tt
  All-remove P a (b ∷ ps) h = elim (Bool-cases (a == b)) [
    | inl same ↦ rw same (All-remove P a ps h.1)
    | inr apart ↦ rw apart (h.0, All-remove P a ps h.1)
  ]

  remove-IsSorted :
      (a : Ptr) (ps : List Ptr) → IsSorted strcmp (pairs ps) → IsSorted strcmp (pairs (remove a ps))
  unfolding remove pairs
  remove-IsSorted a [] h = tt
  remove-IsSorted a (b ∷ ps) h = elim (Bool-cases (a == b)) [
    | inl same ↦ rw same (remove-IsSorted a ps h.1)
    | inr apart ↦
        rw apart (All-remove (λ e. Above strcmp (t.keys b) e.0) a ps h.0, remove-IsSorted a ps h.1)
  ]

  -- For a table that represents a sorted list, and one of its entries: `table_del` ends; where
  -- `table_for_each` came to the entries `ps` before, the table then represents the keys and values of
  -- `ps` without that entry, in the same order.
  pub table_del-Represents :
      (l : List (Key × ℕ)) (used : List ℕ) (te : Ptr) (rep : Represents strcmp t l used)
      → 1 ≤ count te rep.tree
      → (ps : List Ptr) × (for_each (suc t.added) t.heap ≡ some (ps, t.heap))
        × ((t' : Table) × (table_del t te ≡ some t')
            × Represents strcmp t' (map (entry t.keys t.values) (remove te ps)) used)
  unfolding table_del pairs
  table_del-Represents l used te rep there =
      let i = count-Found rep.tree te there in
      let back = sym i.whole in
      let ps = inorder rep.tree in
      let (g, run, w, fw, bw, ow) =
        erase-Ends (suc (suc t.added)) i.k i.c i.l te i.r t.heap
          (omega (arith, rep.small, ap size i.whole)) (subst IsBalanced back rep.balanced)
          (Focus-unplug i.k (node i.c i.l te i.r) (subst (Focus t.heap top) back rep.focus)) in
      let order : inorder w ≡ remove te ps = ow ∙ ap (λ v. remove te (inorder v)) i.whole in
      let sorted : IsSorted strcmp (pairs ps) =
        subst (IsSorted strcmp) (sym rep.listed) rep.sorted in
      (
        ps,
        for_each-inorder t.heap rep.tree (suc t.added) rep.focus (omega (arith, rep.small)),
        (
          record t { heap = g },
          rw run refl,
          record {
            tree = w;
            focus = fw;
            balanced = bw;
            listed = ap (map (entry t.keys t.values)) order;
            sorted = remove-IsSorted te ps sorted;
            small = omega (
              arith,
              rep.small,
              size-length w,
              ap length order,
              length-remove te ps,
              size-length rep.tree,
            );
            within = λ q i. rep.within q (
                omega (
                  arith,
                  i,
                  count-occurs q w,
                  ap (occurs q) order,
                  occurs-remove q te ps,
                  count-occurs q rep.tree,
                ));
          },
        ),
      )

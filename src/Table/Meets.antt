-- ===== src/Table/Meets.antt =====
-- The tree of table.c meets the contract of the table.
use fping.Base.{
  ℕ, suc, ◌%◌, ◌≤◌, ◌≡◌, ◌≢◌, refl, ◌==◌, true, false, Bool-cases, inl, inr, none, some, List, ◌∷◌,
  map, arith, ℤ, ◌∙◌, sym, ap, subst,
}
use mathlib.Core.List.{Mem, mem-cons}
use mathlib.Core.Logic.Or
use fping.Result.{Key}
use fping.Rbtree.{Ptr}
use fping.Rbtree.Shape.{size, at, red, Tree, leaf, node, Ctx, top, inorder, count}
use fping.Rbtree.Shape.Order.{count_of_inorder, size_of_inorder}
use fping.Rbtree.Shape.Balance.{IsBalanced}
use fping.Rbtree.Focus.{IsNode, Focus}
use fping.Rbtree.Focus.Paint.{Focus-unplug}
use fping.Table.{IsTable, IsOrder, lookup, insert}
use fping.Table.Sorted.{IsSorted, insert-IsSorted}
use fping.Table.Tree.{Table, attach, table_add, fill, tree_table}
use fping.Table.Search.{
  grow, size-grow, count-grow, find, Vacant, place-cases, entry, entries, entries-node, lookup-find,
  entries-grow, value_of,
}
use fping.Table.Place.{answer, find_place-place, attach-Focus}

-- the table `t` holds the pairs `l` in a balanced tree, whose entries are at addresses in `used`
pub record Represents (strcmp : Key → Key → ℤ) (t : Table) (l : List (Key × ℕ)) (used : List ℕ)
    : Type 0 where
  pub tree : Tree
  pub focus : Focus t.heap top tree
  pub balanced : IsBalanced tree
  pub listed : entries t.keys t.values tree ≡ l
  pub sorted : IsSorted strcmp l
  pub small : size tree ≤ t.added
  pub within : (q : Ptr) → 1 ≤ count q tree → Mem q used

entries-fill :
    (t : Table) (te : Ptr) (k : Key) (v : ℕ) (tree : Tree)
    → count te tree ≡ 0
    → entries (fill t te k v).keys (fill t te k v).values tree ≡ entries t.keys t.values tree
entries-fill t te k v leaf out = refl
entries-fill t te k v (node c l a r) out =
    let g = fill t te k v in
    entries-node g.keys g.values c l a r
    ∙ ground (arith, entries-fill t te k v l, entries-fill t te k v r)
    ∙ sym (entries-node t.keys t.values c l a r)

-- The places at which a table has entries do not have a fresh one.
count_of_fresh :
    (strcmp : Key → Key → ℤ) (t : Table) (l : List (Key × ℕ)) (used : List ℕ) (te : Ptr)
    (rep : Represents strcmp t l used)
    → ¬ Mem te used
    → count te rep.tree ≡ 0
count_of_fresh strcmp t l used te rep fresh = elim (Bool-cases (count te rep.tree == 0)) [
  | inl none_there ↦ ground arith
  | inr there ↦ absurd (fresh (rep.within te (ground arith)))
]

module _ (strcmp : Key → Key → ℤ) (order : IsOrder strcmp) where
  -- the tree with the new entry, as the sorted list has it
  module _ (t : Table) (l : List (Key × ℕ)) (used : List ℕ) (te : ℕ) (k : Key) (v : ℕ)
      (rep : Represents strcmp t l used) (fresh : ¬ Mem te used) where
    filled : Table
    filled = fill t te k v

    Grown : Tree → Type 0
    Grown tree' = inorder tree' ≡ inorder (grow strcmp (filled.keys) k red te rep.tree)

    filled-entries : entries filled.keys filled.values rep.tree ≡ l
    unfolding filled
    filled-entries =
        entries-fill t te k v rep.tree (count_of_fresh strcmp t l used te rep fresh) ∙ rep.listed

    filled_key : filled.keys te ≡ k
    unfolding filled
    filled_key = ground arith

    filled_value : filled.values te ≡ v
    unfolding filled
    filled_value = ground arith

    filled-IsSorted : IsSorted strcmp (entries filled.keys filled.values rep.tree)
    filled-IsSorted = subst (IsSorted strcmp) (sym filled-entries) rep.sorted

    filled-lookup :
        lookup strcmp k l
        ≡ value_of strcmp order filled.keys filled.values k (find strcmp filled.keys k rep.tree)
    filled-lookup =
        ap (lookup strcmp k) (sym filled-entries)
        ∙ lookup-find strcmp order filled.keys filled.values k rep.tree filled-IsSorted

    Grown-entries :
        (tree' : Tree)
        → Grown tree'
        → find strcmp filled.keys k rep.tree ≡ none
        → entries filled.keys filled.values tree' ≡ insert strcmp k v l
    unfolding Grown
    Grown-entries tree' e new =
        ap (map (entry filled.keys filled.values)) e
        ∙ entries-grow strcmp order filled.keys filled.values k red te rep.tree filled_key new
            filled-IsSorted
        ∙ rw (filled_value, filled-entries) refl

    Grown-within : (tree' : Tree) → Grown tree' → (q : Ptr) → 1 ≤ count q tree' → Mem q (te ∷ used)
    unfolding Grown
    Grown-within tree' e q there = elim (Bool-cases (q == te)) [
      | inl same ↦ mem-cons.1 (Or.inl (ground arith))
      | inr ne ↦
          let zero_at : at q te ≡ 0 = rw ne refl in
          mem-cons.1 (
            Or.inr (
              rep.within q (
                omega (
                  arith,
                  count_of_inorder q tree' (grow strcmp filled.keys k red te rep.tree) e,
                  count-grow strcmp filled.keys k red te q rep.tree,
                ))))
    ]

    Grown-size : (tree' : Tree) → Grown tree' → size tree' ≤ suc t.added
    unfolding Grown
    Grown-size tree' e = omega (
      arith,
      size_of_inorder tree' (grow strcmp filled.keys k red te rep.tree) e,
      size-grow strcmp filled.keys k red te rep.tree,
      rep.small,
    )

  add-Vacant :
      (t : Table) (l : List (Key × ℕ)) (used : List ℕ) (te : ℕ) (k : Key) (v : ℕ)
      (rep : Represents strcmp t l used) (fresh : ¬ Mem te used)
      → te ≢ 0
      → te % 4 ≡ 0
      → lookup strcmp k l ≡ none
      → (up : Ctx) → Vacant strcmp (filled t l used te k v rep fresh).keys k rep.tree top up
      → (t' : Table) × (table_add strcmp (fill t te k v) te ≡ some (t', true))
        × Represents strcmp t' (insert strcmp k v l) (te ∷ used)
  unfolding table_add filled Grown
  add-Vacant t l used te k v rep fresh ne aligned new up vacant_up =
      let g = filled t l used te k v rep fresh in
      let is : IsNode te = record { ne_null = ne; aligned = aligned } in
      let f = Focus-unplug up leaf (subst (Focus t.heap top) (sym vacant_up.same) rep.focus) in
      let (h, run, tree', f', balanced, order') =
        attach-Focus (suc t.added) up te t.heap rep.tree (omega (arith, vacant_up.deep, rep.small))
          is vacant_up.same (count_of_fresh strcmp t l used te rep fresh) rep.balanced f in
      let grown = order' ∙ ap inorder (vacant_up.grown red te) in
      let searched =
        find_place-place strcmp g.keys k (suc t.added) rep.tree top t.heap
          (omega (arith, rep.small)) rep.focus
        ∙ ap (λ p. some (answer p, t.heap)) vacant_up.ends in
      (
        record g { heap = h; added = suc t.added },
        rw (filled_key t l used te k v rep fresh, searched, run) refl,
        record {
          tree = tree';
          focus = f';
          balanced = balanced;
          listed = Grown-entries t l used te k v rep fresh tree' grown vacant_up.unknown;
          sorted = insert-IsSorted strcmp order k v l rep.sorted new;
          small = Grown-size t l used te k v rep fresh tree' grown;
          within = Grown-within t l used te k v rep fresh tree' grown;
        },
      )

  add_new :
      (t : Table) (l : List (Key × ℕ)) (used : List ℕ) (te : ℕ) (k : Key) (v : ℕ)
      → Represents strcmp t l used
      → te ≢ 0
      → te % 4 ≡ 0
      → ¬ Mem te used
      → lookup strcmp k l ≡ none
      → (t' : Table) × (table_add strcmp (fill t te k v) te ≡ some (t', true))
        × Represents strcmp t' (insert strcmp k v l) (te ∷ used)
  unfolding filled
  add_new t l used te k v rep ne aligned fresh new =
      elim (place-cases strcmp (fill t te k v).keys k rep.tree top) [
        | inl (up, vacant_up) ↦ add-Vacant t l used te k v rep fresh ne aligned new up vacant_up
        | inr (a, ends, found) ↦
            let known = filled-lookup t l used te k v rep fresh in
            absurd (ground (arith, known, found))
      ]

  add_known :
      (t : Table) (l : List (Key × ℕ)) (used : List ℕ) (te : ℕ) (k : Key) (v w : ℕ)
      → Represents strcmp t l used
      → ¬ Mem te used
      → lookup strcmp k l ≡ some w
      → (t' : Table) × (table_add strcmp (fill t te k v) te ≡ some (t', false))
        × Represents strcmp t' l used
  unfolding table_add filled attach
  add_known t l used te k v w rep fresh known =
      let g = fill t te k v in
      elim (place-cases strcmp g.keys k rep.tree top) [
        | inl (up, vacant_up) ↦
            let unknown = filled-lookup t l used te k v rep fresh in
            absurd (ground (arith, unknown, vacant_up.unknown))
        | inr (a, ends, found) ↦
            let searched =
              find_place-place strcmp g.keys k (suc t.added) rep.tree top t.heap
                (omega (arith, rep.small)) rep.focus
              ∙ ap (λ p. some (answer p, t.heap)) ends in
            (
              record g { added = suc t.added },
              rw (filled_key t l used te k v rep fresh, searched) refl,
              record {
                tree = rep.tree;
                focus = rep.focus;
                balanced = rep.balanced;
                listed = filled-entries t l used te k v rep fresh;
                sorted = rep.sorted;
                small = omega (arith, rep.small);
                within = rep.within;
              },
            )
      ]

  -- Where `strcmp` orders the strings, the table of table.c, a balanced tree in memory, meets the contract
  -- of a sorted list: `table_init` gives the empty one; `table_add` of an entry at an aligned address
  -- that is not in use yet ends, with true and the entry in its place for a new key, and with false and
  -- the list as it was for a known one.
  pub tree_table-IsTable : IsTable (tree_table strcmp) strcmp (Represents strcmp)
  tree_table-IsTable = record {
    init_empty = record {
      tree = leaf;
      focus = record { around = refl; inside = tt; once = λ q. omega arith };
      balanced = record { root_black = refl; no_red_red = tt; height = 0; has_height = refl };
      listed = refl;
      sorted = tt;
      small = omega arith;
      within = λ q there. absurd (omega arith);
    };
    add_new = λ t l used te k v rep ne aligned fresh new.
        add_new t l used te k v rep ne aligned fresh new;
    add_known = λ t l used te k v w rep fresh known. add_known t l used te k v w rep fresh known;
  }

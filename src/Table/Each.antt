-- ===== src/Table/Each.antt =====
-- `table_for_each` over a table of table.c, and `result_new` with that table.
use fping.Base.{
  ℕ, suc, ◌≡◌, Bool, true, false, some, List, [], ◌∷◌, ◌++◌, map, All, arith, refl, subst, ne→false,
  ℤ, pos,
}
use fping.Result.{Key}
use fping.Result.New.{Build, result_new}
use fping.Result.New.Hosts.{IsText, buffer, hosts, IsPool, IsEntry, result_new-hosts}
use fping.Recv.{Store}
use fping.Rbtree.{Ptr, null, empty_root}
use fping.Rbtree.Shape.{Tree, leaf, node, top, inorder}
use fping.Rbtree.Focus.{Focus}
use fping.Rbtree.Walk.{for_each}
use fping.Rbtree.Walk.Next.{for_each-inorder}
use fping.Table.{IsOrder}
use fping.Table.Tree.{Table, tree_table, table_empty}
use fping.Table.Search.{entry, entries, entries-node}
use fping.Table.Meets.{Represents, tree_table-IsTable}

-- For a table that represents a sorted list: `table_for_each` ends, and comes to entries whose keys and
-- values are that list, in its order.
pub for_each-entries :
    (strcmp : Key → Key → ℤ) (t : Table) (l : List (Key × ℕ)) (used : List ℕ)
    → Represents strcmp t l used
    → (ps : List Ptr) × (for_each (suc t.added) t.heap ≡ some (ps, t.heap))
      × (map (entry t.keys t.values) ps ≡ l)
for_each-entries strcmp t l used rep = (
  inorder rep.tree,
  for_each-inorder t.heap rep.tree (suc t.added) rep.focus (omega (arith, rep.small)),
  rep.listed,
)

-- no pair is left
abbrev pub is_empty_list : List (Key × ℕ) → Bool
is_empty_list [] = true
is_empty_list (e ∷ l) = false

is_empty_list-append : (l m : List (Key × ℕ)) (e : Key × ℕ) → is_empty_list (l ++ (e ∷ m)) ≡ false
is_empty_list-append [] m e = refl
is_empty_list-append (d ∷ l) m e = refl

table_empty-entries :
    (t : Table) (w : Tree)
    → Focus t.heap top w
    → table_empty t.heap ≡ some (is_empty_list (entries t.keys t.values w), t.heap)
unfolding empty_root
table_empty-entries t leaf f = rw f.around refl
table_empty-entries t (node c l a r) f = rw (entries-node t.keys t.values c l a r) (
    rw
      (
        f.around,
        ne→false a null f.inside.0.ne_null,
        is_empty_list-append (entries t.keys t.values l) (entries t.keys t.values r)
            (t.keys a, t.values a),
      )
      refl)

-- For a table that represents a sorted list, `table_empty` says whether the list is empty.
pub table_empty-Represents :
    (strcmp : Key → Key → ℤ) (t : Table) (l : List (Key × ℕ)) (used : List ℕ)
    → Represents strcmp t l used
    → table_empty t.heap ≡ some (is_empty_list l, t.heap)
table_empty-Represents strcmp t l used rep =
    subst (λ m. table_empty t.heap ≡ some (is_empty_list m, t.heap)) rep.listed
      (table_empty-entries t rep.tree rep.focus)

-- With the table of table.c, a `strcmp` that orders the strings and a pool that has memory: `result_new`
-- returns 0 for every input of C strings, and `table_for_each` over its table comes to the hosts of the
-- lines in their order, a repeated word once, whose objects are filled with their addresses.
pub result_new-for_each :
    (isspace : ℕ → Bool) (inet_addr : Key → ℕ) (alloc : ℕ → ℕ) (strcmp : Key → Key → ℤ)
    → IsOrder strcmp
    → IsPool alloc
    → (lines : List (List ℕ × List ℕ)) (st : Store) → All IsText lines
    → let hs = hosts isspace inet_addr alloc strcmp lines 1 [] in
      (s : Build Table) × (result_new
          (tree_table strcmp)
          isspace
          inet_addr
          alloc
          true
          true
          (map buffer lines)
          st
        ≡ some (pos 0, some s))
      × ((ps : List Ptr) × (for_each (suc s.table.added) s.table.heap ≡ some (ps, s.table.heap))
          × (map (entry s.table.keys s.table.values) ps ≡ hs))
      × All (IsEntry inet_addr s.store) hs
result_new-for_each isspace inet_addr alloc strcmp order pool lines st texts =
    let (s, run, (used, rep), filled) =
      result_new-hosts (tree_table strcmp) isspace inet_addr alloc strcmp (Represents strcmp)
        (tree_table-IsTable strcmp order) pool lines st texts in
    (s, run, for_each-entries strcmp s.table _ used rep, filled)

-- ===== src/Table/Tree.antt =====
-- table.c: a table whose entries are the nodes of a red-black tree. An entry has its node in front, so
-- both have the same address; `strcmp` is a parameter.
use fping.Base.{
  ℕ, zero, suc, ◌==◌, if◌then◌else◌, Bool, true, false, Option, none, some, [], ℤ, pos, ltb_ℤ,
}
use fping.Result.{Key}
use fping.Rbtree.{
  Ptr, null, Side, Heap, M, ◌>>=◌, ◌>>◌, pure, fault, load, child, Link, at_root, at_child, deref,
  link_node, rb_entry, empty_tree, empty_root,
}
use fping.Rbtree.Insert.{insert_color}
use fping.Rbtree.Remove.{erase}
use fping.Table.{TableOps}

-- The nodes and the root, the fields `k` and `v` of the entries, and how many entries have been added:
-- the table has no such field, its loops have their fuel from it.
pub record Table : Type 0 where
  pub heap : Heap
  pub keys : Ptr → Key
  pub values : Ptr → ℕ
  pub added : ℕ

-- the member `node` of an entry
abbrev pub node_offset : ℕ
node_offset = 0

-- where a search ends: at an entry, or at an empty place below `parent`
pub data Search : Type 0 where
  vacant : Link → Ptr → Search
  taken : Ptr → Search

-- the calls behind the loop
unfoldable pub attach : ℕ → Ptr → Search → M Bool
attach fuel te (taken node) = pure false
attach fuel te (vacant p parent) = do link_node te parent p; insert_color fuel te; pure true

-- `table_init`; Lock has what it does for the lock
abbrev pub table_init : Table
table_init = record {
  heap = record { nodes = λ p. none; root = empty_tree };
  keys = λ p. [];
  values = λ p. 0;
  added = 0;
}

abbrev pub table_empty : M Bool
table_empty = empty_root

-- an entry gets its `k` and `v`
abbrev pub fill : Table → Ptr → Key → ℕ → Table
fill t te k v = record t {
  keys = λ p. if p == te then k else t.keys p;
  values = λ p. if p == te then v else t.values p;
}

-- the table behind a run of `table_add`, with its result
abbrev pub entered : Table → Option (Bool × Heap) → Option (Table × Bool)
entered t none = none
entered t (some (b, h)) = some (record t { heap = h; added = suc t.added }, b)

abbrev pub emptied : Table → Option (Unit {0} × Heap) → Option Table
emptied t none = none
emptied t (some (u, h)) = some (record t { heap = h })

unfoldable pub table_del : Table → Ptr → Option Table
table_del t te = emptied t (erase (suc (suc t.added)) te t.heap)

abbrev pub result_of : Option (Ptr × Heap) → Option Ptr
result_of none = none
result_of (some (p, h)) = some p

module _ (strcmp : Key → Key → ℤ) where
  -- the loop of `table_get` from `node` on
  unfoldable pub get_loop : (Ptr → Key) → Key → ℕ → Ptr → M Ptr
  get_loop keys k zero node = fault
  get_loop keys k (suc fuel) node = if node == null then pure null else (do
    _ ← load node
    let r = strcmp k (keys (rb_entry node node_offset))
    if ltb_ℤ (pos 0) r
        then (do next ← child Side.left node; get_loop keys k fuel next)
        else if ltb_ℤ r (pos 0)
        then (do next ← child Side.right node; get_loop keys k fuel next)
        else pure node)

  unfoldable pub table_get : Table → Key → Option Ptr
  table_get t k = result_of (get_loop t.keys k (suc t.added) t.heap.root t.heap)

  -- the loop of `table_add`, with `p` and `parent`
  unfoldable pub find_place : (Ptr → Key) → Key → ℕ → Link → Ptr → M Search
  find_place keys k zero p parent = fault
  find_place keys k (suc fuel) p parent = do
    node ← deref p
    if node == null then pure (vacant p parent) else (do
      _ ← load node
      let r = strcmp k (keys (rb_entry node node_offset))
      if ltb_ℤ (pos 0) r
          then find_place keys k fuel (at_child Side.left node) node
          else if ltb_ℤ r (pos 0)
          then find_place keys k fuel (at_child Side.right node) node
          else pure (taken node))

  unfoldable pub table_add : Table → Ptr → Option (Table × Bool)
  table_add t te = entered t (
      (do
        place ← find_place t.keys (t.keys te) (suc t.added) at_root null
        attach (suc t.added) te place)
        t.heap)

  abbrev pub tree_table : TableOps Table
  tree_table = record { init = table_init; add = λ t te k v. table_add (fill t te k v) te }

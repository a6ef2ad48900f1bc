-- ===== src/Tests/Tree.antt =====
-- The tree and the table at concrete inputs.
use fping.Base.{
  map, ℕ, ◌+◌, ◌≤◌, ◌≡◌, refl, ltb, ◌==◌, if◌then◌else◌, false, Bool-cases, inl, inr, Option, none,
  some, List, [], ◌∷◌, arith, ℤ, pos, negsuc, ltb_ℤ, nonzero,
}
use fping.Result.{Key}
use fping.Table.{Above, IsOrder, IsTable, lookup}
use fping.Table.Tree.{Table, table_get, tree_table, table_del, get_loop}
use fping.Table.Meets.{Represents, tree_table-IsTable}
use fping.Table.Delete.{table_del-Represents}
use fping.Table.Search.{entry}
use mathlib.Core.List.{Mem, mem-cons}
use mathlib.Core.Logic.Or
use fping.Table.Get.{table_get-lookup}
use fping.Rbtree.{Ptr, null, Side, Node, Heap, load, child}
use fping.Rbtree.Shape.{red, black, Tree, leaf, node, Ctx, top, frame, inorder, paint, count}
use fping.Rbtree.Shape.Balance.{IsBalanced}
use fping.Rbtree.Focus.{IsNode, Focus, cell}
use fping.Rbtree.Remove.{erase}
use fping.Rbtree.Remove.Order.{remove}
use fping.Rbtree.Remove.Whole.{erase-Ends}
use fping.Rbtree.Erase.Exit.{Ends}
use fping.Rbtree.Replace.{replace_node, replace_node-Focus}
use fping.Rbtree.Insert.{insert_color}
use fping.Rbtree.Insert.Fix.{fix}
use fping.Rbtree.Insert.Loop.{insert_color-fix}
use fping.Rbtree.Walk.{for_each}
use fping.Rbtree.Walk.Next.{for_each-inorder}

-- a `strcmp` that compares the bytes
abbrev pub cmp : Key → Key → ℤ
cmp [] [] = pos 0
cmp [] (_ ∷ _) = negsuc 0
cmp (_ ∷ _) [] = pos 1
cmp (a ∷ j) (b ∷ k) = if a == b then cmp j k else if ltb b a then pos 1 else negsuc 0

cmp_zero : (j k : Key) → nonzero (cmp j k) ≡ false → j ≡ k
cmp_zero [] [] e = refl
cmp_zero [] (b ∷ k) e = absurd (ground arith)
cmp_zero (a ∷ j) [] e = absurd (ground arith)
cmp_zero (a ∷ j) (b ∷ k) e = elim (Bool-cases (a == b)) [
  | inl same ↦ ground (arith, cmp_zero j k (rw same at e))
  | inr ne ↦ absurd (ground arith)
]

cmp_self : (j : Key) → nonzero (cmp j j) ≡ false
cmp_self [] = refl
cmp_self (a ∷ j) = ground (arith, cmp_self j)

cmp_swap : (j k : Key) → ltb_ℤ (cmp j k) (pos 0) ≡ ltb_ℤ (pos 0) (cmp k j)
cmp_swap [] [] = refl
cmp_swap [] (b ∷ k) = refl
cmp_swap (a ∷ j) [] = refl
cmp_swap (a ∷ j) (b ∷ k) = ground (arith, cmp_swap j k)

cmp_trans : (i j k : Key) → Above cmp i j → Above cmp j k → Above cmp i k
cmp_trans [] [] k p q = q
cmp_trans [] (b ∷ j) k p q = absurd (ground arith)
cmp_trans (a ∷ i) [] [] p q = p
cmp_trans (a ∷ i) [] (c ∷ k) p q = absurd (ground arith)
cmp_trans (a ∷ i) (b ∷ j) [] p q = refl
cmp_trans (a ∷ i) (b ∷ j) (c ∷ k) p q = ground (arith, cmp_trans i j k)

pub cmp-IsOrder : IsOrder cmp
cmp-IsOrder = record {
  equal = λ j k. (cmp_zero j k, λ e. rw e (cmp_self k));
  swap = cmp_swap;
  trans = cmp_trans;
}

tree_table-IsTable_example : IsTable (tree_table cmp) cmp (Represents cmp)
tree_table-IsTable_example = tree_table-IsTable cmp cmp-IsOrder

-- three entries, the greatest key in front
abbrev nodes3 : Ptr → Option Node
nodes3 p =
    if p == 16
    then some (cell Side.left 0 black 8 24)
    else if p == 8
    then some (cell Side.left 16 red 0 0)
    else if p == 24
    then some (cell Side.left 16 red 0 0)
    else none

abbrev pub heap3 : Heap
heap3 = record { nodes = nodes3; root = 16 }

abbrev pub tree3 : Tree
tree3 = node black (node red leaf 8 leaf) 16 (node red leaf 24 leaf)

is8 : IsNode 8
is8 = record { ne_null = omega arith; aligned = omega arith }

is16 : IsNode 16
is16 = record { ne_null = omega arith; aligned = omega arith }

is24 : IsNode 24
is24 = record { ne_null = omega arith; aligned = omega arith }

pub tree3-Focus : Focus heap3 top tree3
tree3-Focus = record {
  around = refl;
  inside = (is16, refl, (is8, refl, tt, tt), (is24, refl, tt, tt));
  once = λ q. grind arith;
}

tree3-IsBalanced : IsBalanced tree3
tree3-IsBalanced = record {
  root_black = refl;
  no_red_red = ((refl, refl, tt, tt), (refl, refl, tt, tt));
  height = 1;
  has_height = (0, refl, (refl, refl), (refl, refl));
}

abbrev table3 : Table
table3 = record {
  heap = heap3;
  keys = λ p. if p == 8 then b'9' ∷ [] else if p == 16 then b'1' ∷ b'2' ∷ [] else b'1' ∷ [];
  values = λ p. p + 4;
  added = 3;
}

abbrev pairs3 : List (Key × ℕ)
pairs3 = (b'9' ∷ [], 12) ∷ (b'1' ∷ b'2' ∷ [], 20) ∷ (b'1' ∷ [], 28) ∷ []

pairs3_within : (q : Ptr) → 1 ≤ count q tree3 → Mem q (8 ∷ 16 ∷ 24 ∷ [])
pairs3_within q there = elim (Bool-cases (q == 8)) [
  | inl here ↦ mem-cons.1 (Or.inl (ground arith))
  | inr apart ↦ elim (Bool-cases (q == 16)) [
    | inl here ↦ mem-cons.1 (Or.inr (mem-cons.1 (Or.inl (ground arith))))
    | inr apart' ↦ mem-cons.1 (Or.inr (mem-cons.1 (Or.inr (mem-cons.1 (Or.inl (grind arith))))))
  ]
]

abbrev represents3 : Represents cmp table3 pairs3 (8 ∷ 16 ∷ 24 ∷ [])
represents3 = record {
  tree = tree3;
  focus = tree3-Focus;
  balanced = tree3-IsBalanced;
  listed = refl;
  sorted = ((refl, (refl, tt)), ((refl, tt), (tt, tt)));
  small = omega arith;
  within = pairs3_within;
}

table_get-lookup_example :
    (p : Ptr) × (table_get cmp table3 (b'1' ∷ b'2' ∷ []) ≡ some p)
    × ((if p == null then none else some (table3.values p)) ≡ lookup cmp (b'1' ∷ b'2' ∷ []) pairs3)
table_get-lookup_example =
    table_get-lookup cmp cmp-IsOrder table3 pairs3 (8 ∷ 16 ∷ 24 ∷ []) (b'1' ∷ b'2' ∷ []) represents3

get_12 : table_get cmp table3 (b'1' ∷ b'2' ∷ []) ≡ some 16
unfolding table_get get_loop load child
get_12 = refl

get_2 : table_get cmp table3 (b'2' ∷ []) ≡ some null
unfolding table_get get_loop load child
get_2 = refl

for_each-inorder_example : for_each 4 heap3 ≡ some (inorder tree3, heap3)
for_each-inorder_example = for_each-inorder heap3 tree3 4 tree3-Focus (omega arith)

-- the place on the left of the first entry
abbrev pub first_place : Ctx
first_place = frame Side.left red 8 leaf (frame Side.left black 16 (node red leaf 24 leaf) top)

table_del-Represents_example :
    (ps : List Ptr) × (for_each 4 heap3 ≡ some (ps, heap3))
    × ((t' : Table) × (table_del table3 16 ≡ some t')
        × Represents cmp t'
            (map (entry table3.keys table3.values) (remove 16 ps))
            (8 ∷ 16 ∷ 24 ∷ []))
table_del-Represents_example =
    table_del-Represents cmp table3 pairs3 (8 ∷ 16 ∷ 24 ∷ []) 16 represents3 (omega arith)

-- a node that is red below a red parent
abbrev nodes4 : Ptr → Option Node
nodes4 p =
    if p == 32
    then some (cell Side.left 8 red 0 0)
    else if p == 8
    then some (cell Side.left 16 red 32 0)
    else nodes3 p

abbrev pub heap4 : Heap
heap4 = record { nodes = nodes4; root = 16 }

is32 : IsNode 32
is32 = record { ne_null = omega arith; aligned = omega arith }

pub first_place-Focus : Focus heap4 first_place (node red leaf 32 leaf)
first_place-Focus = record {
  around = (is8, refl, tt, (is16, refl, (is24, refl, tt, tt), refl));
  inside = (is32, refl, tt, tt);
  once = λ q. grind arith;
}

insert_color-fix_example :
    (g : Heap) × (insert_color 3 32 heap4 ≡ some (tt, g))
    × Focus g top (paint black (fix (node red leaf 32 leaf) first_place))
insert_color-fix_example =
    insert_color-fix 3 (node red leaf 32 leaf) first_place heap4 (omega arith) tt (omega arith)
      first_place-Focus

erase-Ends_example : Ends (erase 5 16) heap3 (remove 16 (inorder tree3))
erase-Ends_example =
    erase-Ends 5 top black (node red leaf 8 leaf) 16 (node red leaf 24 leaf) heap3 (omega arith)
      tree3-IsBalanced tree3-Focus

replace_node-Focus_example :
    (g : Heap) × (replace_node 16 40 heap3 ≡ some (tt, g))
    × Focus g top (node black (node red leaf 8 leaf) 40 (node red leaf 24 leaf))
replace_node-Focus_example =
    replace_node-Focus top black (node red leaf 8 leaf) 16 (node red leaf 24 leaf) 40
      (record { ne_null = omega arith; aligned = omega arith }) (omega arith) heap3 tree3-Focus

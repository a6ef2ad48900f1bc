-- ===== src/Rbtree.antt =====
-- ks_rbtree.h and the macros of ks_rbtree.c: the nodes of a red-black tree in memory. `none` is a
-- fault, an access through NULL or to memory that holds no node.
pub mod Augment
pub mod Erase
pub mod Focus
pub mod Insert
pub mod Remove
pub mod Replace
pub mod Rotate
pub mod Shape
pub mod Walk
use fping.Base.{
  ℕ, ◌+◌, ◌-◌, ◌*◌, ◌/◌, ◌%◌, ◌==◌, if◌then◌else◌, Bool, true, false, not, ◌&&◌, Option, none, some,
}

abbrev pub Ptr : Type 0
Ptr = ℕ

abbrev pub null : Ptr
null = 0

-- `rb_right` and `rb_left`; the C code has each function that turns the tree once for each side.
pub data Side : Type 0 where
  left right : Side

abbrev pub other : Side → Side
other left = right
other right = left

-- `ks_rb_node_t`
pub record Node : Type 0 where
  pub parent_color : ℕ
  pub right : Ptr
  pub left : Ptr

abbrev pub link : Side → Node → Ptr
link left n = n.left
link right n = n.right

abbrev pub with_link : Side → Ptr → Node → Node
with_link left p n = record n { left = p }
with_link right p n = record n { right = p }

-- the nodes, and the `rb_node` of the one root
pub record Heap : Type 0 where
  pub nodes : Ptr → Option Node
  pub root : Ptr

unfoldable pub write : (Ptr → Option Node) → Ptr → Node → Ptr → Option Node
write h p n a = if a == p then some n else h a

abbrev pub M : Type 0 → Type 0
M A = Heap → Option (A × Heap)

abbrev pub pure : {A : Type 0} → A → M A
pure a h = some (a, h)

abbrev pub and_then : {A B : Type 0} → Option (A × Heap) → (A → M B) → Option (B × Heap)
and_then none f = none
and_then (some (a, h)) f = f a h

infixl 5 ◌>>=◌ ◌>>◌
abbrev pub ◌>>=◌ : {A B : Type 0} → M A → (A → M B) → M B
m >>= f = λ h. and_then (m h) f

abbrev pub ◌>>◌ : {A B : Type 0} → M A → M B → M B
m >> k = m >>= λ _. k

abbrev pub fault : {A : Type 0} → M A
fault h = none

abbrev pub when : Bool → M (Unit {0}) → M (Unit {0})
when b m = if b then m else pure tt

unfoldable pub load : Ptr → M Node
load p h = if p == null then none else elim (h.nodes p) [ none ↦ none | some n ↦ some (n, h) ]

unfoldable pub store : Ptr → Node → M (Unit {0})
store p n h = if p == null then none else some (tt, record h { nodes = write h.nodes p n })

abbrev pub get_root : M Ptr
get_root h = some (h.root, h)

abbrev pub set_root : Ptr → M (Unit {0})
set_root p h = some (tt, record h { root = p })

unfoldable pub child : Side → Ptr → M Ptr
child s p = do n ← load p; pure (link s n)

unfoldable pub set_child : Side → Ptr → Ptr → M (Unit {0})
set_child s p q = do n ← load p; store p (with_link s q n)

-- `ks_rb_parent`: `& ~3`
abbrev pub word_parent : ℕ → Ptr
word_parent w = w / 4 * 4

-- `ks_rb_color`: `& 1`
abbrev pub word_color : ℕ → ℕ
word_color w = w % 2

unfoldable pub parent : Ptr → M Ptr
parent p = do n ← load p; pure (word_parent n.parent_color)

unfoldable pub color : Ptr → M ℕ
color p = do n ← load p; pure (word_color n.parent_color)

unfoldable pub is_black : Ptr → M Bool
is_black p = do c ← color p; pure (not (c == 0))

unfoldable pub is_red : Ptr → M Bool
is_red p = do n ← load p; pure (word_color n.parent_color == 0)

-- `(rb_parent_color & 3) | p`; `|` is `+`, since nodes lie at multiples of the size of a long
unfoldable pub set_parent : Ptr → Ptr → M (Unit {0})
set_parent p q = do n ← load p; store p (record n { parent_color = n.parent_color % 4 + q })

-- `(rb_parent_color & ~1) | color` for a colour of 0 or 1, with the cases that set one of them
unfoldable pub set_color : Ptr → ℕ → M (Unit {0})
set_color p c = do n ← load p; store p (record n { parent_color = n.parent_color / 2 * 2 + c })

abbrev pub rb_red : ℕ
rb_red = 0

abbrev pub rb_black : ℕ
rb_black = 1

abbrev pub set_red : Ptr → M (Unit {0})
set_red p = set_color p rb_red

abbrev pub set_black : Ptr → M (Unit {0})
set_black p = set_color p rb_black

-- the address of the struct that has a member at the offset `offsetof`
abbrev pub container_of : Ptr → ℕ → Ptr
container_of p offsetof = p - offsetof

abbrev pub rb_entry : Ptr → ℕ → Ptr
rb_entry p offsetof = container_of p offsetof

-- the macros KS_RB_ROOT, KS_RB_EMPTY_ROOT, KS_RB_EMPTY_NODE and KS_RB_CLEAR_NODE
abbrev pub empty_tree : Ptr
empty_tree = null

unfoldable pub empty_root : M Bool
empty_root = do r ← get_root; pure (r == null)

unfoldable pub empty_node : Ptr → M Bool
empty_node p = do up ← parent p; pure (up == p)

abbrev pub clear_node : Ptr → M (Unit {0})
clear_node p = set_parent p p

-- a `ks_rb_node_t **`
pub data Link : Type 0 where
  at_root : Link
  at_child : Side → Ptr → Link

unfoldable pub deref : Link → M Ptr
deref at_root = get_root
deref (at_child s p) = child s p

unfoldable pub assign : Link → Ptr → M (Unit {0})
assign at_root q = set_root q
assign (at_child s p) q = set_child s p q

unfoldable pub link_node : Ptr → Ptr → Link → M (Unit {0})
unfolding assign
link_node node parent rb_link = do
  store node (record { parent_color = parent; right = null; left = null })
  assign rb_link node

-- ===== src/Rbtree/Focus/Holds.antt =====
-- Reads and writes of one node whose contents are known.
use fping.Base.{◌+◌, ◌*◌, ◌/◌, ◌%◌, ◌≡◌, ◌≢◌, refl, ◌==◌, some, arith, ◌∙◌, ap}
use fping.Rbtree.{
  Ptr, Side, other, Node, Heap, write, load, store, child, set_child, parent, color, is_red,
  set_parent, set_color,
}
use fping.Rbtree.Shape.{is_red_color, Color, red, black}
use fping.Rbtree.Focus.{bit, cell, IsNode}

abbrev pub put : Heap → Ptr → Node → Heap
put h a n = record h { nodes = write h.nodes a n }

-- the node `a` has the parent `up`, and the children `p` on side `s` and `q` on the other
pub record Holds (s : Side) (h : Heap) (a up : Ptr) (c : Color) (p q : Ptr) : Type 0 where
  pub is : IsNode a
  pub holds : h.nodes a ≡ some (cell s up c p q)
  pub aligned : up % 4 ≡ 0

pub put_ne : (h : Heap) (a q : Ptr) (n : Node) → q ≢ a → (put h a n).nodes q ≡ h.nodes q
unfolding write
put_ne h a q n ne = ground arith

pub put_eq : (h : Heap) (a : Ptr) (n : Node) → (put h a n).nodes a ≡ some n
unfolding write
put_eq h a n = ground arith

pub load-ok :
    (h : Heap) (a : Ptr) (n : Node) → IsNode a → h.nodes a ≡ some n → load a h ≡ some (n, h)
unfolding load
load-ok h a n is e = ground arith

pub store-ok : (h : Heap) (a : Ptr) (n : Node) → IsNode a → store a n h ≡ some (tt, put h a n)
unfolding store
store-ok h a n is = ground arith

pub Holds-other :
    (s : Side) {h : Heap} {a up : Ptr} {c : Color} {p q : Ptr}
    → Holds s h a up c p q
    → Holds (other s) h a up c q p
Holds-other Side.left e = record { is = e.is; holds = e.holds; aligned = e.aligned }
Holds-other Side.right e = record { is = e.is; holds = e.holds; aligned = e.aligned }

pub child-ok :
    (s : Side) {h : Heap} {a up : Ptr} {c : Color} {p q : Ptr}
    → Holds s h a up c p q
    → child s a h ≡ some (p, h)
unfolding child
child-ok Side.left {h} {a} e = rw (load-ok h a _ e.is e.holds) refl
child-ok Side.right {h} {a} e = rw (load-ok h a _ e.is e.holds) refl

pub child-other-ok :
    (s : Side) {h : Heap} {a up : Ptr} {c : Color} {p q : Ptr}
    → Holds s h a up c p q
    → child (other s) a h ≡ some (q, h)
child-other-ok s e = child-ok (other s) (Holds-other s e)

parent_word : (c : Color) (up : Ptr) → up % 4 ≡ 0 → (up + bit c) / 4 * 4 ≡ up
parent_word red up e = omega arith
parent_word black up e = omega arith

color_word : (c : Color) (up : Ptr) → up % 4 ≡ 0 → (up + bit c) % 2 ≡ bit c
color_word red up e = omega arith
color_word black up e = omega arith

set_parent_word : (c : Color) (up q : Ptr) → up % 4 ≡ 0 → (up + bit c) % 4 + q ≡ q + bit c
set_parent_word red up q e = omega arith
set_parent_word black up q e = omega arith

set_color_word : (c d : Color) (up : Ptr) → up % 4 ≡ 0 → (up + bit c) / 2 * 2 + bit d ≡ up + bit d
set_color_word red d up e = omega arith
set_color_word black d up e = omega arith

pub parent-ok :
    (s : Side) {h : Heap} {a up : Ptr} {c : Color} {p q : Ptr}
    → Holds s h a up c p q
    → parent a h ≡ some (up, h)
unfolding parent
parent-ok Side.left {h} {a} {up} {c} e =
    rw (load-ok h a _ e.is e.holds, parent_word c up e.aligned) refl
parent-ok Side.right {h} {a} {up} {c} e =
    rw (load-ok h a _ e.is e.holds, parent_word c up e.aligned) refl

pub color-ok :
    (s : Side) {h : Heap} {a up : Ptr} {c : Color} {p q : Ptr}
    → Holds s h a up c p q
    → color a h ≡ some (bit c, h)
unfolding color
color-ok Side.left {h} {a} {up} {c} e =
    rw (load-ok h a _ e.is e.holds, color_word c up e.aligned) refl
color-ok Side.right {h} {a} {up} {c} e =
    rw (load-ok h a _ e.is e.holds, color_word c up e.aligned) refl

is_red-bit : (c : Color) → (bit c == 0) ≡ is_red_color c
is_red-bit red = refl
is_red-bit black = refl

pub is_red-ok :
    (s : Side) {h : Heap} {a up : Ptr} {c : Color} {p q : Ptr}
    → Holds s h a up c p q
    → is_red a h ≡ some (is_red_color c, h)
unfolding is_red
is_red-ok Side.left {h} {a} {up} {c} e =
    rw (load-ok h a _ e.is e.holds, color_word c up e.aligned, is_red-bit c) refl
is_red-ok Side.right {h} {a} {up} {c} e =
    rw (load-ok h a _ e.is e.holds, color_word c up e.aligned, is_red-bit c) refl

pub Holds-put :
    (s : Side) (h : Heap) (a up : Ptr) (c : Color) (p q : Ptr)
    → IsNode a
    → up % 4 ≡ 0
    → Holds s (put h a (cell s up c p q)) a up c p q
unfolding write
Holds-put s h a up c p q is aligned = record { is = is; holds = ground arith; aligned = aligned }

pub Holds-put_ne :
    (s : Side) (h : Heap) (a up : Ptr) (c : Color) (p q b : Ptr) (n : Node)
    → a ≢ b
    → Holds s h a up c p q
    → Holds s (put h b n) a up c p q
unfolding write
Holds-put_ne s h a up c p q b n ne e = record {
  is = e.is;
  holds = ground (arith, e.holds);
  aligned = e.aligned;
}

pub set_child-ok :
    (s : Side) {h : Heap} {a up : Ptr} {c : Color} {p q : Ptr} (r : Ptr)
    → Holds s h a up c p q
    → set_child s a r h ≡ some (tt, put h a (cell s up c r q))
unfolding set_child
set_child-ok Side.left {h} {a} r e = rw (load-ok h a _ e.is e.holds) (store-ok h a _ e.is)
set_child-ok Side.right {h} {a} r e = rw (load-ok h a _ e.is e.holds) (store-ok h a _ e.is)

cell-other :
    (s : Side) (up : Ptr) (c : Color) (p q : Ptr) → cell (other s) up c q p ≡ cell s up c p q
cell-other Side.left up c p q = refl
cell-other Side.right up c p q = refl

pub set_child-other-ok :
    (s : Side) {h : Heap} {a up : Ptr} {c : Color} {p q : Ptr} (r : Ptr)
    → Holds s h a up c p q
    → set_child (other s) a r h ≡ some (tt, put h a (cell s up c p r))
set_child-other-ok s {h} {a} {up} {c} {p} r e =
    set_child-ok (other s) r (Holds-other s e)
    ∙ ap (λ n. some (tt, put h a n)) (cell-other s up c p r)

pub set_parent-ok :
    (s : Side) {h : Heap} {a up : Ptr} {c : Color} {p q : Ptr} (r : Ptr)
    → Holds s h a up c p q
    → set_parent a r h ≡ some (tt, put h a (cell s r c p q))
unfolding set_parent
set_parent-ok Side.left {h} {a} {up} {c} r e =
    rw (load-ok h a _ e.is e.holds, set_parent_word c up r e.aligned) (store-ok h a _ e.is)
set_parent-ok Side.right {h} {a} {up} {c} r e =
    rw (load-ok h a _ e.is e.holds, set_parent_word c up r e.aligned) (store-ok h a _ e.is)

pub set_color-ok :
    (s : Side) {h : Heap} {a up : Ptr} {c : Color} {p q : Ptr} (d : Color)
    → Holds s h a up c p q
    → set_color a (bit d) h ≡ some (tt, put h a (cell s up d p q))
unfolding set_color
set_color-ok Side.left {h} {a} {up} {c} d e =
    rw (load-ok h a _ e.is e.holds, set_color_word c d up e.aligned) (store-ok h a _ e.is)
set_color-ok Side.right {h} {a} {up} {c} d e =
    rw (load-ok h a _ e.is e.holds, set_color_word c d up e.aligned) (store-ok h a _ e.is)

-- contents carry over to a memory that agrees at the address
pub Holds-same :
    (s : Side) (h g : Heap) (a up : Ptr) (c : Color) (p q : Ptr)
    → g.nodes a ≡ h.nodes a
    → Holds s h a up c p q
    → Holds s g a up c p q
Holds-same s h g a up c p q same e = record {
  is = e.is;
  holds = same ∙ e.holds;
  aligned = e.aligned;
}

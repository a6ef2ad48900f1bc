-- ===== src/Rbtree/Remove/Order.antt =====
-- The addresses of a tree without one of them, and trees below other addresses.
use fping.Base.{
  ℕ, ◌≡◌, ◌≢◌, refl, ◌==◌, if◌then◌else◌, ne→false, eq→true, List, [], ◌∷◌, ◌++◌, arith, ◌∙◌, sym,
  ap,
}
use mathlib.Core.List.{append-nil}
use fping.Rbtree.{Ptr, Side}
use fping.Rbtree.Shape.{
  Color, red, black, Tree, leaf, node, join, Ctx, top, frame, plug, inorder, count, count_ctx,
  at_ne, is_red_tree,
}
use fping.Rbtree.Shape.Balance.{
  NoRedRed, HasHeight, IsBalanced, plug-NoRedRed, plug-HasHeight, is_red_join,
}
use fping.Rbtree.Shape.Unplug.{unplug-NoRedRed, unplug-HasHeight}

-- a list without the address `a`
unfoldable pub remove : Ptr → List Ptr → List Ptr
remove a [] = []
remove a (b ∷ l) = if a == b then remove a l else b ∷ remove a l

remove-append : (a : Ptr) (l m : List Ptr) → remove a (l ++ m) ≡ remove a l ++ remove a m
unfolding remove
remove-append a [] m = refl
remove-append a (b ∷ l) m = ground (arith, remove-append a l m)

remove_ne : (a b : Ptr) (l : List Ptr) → a ≢ b → remove a (b ∷ l) ≡ b ∷ remove a l
unfolding remove
remove_ne a b l ne = rw (ne→false a b ne) refl

remove_eq : (a : Ptr) (l : List Ptr) → remove a (a ∷ l) ≡ remove a l
unfolding remove
remove_eq a l = rw (eq→true a) refl

remove-inorder : (a : Ptr) (t : Tree) → count a t ≡ 0 → remove a (inorder t) ≡ inorder t
unfolding remove
remove-inorder a leaf out = refl
remove-inorder a (node c l b r) out =
    remove-append a (inorder l) (b ∷ inorder r)
    ∙ rw
        (
          remove_ne a b (inorder r) (at_ne a b (omega (arith, out))),
          remove-inorder a l (omega (arith, out)),
          remove-inorder a r (omega (arith, out)),
        )
        refl

pub remove-node :
    (c : Color) (l : Tree) (a : Ptr) (r : Tree)
    → count a l ≡ 0
    → count a r ≡ 0
    → remove a (inorder (node c l a r)) ≡ inorder l ++ inorder r
remove-node c l a r ol or =
    remove-append a (inorder l) (a ∷ inorder r)
    ∙ rw (remove_eq a (inorder r), remove-inorder a l ol, remove-inorder a r or) refl

pub remove_alone :
    (s : Side) (c : Color) (a : Ptr) (t : Tree)
    → count a t ≡ 0
    → inorder t ≡ remove a (inorder (join s c leaf a t))
remove_alone Side.left c a t out = sym (remove-node c leaf a t refl out)
remove_alone Side.right c a t out = sym (remove-node c t a leaf out refl ∙ append-nil (inorder t))

pub remove-plug :
    (k : Ctx) (t t' : Tree) (a : Ptr)
    → count_ctx a k ≡ 0
    → inorder t' ≡ remove a (inorder t)
    → inorder (plug k t') ≡ remove a (inorder (plug k t))
remove-plug top t t' a out e = e
remove-plug (frame Side.left c b y up) t t' a out e =
    let fresh = remove-inorder a y (omega (arith, out)) in
    let ne = at_ne a b (omega (arith, out)) in
    remove-plug up (node c t b y) (node c t' b y) a (omega (arith, out)) (
      ap (λ l. l ++ (b ∷ inorder y)) e
      ∙ ap (λ l. remove a (inorder t) ++ (b ∷ l)) (sym fresh)
      ∙ ap (λ l. remove a (inorder t) ++ l) (sym (remove_ne a b (inorder y) ne))
      ∙ sym (remove-append a (inorder t) (b ∷ inorder y)))
remove-plug (frame Side.right c b y up) t t' a out e =
    let fresh = remove-inorder a y (omega (arith, out)) in
    let ne = at_ne a b (omega (arith, out)) in
    remove-plug up (node c y b t) (node c y b t') a (omega (arith, out)) (
      ap (λ l. inorder y ++ (b ∷ l)) e
      ∙ ap (λ l. l ++ (b ∷ remove a (inorder t))) (sym fresh)
      ∙ ap (λ l. remove a (inorder y) ++ l) (sym (remove_ne a b (inorder t) ne))
      ∙ sym (remove-append a (inorder y) (b ∷ inorder t)))

-- the balance is one of colours only
is_red-plug :
    (k : Ctx) (t t' : Tree)
    → is_red_tree t ≡ is_red_tree t'
    → is_red_tree (plug k t) ≡ is_red_tree (plug k t')
is_red-plug top t t' e = e
is_red-plug (frame s c a y up) t t' e =
    is_red-plug up (join s c t a y) (join s c t' a y)
      (is_red_join s c t a y ∙ sym (is_red_join s c t' a y))

node-NoRedRed :
    (c : Color) (l : Tree) (a b : Ptr) (r : Tree)
    → NoRedRed (node c l a r)
    → NoRedRed (node c l b r)
node-NoRedRed red l a b r h = h
node-NoRedRed black l a b r h = h

node-HasHeight :
    (c : Color) (l : Tree) (a b : Ptr) (r : Tree) (n : ℕ)
    → HasHeight (node c l a r) n
    → HasHeight (node c l b r) n
node-HasHeight red l a b r n h = h
node-HasHeight black l a b r n h = h

pub readdress-IsBalanced :
    (k : Ctx) (c : Color) (l : Tree) (a b : Ptr) (r : Tree)
    → IsBalanced (plug k (node c l a r))
    → IsBalanced (plug k (node c l b r))
readdress-IsBalanced k c l a b r d =
    let (nk, nt, edge) = unplug-NoRedRed k (node c l a r) d.no_red_red in
    let (n, hk, ht) = unplug-HasHeight k (node c l a r) d.height d.has_height in
    let (m, h) = plug-HasHeight k (node c l b r) n hk (node-HasHeight c l a b r n ht) in
    record {
      root_black = is_red-plug k (node c l b r) (node c l a r) refl ∙ d.root_black;
      no_red_red = plug-NoRedRed k (node c l b r) nk (node-NoRedRed c l a b r nt) edge;
      height = m;
      has_height = h;
    }

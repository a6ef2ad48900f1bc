-- ===== src/Rbtree/Augment/Along.antt =====
-- Where values may be wrong after an insertion: what the rebalancing makes of it.
use fping.Base.{◌≡◌, refl, ◌⊎◌, inl, inr, subst, sym}
use fping.Rbtree.{Ptr, Side}
use fping.Rbtree.Shape.{Color, red, black, Tree, leaf, node, join, Ctx, top, frame, plug, paint}
use fping.Rbtree.Insert.Fix.{lift, fix}
use fping.Rbtree.Augment.Values.{Right, Below, Siblings, Right-Below}

module _ {V : Type 0} (e : V) (g : Ptr → V → V → V) (d : Ptr → V) (a : Ptr) where
  -- Only `a`, its children, the nodes above it and the other children of those may be wrong.
  pub data Along : Tree → Type 0 where
    here : {c : Color} {l r : Tree} → Below e g d l → Below e g d r → Along (node c l a r)
    on_left :
        {c : Color} {l : Tree} {b : Ptr} {r : Tree} → Along l → Below e g d r → Along (node c l b r)
    on_right :
        {c : Color} {l : Tree} {b : Ptr} {r : Tree} → Below e g d l → Along r → Along (node c l b r)

  -- the same, where the children of the root that are not on the way to `a` are right
  abbrev Near : Tree → Type 0
  Near leaf = ⊥
  Near (node c l b r) =
      ((b ≡ a) × Right e g d l × Right e g d r)
      ⊎ ((Along l × Right e g d r) ⊎ (Right e g d l × Along r))

  -- Every subtree beside a hole is right.
  abbrev pub Rights : Ctx → Type 0
  Rights top = Unit
  Rights (frame s c b y up) = Right e g d y × Rights up

  Near-Along : (t : Tree) → Near t → Along t
  Near-Along leaf n = elim n [ ]
  Near-Along (node c l b r) (inl (same, x, y)) =
      subst (λ z. Along (node c l z r)) (sym same)
        (here (Right-Below e g l d x) (Right-Below e g r d y))
  Near-Along (node c l b r) (inr (inl (x, y))) = on_left x (Right-Below e g r d y)
  Near-Along (node c l b r) (inr (inr (x, y))) = on_right (Right-Below e g l d x) y

  Along-join :
      (s : Side) (c : Color) (t : Tree) (b : Ptr) (y : Tree)
      → Along t
      → Below e g d y
      → Along (join s c t b y)
  Along-join Side.left c t b y x z = on_left x z
  Along-join Side.right c t b y x z = on_right z x

  Along-plug : (k : Ctx) (t : Tree) → Rights k → Along t → Along (plug k t)
  Along-plug top t r x = x
  Along-plug (frame s c b y up) t (z, r) x =
      Along-plug up (join s c t b y) r (Along-join s c t b y x (Right-Below e g y d z))

  pub Along-paint : (c : Color) (t : Tree) → Along t → Along (paint c t)
  Along-paint c _ (here x y) = here x y
  Along-paint c _ (on_left x y) = on_left x y
  Along-paint c _ (on_right x y) = on_right x y

  lift-Along :
      (s s' : Side) (t : Tree) (p : Ptr) (y : Tree) (q : Ptr) (u : Tree)
      → Near t
      → Right e g d y
      → Right e g d u
      → Along (lift s s' t p y q u)
  unfolding lift
  lift-Along Side.left Side.left t p y q u n x z = on_left (Near-Along t n) (x, z)
  lift-Along Side.right Side.right t p y q u n x z = on_right (z, x) (Near-Along t n)
  lift-Along Side.left Side.right leaf p y q u n x z = elim n [ ]
  lift-Along Side.right Side.left leaf p y q u n x z = elim n [ ]
  lift-Along Side.left Side.right (node c l b r) p y q u (inl (same, m, w)) x z =
      subst (λ b. Along (lift Side.left Side.right (node c l b r) p y q u)) (sym same)
        (here (x, m) (w, z))
  lift-Along Side.left Side.right (node c l b r) p y q u (inr (inl (m, w))) x z =
      on_left (on_right (Right-Below e g y d x) m) (w, z)
  lift-Along Side.left Side.right (node c l b r) p y q u (inr (inr (m, w))) x z =
      on_right (x, m) (on_left w (Right-Below e g u d z))
  lift-Along Side.right Side.left (node c l b r) p y q u (inl (same, m, w)) x z =
      subst (λ b. Along (lift Side.right Side.left (node c l b r) p y q u)) (sym same)
        (here (z, m) (w, x))
  lift-Along Side.right Side.left (node c l b r) p y q u (inr (inl (m, w))) x z =
      on_left (on_right (Right-Below e g u d z) m) (w, x)
  lift-Along Side.right Side.left (node c l b r) p y q u (inr (inr (m, w))) x z =
      on_right (z, m) (on_left w (Right-Below e g y d x))

  Near-join :
      (s : Side) (c : Color) (t : Tree) (b : Ptr) (y : Tree)
      → Along t
      → Right e g d y
      → Near (join s c t b y)
  Near-join Side.left c t b y x z = inr (inl (x, z))
  Near-join Side.right c t b y x z = inr (inr (z, x))

  pub fix-Along : (k : Ctx) (t : Tree) → Near t → Rights k → Along (fix t k)
  unfolding fix
  fix-Along top t n r = Near-Along t n
  fix-Along (frame s black p y up) t n r = Along-plug (frame s black p y up) t r (Near-Along t n)
  fix-Along (frame s red p y top) t n (z, r) =
      Along-join s red t p y (Near-Along t n) (Right-Below e g y d z)
  fix-Along (frame s' red p y (frame s c q (node red ul b ur) up)) t n (x, (z, r)) =
      fix-Along up (join s red (join s' black t p y) q (node black ul b ur))
        (Near-join s red (join s' black t p y) q (node black ul b ur)
          (Along-join s' black t p y (Near-Along t n) (Right-Below e g y d x)) z)
        r
  fix-Along (frame s' red p y (frame s c q (node black ul b ur) up)) t n (x, (z, r)) =
      let u = node black ul b ur in
      Along-plug up (lift s s' t p y q u) r (lift-Along s s' t p y q u n x z)
  fix-Along (frame s' red p y (frame s c q leaf up)) t n (x, (z, r)) =
      Along-plug up (lift s s' t p y q leaf) r (lift-Along s s' t p y q leaf n x z)

  -- the place of `a`
  pub record Found (w : Tree) : Type 0 where
    pub k : Ctx
    pub c : Color
    pub l : Tree
    pub r : Tree
    pub whole : plug k (node c l a r) ≡ w
    pub left_below : Below e g d l
    pub right_below : Below e g d r
    pub beside : Siblings e g d k

  pub Along-Found : (k : Ctx) (t : Tree) → Along t → Siblings e g d k → Found (plug k t)
  Along-Found k leaf x u = elim x [ ]
  Along-Found k (node c l _ r) (here x y) u = record {
    k = k;
    c = c;
    l = l;
    r = r;
    whole = refl;
    left_below = x;
    right_below = y;
    beside = u;
  }
  Along-Found k (node c l b r) (on_left x z) u = Along-Found (frame Side.left c b r k) l x (z, u)
  Along-Found k (node c l b r) (on_right z x) u = Along-Found (frame Side.right c b l k) r x (z, u)

  pub Right-Rights : (k : Ctx) (t : Tree) → Right e g d (plug k t) → Right e g d t × Rights k
  Right-Rights top t r = (r, tt)
  Right-Rights (frame Side.left c b y up) t r =
      let ((same, x, z), rest) = Right-Rights up (node c t b y) r in (x, (z, rest))
  Right-Rights (frame Side.right c b y up) t r =
      let ((same, x, z), rest) = Right-Rights up (node c y b t) r in (z, (x, rest))

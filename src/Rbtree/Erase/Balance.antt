-- ===== src/Rbtree/Erase/Balance.antt =====
-- How `erase_color` ends: what is balanced once the missing black node is back.
use fping.Base.{ℕ, suc, ◌≡◌, refl, Bool, false, true, ◌&&◌, arith, sym, subst}
use fping.Rbtree.{Ptr, Side}
use fping.Rbtree.Shape.{
  Color, red, black, Tree, leaf, node, join, Ctx, top, frame, plug, paint, is_red_tree,
}
use fping.Rbtree.Shape.Balance.{
  HasHeight, NoRedRed, FitsHeight, NoRedRedCtx, IsBalanced, plug-NoRedRed, plug-HasHeight,
  paint-IsBalanced, HasHeight-join_black, HasHeight-join_red, NoRedRed-join_black,
  NoRedRed-join_red, is_red_join, is_red_owner,
}
use fping.Rbtree.Insert.Fix.{IsRooted, IsRooted-up}
use fping.Rbtree.Shape.Unplug.{join_black-HasHeight, join_black-NoRedRed}

-- a subtree that is too low by one black node below a hole
pub record Short (k : Ctx) (t : Tree) (n : ℕ) : Type 0 where
  pub rooted : IsRooted k
  pub no_red_red : NoRedRed (paint black t)
  pub around : NoRedRedCtx k
  pub height : HasHeight t n
  pub fits : FitsHeight k (suc n)

pub paint-is_red : (t : Tree) → is_red_tree (paint black t) ≡ false
paint-is_red leaf = refl
paint-is_red (node c l a r) = refl

pub paint-black : (t : Tree) → is_red_tree t ≡ false → paint black t ≡ t
paint-black leaf e = refl
paint-black (node black l a r) e = refl
paint-black (node red l a r) e = absurd (ground arith)

pub both_false : (b : Bool) → (b && false) ≡ false
both_false true = refl
both_false false = refl

pub plug_rooted :
    (s : Side) (c : Color) (a : Ptr) (y : Tree) (up : Ctx) (t : Tree)
    → IsRooted (frame s c a y up)
    → is_red_tree (plug (frame s c a y up) t) ≡ false
plug_rooted s red a y top t r = elim r [ ]
plug_rooted s black a y top t r = is_red_join s black t a y
plug_rooted s red a y (frame s' c' a' y' up) t r = plug_rooted s' c' a' y' up (join s red t a y) r
plug_rooted s black a y (frame s' c' a' y' up) t r =
    plug_rooted s' c' a' y' up (join s black t a y) r

paint-HasHeight :
    (t : Tree) (n : ℕ) → is_red_tree t ≡ true → HasHeight t n → HasHeight (paint black t) (suc n)
paint-HasHeight leaf n e h = absurd (ground arith)
paint-HasHeight (node red l a r) n e h = (n, refl, h.0, h.1)
paint-HasHeight (node black l a r) n e h = absurd (ground arith)

-- the walk ends at the root
pub top-IsBalanced :
    (t : Tree) (n : ℕ) → NoRedRed (paint black t) → HasHeight t n → IsBalanced (paint black t)
top-IsBalanced leaf n ok h = paint-IsBalanced leaf n tt h
top-IsBalanced (node red l a r) n ok h = record {
  root_black = refl;
  no_red_red = ok;
  height = suc n;
  has_height = (n, refl, h.0, h.1);
}
top-IsBalanced (node black l a r) n ok h = paint-IsBalanced (node black l a r) n ok h

-- the walk ends at a red node
pub red-IsBalanced :
    (s : Side) (c : Color) (a : Ptr) (y : Tree) (up : Ctx) (t : Tree) (n : ℕ)
    → is_red_tree t ≡ true
    → Short (frame s c a y up) t n
    → IsBalanced (plug (frame s c a y up) (paint black t))
red-IsBalanced s c a y up t n e d =
    let k = frame s c a y up in
    let (m, h) = plug-HasHeight k (paint black t) (suc n) d.fits (paint-HasHeight t n e d.height) in
    record {
      root_black = plug_rooted s c a y up (paint black t) d.rooted;
      no_red_red =
          plug-NoRedRed k (paint black t) d.around d.no_red_red
            (rw (paint-is_red t) (both_false (is_red_owner k)));
      height = m;
      has_height = h;
    }

-- the turn that ends the walk: two black subtrees of the height that fits
pub turn-IsBalanced :
    (s e : Side) (c : Color) (p : Ptr) (y : Tree) (up : Ctx) (m : ℕ) (x : Tree) (b : Ptr) (z : Tree)
    → NoRedRedCtx (frame s c p y up)
    → FitsHeight (frame s c p y up) m
    → is_red_tree x ≡ false
    → is_red_tree z ≡ false
    → NoRedRed x
    → NoRedRed z
    → HasHeight x m
    → HasHeight z m
    → IsBalanced (paint black (plug up (join e c x b z)))
turn-IsBalanced s e red p y up m x b z nk hk bx bz nx nz hx hz =
    let t = join e red x b z in
    let (j, h) = plug-HasHeight up t m hk.1 (HasHeight-join_red e x b z m hx hz) in
    paint-IsBalanced (plug up t) j
      (plug-NoRedRed up t nk.3 (NoRedRed-join_red e x b z bx bz nx nz) (rw nk.1 refl)) h
turn-IsBalanced s e black p y up m x b z nk hk bx bz nx nz hx hz =
    let t = join e black x b z in
    let (j, h) = plug-HasHeight up t (suc m) hk.1 (HasHeight-join_black e x b z m hx hz) in
    paint-IsBalanced (plug up t) j
      (plug-NoRedRed up t nk.1 (NoRedRed-join_black e x b z nx nz)
        (rw (is_red_join e black x b z) (both_false (is_red_owner up))))
      h

-- the sibling of the hole
pub sibling-NoRedRed :
    (s : Side) (c : Color) (a : Ptr) (y : Tree) (up : Ctx)
    → NoRedRedCtx (frame s c a y up)
    → NoRedRed y × NoRedRedCtx up
sibling-NoRedRed s red a y up h = (h.2, h.3)
sibling-NoRedRed s black a y up h = h

pub sibling-HasHeight :
    (s : Side) (c : Color) (a : Ptr) (y : Tree) (up : Ctx) (m : ℕ)
    → FitsHeight (frame s c a y up) m
    → HasHeight y m
sibling-HasHeight s red a y up m h = h.0
sibling-HasHeight s black a y up m h = h.0

pub black-HasHeight :
    (s : Side) (x : Tree) (a : Ptr) (y : Tree) (n : ℕ)
    → HasHeight (join s black x a y) (suc n)
    → HasHeight x n × HasHeight y n
black-HasHeight s x a y n h =
    let (m, e, hx, hy) = join_black-HasHeight s x a y (suc n) h in
    let same : m ≡ n = omega (arith, e) in
    (subst (HasHeight x) same hx, subst (HasHeight y) same hy)

pub paint-join :
    (s : Side) (c : Color) (x : Tree) (a : Ptr) (y : Tree)
    → paint black (join s c x a y) ≡ join s black x a y
paint-join Side.left c x a y = refl
paint-join Side.right c x a y = refl

Short-joined :
    (s : Side) (c : Color) (p : Ptr) (y : Tree) (up : Ctx) (t z : Tree) (n : ℕ)
    → IsRooted up
    → NoRedRedCtx up
    → NoRedRed (paint black (join s c t p z))
    → HasHeight t n
    → HasHeight z n
    → FitsHeight (frame s c p y up) (suc n)
    → (m : ℕ) × Short up (join s c t p z) m
Short-joined s red p y up t z n rooted nup nj ht hz fits = (
  n,
  record {
    rooted = rooted;
    no_red_red = nj;
    around = nup;
    height = HasHeight-join_red s t p z n ht hz;
    fits = fits.1;
  },
)
Short-joined s black p y up t z n rooted nup nj ht hz fits = (
  suc n,
  record {
    rooted = rooted;
    no_red_red = nj;
    around = nup;
    height = HasHeight-join_black s t p z n ht hz;
    fits = fits.1;
  },
)

-- the sibling has become red, so that the tree above is too low
pub Short-up :
    (s : Side) (c : Color) (p : Ptr) (near : Tree) (b : Ptr) (far : Tree) (up : Ctx) (t : Tree)
    (n : ℕ)
    → is_red_tree t ≡ false
    → is_red_tree near ≡ false
    → is_red_tree far ≡ false
    → Short (frame s c p (join s black near b far) up) t n
    → (m : ℕ) × Short up (join s c t p (join s red near b far)) m
Short-up s c p near b far up t n bt bn bf d =
    let y = join s black near b far in
    let z = join s red near b far in
    let (ny, nup) = sibling-NoRedRed s c p y up d.around in
    let (nn, nf) = join_black-NoRedRed s near b far ny in
    let (hn, hf) = black-HasHeight s near b far n (sibling-HasHeight s c p y up (suc n) d.fits) in
    let hz = HasHeight-join_red s near b far n hn hf in
    let nz = NoRedRed-join_red s near b far bn bf nn nf in
    let nt = subst NoRedRed (paint-black t bt) d.no_red_red in
    let nj = subst NoRedRed (sym (paint-join s c t p z)) (NoRedRed-join_black s t p z nt nz) in
    Short-joined s c p y up t z n (IsRooted-up s c p y up d.rooted) nup nj d.height hz d.fits

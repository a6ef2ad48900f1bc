-- ===== src/Tests/Augment.antt =====
-- The callbacks of ks_rbtree.c at concrete inputs: the size of each subtree.
use fping.Base.{ℕ, suc, ◌+◌, ◌≡◌, ◌≢◌, ◌≤◌, refl, ◌⊎◌, ◌==◌, if◌then◌else◌, ne→false, some, arith}
use fping.Rbtree.{Ptr, null, Heap, ◌>>=◌, pure, load}
use fping.Rbtree.Shape.{red, black, leaf, node, top, paint, count}
use fping.Rbtree.Focus.{Focus}
use fping.Rbtree.Augment.{AugmentF, augment_insert, augment_erase_begin}
use fping.Rbtree.Augment.Values.{set, value, IsRecompute, Right}
use fping.Rbtree.Augment.Insert.{insert_color-augment_insert}
use fping.Rbtree.Insert.{insert_color}
use fping.Rbtree.Insert.Fix.{fix}
use fping.Rbtree.Augment.Deepest.{deepest, augment_erase_begin-Remains}
use fping.Tests.Tree.{heap3, tree3, tree3-Focus, first_place, first_place-Focus, heap4}

abbrev plus : Ptr → ℕ → ℕ → ℕ
plus a l r = suc (l + r)

-- a callback that reads the node and stores its size
abbrev resize : AugmentF (Ptr → ℕ)
resize a d = do n ← load a; pure (set d a (plus a (value 0 d n.left) (value 0 d n.right)))

resize-IsRecompute : IsRecompute 0 plus resize
unfolding load
resize-IsRecompute = record { calls = λ h a n d ne e. rw (ne→false a null ne, e) refl }

-- the sizes before an insertion at 32, below the node at 8
abbrev sizes : Ptr → ℕ
sizes p = if p == 16 then 3 else 1

insert_color-augment_insert_example :
    let w = paint black (fix (node red leaf 32 leaf) first_place) in
    (h' : Heap) × (insert_color 5 32 heap4 ≡ some (tt, h'))
    × Focus h' top w
    × ((d' : Ptr → ℕ) × (augment_insert 5 32 resize sizes h' ≡ some (d', h')) × Right 0 plus d' w)
insert_color-augment_insert_example =
    insert_color-augment_insert 0 plus resize resize-IsRecompute heap4 first_place 32 5 sizes
      (omega arith) tt first_place-Focus ((refl, (refl, tt, tt), (refl, tt, tt)))

augment_erase_begin-Remains_example :
    let p = deepest top (node red leaf 8 leaf) (node red leaf 24 leaf) in
    (augment_erase_begin 4 16 heap3 ≡ some (p, heap3))
    × (((p ≡ null) × (tree3 ≡ node black leaf 16 leaf)) ⊎ ((p ≢ 16) × (1 ≤ count p tree3)))
augment_erase_begin-Remains_example =
    augment_erase_begin-Remains heap3 top black 16 (node red leaf 8 leaf) (node red leaf 24 leaf) 4
      (omega arith) tree3-Focus

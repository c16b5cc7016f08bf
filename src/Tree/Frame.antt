-- ===== src/Tree/Frame.antt =====
-- odb-compiler/src/ast/: a tree is the same on every heap that agrees on its nodes.
use open_dark_basic.Prelude.{suc, ◌≤◌, ◌<◌, ◌≡◌, sym, ap, ◌∙◌, Option, some, none, [], ◌∷◌, arith}
use open_dark_basic.Tree.{Ref, Fields, Object, Heap}
use open_dark_basic.Tree.Shape.{
  SyntaxTree, tree, Children, end, absent, child, Shows, ShowsFields, Owns, OwnsFields, OwnsLoose,
  Kept,
}

-- The two heaps have the same nodes at the addresses from `lo` and below `hi`.
abbrev pub Agree : Heap → Heap → Ref → Ref → Type 0
Agree h h' lo hi = (q : Ref) → lo ≤ q → q < hi → h'.object q ≡ h.object q

mutual
  Shows-Kept : (h h' : Heap) (r : Ref) (t : SyntaxTree) → Kept h h' → Shows h r t → Shows h' r t
  Shows-Kept h h' r (tree c cs) k (lt, o, e, f, below) =
      let g = k.grows in
      (omega arith, o, k.same r lt ∙ e, f, ShowsFields-Kept h h' o.fields cs k below)

  ShowsFields-Kept :
      (h h' : Heap) (fs : Fields) (cs : Children)
      → Kept h h'
      → ShowsFields h fs cs
      → ShowsFields h' fs cs
  ShowsFields-Kept h h' [] end k s = tt
  ShowsFields-Kept h h' (none ∷ fs) (absent cs) k s = ShowsFields-Kept h h' fs cs k s
  ShowsFields-Kept h h' (some q ∷ fs) (child t cs) k s =
      (Shows-Kept h h' q t k s.0, ShowsFields-Kept h h' fs cs k s.1)
  ShowsFields-Kept h h' [] (absent cs) k s = absurd s
  ShowsFields-Kept h h' [] (child t cs) k s = absurd s
  ShowsFields-Kept h h' (none ∷ fs) end k s = absurd s
  ShowsFields-Kept h h' (none ∷ fs) (child t cs) k s = absurd s
  ShowsFields-Kept h h' (some q ∷ fs) end k s = absurd s
  ShowsFields-Kept h h' (some q ∷ fs) (absent cs) k s = absurd s

pub still-ShowsFields :
    (h h' : Heap) (fs : Fields) (cs : Children)
    → Kept h h'
    → ShowsFields h fs cs
    → ShowsFields h' fs cs
still-ShowsFields = ShowsFields-Kept

mutual
  Owns-Agree :
      (h h' : Heap) (lo r : Ref) (t : SyntaxTree)
      → Agree h h' lo (suc r)
      → h.next ≤ h'.next
      → Owns h lo r t
      → Owns h' lo r t
  Owns-Agree h h' lo r (tree c cs) a g (le, lt, o, e, f, below) = (
    le,
    omega arith,
    o,
    a r le (omega arith) ∙ e,
    f,
    OwnsFields-Agree h h' r lo r o.fields cs (λ q x y. a q x (omega arith)) g below,
  )

  OwnsFields-Agree :
      (h h' : Heap) (p lo hi : Ref) (fs : Fields) (cs : Children)
      → Agree h h' lo hi
      → h.next ≤ h'.next
      → OwnsFields h p lo hi fs cs
      → OwnsFields h' p lo hi fs cs
  OwnsFields-Agree h h' p lo hi [] end a g s = s
  OwnsFields-Agree h h' p lo hi (none ∷ fs) (absent cs) a g s =
      OwnsFields-Agree h h' p lo hi fs cs a g s
  OwnsFields-Agree h h' p lo hi (some q ∷ fs) (child (tree c ds) cs) a g
        ((o, e, f), owns, lt, rest) =
      (
        (o, a q owns.0 lt ∙ e, f),
        Owns-Agree h h' lo q (tree c ds) (λ x y z. a x y (omega arith)) g owns,
        lt,
        OwnsFields-Agree h h' p (suc q) hi fs cs (λ x y z. let le = owns.0 in a x (omega arith) z) g
            rest,
      )
  OwnsFields-Agree h h' p lo hi [] (absent cs) a g s = absurd s
  OwnsFields-Agree h h' p lo hi [] (child t cs) a g s = absurd s
  OwnsFields-Agree h h' p lo hi (none ∷ fs) end a g s = absurd s
  OwnsFields-Agree h h' p lo hi (none ∷ fs) (child t cs) a g s = absurd s
  OwnsFields-Agree h h' p lo hi (some q ∷ fs) end a g s = absurd s
  OwnsFields-Agree h h' p lo hi (some q ∷ fs) (absent cs) a g s = absurd s

pub still-Owns :
    (h h' : Heap) (lo r : Ref) (t : SyntaxTree)
    → Agree h h' lo (suc r)
    → h.next ≤ h'.next
    → Owns h lo r t
    → Owns h' lo r t
still-Owns = Owns-Agree

-- The root may get another parent.
pub still-Owns_root :
    (h h' : Heap) (lo r : Ref) (t : SyntaxTree) (o : Object) (p : Option Ref)
    → Agree h h' lo r
    → h.next ≤ h'.next
    → h.object r ≡ some o
    → h'.object r ≡ some (record o { parent = p })
    → Owns h lo r t
    → Owns h' lo r t
still-Owns_root h h' lo r (tree c cs) o p a g at_r at_r' (le, lt, o', e, f, below) =
    let same : o' ≡ o = cc in
    (
      le,
      omega arith,
      record o { parent = p },
      at_r',
      ap (λ x. x.class_) (sym same) ∙ f,
      OwnsFields-Agree h h' r lo r o.fields cs a g (rw same at below),
    )

pub OwnsLoose-Agree :
    (h h' : Heap) (lo hi : Ref) (fs : Fields) (cs : Children)
    → Agree h h' lo hi
    → h.next ≤ h'.next
    → OwnsLoose h lo hi fs cs
    → OwnsLoose h' lo hi fs cs
OwnsLoose-Agree h h' lo hi [] end a g s = s
OwnsLoose-Agree h h' lo hi (none ∷ fs) (absent cs) a g s = OwnsLoose-Agree h h' lo hi fs cs a g s
OwnsLoose-Agree h h' lo hi (some q ∷ fs) (child (tree c ds) cs) a g (owns, lt, rest) = (
  Owns-Agree h h' lo q (tree c ds) (λ x y z. a x y (omega arith)) g owns,
  lt,
  OwnsLoose-Agree h h' (suc q) hi fs cs (λ x y z. let le = owns.0 in a x (omega arith) z) g rest,
)
OwnsLoose-Agree h h' lo hi [] (absent cs) a g s = absurd s
OwnsLoose-Agree h h' lo hi [] (child t cs) a g s = absurd s
OwnsLoose-Agree h h' lo hi (none ∷ fs) end a g s = absurd s
OwnsLoose-Agree h h' lo hi (none ∷ fs) (child t cs) a g s = absurd s
OwnsLoose-Agree h h' lo hi (some q ∷ fs) end a g s = absurd s
OwnsLoose-Agree h h' lo hi (some q ∷ fs) (absent cs) a g s = absurd s

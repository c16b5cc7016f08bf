-- ===== src/Tree/Shape.antt =====
-- odb-compiler/src/ast/: what a tree of nodes on the heap shows, and what it means to own its nodes.
use open_dark_basic.Prelude.{
  ℕ, suc, ◌+◌, ◌≤◌, ◌<◌, ◌≡◌, refl, ap, ◌∙◌, some, none, List, [], ◌∷◌, length, arith,
}
use open_dark_basic.Tree.{Ref, Class, Fields, Use, if_present, Copy, copied, Object, Heap}
use open_dark_basic.Tree.Methods.{methods}

-- A syntax tree without its addresses: the class of the root, and its children; a child may be null.
mutual
  pub data SyntaxTree : Type 0 where
    tree : Class → Children → SyntaxTree

  pub data Children : Type 0 where
    end : Children
    absent : Children → Children
    child : SyntaxTree → Children → Children

abbrev pub count : Children → ℕ
count end = 0
count (absent cs) = suc (count cs)
count (child t cs) = suc (count cs)

abbrev mutual
  -- The number of nodes.
  pub size : SyntaxTree → ℕ
  size (tree c cs) = suc (sizes cs)

  pub sizes : Children → ℕ
  sizes end = 0
  sizes (absent cs) = sizes cs
  sizes (child t cs) = size t + sizes cs

abbrev mutual
  -- The node at the address and the nodes below it are the tree. Two of them may be one node.
  pub Shows : Heap → Ref → SyntaxTree → Type 0
  Shows h r (tree c cs) =
      (r < h.next)
      × (o : Object) × (h.object r ≡ some o)
      × (o.class_ ≡ c)
      × ShowsFields h o.fields cs

  pub ShowsFields : Heap → Fields → Children → Type 0
  ShowsFields h [] end = Unit
  ShowsFields h (none ∷ fs) (absent cs) = ShowsFields h fs cs
  ShowsFields h (some q ∷ fs) (child t cs) = Shows h q t × ShowsFields h fs cs
  ShowsFields h _ _ = ⊥

abbrev pub ParentIs : Heap → Ref → Ref → Type 0
ParentIs h q p = (o : Object) × (h.object q ≡ some o) × (o.parent ≡ some p)

abbrev mutual
  -- The node at `r` and the nodes below it are the tree, all of them different and between the
  -- addresses `lo` and `r`, and the parent of each node below the root is the node above it.
  pub Owns : Heap → Ref → Ref → SyntaxTree → Type 0
  Owns h lo r (tree c cs) =
      (lo ≤ r)
      × (r < h.next)
      × (o : Object) × (h.object r ≡ some o)
      × (o.class_ ≡ c)
      × OwnsFields h r lo r o.fields cs

  -- The same for fields of the node `p`, with the addresses between `lo` and `hi`, one child behind
  -- the other.
  pub OwnsFields : Heap → Ref → Ref → Ref → Fields → Children → Type 0
  OwnsFields h p lo hi [] end = lo ≤ hi
  OwnsFields h p lo hi (none ∷ fs) (absent cs) = OwnsFields h p lo hi fs cs
  OwnsFields h p lo hi (some q ∷ fs) (child t cs) =
      ParentIs h q p × Owns h lo q t × (q < hi) × OwnsFields h p (suc q) hi fs cs
  OwnsFields h p lo hi _ _ = ⊥

-- The same for children whose parents are not set yet.
abbrev pub OwnsLoose : Heap → Ref → Ref → Fields → Children → Type 0
OwnsLoose h lo hi [] end = lo ≤ hi
OwnsLoose h lo hi (none ∷ fs) (absent cs) = OwnsLoose h lo hi fs cs
OwnsLoose h lo hi (some q ∷ fs) (child t cs) =
    Owns h lo q t × (q < hi) × OwnsLoose h (suc q) hi fs cs
OwnsLoose h lo hi _ _ = ⊥

mutual
  -- Every child that duplicateImpl or the constructor uses without a test is there, and no class
  -- shares a child with its duplicate.
  pub data IsComplete : SyntaxTree → Type 0 where
    complete :
        (c : Class) (cs : Children)
        → IsCompleteBelow (methods c (count cs)).copies (methods c (count cs)).adopts cs
        → IsComplete (tree c cs)

  pub data IsCompleteBelow : List Copy → List Use → Children → Type 0 where
    no_more : IsCompleteBelow [] [] end
    missing :
        {copies : List Copy} {uses : List Use} {cs : Children}
        → IsCompleteBelow copies uses cs
        → IsCompleteBelow (copied if_present ∷ copies) (if_present ∷ uses) (absent cs)
    present :
        {copies : List Copy} {uses : List Use} {cs : Children} (k u : Use) (t : SyntaxTree)
        → IsComplete t
        → IsCompleteBelow copies uses cs
        → IsCompleteBelow (copied k ∷ copies) (u ∷ uses) (child t cs)

-- The heap grew, and what was there is as it was.
pub record Kept (h h' : Heap) : Type 0 where
  pub grows : h.next ≤ h'.next
  pub same : (q : Ref) → q < h.next → h'.object q ≡ h.object q

pub Kept-trans : (h h' h'' : Heap) → Kept h h' → Kept h' h'' → Kept h h''
Kept-trans h h' h'' k l =
    let a = k.grows in
    let b = l.grows in
    record { grows = omega arith; same = λ q lt. l.same q (omega arith) ∙ k.same q lt }

pub ShowsFields-length :
    (h : Heap) (fs : Fields) (cs : Children) → ShowsFields h fs cs → length fs ≡ count cs
ShowsFields-length h [] end s = refl
ShowsFields-length h (none ∷ fs) (absent cs) s = ap suc (ShowsFields-length h fs cs s)
ShowsFields-length h (some q ∷ fs) (child t cs) s = ap suc (ShowsFields-length h fs cs s.1)
ShowsFields-length h [] (absent cs) s = absurd s
ShowsFields-length h [] (child t cs) s = absurd s
ShowsFields-length h (none ∷ fs) end s = absurd s
ShowsFields-length h (some q ∷ fs) end s = absurd s
ShowsFields-length h (none ∷ fs) (child t cs) s = absurd s
ShowsFields-length h (some q ∷ fs) (absent cs) s = absurd s

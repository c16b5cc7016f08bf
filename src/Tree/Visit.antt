-- ===== src/Tree/Visit.antt =====
-- odb-compiler/src/ast/: the order in which `accept` visits a tree.
use open_dark_basic.Prelude.{
  ℕ, zero, suc, ◌≤◌, ◌≡◌, refl, ap, ◌∙◌, Option, some, none, List, [], ◌∷◌, ◌++◌, length, arith,
}
use open_dark_basic.Tree.{Ref, Class, Fields, Use, always, if_present, Object, Heap}
use open_dark_basic.Tree.Methods.{methods, methods_of, accept, accept_fields}
use open_dark_basic.Tree.Shape.{
  SyntaxTree, tree, Children, end, absent, child, count, size, sizes, Shows, ShowsFields,
  ShowsFields-length,
}

-- The classes of the nodes, each before those below it and these from left to right.
abbrev mutual
  pub preorder : SyntaxTree → List Class
  preorder (tree c cs) = c ∷ preorder_below cs

  pub preorder_below : Children → List Class
  preorder_below end = []
  preorder_below (absent cs) = preorder_below cs
  preorder_below (child t cs) = preorder t ++ preorder_below cs

mutual
  -- Every child that `accept` visits without a test is there.
  pub data IsVisitable : SyntaxTree → Type 0 where
    visitable :
        (c : Class) (cs : Children)
        → IsVisitableBelow (methods c (count cs)).visits cs
        → IsVisitable (tree c cs)

  pub data IsVisitableBelow : List Use → Children → Type 0 where
    no_more : IsVisitableBelow [] end
    missing :
        (uses : List Use) (cs : Children)
        → IsVisitableBelow uses cs
        → IsVisitableBelow (if_present ∷ uses) (absent cs)
    present :
        (u : Use) (uses : List Use) (t : SyntaxTree) (cs : Children)
        → IsVisitable t
        → IsVisitableBelow uses cs
        → IsVisitableBelow (u ∷ uses) (child t cs)

-- The nodes have these classes, one by one.
abbrev pub HaveClasses : Heap → List Ref → List Class → Type 0
HaveClasses h [] [] = Unit
HaveClasses h (r ∷ rs) (c ∷ cs) =
    ((o : Object) × (h.object r ≡ some o) × (o.class_ ≡ c)) × HaveClasses h rs cs
HaveClasses h _ _ = ⊥

HaveClasses-append :
    (h : Heap) (rs ss : List Ref) (cs ds : List Class)
    → HaveClasses h rs cs
    → HaveClasses h ss ds
    → HaveClasses h (rs ++ ss) (cs ++ ds)
HaveClasses-append h [] ss [] ds a b = b
HaveClasses-append h (r ∷ rs) ss (c ∷ cs) ds a b = (a.0, HaveClasses-append h rs ss cs ds a.1 b)
HaveClasses-append h [] ss (c ∷ cs) ds a b = absurd a
HaveClasses-append h (r ∷ rs) ss [] ds a b = absurd a

abbrev Visits : ℕ → Heap → Type 0
Visits fuel h =
    (r : Ref) (t : SyntaxTree)
    → Shows h r t
    → IsVisitable t
    → size t ≤ fuel
    → (rs : List Ref) × (accept fuel h r ≡ some rs) × HaveClasses h rs (preorder t)

visit_one :
    (visit : Ref → Option (List Ref)) (u : Use) (uses : List Use) (q : Ref) (fs : Fields)
    (rs ss : List Ref)
    → visit q ≡ some rs
    → accept_fields visit uses fs ≡ some ss
    → accept_fields visit (u ∷ uses) (some q ∷ fs) ≡ some (rs ++ ss)
unfolding accept_fields
visit_one visit always uses q fs rs ss e f = rw (e, accept_fields) (rw f refl)
visit_one visit if_present uses q fs rs ss e f = rw (e, accept_fields) (rw f refl)

accept_fields_lem :
    {uses : List Use} {cs : Children} (fuel : ℕ) (h : Heap) (fs : Fields)
    → Visits fuel h
    → IsVisitableBelow uses cs
    → ShowsFields h fs cs
    → sizes cs ≤ fuel
    → (rs : List Ref) × (accept_fields (accept fuel h) uses fs ≡ some rs)
      × HaveClasses h rs (preorder_below cs)
unfolding accept_fields
accept_fields_lem fuel h [] go no_more s le = ([], refl, tt)
accept_fields_lem fuel h (none ∷ fs) go no_more s le = absurd s
accept_fields_lem fuel h (some q ∷ fs) go no_more s le = absurd s
accept_fields_lem fuel h [] go (missing uses cs v) s le = absurd s
accept_fields_lem fuel h (none ∷ fs) go (missing uses cs v) s le =
    accept_fields_lem fuel h fs go v s le
accept_fields_lem fuel h (some q ∷ fs) go (missing uses cs v) s le = absurd s
accept_fields_lem fuel h [] go (present u uses t cs w v) s le = absurd s
accept_fields_lem fuel h (none ∷ fs) go (present u uses t cs w v) s le = absurd s
accept_fields_lem fuel h (some q ∷ fs) go (present u uses t cs w v) (s, below) le =
    let (rs, run, have) = go q t s w (omega arith) in
    let (ss, runs, haves) = accept_fields_lem fuel h fs go v below (omega arith) in
    (
      rs ++ ss,
      visit_one (accept fuel h) u uses q fs rs ss run runs,
      HaveClasses-append h rs ss (preorder t) (preorder_below cs) have haves,
    )

-- `accept` of a tree on the heap visits its nodes in preorder, each node before those below it and
-- those from left to right, if every child is there that it visits without a test; the number of
-- nodes is enough fuel.
pub accept-preorder :
    (fuel : ℕ) (h : Heap) (r : Ref) (t : SyntaxTree)
    → Shows h r t
    → IsVisitable t
    → size t ≤ fuel
    → (rs : List Ref) × (accept fuel h r ≡ some rs) × HaveClasses h rs (preorder t)
unfolding accept
accept-preorder zero h r (tree c cs) s v le = absurd (omega arith)
accept-preorder (suc fuel) h r (tree c cs) (lt, o, at, same, below) (visitable _ _ v) le =
    let (rs, run, have) =
      accept_fields_lem fuel h o.fields (accept-preorder fuel h) v below (omega arith) in
    let uses : (methods_of o).visits ≡ (methods c (count cs)).visits =
      ap (λ x. (methods x (length o.fields)).visits) same
      ∙ ap (λ n. (methods c n).visits) (ShowsFields-length h o.fields cs below) in
    (r ∷ rs, rw (at, accept) (rw uses (rw run refl)), ((o, at, same), have))

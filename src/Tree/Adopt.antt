-- ===== src/Tree/Adopt.antt =====
-- odb-compiler/src/ast/: a constructor adopts the children that it is given.
use open_dark_basic.Prelude.{
  suc, ◌≤◌, ◌<◌, ◌≡◌, ◌≢◌, refl, ◌∙◌, some, none, List, [], ◌∷◌, ==_self, ==_ne, arith,
}
use open_dark_basic.Tree.{
  Ref, Fields, Use, always, if_present, Copy, Object, Heap, ◌>>◌, load, overwrite, set_parent,
}
use open_dark_basic.Tree.Methods.{adopt}
use open_dark_basic.Tree.Runs.{then_run, load_run}
use open_dark_basic.Tree.Shape.{
  SyntaxTree, tree, Children, child, Owns, OwnsFields, OwnsLoose, no_more, missing, present,
  IsCompleteBelow,
}
use open_dark_basic.Tree.Frame.{still-Owns_root, OwnsLoose-Agree}

-- What the calls of setParent in a constructor leave.
pub record Adopted (uses : List Use) (p lo hi : Ref) (fs : Fields) (cs : Children) (h : Heap)
    : Type 0 where
  pub final : Heap
  pub runs : adopt uses fs p h ≡ some (tt, final)
  pub owns : OwnsFields final p lo hi fs cs
  pub next_same : final.next ≡ h.next
  pub below : (q : Ref) → q < lo → final.object q ≡ h.object q
  pub above : (q : Ref) → hi ≤ q → final.object q ≡ h.object q

-- The heap in which the parent of `q` is `p`.
abbrev with_parent : Heap → Ref → Object → Ref → Heap
with_parent h q o p = record h { object = overwrite h.object q (record o { parent = some p }) }

with_parent_other :
    (h : Heap) (q : Ref) (o : Object) (p x : Ref)
    → q ≢ x
    → (with_parent h q o p).object x ≡ h.object x
with_parent_other h q o p x d = rw (==_ne q x d) refl

set_parent_run :
    (h : Heap) (q p : Ref) (o : Object)
    → h.object q ≡ some o
    → set_parent q p h ≡ some (tt, with_parent h q o p)
unfolding set_parent
set_parent_run h q p o e = then_run (load q) _ h h o (load_run h q o e) refl

adopt_step :
    (u : Use) (uses : List Use) (q : Ref) (fs : Fields) (p : Ref) (h : Heap)
    → adopt (u ∷ uses) (some q ∷ fs) p h ≡ (set_parent q p >> adopt uses fs p) h
unfolding adopt
adopt_step always uses q fs p h = refl
adopt_step if_present uses q fs p h = refl

-- One child is adopted, and the rest as the lemma says.
adopt_one :
    (k u : Use) (uses : List Use) (q : Ref) (fs : Fields) (t : SyntaxTree) (cs : Children)
    (h : Heap) (lo hi p : Ref) (o : Object)
    → h.object q ≡ some o
    → lo ≤ q
    → q < hi
    → Owns h lo q t
    → Adopted uses p (suc q) hi fs cs (with_parent h q o p)
    → Adopted (u ∷ uses) p lo hi (some q ∷ fs) (child t cs) h
adopt_one k u uses q fs t cs h lo hi p o at le lt owns rest =
    let h' = rest.final in
    let here : h'.object q ≡ some (record o { parent = some p }) =
      rest.below q (omega arith) ∙ rw (==_self q) refl in
    let n = rest.next_same in
    record {
      final = h';
      runs =
          adopt_step u uses q fs p h
          ∙ then_run (set_parent q p) _ h (with_parent h q o p) tt (set_parent_run h q p o at)
              rest.runs;
      owns = (
        (record o { parent = some p }, here, refl),
        still-Owns_root h h' lo q t o (some p)
            (λ x a b. rest.below x (omega arith) ∙ with_parent_other h q o p x (λ e. omega arith))
            (omega arith) at here owns,
        lt,
        rest.owns,
      );
      next_same = rest.next_same;
      below = λ x l. rest.below x (omega arith) ∙ with_parent_other h q o p x (λ e. omega arith);
      above = λ x l. rest.above x l ∙ with_parent_other h q o p x (λ e. omega arith);
    }

pub adopt_lem :
    {copies : List Copy} {uses : List Use} {cs : Children} (fs : Fields) (h : Heap) (lo hi p : Ref)
    → IsCompleteBelow copies uses cs
    → OwnsLoose h lo hi fs cs
    → Adopted uses p lo hi fs cs h
unfolding adopt
adopt_lem [] h lo hi p no_more s = record {
  final = h;
  runs = refl;
  owns = s;
  next_same = refl;
  below = λ q l. refl;
  above = λ q l. refl;
}
adopt_lem (none ∷ fs) h lo hi p no_more s = absurd s
adopt_lem (some q ∷ fs) h lo hi p no_more s = absurd s
adopt_lem [] h lo hi p (missing c) s = absurd s
adopt_lem (none ∷ fs) h lo hi p (missing c) s =
    let r = adopt_lem fs h lo hi p c s in
    record {
      final = r.final;
      runs = r.runs;
      owns = r.owns;
      next_same = r.next_same;
      below = r.below;
      above = r.above;
    }
adopt_lem (some q ∷ fs) h lo hi p (missing c) s = absurd s
adopt_lem [] h lo hi p (present k u t d c) s = absurd s
adopt_lem (none ∷ fs) h lo hi p (present k u t d c) s = absurd s
adopt_lem (some q ∷ fs) h lo hi p (present k u (tree c ds) d b) (owns, lt, rest) =
    let (le, in_heap, o, at, same, below) = owns in
    adopt_one k u _ q fs (tree c ds) _ h lo hi p o at le lt owns (
      adopt_lem fs (with_parent h q o p) (suc q) hi p b (
        OwnsLoose-Agree h (with_parent h q o p) (suc q) hi fs _
          (λ x y z. with_parent_other h q o p x (λ e. omega arith)) (omega arith) rest))

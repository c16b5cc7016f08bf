-- ===== src/Tree/Duplicate.antt =====
-- odb-compiler/src/ast/: a duplicate of a tree is a tree of its own.
use open_dark_basic.Prelude.{
  ℕ, zero, suc, ◌≤◌, ◌≡◌, ◌≢◌, refl, ap, ◌∙◌, subst, length, some, none, List, [], ◌∷◌, ==_self,
  ==_ne, arith,
}
use open_dark_basic.Tree.{
  Ref, Class, Fields, Use, Copy, copied, Object, Heap, pure, ◌>>◌, load, overwrite, allocate,
}
use open_dark_basic.Tree.Methods.{methods, methods_of, adopt, construct, copy_fields, duplicate}
use open_dark_basic.Tree.Runs.{then_run, load_run}
use open_dark_basic.Tree.Shape.{
  SyntaxTree, tree, Children, child, count, size, sizes, Shows, ShowsFields, Owns, OwnsLoose,
  no_more, missing, present, complete, IsComplete, IsCompleteBelow, Kept, Kept-trans,
  ShowsFields-length,
}
use open_dark_basic.Tree.Frame.{still-ShowsFields, still-Owns, OwnsLoose-Agree}
use open_dark_basic.Tree.Adopt.{Adopted, adopt_lem}

-- What duplicateImpl of one node leaves: a tree of its own at new addresses, the root last, and all
-- nodes that were there as they were.
pub record IsCopyOf (fuel : ℕ) (r : Ref) (t : SyntaxTree) (h : Heap) : Type 0 where
  pub final : Heap
  pub result : Ref
  pub runs : duplicate fuel r h ≡ some (result, final)
  pub owns : Owns final h.next result t
  pub kept : Kept h final
  pub last : final.next ≡ suc result

record CopiesFields (fuel : ℕ) (copies : List Copy) (fs : Fields) (cs : Children) (h : Heap)
    : Type 0 where
  final : Heap
  result : Fields
  runs : copy_fields (duplicate fuel) copies fs h ≡ some (result, final)
  owns : OwnsLoose final h.next final.next result cs
  kept : Kept h final
  same_length : length result ≡ length fs

abbrev Duplicates : ℕ → Type 0
Duplicates fuel =
    (r : Ref) (t : SyntaxTree) (h : Heap)
    → Shows h r t
    → IsComplete t
    → size t ≤ fuel
    → IsCopyOf fuel r t h

copy_one :
    (fuel : ℕ) (k : Use) (copies : List Copy) (q : Ref) (fs : Fields) (t : SyntaxTree)
    (cs : Children) (h : Heap) (d : IsCopyOf fuel q t h)
    → CopiesFields fuel copies fs cs d.final
    → CopiesFields fuel (copied k ∷ copies) (some q ∷ fs) (child t cs) h
unfolding copy_fields
copy_one fuel k copies q fs t cs h d rest =
    let grown = d.kept.grows in
    let more = rest.kept.grows in
    let last = d.last in
    record {
      final = rest.final;
      result = some d.result ∷ rest.result;
      runs = then_run (duplicate fuel q) _ h d.final d.result d.runs (
          then_run (copy_fields (duplicate fuel) copies fs) _ d.final rest.final rest.result
            rest.runs refl);
      owns = (
        still-Owns d.final rest.final h.next d.result t (λ x a b. rest.kept.same x (omega arith))
            more d.owns,
        omega arith,
        subst (λ n. OwnsLoose rest.final n rest.final.next rest.result cs) last rest.owns,
      );
      kept = Kept-trans h d.final rest.final d.kept rest.kept;
      same_length = ap suc rest.same_length;
    }

copy_fields_lem :
    {copies : List Copy} {uses : List Use} {cs : Children} (fuel : ℕ) (fs : Fields) (h : Heap)
    → Duplicates fuel
    → IsCompleteBelow copies uses cs
    → ShowsFields h fs cs
    → sizes cs ≤ fuel
    → CopiesFields fuel copies fs cs h
unfolding copy_fields
copy_fields_lem fuel [] h dup no_more s le = record {
  final = h;
  result = [];
  runs = refl;
  owns = omega arith;
  kept = record { grows = omega arith; same = λ q lt. refl };
  same_length = refl;
}
copy_fields_lem fuel (none ∷ fs) h dup no_more s le = absurd s
copy_fields_lem fuel (some q ∷ fs) h dup no_more s le = absurd s
copy_fields_lem fuel [] h dup (missing c) s le = absurd s
copy_fields_lem fuel (none ∷ fs) h dup (missing c) s le =
    let r = copy_fields_lem fuel fs h dup c s le in
    record {
      final = r.final;
      result = none ∷ r.result;
      runs = then_run (copy_fields (duplicate fuel) _ fs) _ h r.final r.result r.runs refl;
      owns = r.owns;
      kept = r.kept;
      same_length = ap suc r.same_length;
    }
copy_fields_lem fuel (some q ∷ fs) h dup (missing c) s le = absurd s
copy_fields_lem fuel [] h dup (present k u t d c) s le = absurd s
copy_fields_lem fuel (none ∷ fs) h dup (present k u t d c) s le = absurd s
copy_fields_lem fuel (some q ∷ fs) h dup (present k u t d c) (s, below) le =
    let one = dup q t h s d (omega arith) in
    copy_one fuel k _ q fs t _ h one (
      copy_fields_lem fuel fs one.final dup c (still-ShowsFields h one.final fs _ one.kept below)
        (omega arith))

-- The heap with a new node.
abbrev allocated : Heap → Class → Fields → Heap
allocated h c fs = record {
  next = suc h.next;
  object = overwrite h.object h.next (record { parent = none; class_ = c; fields = fs });
}

allocated_other :
    (h : Heap) (c : Class) (fs : Fields) (q : Ref)
    → h.next ≢ q
    → (allocated h c fs).object q ≡ h.object q
allocated_other h c fs q d = rw (==_ne h.next q d) refl

construct_run :
    (h : Heap) (c : Class) (fs : Fields) (uses : List Use) (final : Heap)
    → (methods c (length fs)).adopts ≡ uses
    → adopt uses fs h.next (allocated h c fs) ≡ some (tt, final)
    → construct c fs h ≡ some (h.next, final)
unfolding construct allocate
construct_run h c fs uses final e run =
    then_run (allocate c fs) (λ this. adopt (methods c (length fs)).adopts fs this >> pure this) h
      (allocated h c fs) h.next refl
      (then_run (adopt (methods c (length fs)).adopts fs h.next) (λ _. pure h.next)
        (allocated h c fs) final tt (rw e run) refl)

-- The constructor behind the copies of the children.
construct_lem :
    (c : Class) (cs : Children) (copies : List Copy) (uses : List Use) (lo : Ref) (h : Heap)
    (fs : Fields)
    → IsCompleteBelow copies uses cs
    → OwnsLoose h lo h.next fs cs
    → lo ≤ h.next
    → Adopted uses h.next lo h.next fs cs (allocated h c fs)
construct_lem c cs copies uses lo h fs comp owns le =
    adopt_lem fs (allocated h c fs) lo h.next h.next comp (
      OwnsLoose-Agree h (allocated h c fs) lo h.next fs cs
        (λ x y z. allocated_other h c fs x (λ e. omega arith)) (omega arith) owns)

duplicate_step :
    (fuel : ℕ) (r : Ref) (c : Class) (cs : Children) (h : Heap) (o : Object)
    → h.object r ≡ some o
    → o.class_ ≡ c
    → length o.fields ≡ count cs
    → IsCompleteBelow (methods c (count cs)).copies (methods c (count cs)).adopts cs
    → CopiesFields fuel (methods c (count cs)).copies o.fields cs h
    → IsCopyOf (suc fuel) r (tree c cs) h
unfolding duplicate
duplicate_step fuel r c cs h o at class_ long comp copied_ =
    let g = copied_.kept.grows in
    let adopted =
      construct_lem c cs (methods c (count cs)).copies (methods c (count cs)).adopts h.next
        copied_.final copied_.result comp copied_.owns g in
    let next = adopted.next_same in
    let same : (methods_of o).copies ≡ (methods c (count cs)).copies =
      ap (λ x. (methods x (length o.fields)).copies) class_ ∙ ap (λ n. (methods c n).copies) long in
    record {
      final = adopted.final;
      result = copied_.final.next;
      runs = then_run (load r) _ h h o (load_run h r o at) (
          then_run (copy_fields (duplicate fuel) (methods_of o).copies o.fields) _ h copied_.final
            copied_.result (rw same copied_.runs)
            (ap (λ x. construct x copied_.result copied_.final) class_
              ∙ construct_run copied_.final c copied_.result (methods c (count cs)).adopts
                  adopted.final (ap (λ n. (methods c n).adopts) (copied_.same_length ∙ long))
                  adopted.runs));
      owns = (
        g,
        omega arith,
        record { parent = none; class_ = c; fields = copied_.result },
        adopted.above copied_.final.next (omega arith) ∙ rw (==_self copied_.final.next) refl,
        refl,
        adopted.owns,
      );
      kept = record {
        grows = omega arith;
        same = λ q lt.
            adopted.below q lt
            ∙ allocated_other copied_.final c copied_.result q (λ e. omega arith)
            ∙ copied_.kept.same q lt;
      };
      last = next;
    }

-- A duplicate of a tree on the heap, in which every child is there that the methods use without a
-- test and nothing is shared: with the number of its nodes as fuel, `duplicate` ends, with a tree that
-- shows the same, whose nodes are all new and different, each with the node above it as its parent.
-- The tree that was duplicated, and all else on the heap, is as it was.
pub duplicate-IsCopyOf :
    (fuel : ℕ) (r : Ref) (t : SyntaxTree) (h : Heap)
    → Shows h r t
    → IsComplete t
    → size t ≤ fuel
    → IsCopyOf fuel r t h
duplicate-IsCopyOf zero r (tree c cs) h s d le = absurd (omega arith)
duplicate-IsCopyOf (suc fuel) r (tree c cs) h (lt, o, at, same, below) (complete _ _ d) le =
    duplicate_step fuel r c cs h o at same (ShowsFields-length h o.fields cs below) d
      (copy_fields_lem fuel o.fields h (duplicate-IsCopyOf fuel) d below (omega arith))

-- ===== src/Commands/Index/Conflicts.antt =====
-- odb-compiler/src/commands/CommandIndex.cpp: what `findConflicts` finds, and what it misses.
use open_dark_basic.Prelude.{
  ◌≡◌, ◌↔◌, refl, ap, sym, ◌∙◌, Bool, true, false, inl, inr, Option, none, some, List, [], ◌∷◌,
  ◌++◌, map, Bytes, if◌then◌else◌, length, arith, Bool-cases, Option-cases, ==_self,
}
use mathlib.Core.Option
use mathlib.Core.List.{append-nil, append_assoc}
use open_dark_basic.Str.{to_lower}
use open_dark_basic.Commands.Command.{Command, Arg, type_eq, type_eq→eq, type_eq_self}
use open_dark_basic.Commands.Index.{
  CommandIndex, text_eq, types_agree, same_signature, Overloads, find_overloads, conflict_loop,
  find_conflicts, add_command, empty,
}

pub text_eq→eq : (a b : Bytes) → text_eq a b ≡ true → a ≡ b
text_eq→eq [] [] h = refl
text_eq→eq [] (y ∷ b) h = cc
text_eq→eq (x ∷ a) [] h = cc
text_eq→eq (x ∷ a) (y ∷ b) h = ground (arith, text_eq→eq a b)

pub text_eq_self : (a : Bytes) → text_eq a a ≡ true
text_eq_self [] = refl
text_eq_self (x ∷ a) = rw (==_self x) (text_eq_self a)

pub text_eq_iff : (a b : Bytes) → (text_eq a b ≡ true) ↔ (a ≡ b)
text_eq_iff a b = (text_eq→eq a b, λ e. rw e (text_eq_self b))

-- The same argument types in the same order, and the same return type.
abbrev pub SameSignature : Command → Command → Type 0
SameSignature a b =
    (map (λ (x : Arg). x.type) a.args ≡ map (λ (x : Arg). x.type) b.args)
    × (a.return_type ≡ b.return_type)

types_agree→eq :
    (xs ys : List Arg)
    → types_agree xs ys ≡ true
    → length xs ≡ length ys
    → map (λ (x : Arg). x.type) xs ≡ map (λ (x : Arg). x.type) ys
types_agree→eq [] [] h e = refl
types_agree→eq [] (y ∷ ys) h e = absurd (omega arith)
types_agree→eq (x ∷ xs) [] h e = absurd (omega arith)
types_agree→eq (x ∷ xs) (y ∷ ys) h e = elim (Bool-cases (type_eq x.type y.type)) [
  | inl t ↦ cc (type_eq→eq x.type y.type t, types_agree→eq xs ys (rw t at h) (omega arith))
  | inr f ↦ cc (rw f at h)
]

eq→types_agree :
    (xs ys : List Arg)
    → map (λ (x : Arg). x.type) xs ≡ map (λ (x : Arg). x.type) ys
    → (types_agree xs ys ≡ true) × (length xs ≡ length ys)
eq→types_agree [] [] h = (refl, refl)
eq→types_agree [] (y ∷ ys) h = cc
eq→types_agree (x ∷ xs) [] h = cc
eq→types_agree (x ∷ xs) (y ∷ ys) h = ground (arith, type_eq_self x.type, eq→types_agree xs ys)

same_signature_iff : (a b : Command) → (same_signature a b ≡ true) ↔ SameSignature a b
unfolding same_signature
same_signature_iff a b = (
  λ h. ground (arith, types_agree→eq a.args b.args, type_eq→eq a.return_type b.return_type),
  λ h. ground (arith, eq→types_agree a.args b.args h.0, type_eq_self a.return_type, h.1),
)

-- The first of two options that holds a value.
abbrev or_else : Option Command → Option Command → Option Command
or_else (some f) o = some f
or_else none o = o

abbrev single : Option Command → Option (List Command)
single = Option.map (λ f. f ∷ [])

-- The first command whose name is `name` up to case.
pub first_under : Bytes → List Command → Option Command
first_under name [] = none
first_under name (c ∷ cs) =
    if text_eq (to_lower c.db_symbol) name then some c else first_under name cs

first_under-append :
    (name : Bytes) (cs : List Command) (c : Command)
    → first_under name (cs ++ c ∷ [])
      ≡ or_else (first_under name cs) (if text_eq (to_lower c.db_symbol) name then some c else none)
unfolding first_under
first_under-append name [] c = refl
first_under-append name (d ∷ cs) c = elim (Bool-cases (text_eq (to_lower d.db_symbol) name)) [
  | inl t ↦ rw t
  | inr f ↦ rw f (first_under-append name cs c)
]

-- The map holds each name's first command.
abbrev Tracks : Overloads → List Command → Type 0
Tracks seen before = (name : Bytes) → find_overloads name seen ≡ single (first_under name before)

module _ (seen : Overloads) (before : List Command) (c : Command) (t : Tracks seen before) where
  Tracks-new :
      first_under (to_lower c.db_symbol) before ≡ none
      → Tracks ((to_lower c.db_symbol, c ∷ []) ∷ seen) (before ++ c ∷ [])
  unfolding find_overloads
  Tracks-new e name =
      ground (
        arith,
        first_under-append name before c,
        text_eq_iff (to_lower c.db_symbol) name,
        t name,
        e,
      )

  Tracks-old :
      {f : Command}
      → first_under (to_lower c.db_symbol) before ≡ some f
      → Tracks seen (before ++ c ∷ [])
  Tracks-old e name =
      ground (
        arith,
        first_under-append name before c,
        text_eq_iff (to_lower c.db_symbol) name,
        t name,
        e,
      )

-- The loop by a plain recursion over the commands and those before them.
clashes : List Command → List Command → Bool
clashes before [] = false
clashes before (c ∷ cs) =
    let rest = clashes (before ++ c ∷ []) cs in
    elim (first_under (to_lower c.db_symbol) before) [
      | none ↦ rest
      | some f ↦ if same_signature c f then true else rest
    ]

conflict_loop-eq :
    (cs : List Command) (seen : Overloads) (before : List Command)
    → Tracks seen before
    → conflict_loop seen cs ≡ clashes before cs
unfolding conflict_loop clashes
conflict_loop-eq [] seen before t = refl
conflict_loop-eq (c ∷ cs) seen before t =
    elim (Option-cases (first_under (to_lower c.db_symbol) before)) [
      | inl e ↦
          let found : find_overloads (to_lower c.db_symbol) seen ≡ none =
            t (to_lower c.db_symbol) ∙ ap single e in
          rw (e, found, conflict_loop, clashes)
            (conflict_loop-eq cs ((to_lower c.db_symbol, c ∷ []) ∷ seen) (before ++ c ∷ [])
              (Tracks-new seen before c t e))
      | inr (f, e) ↦
          let found : find_overloads (to_lower c.db_symbol) seen ≡ some (f ∷ []) =
            t (to_lower c.db_symbol) ∙ ap single e in
          rw (e, found, conflict_loop, clashes)
            (rw (conflict_loop-eq cs seen (before ++ c ∷ []) (Tracks-old seen before c t e))
              (ground arith))
    ]

-- Some command has the signature of the first command before it with its name.
pub record RepeatsFirst (earlier cs : List Command) : Type 0 where
  pub before : List Command
  pub repeated : Command
  pub after : List Command
  pub declared : Command
  pub place : cs ≡ before ++ repeated ∷ after
  pub is_first : first_under (to_lower repeated.db_symbol) (earlier ++ before) ≡ some declared
  pub same : SameSignature repeated declared

RepeatsFirst-cons :
    (earlier cs : List Command) (c : Command)
    → RepeatsFirst (earlier ++ c ∷ []) cs
    → RepeatsFirst earlier (c ∷ cs)
RepeatsFirst-cons earlier cs c r = record {
  before = c ∷ r.before;
  repeated = r.repeated;
  after = r.after;
  declared = r.declared;
  place = ap (λ t. c ∷ t) r.place;
  is_first =
      ap (first_under (to_lower r.repeated.db_symbol))
        (sym (append_assoc earlier (c ∷ []) r.before))
      ∙ r.is_first;
  same = r.same;
}

clashes→RepeatsFirst :
    (cs earlier : List Command) → clashes earlier cs ≡ true → RepeatsFirst earlier cs
unfolding clashes
clashes→RepeatsFirst [] earlier h = cc
clashes→RepeatsFirst (c ∷ cs) earlier h =
    elim (Option-cases (first_under (to_lower c.db_symbol) earlier)) [
      | inl e ↦
          RepeatsFirst-cons earlier cs c
            (clashes→RepeatsFirst cs (earlier ++ c ∷ []) (rw (e, clashes) at h))
      | inr (f, e) ↦ elim (Bool-cases (same_signature c f)) [
        | inl s ↦ record {
          before = [];
          repeated = c;
          after = cs;
          declared = f;
          place = refl;
          is_first = ap (first_under (to_lower c.db_symbol)) (append-nil earlier) ∙ e;
          same = (same_signature_iff c f).0 s;
        }
        | inr d ↦
            RepeatsFirst-cons earlier cs c
              (clashes→RepeatsFirst cs (earlier ++ c ∷ []) (rw (e, clashes, d) at h))
      ]
    ]

RepeatsFirst→clashes :
    (cs earlier before : List Command) (b : Command) (after : List Command) (f : Command)
    → cs ≡ before ++ b ∷ after
    → first_under (to_lower b.db_symbol) (earlier ++ before) ≡ some f
    → SameSignature b f
    → clashes earlier cs ≡ true
unfolding clashes
RepeatsFirst→clashes [] earlier [] b after f e u s = cc
RepeatsFirst→clashes [] earlier (x ∷ before) b after f e u s = cc
RepeatsFirst→clashes (c ∷ cs) earlier [] b after f e u s =
    let same : c ≡ b = cc in
    let first : first_under (to_lower c.db_symbol) earlier ≡ some f =
      rw (same, ← append-nil earlier) u in
    rw (first, clashes) (rw (same, (same_signature_iff b f).1 s))
RepeatsFirst→clashes (c ∷ cs) earlier (x ∷ before) b after f e u s =
    let same : c ≡ x = cc in
    let tail : cs ≡ before ++ b ∷ after = cc in
    let first : first_under (to_lower b.db_symbol) ((earlier ++ c ∷ []) ++ before) ≡ some f =
      rw (append_assoc earlier (c ∷ []) before, same) u in
    let ih : clashes (earlier ++ c ∷ []) cs ≡ true =
      RepeatsFirst→clashes cs (earlier ++ c ∷ []) before b after f tail first s in
    elim (Option-cases (first_under (to_lower c.db_symbol) earlier)) [
      | inl n ↦ rw (n, clashes) ih
      | inr (g, n) ↦ rw (n, clashes) (ground (arith, ih))
    ]

-- `findConflicts` says yes exactly when some command has the argument types and the return type of
-- the first command in the index with its name, case aside, and comes after it.
pub find_conflicts_iff :
    (index : CommandIndex) → (find_conflicts index ≡ true) ↔ RepeatsFirst [] index.commands
unfolding find_conflicts
find_conflicts_iff index =
    let e : conflict_loop [] index.commands ≡ clashes [] index.commands =
      conflict_loop-eq index.commands [] [] (unfold find_overloads first_under in λ name. refl) in
    (
      λ h. clashes→RepeatsFirst index.commands [] (sym e ∙ h),
      λ r.
          e
          ∙ RepeatsFirst→clashes index.commands [] r.before r.repeated r.after r.declared r.place
              r.is_first r.same,
    )

-- Two commands with one signature pass unseen when a command of the same name with another
-- signature comes before both: the map keeps only that one.
pub find_conflicts_misses :
    (f a b : Command)
    → to_lower a.db_symbol ≡ to_lower f.db_symbol
    → to_lower b.db_symbol ≡ to_lower f.db_symbol
    → SameSignature a b
    → ¬ SameSignature a f
    → find_conflicts (add_command (add_command (add_command empty f) a) b) ≡ false
unfolding find_conflicts add_command clashes first_under
find_conflicts_misses f a b ea eb same differ =
    let no_a : same_signature a f ≡ false = elim (Bool-cases (same_signature a f)) [
      | inl t ↦ absurd (differ ((same_signature_iff a f).0 t))
      | inr e ↦ e
    ] in
    let no_b : same_signature b f ≡ false = elim (Bool-cases (same_signature b f)) [
      | inl t ↦
          let (args, ret) = (same_signature_iff b f).0 t in
          absurd (differ (same.0 ∙ args, same.1 ∙ ret))
      | inr e ↦ e
    ] in
    let first_a : first_under (to_lower a.db_symbol) (f ∷ []) ≡ some f =
      rw (ea, text_eq_self (to_lower f.db_symbol)) in
    let first_b : first_under (to_lower b.db_symbol) (f ∷ a ∷ []) ≡ some f =
      rw (eb, text_eq_self (to_lower f.db_symbol)) in
    conflict_loop-eq (f ∷ a ∷ b ∷ []) [] [] (λ name. refl)
    ∙ rw (first_a, clashes, no_a) (rw (first_b, clashes, no_b))

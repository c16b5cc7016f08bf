-- ===== src/Convert/Whole.antt =====
-- odb-compiler/src/ir/semantic/ASTConverter.cpp, `generateProgram`: what main is typed against.
use open_dark_basic.Prelude.{
  ◌≡◌, refl, ap, ◌∙◌, subst, false, inl, inr, ◌⊎◌, Option, none, some, List, [], ◌∷◌, Bytes,
  Bool-cases, Option-cases,
}
use open_dark_basic.Commands.Index.{CommandIndex, text_eq}
use open_dark_basic.Ast.{AstExpression, Block}
use open_dark_basic.Ir.Types.{IrType}
use open_dark_basic.Convert.{State, FunctionEntry, M}
use open_dark_basic.Convert.Expressions.{find_function}
use open_dark_basic.Convert.Statements.{convert_block}
use open_dark_basic.Convert.Monad.{Ensures}
use open_dark_basic.Convert.Typed.{convert_expression-Ensures}
use open_dark_basic.Convert.Blocks.{AreTypedIn, convert_block-Ensures}
use open_dark_basic.Convert.Program.{
  FuncDecl, TopStatement, Program, split_main, function_table, add_entry, initial, convert_return,
  convert_function, convert_functions, convert_all, finish, generate_program, first_of_names,
  convert_function_arguments,
}

-- No error is taken back.
abbrev KeepsError : {A : Type 0} → State → Option (A × State) → Type 0
KeepsError s none = Unit
KeepsError s (some (a, s')) = s'.error_occurred ≡ false → s.error_occurred ≡ false

KeepsError-then :
    {A B : Type 0} (s : State) (o : Option (A × State)) (f : A → M B)
    → KeepsError s o
    → ((a : A) (s' : State) → KeepsError s' (f a s'))
    → KeepsError s (elim o [ none ↦ none | some (a, s') ↦ f a s' ])
KeepsError-then s none f h next = tt
KeepsError-then s (some (a, s')) f h next = join s s' (f a s') h (next a s')
  where
    join :
        {B : Type 0} (s s' : State) (o : Option (B × State))
        → (s'.error_occurred ≡ false → s.error_occurred ≡ false)
        → KeepsError s' o
        → KeepsError s o
    join s s' none h k = tt
    join s s' (some (b, s'')) h k = λ e. h (k e)

Ensures-KeepsError :
    {A : Type 0} (P : A → Type 0) (s : State) (o : Option (A × State))
    → Ensures s P o
    → KeepsError s o
Ensures-KeepsError P s none h = tt
Ensures-KeepsError P s (some (a, s')) h = λ e. (h.1 e).0

module _ (db : CommandIndex) where
  block-KeepsError : (b : Block) (s : State) → KeepsError s (convert_block db b none s)
  block-KeepsError b s =
      Ensures-KeepsError _ s _ (convert_block-Ensures db s.function_map b none s refl)

  return-KeepsError :
      (name : Bytes) (e : Option AstExpression) (s : State)
      → KeepsError s (convert_return db name e s)
  return-KeepsError name none s = λ e. e
  return-KeepsError name (some e) s =
      KeepsError-then s _ _
        (Ensures-KeepsError _ s _ (convert_expression-Ensures db s.function_map e s refl))
        (λ e' s' ok. ok)

  function-KeepsError : (f : FuncDecl) (s : State) → KeepsError s (convert_function db f s)
  unfolding convert_function
  function-KeepsError f s =
      KeepsError-then s (convert_block db f.body none (begun s)) _
        (block-KeepsError f.body (begun s))
        (λ b s1.
          KeepsError-then s1 _ _ (return-KeepsError f.name f.return_value s1) (λ e s2 ok. ok))
    where
      begun : State → State
      begun t = record t { variables = record { list = []; table = [] } }

  functions-KeepsError : (fs : List FuncDecl) (s : State) → KeepsError s (convert_functions db fs s)
  unfolding convert_functions
  functions-KeepsError [] s = λ e. e
  functions-KeepsError (f ∷ fs) s =
      KeepsError-then s _ _ (function-KeepsError f s)
        (λ d s1. KeepsError-then s1 _ _ (functions-KeepsError fs s1) (λ ds s2 ok. ok))

-- No function of the table has a return expression yet.
abbrev pub NoReturnYet : List (Bytes × FunctionEntry) → Type 0
NoReturnYet entries =
    (name : Bytes) (f : FunctionEntry)
    → find_function name entries ≡ some f
    → f.return_expression ≡ none

same_table : (xs ys : List (Bytes × FunctionEntry)) → some xs ≡ some ys → xs ≡ ys
same_table xs ys q = cc

nothing-NoReturnYet : NoReturnYet []
unfolding find_function
nothing-NoReturnYet name f e = cc

add_entry-some :
    (d : FuncDecl) (o : Option (List IrType)) (o' : Option (List (Bytes × FunctionEntry)))
    (entries : List (Bytes × FunctionEntry))
    → add_entry d o o' ≡ some entries
    → (types : List IrType) × (rest : List (Bytes × FunctionEntry)) × (o ≡ some types)
      × (o' ≡ some rest)
      × ((d.name, record { argument_types = types; return_expression = none }) ∷ rest ≡ entries)
add_entry-some d (some types) (some rest) entries h = (types, rest, refl, refl, cc)
add_entry-some d none o' entries h = cc
add_entry-some d (some types) none entries h = cc

entry_of :
    (types : List IrType) (f : FunctionEntry)
    → some (record { argument_types = types; return_expression = none }) ≡ some f
    → f.return_expression ≡ none
entry_of types f h = cc

cons-NoReturnYet :
    (name : Bytes) (types : List IrType) (rest : List (Bytes × FunctionEntry))
    → NoReturnYet rest
    → NoReturnYet ((name, record { argument_types = types; return_expression = none }) ∷ rest)
unfolding find_function
cons-NoReturnYet name types rest h n f e = elim (Bool-cases (text_eq name n)) [
  | inl t ↦ entry_of types f (rw t at e)
  | inr d ↦ h n f (rw d at e)
]

function_table-NoReturnYet :
    (fs : List FuncDecl) (entries : List (Bytes × FunctionEntry))
    → function_table fs ≡ some entries
    → NoReturnYet entries
unfolding function_table
function_table-NoReturnYet [] entries h name f e =
    nothing-NoReturnYet name f (ap (find_function name) (same_table [] entries h) ∙ e)
function_table-NoReturnYet (d ∷ fs) entries h name f found =
    let (types, rest, e, e', is) =
      add_entry-some d (convert_function_arguments d.args) (function_table fs) entries h in
    subst NoReturnYet is
      (cons-NoReturnYet d.name types rest (function_table-NoReturnYet fs rest e')) name f found

-- The parts of a bind that gives a result.
bind-some :
    {A B : Type 0} (o : Option (A × State)) (f : A → M B) (r : B × State)
    → elim o [ none ↦ none | some (a, s') ↦ f a s' ] ≡ some r
    → (a : A) × (s' : State) × (o ≡ some (a, s')) × (f a s' ≡ some r)
bind-some none f r h = cc
bind-some (some (a, s')) f r h = (a, s', refl, h)

none_program : (p : Program) → ¬ (some none ≡ some (some p))
none_program p h = cc

program_of : (q p : Program) → some (some q) ≡ some (some p) → q ≡ p
program_of q p h = cc

finish-some :
    (db : CommandIndex) (o : Option (Program × State)) (p : Program)
    → finish db o ≡ some (some p)
    → (s : State) × (o ≡ some (p, s)) × (s.error_occurred ≡ false)
finish-some db none p h = cc
finish-some db (some (q, s)) p h = elim (Bool-cases s.error_occurred) [
  | inl t ↦ absurd (none_program p (rw t at h))
  | inr f ↦ let same : q ≡ p = program_of q p (rw f at h) in (s, ap (λ x. some (x, s)) same, f)
]

abbrev done_with : Program → State → Option (Program × State)
done_with p s = some (p, s)

pair_of : (q p : Program) (s s' : State) → done_with q s ≡ done_with p s' → (q ≡ p) × (s ≡ s')
pair_of q p s s' h = (cc, cc)

main_typed :
    (db : CommandIndex) (traversal : List FuncDecl → List FuncDecl) (main : Block)
    (fs : List FuncDecl) (entries : List (Bytes × FunctionEntry)) (p : Program)
    → finish db (convert_all db traversal main fs (initial entries)) ≡ some (some p)
    → AreTypedIn entries none p.main_function
unfolding convert_all
main_typed db traversal main fs entries p h =
    let (s, r, ok) = finish-some db (convert_all db traversal main fs (initial entries)) p h in
    let (b, s1, converted, rest) =
      bind-some (convert_block db main none (initial entries)) _ (p, s) r in
    let (ds, s2, others, last) =
      bind-some (convert_functions db (traversal (first_of_names [] fs)) s1) _ (p, s) rest in
    let (same, same_state) = pair_of _ p s2 s last in
    let ok1 =
      subst (KeepsError s1) others (functions-KeepsError db (traversal (first_of_names [] fs)) s1)
        (ap State.error_occurred same_state ∙ ok) in
    let typed =
      subst (Ensures (initial entries) (AreTypedIn entries none)) converted
        (convert_block-Ensures db entries main none (initial entries) refl) in
    subst (λ (q : Program). AreTypedIn entries none q.main_function) same (typed.1 ok1).1

split_cases :
    (o : Option (Block × List FuncDecl))
    → (o ≡ none) ⊎ ((main : Block) × (fs : List FuncDecl) × (o ≡ some (main, fs)))
split_cases none = inl refl
split_cases (some (main, fs)) = inr (main, fs, refl)

no_result : (p : Program) → ¬ (none ≡ some (some p))
no_result p h = cc

-- A program that `generateProgram` makes: its main is well typed against the table of the functions
-- behind it, in which none has a return expression yet, so that a call in main has the type `void`.
pub generate_program-main :
    (db : CommandIndex) (traversal : List FuncDecl → List FuncDecl) (ast : List TopStatement)
    (p : Program)
    → generate_program db traversal ast ≡ some (some p)
    → (main : Block) × (fs : List FuncDecl) × (entries : List (Bytes × FunctionEntry)) × (split_main
          ast
        ≡ some (main, fs))
      × (function_table fs ≡ some entries)
      × AreTypedIn entries none p.main_function
      × NoReturnYet entries
unfolding generate_program
generate_program-main db traversal ast p h = elim (split_cases (split_main ast)) [
  | inl e ↦ absurd (no_result p (rw e at h))
  | inr (main, fs, e) ↦ elim (Option-cases (function_table fs)) [
    | inl e' ↦ absurd (no_result p (rw e' at (rw e at h)))
    | inr (entries, e') ↦
        let done = rw e' at (rw e at h) in
        (
          main,
          fs,
          entries,
          e,
          e',
          main_typed db traversal main fs entries p done,
          function_table-NoReturnYet fs entries e',
        )
  ]
]

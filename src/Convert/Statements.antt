-- ===== src/Convert/Statements.antt =====
-- odb-compiler/src/ir/semantic/ASTConverter.cpp: the conversion of statements, blocks and the program.
-- C++ leaves open in which order the arguments of a call are converted; here it is from the first on.
use open_dark_basic.Prelude.{ℕ, suc, Option, none, some, List, [], ◌∷◌, ◌++◌, Bytes, if◌then◌else◌}
use open_dark_basic.Commands.Index.{CommandIndex, text_eq}
use open_dark_basic.Ast.{AstExpression, AstStatement, Block}
use open_dark_basic.Ir.{Variable, VarAnnotation, lookup_variable, add_variable}
use open_dark_basic.Ir.Statements.{Statement, Statements}
use open_dark_basic.Ir.Types.{BuiltinType, builtin}
use open_dark_basic.Convert.{
  M, pure, ◌>>=◌, ◌>>◌, or_fatal, semantic_error, ensure_type, resolve_variable_ref, get_annotation,
}
use open_dark_basic.Convert.Expressions.{convert_expression}

-- A statement that is made, and its number.
unfoldable pub new_id : M ℕ
new_id s = some (s.next_id, record s { next_id = suc s.next_id })

unfoldable pub find_label : Bytes → List (Bytes × ℕ) → Option ℕ
find_label name [] = none
find_label name ((n, l) ∷ labels) = if text_eq n name then some l else find_label name labels

-- The jumps under a name, each made to point to the label.
unfoldable pub point_to : ℕ → Bytes → List (Bytes × ℕ) → List (ℕ × ℕ)
point_to l name [] = []
point_to l name ((n, j) ∷ pending) =
    if text_eq n name then (j, l) ∷ point_to l name pending else point_to l name pending

-- `erase` of a name.
unfoldable pub erase_name : Bytes → List (Bytes × ℕ) → List (Bytes × ℕ)
erase_name name [] = []
erase_name name ((n, j) ∷ pending) =
    if text_eq n name then erase_name name pending else (n, j) ∷ erase_name name pending

-- `emplace`, which leaves a name that is there as it is.
abbrev pub emplace_label : Bytes → ℕ → Option ℕ → List (Bytes × ℕ) → List (Bytes × ℕ)
emplace_label name l none labels = (name, l) ∷ labels
emplace_label name l (some old) labels = labels

-- A label: the jumps that wait for it point to it.
unfoldable pub define_label : Bytes → ℕ → M (Unit {0})
unfolding find_label point_to erase_name
define_label name l s = some (
  tt,
  record s {
    labels = emplace_label name l (find_label name s.labels) s.labels;
    pending_goto_statements = erase_name name s.pending_goto_statements;
    pending_gosub_statements = erase_name name s.pending_gosub_statements;
    targets =
        point_to l name s.pending_goto_statements
        ++ (point_to l name s.pending_gosub_statements ++ s.targets);
  },
)

-- A jump points to its label if that is there, and waits for it otherwise.
abbrev pub goto_to : Bytes → ℕ → Option ℕ → M (Unit {0})
goto_to name j (some l) s = some (tt, record s { targets = (j, l) ∷ s.targets })
goto_to name j none s =
    some (tt, record s { pending_goto_statements = (name, j) ∷ s.pending_goto_statements })

abbrev pub gosub_to : Bytes → ℕ → Option ℕ → M (Unit {0})
gosub_to name j (some l) s = some (tt, record s { targets = (j, l) ∷ s.targets })
gosub_to name j none s =
    some (tt, record s { pending_gosub_statements = (name, j) ∷ s.pending_gosub_statements })

unfoldable pub add_goto : Bytes → ℕ → M (Unit {0})
unfolding find_label
add_goto name j s = goto_to name j (find_label name s.labels) s

unfoldable pub add_gosub : Bytes → ℕ → M (Unit {0})
unfolding find_label
add_gosub name j s = gosub_to name j (find_label name s.labels) s

abbrev pub step_or_one : Option AstExpression → AstExpression
step_or_one none = AstExpression.literal BuiltinType.integer 1
step_or_one (some step) = step

abbrev pub declare : Variable → M (Unit {0})
declare v s = some (tt, record s { variables = add_variable s.variables v })

module _ (db : CommandIndex) where
  -- The declaration of a variable that is not there yet; for one that is, two errors.
  unfoldable pub declare_variable :
      Bytes → VarAnnotation → BuiltinType → AstExpression → Option Variable → M Statement
  declare_variable name annotation type value (some v) =
      semantic_error >> (semantic_error >> pure Statement.no_statement)
  declare_variable name annotation type value none = do
    let v : Variable = record { name = name; annotation = annotation; type = builtin type }
    declare v
    e ← convert_expression db value
    e' ← ensure_type e (builtin type)
    pure (Statement.var_assignment v e')

  abbrev pub exit_loop : Option ℕ → M Statement
  exit_loop none = semantic_error >> pure Statement.no_statement
  exit_loop (some loop) = pure (Statement.exit loop)

  unfoldable mutual
    unfolding declare_variable

    -- `convertStatement`, inside the loop that is given.
    pub convert_statement : AstStatement → Option ℕ → M Statement
    convert_statement (AstStatement.var_decl symbol type value) loop = do
      a ← or_fatal (get_annotation symbol.annotation)
      λ s. declare_variable symbol.name a type value (lookup_variable s.variables symbol.name a) s
    convert_statement (AstStatement.var_assignment symbol value) loop = do
      v ← resolve_variable_ref symbol.name symbol.annotation
      e ← convert_expression db value
      e' ← ensure_type e v.type
      pure (Statement.var_assignment v e')
    -- The branches are arguments of one call; C++ leaves open which is converted first.
    convert_statement (AstStatement.conditional condition yes_branch no_branch) loop = do
      c ← convert_expression db condition
      c' ← ensure_type c (builtin BuiltinType.boolean)
      b1 ← convert_block yes_branch loop
      b2 ← convert_block no_branch loop
      pure (Statement.conditional c' b1 b2)
    convert_statement AstStatement.sub_return loop = pure Statement.sub_return
    convert_statement (AstStatement.func_exit value) loop = do
      e ← convert_expression db value
      pure (Statement.exit_function e)
    convert_statement (AstStatement.for_loop counter from to step body) loop = do
      v ← resolve_variable_ref counter.name counter.annotation
      e1 ← convert_expression db from
      e1' ← ensure_type e1 v.type
      e2 ← convert_expression db to
      e2' ← ensure_type e2 v.type
      e3 ← convert_expression db (step_or_one step)
      e3' ← ensure_type e3 v.type
      id ← new_id
      b ← convert_block body (some id)
      pure (Statement.for_loop id v e1' e2' e3' b)
    convert_statement (AstStatement.while_loop condition body) loop = do
      c ← convert_expression db condition
      id ← new_id
      b ← convert_block body (some id)
      pure (Statement.while_loop id c b)
    convert_statement (AstStatement.until_loop condition body) loop = do
      c ← convert_expression db condition
      id ← new_id
      b ← convert_block body (some id)
      pure (Statement.until_loop id c b)
    convert_statement (AstStatement.infinite_loop body) loop = do
      id ← new_id
      b ← convert_block body (some id)
      pure (Statement.infinite_loop id b)
    convert_statement AstStatement.exit loop = exit_loop loop
    convert_statement (AstStatement.label name) loop = do
      l ← new_id
      define_label name l
      pure (Statement.label l name)
    convert_statement (AstStatement.func_call_stmnt symbol args) loop = do
      e ← convert_expression db (AstExpression.func_call_expr symbol args)
      pure (Statement.function_call e)
    convert_statement (AstStatement.goto name) loop = do
      j ← new_id
      add_goto name j
      pure (Statement.goto j)
    convert_statement (AstStatement.sub_call name) loop = do
      j ← new_id
      add_gosub name j
      pure (Statement.gosub j)
    convert_statement (AstStatement.command_stmnt name args) loop = do
      e ← convert_expression db (AstExpression.command_expr name args)
      pure (Statement.function_call e)
    convert_statement AstStatement.other_statement loop = λ s. none

    -- `convertBlock`.
    pub convert_block : Block → Option ℕ → M Statements
    convert_block Block.nil loop = pure Statements.nil
    convert_block (Block.cons statement block) loop = do
      st ← convert_statement statement loop
      b ← convert_block block loop
      pure (Statements.cons st b)

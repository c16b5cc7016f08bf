-- ===== src/Convert/Program.antt =====
-- odb-compiler/src/ir/semantic/ASTConverter.cpp, `generateProgram`: the whole program. In which order
-- the hash table of the functions is read is an argument.
use open_dark_basic.Prelude.{false, Option, none, some, List, [], ◌∷◌, Bytes, if◌then◌else◌, any_of}
use open_dark_basic.Commands.Index.{CommandIndex, text_eq}
use open_dark_basic.Ast.{AstExpression, AstStatement, Block, AnnotatedSymbol}
use open_dark_basic.Ir.{Expression, VarAnnotation}
use open_dark_basic.Ir.Statements.{Statements}
use open_dark_basic.Ir.Types.{IrType}
use open_dark_basic.Convert.{
  State, FunctionEntry, M, pure, ◌>>=◌, ◌>>◌, get_annotation, get_type_from_annotation,
}
use open_dark_basic.Convert.Expressions.{convert_expression}
use open_dark_basic.Convert.Statements.{convert_block}

-- `FuncDecl`, with a body: the converter reads it without asking whether it is there.
pub record FuncDecl : Type 0 where
  pub name : Bytes
  pub args : List AnnotatedSymbol
  pub body : Block
  pub return_value : Option AstExpression

-- What stands at the top of a program.
pub data TopStatement : Type 0 where
  statement : AstStatement → TopStatement
  function : FuncDecl → TopStatement

pub record FunctionDefinition : Type 0 where
  pub name : Bytes
  pub statements : Statements
  pub return_expression : Option Expression

pub record Program : Type 0 where
  pub main_function : Statements
  pub functions : List FunctionDefinition

abbrev pub cons_some : {A : Type 0} → Option A → Option (List A) → Option (List A)
cons_some (some a) (some as') = some (a ∷ as')
cons_some _ _ = none

abbrev pub argument_type : Option VarAnnotation → Option IrType
argument_type none = none
argument_type (some a) = some (get_type_from_annotation a)

-- `convertFunctionWithoutBody`: the types of the arguments.
pub convert_function_arguments : List AnnotatedSymbol → Option (List IrType)
convert_function_arguments [] = some []
convert_function_arguments (a ∷ args) =
    cons_some (argument_type (get_annotation a.annotation)) (convert_function_arguments args)

-- The statements of main, and the functions behind them; a statement behind a function is fatal.
abbrev pub only_functions : List TopStatement → Option (List FuncDecl)
only_functions [] = some []
only_functions (statement s ∷ rest) = none
only_functions (function f ∷ rest) = cons_some (some f) (only_functions rest)

abbrev pub with_statement :
    AstStatement → Option (Block × List FuncDecl) → Option (Block × List FuncDecl)
with_statement s none = none
with_statement s (some (b, fs)) = some (Block.cons s b, fs)

abbrev pub behind_main : Option (List FuncDecl) → Option (Block × List FuncDecl)
behind_main none = none
behind_main (some fs) = some (Block.nil, fs)

pub split_main : List TopStatement → Option (Block × List FuncDecl)
split_main [] = some (Block.nil, [])
split_main (statement s ∷ rest) = with_statement s (split_main rest)
split_main (function f ∷ rest) = behind_main (only_functions (function f ∷ rest))

-- `functionMap_` before the bodies are converted: no function has a return expression yet, and of two
-- functions with one name the first stays.
abbrev pub add_entry :
    FuncDecl
    → Option (List IrType)
    → Option (List (Bytes × FunctionEntry))
    → Option (List (Bytes × FunctionEntry))
add_entry f (some types) (some entries) =
    some ((f.name, record { argument_types = types; return_expression = none }) ∷ entries)
add_entry f _ _ = none

unfoldable pub function_table : List FuncDecl → Option (List (Bytes × FunctionEntry))
unfolding convert_function_arguments
function_table [] = some []
function_table (f ∷ fs) = add_entry f (convert_function_arguments f.args) (function_table fs)

-- `setReturnExpression` of the function under a name.
pub set_return_expression :
    Bytes → Expression → List (Bytes × FunctionEntry) → List (Bytes × FunctionEntry)
set_return_expression name e [] = []
set_return_expression name e ((n, f) ∷ entries) =
    if text_eq n name
    then (n, record { argument_types = f.argument_types; return_expression = some e }) ∷ entries
    else (n, f) ∷ set_return_expression name e entries

-- The functions that `functionMap_` holds: the first of each name.
pub first_of_names : List Bytes → List FuncDecl → List FuncDecl
first_of_names seen [] = []
first_of_names seen (f ∷ fs) =
    let rest = first_of_names (f.name ∷ seen) fs in
    if any_of (text_eq f.name) seen then rest else f ∷ rest

abbrev pub no_body : Bytes → FunctionDefinition
no_body name = record { name = name; statements = Statements.nil; return_expression = none }

pub find_definition : Bytes → List FunctionDefinition → FunctionDefinition
find_definition name [] = no_body name
find_definition name (d ∷ ds) = if text_eq d.name name then d else find_definition name ds

-- The definitions in the order of the program; a second one of a name has no body.
pub arrange : List Bytes → List FuncDecl → List FunctionDefinition → List FunctionDefinition
unfolding find_definition
arrange seen [] ds = []
arrange seen (f ∷ fs) ds =
    (if any_of (text_eq f.name) seen then no_body f.name else find_definition f.name ds)
    ∷ arrange (f.name ∷ seen) fs ds

-- The variables of a function that is begun: its arguments are not among them.
abbrev pub begin_function : M (Unit {0})
begin_function s = some (tt, record s { variables = record { list = []; table = [] } })

abbrev pub end_function : Bytes → Expression → M (Unit {0})
end_function name e s =
    some (tt, record s { function_map = set_return_expression name e s.function_map })

abbrev pub initial : List (Bytes × FunctionEntry) → State
initial entries = record {
  error_occurred = false;
  variables = record { list = []; table = [] };
  function_map = entries;
  labels = [];
  pending_goto_statements = [];
  pending_gosub_statements = [];
  targets = [];
  next_id = 0;
}

module _ (db : CommandIndex) where
  abbrev pub convert_return : Bytes → Option AstExpression → M (Option Expression)
  convert_return name none = pure none
  convert_return name (some e) = do
    e' ← convert_expression db e
    end_function name e'
    pure (some e')

  unfoldable pub convert_function : FuncDecl → M FunctionDefinition
  convert_function f = do
    begin_function
    b ← convert_block db f.body none
    e ← convert_return f.name f.return_value
    pure (record { name = f.name; statements = b; return_expression = e })

  unfoldable pub convert_functions : List FuncDecl → M (List FunctionDefinition)
  convert_functions [] = pure []
  convert_functions (f ∷ fs) = do d ← convert_function f; ds ← convert_functions fs; pure (d ∷ ds)

  -- The bodies are converted of the functions that the table holds.
  unfoldable pub convert_all : (List FuncDecl → List FuncDecl) → Block → List FuncDecl → M Program
  unfolding first_of_names arrange
  convert_all traversal main fs = do
    b ← convert_block db main none
    ds ← convert_functions (traversal (first_of_names [] fs))
    pure (record { main_function = b; functions = arrange [] fs ds })

  -- The program, or none where an error is reported.
  abbrev pub unless_error : Program × State → Option Program
  unless_error (p, s) = if s.error_occurred then none else some p

  abbrev pub finish : Option (Program × State) → Option (Option Program)
  finish none = none
  finish (some r) = some (unless_error r)

  abbrev pub from_table :
      (List FuncDecl → List FuncDecl)
      → Block
      → List FuncDecl
      → Option (List (Bytes × FunctionEntry))
      → Option (Option Program)
  from_table traversal main fs none = none
  from_table traversal main fs (some entries) =
      finish (convert_all traversal main fs (initial entries))

  abbrev pub from_split :
      (List FuncDecl → List FuncDecl) → Option (Block × List FuncDecl) → Option (Option Program)
  from_split traversal none = none
  from_split traversal (some (main, fs)) = from_table traversal main fs (function_table fs)

  -- `generateProgram`; the outer none is the end of the process.
  unfoldable pub generate_program :
      (List FuncDecl → List FuncDecl) → List TopStatement → Option (Option Program)
  unfolding split_main function_table convert_all
  generate_program traversal ast = from_split traversal (split_main ast)

-- ===== src/Convert/Tests.antt =====
-- odb-compiler/src/ir/semantic/ASTConverter.cpp: runs of the converter, and the theorems at concrete
-- programs.
use open_dark_basic.Prelude.{
  ℕ, ◌≡◌, ◌≢◌, ◌↔◌, refl, false, Option, some, none, List, [], ◌∷◌, Bytes, codes, In,
}
use open_dark_basic.Commands.Command.{Command, CommandType, void}
use open_dark_basic.Commands.Index.{CommandIndex, add_command, empty}
use open_dark_basic.Ast.{ArgList, AstExpression, AstStatement, Block, Annotation}
use open_dark_basic.Ir.{
  VarAnnotation, Expression, BinaryOp, get_type, lookup_variable, add_variable,
}
use open_dark_basic.Ir.Statements.{Statement, Statements}
use open_dark_basic.Ir.Types.{
  IrType, BuiltinType, builtin, is_integral_type, is_floating_point_type, type_eq,
}
use open_dark_basic.Convert.{
  FunctionEntry, State, get_type_from_command_type, get_annotation, get_type_from_annotation,
  is_type_convertible, builtin_convertible, ensure_type, resolve_variable_ref,
}
use open_dark_basic.Convert.Overload.{select_overload, find_command, argument_score}
use open_dark_basic.Convert.Best.{IsCalled, find_command-IsCalled}
use open_dark_basic.Convert.Expressions.{find_function, convert_expression}
use open_dark_basic.Convert.Statements.{convert_block, new_id, define_label, find_label, add_goto}
use open_dark_basic.Convert.Typed.{IsTyped, convert_expression-IsTyped}
use open_dark_basic.Convert.Blocks.{AreTypedIn, convert_block-AreTypedIn}
use open_dark_basic.Convert.Program.{
  FuncDecl, TopStatement, Program, generate_program, convert_function, convert_functions,
  split_main, function_table, initial,
}
use open_dark_basic.Convert.Whole.{NoReturnYet, generate_program-main}
use open_dark_basic.Convert.Labels.{define_label-resolves}

abbrev one_arg : CommandType → Command
one_arg t = record {
  library = 0;
  db_symbol = codes "print";
  cpp_symbol = [];
  help_file = [];
  args = record { type = t; sym_name = []; description = [] } ∷ [];
  return_type = void;
}

abbrev overloads : List Command
overloads =
    one_arg CommandType.double ∷ one_arg CommandType.integer ∷ one_arg CommandType.string ∷ []

-- An integer of 64 bits is passed to the overload for an integer of 32, not to the one for a double.
integral_run :
    select_overload (builtin BuiltinType.double_integer ∷ []) overloads
    ≡ some (one_arg CommandType.integer)
unfolding select_overload get_type_from_command_type argument_score is_type_convertible
    builtin_convertible is_integral_type is_floating_point_type type_eq
integral_run = refl

find_command-IsCalled_example :
    IsCalled (builtin BuiltinType.double_integer ∷ []) overloads (one_arg CommandType.integer)
unfolding find_command
find_command-IsCalled_example =
    find_command-IsCalled (builtin BuiltinType.double_integer ∷ []) overloads
      (one_arg CommandType.integer) integral_run

-- A call without an argument means an overload that wants one.
unchecked_run : find_command [] overloads ≡ some (one_arg CommandType.double)
unfolding find_command
unchecked_run = refl

abbrev index : CommandIndex
unfolding add_command
index = add_command (add_command empty (one_arg CommandType.double)) (one_arg CommandType.integer)

abbrev start : State
start = record {
  error_occurred = false;
  variables = record { list = []; table = [] };
  function_map = [];
  labels = [];
  pending_goto_statements = [];
  pending_gosub_statements = [];
  targets = [];
  next_id = 0;
}

-- `x# + 1`, where `x#` is declared by its use.
abbrev sum : AstExpression
sum =
    AstExpression.binary_op BinaryOp.add
      (AstExpression.var_ref (record { name = codes "x"; annotation = Annotation.float }))
      (AstExpression.literal BuiltinType.byte 1)

Converts : {A : Type 0} → Option (A × State) → Type 0
Converts none = ⊥
Converts (some (a, s)) = s.error_occurred ≡ false

abbrev result_of : {A : Type 0} (o : Option (A × State)) → Converts o → A × State
unfolding Converts
result_of none h = absurd h
result_of (some r) h = r

some_result :
    {A : Type 0} (o : Option (A × State)) (h : Converts o)
    → (o ≡ some ((result_of o h).0, (result_of o h).1)) × ((result_of o h).1.error_occurred ≡ false)
unfolding Converts
some_result none h = absurd h
some_result (some (a, s)) h = (refl, h)

sum-Converts : Converts (convert_expression index sum start)
unfolding Converts convert_expression resolve_variable_ref get_annotation lookup_variable
    get_type_from_annotation get_type ensure_type is_type_convertible type_eq add_variable
    builtin_convertible is_integral_type is_floating_point_type
sum-Converts = refl

abbrev sum_result : Expression × State
sum_result = result_of (convert_expression index sum start) sum-Converts

convert_expression-IsTyped_example : IsTyped [] sum_result.0
convert_expression-IsTyped_example =
    convert_expression-IsTyped index [] sum start refl sum_result.0 sum_result.1
      (some_result (convert_expression index sum start) sum-Converts).0
      (some_result (convert_expression index sum start) sum-Converts).1

-- `i = 1 : while 1 : goto done : exit : endwhile : done:`
abbrev program : Block
program =
    Block.cons
      (AstStatement.var_assignment
        (record { name = codes "i"; annotation = Annotation.unannotated })
        (AstExpression.literal BuiltinType.byte 1))
      (Block.cons
        (AstStatement.while_loop (AstExpression.literal BuiltinType.byte 1)
          (Block.cons (AstStatement.goto (codes "done")) (Block.cons AstStatement.exit Block.nil)))
        (Block.cons (AstStatement.label (codes "done")) Block.nil))

program-Converts : Converts (convert_block index program none start)
unfolding Converts convert_block convert_expression resolve_variable_ref get_annotation
    lookup_variable get_type_from_annotation get_type ensure_type is_type_convertible type_eq
    add_variable builtin_convertible is_integral_type is_floating_point_type new_id define_label
    find_label add_goto
program-Converts = refl

abbrev program_result : Statements × State
program_result = result_of (convert_block index program none start) program-Converts

convert_block-AreTypedIn_example : AreTypedIn [] none program_result.0
convert_block-AreTypedIn_example =
    convert_block-AreTypedIn index [] program none start refl program_result.0 program_result.1
      (some_result (convert_block index program none start) program-Converts).0
      (some_result (convert_block index program none start) program-Converts).1

abbrev waiting : State
waiting = record start { pending_goto_statements = (codes "done", 3) ∷ (codes "again", 4) ∷ [] }

define_label-resolves_example :
    (s' : State) × (define_label (codes "done") 5 waiting ≡ some (tt, s'))
    × ((j : ℕ) → In (codes "done", j) waiting.pending_goto_statements → In (j, 5) s'.targets)
    × ((j : ℕ) → In (codes "done", j) waiting.pending_gosub_statements → In (j, 5) s'.targets)
    × ((p : Bytes × ℕ)
        → In p s'.pending_goto_statements
          ↔ (In p waiting.pending_goto_statements × (p.0 ≢ codes "done")))
    × ((p : Bytes × ℕ)
        → In p s'.pending_gosub_statements
          ↔ (In p waiting.pending_gosub_statements × (p.0 ≢ codes "done")))
    × ((m : ℕ) × (find_label (codes "done") s'.labels ≡ some m))
define_label-resolves_example = define_label-resolves (codes "done") 5 waiting

abbrev seven : FuncDecl
seven = record {
  name = codes "seven";
  args = [];
  body = Block.nil;
  return_value = some (AstExpression.literal BuiltinType.integer 7);
}

abbrev source : List TopStatement
source =
    TopStatement.statement (
      AstStatement.var_assignment (record { name = codes "i"; annotation = Annotation.unannotated })
        (AstExpression.literal BuiltinType.byte 1))
    ∷ TopStatement.function seven
    ∷ []

abbrev converted : Program
converted = record {
  main_function =
      Statements.cons
        (Statement.var_assignment
          (record {
            name = codes "i";
            annotation = VarAnnotation.unannotated;
            type = builtin BuiltinType.integer;
          })
          (Expression.cast (Expression.literal BuiltinType.byte 1) (builtin BuiltinType.integer)))
        Statements.nil;
  functions =
      record {
        name = codes "seven";
        statements = Statements.nil;
        return_expression = some (Expression.literal BuiltinType.integer 7);
      }
      ∷ [];
}

source-run : generate_program index (λ fs. fs) source ≡ some (some converted)
unfolding generate_program convert_function convert_functions convert_block convert_expression
    resolve_variable_ref get_annotation lookup_variable get_type_from_annotation get_type
    ensure_type is_type_convertible type_eq add_variable builtin_convertible is_integral_type
    is_floating_point_type
source-run = refl

-- A call in main of a function that returns an integer has the type `void`.
call_run :
    (c : Expression) × (s : State) × (convert_expression index
        (AstExpression.func_call_expr
          (record { name = codes "seven"; annotation = Annotation.unannotated })
          ArgList.nil)
        (initial ((codes "seven", record { argument_types = []; return_expression = none }) ∷ []))
      ≡ some (c, s))
    × (get_type c ≡ some IrType.void)
unfolding convert_expression find_function get_type
call_run = (_, _, refl, refl)

generate_program-main_example :
    (main : Block) × (fs : List FuncDecl) × (entries : List (Bytes × FunctionEntry)) × (split_main
        source
      ≡ some (main, fs))
    × (function_table fs ≡ some entries)
    × AreTypedIn entries none converted.main_function
    × NoReturnYet entries
generate_program-main_example = generate_program-main index (λ fs. fs) source converted source-run

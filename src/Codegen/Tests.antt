-- ===== src/Codegen/Tests.antt =====
-- odb-compiler/src/ir/codegen/CodeGenerator.cpp: runs of the generator, and witnesses of its theorems.
use open_dark_basic.Prelude.{
  All, ℕ, suc, ◌≡◌, refl, true, In, some, none, List, [], ◌∷◌, Bytes, codes,
}
use open_dark_basic.Commands.Command.{CommandType, Command}
use open_dark_basic.Ir.{
  Expression, Arguments, Callee, UnaryOp, BinaryOp, Variable, VarAnnotation, get_type,
}
use open_dark_basic.Ir.Types.{BuiltinType, builtin, is_integral_type, is_floating_point_type}
use open_dark_basic.Codegen.{
  LlvmType, result_type, Builder, Documented, TypedThunks, Symbols, find_entry, upper_camel_case,
  char_to_upper,
}
use open_dark_basic.Codegen.Emit.{generate_expression}
use open_dark_basic.Str.{char_to_lower}
use open_dark_basic.Codegen.Ready.{IsReady}
use open_dark_basic.Codegen.Storage.{
  HasStorage, IsInitialised, AreDistinct, allocate_variables, allocate_variables-HasStorage,
}
use open_dark_basic.Codegen.Doubles.{generate_expression_double_fault}

-- A value is known by its type and that of what it points to, a function by its type, the
-- module by the number of its instructions.
abbrev first_type : List (LlvmType × LlvmType) → LlvmType
first_type [] = LlvmType.void
first_type ((t, p) ∷ xs) = t

abbrev counter : Builder
counter = record {
  Value = LlvmType × LlvmType;
  Function = List LlvmType × LlvmType;
  Module = ℕ;
  type_of = λ x. x.0;
  pointee = λ x. x.1;
  function_type = λ f. f;
  emit = λ i xs m. ((result_type i (first_type xs), LlvmType.void), suc m);
  create_load = λ x m. ((x.1, LlvmType.void), suc m);
  create_alloca = λ t name m. ((LlvmType.null, t), suc m);
  create_store = λ x y m. suc m;
  create_call = λ f xs m. ((f.1, LlvmType.void), suc m);
  constant_int = λ t n. (t, LlvmType.void);
  constant_fp = λ t n. (t, LlvmType.void);
  global_string_ptr = λ text m. ((LlvmType.int8_ptr, LlvmType.void), m);
  global_string = λ text m. ((LlvmType.text_ptr, LlvmType.void), m);
  generate_command_call = λ c name args t m. ((args, t), m);
}

counter-Documented : Documented counter
counter-Documented = record {
  emit_type = λ i x xs m h. refl;
  load_type = λ x m. refl;
  alloca_pointee = λ t name m. refl;
  call_type = λ f xs m h. refl;
  constant_int_type = λ t n. refl;
  constant_fp_type = λ t n. refl;
  global_string_type = λ text m. refl;
}

counter-TypedThunks : TypedThunks counter
counter-TypedThunks = record { thunk_type = λ c name args t m. refl }

abbrev speed : Variable
speed = record {
  name = codes "speed";
  annotation = VarAnnotation.unannotated;
  type = builtin BuiltinType.float;
}

abbrev rnd : Command
rnd = record {
  library = 0;
  db_symbol = codes "rnd value";
  cpp_symbol = codes "rnd";
  help_file = [];
  args = record { type = CommandType.integer; sym_name = []; description = [] } ∷ [];
  return_type = CommandType.float;
}

abbrev variables : List (Variable × (LlvmType × LlvmType))
variables = (speed, (LlvmType.null, LlvmType.float)) ∷ []

abbrev int_to_float : Bytes → List LlvmType × LlvmType
int_to_float name = (LlvmType.integer 32 ∷ [], LlvmType.float)

abbrev start : Symbols counter
start = record {
  module_ = 0;
  variable_table = variables;
  string_literal_table = [];
  command_thunks = [];
  function_definitions = [];
}

-- `-speed + rnd value(3)` plus 2 as a float.
abbrev sum : Expression
sum =
    Expression.binary BinaryOp.add
      (Expression.binary BinaryOp.add (Expression.unary UnaryOp.negate (Expression.var_ref speed)) (
        Expression.call (Callee.command rnd)
          (Arguments.cons (Expression.literal BuiltinType.integer 3) Arguments.nil)
          (builtin BuiltinType.float)))
      (Expression.cast (Expression.literal BuiltinType.integer 2) (builtin BuiltinType.float))

start-IsReady :
    IsReady counter counter-Documented counter-TypedThunks int_to_float variables [] start
unfolding find_entry
start-IsReady = record {
  same_variables = refl;
  same_functions = refl;
  texts = λ text x h. cc;
  thunks = λ name f h. cc;
}

-- `1.0 * 2.0` of type DoubleFloat.
abbrev one_double : Expression
one_double = Expression.literal BuiltinType.double_float 1

generate_expression_double_fault_example :
    generate_expression counter (Expression.binary BinaryOp.mul one_double one_double) start ≡ none
unfolding get_type is_integral_type is_floating_point_type
generate_expression_double_fault_example =
    generate_expression_double_fault counter counter-Documented counter-TypedThunks int_to_float
      variables [] BinaryOp.mul one_double one_double start refl start-IsReady refl refl refl refl

rnd_camel_case : upper_camel_case true (codes "rnd vaLue") ≡ codes "RndValue"
unfolding upper_camel_case char_to_upper char_to_lower
rnd_camel_case = refl

abbrev lives : Variable
lives = record {
  name = codes "lives";
  annotation = VarAnnotation.unannotated;
  type = builtin BuiltinType.byte;
}

abbrev bare : Symbols counter
bare = record {
  module_ = 0;
  variable_table = [];
  string_literal_table = [];
  command_thunks = [];
  function_definitions = [];
}

lives-IsInitialised : All IsInitialised (lives ∷ [])
unfolding is_integral_type
lives-IsInitialised = ((BuiltinType.byte, refl, refl), tt)

single-AreDistinct : AreDistinct (lives ∷ [])
single-AreDistinct = (tt, tt)

allocate_variables-HasStorage_example :
    (s' : Symbols counter) × (allocate_variables counter (speed ∷ lives ∷ []) bare ≡ some (tt, s'))
    × ((v : Variable)
        → In v (speed ∷ lives ∷ [])
        → HasStorage counter counter-Documented s'.variable_table v)
unfolding is_integral_type is_floating_point_type
allocate_variables-HasStorage_example =
    allocate_variables-HasStorage counter counter-Documented (speed ∷ lives ∷ []) bare refl
      ((BuiltinType.float, refl, refl), lives-IsInitialised) ((refl, tt), single-AreDistinct)

-- ===== src/Convert.antt =====
-- odb-compiler/src/ir/semantic/ASTConverter.cpp: the conversion of the syntax tree, as a monad: the
-- state is the converter's, and no result is `std::terminate` or an assertion that fails.
pub mod Overload
pub mod Expressions
mod Monad
pub mod Best
pub mod Typed
pub mod Statements
pub mod Blocks
pub mod Labels
pub mod Program
pub mod Whole
mod Tests
use open_dark_basic.Prelude.{
  ℕ, suc, Bool, true, false, ◌&&◌, ◌||◌, not, Option, none, some, List, [], ◌∷◌, Bytes,
  if◌then◌else◌,
}
use open_dark_basic.Commands.Command.{CommandType}
use open_dark_basic.Ast.{Annotation}
use open_dark_basic.Ir.{
  Expression, cast, VariableScope, VarAnnotation, Variable, get_type, lookup_variable, add_variable,
}
use open_dark_basic.Ir.Types.{
  IrType, void, builtin, BuiltinType, is_integral_type, is_floating_point_type, type_eq,
}

-- A function of the program, as far as it is converted.
pub record FunctionEntry : Type 0 where
  pub argument_types : List IrType
  pub return_expression : Option Expression

-- `errorOccurred_`, the variables of `currentFunction_`, `functionMap_`, `labels_` and the jumps that
-- wait for a label; `targets` says to which label the field `label_` of a jump points, and `next_id` is
-- the number of the next statement that is made.
pub record State : Type 0 where
  pub error_occurred : Bool
  pub variables : VariableScope
  pub function_map : List (Bytes × FunctionEntry)
  pub labels : List (Bytes × ℕ)
  pub pending_goto_statements : List (Bytes × ℕ)
  pub pending_gosub_statements : List (Bytes × ℕ)
  pub targets : List (ℕ × ℕ)
  pub next_id : ℕ

abbrev pub M : Type 0 → Type 0
M A = State → Option (A × State)

abbrev pub pure : {A : Type 0} → A → M A
pure a s = some (a, s)

infixl 5 ◌>>=◌ ◌>>◌
abbrev pub ◌>>=◌ : {A B : Type 0} → M A → (A → M B) → M B
◌>>=◌ m f s = elim (m s) [ none ↦ none | some (a, s') ↦ f a s' ]

abbrev pub ◌>>◌ : {B : Type 0} → M (Unit {0}) → M B → M B
m >> k = m >>= λ _. k

-- A value that is not there is a fatal error.
abbrev pub or_fatal : {A : Type 0} → Option A → M A
or_fatal none s = none
or_fatal (some a) s = some (a, s)

-- `semanticError`.
abbrev pub semantic_error : M (Unit {0})
semantic_error s = some (tt, record s { error_occurred = true })

unfoldable pub get_type_from_annotation : VarAnnotation → IrType
get_type_from_annotation VarAnnotation.unannotated = builtin BuiltinType.integer
get_type_from_annotation VarAnnotation.string = builtin BuiltinType.string
get_type_from_annotation VarAnnotation.float = builtin BuiltinType.float

unfoldable pub get_type_from_command_type : CommandType → Option IrType
get_type_from_command_type CommandType.integer = some (builtin BuiltinType.integer)
get_type_from_command_type CommandType.float = some (builtin BuiltinType.float)
get_type_from_command_type CommandType.string = some (builtin BuiltinType.string)
get_type_from_command_type CommandType.double = some (builtin BuiltinType.double_float)
get_type_from_command_type CommandType.long = some (builtin BuiltinType.double_integer)
get_type_from_command_type CommandType.dword = some (builtin BuiltinType.dword)
get_type_from_command_type CommandType.void = some void
get_type_from_command_type (CommandType.unlisted c) = none

-- `getAnnotation`, which asserts that there is no other annotation.
unfoldable pub get_annotation : Annotation → Option VarAnnotation
get_annotation Annotation.unannotated = some VarAnnotation.unannotated
get_annotation Annotation.string = some VarAnnotation.string
get_annotation Annotation.float = some VarAnnotation.float
get_annotation _ = none

-- The casts between types of the language.
unfoldable pub builtin_convertible : BuiltinType → BuiltinType → Bool
builtin_convertible source target =
    if is_integral_type source && is_integral_type target
    then true
    else if is_floating_point_type source && is_floating_point_type target
    then true
    else if is_integral_type source && is_floating_point_type target
    then true
    else is_floating_point_type source && is_integral_type target

abbrev pub both_convertible : IrType → IrType → Bool
both_convertible (builtin a) (builtin b) = builtin_convertible a b
both_convertible _ _ = false

unfoldable pub is_type_convertible : IrType → IrType → Bool
is_type_convertible source target =
    if type_eq source target then true else both_convertible source target

abbrev pub coerce : Expression → IrType → IrType → M Expression
coerce expression target expression_type =
    if type_eq expression_type target
    then pure expression
    else if is_type_convertible expression_type target
    then pure (cast expression target)
    else semantic_error >> pure expression

-- `ensureType`.
unfoldable pub ensure_type : Expression → IrType → M Expression
ensure_type expression target = do
  expression_type ← or_fatal (get_type expression)
  coerce expression target expression_type

-- `resolveVariableRef`, which declares a variable that is not there with the type of its annotation.
abbrev pub found_or_declared : Bytes → VarAnnotation → Option Variable → M Variable
found_or_declared name annotation (some v) s = some (v, s)
found_or_declared name annotation none s =
    let v : Variable = record {
      name = name;
      annotation = annotation;
      type = get_type_from_annotation annotation;
    } in
    some (v, record s { variables = add_variable s.variables v })

unfoldable pub resolve_variable_ref : Bytes → Annotation → M Variable
unfolding get_annotation
resolve_variable_ref name annotation = do
  a ← or_fatal (get_annotation annotation)
  λ s. found_or_declared name a (lookup_variable s.variables name a) s

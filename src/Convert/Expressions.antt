-- ===== src/Convert/Expressions.antt =====
-- odb-compiler/src/ir/semantic/ASTConverter.cpp: the conversion of expressions and of calls.
use open_dark_basic.Prelude.{
  ℕ, suc, Option, none, some, List, [], ◌∷◌, Bytes, ◌==◌, if◌then◌else◌, length,
}
use open_dark_basic.Commands.Command.{Arg}
use open_dark_basic.Commands.Index.{CommandIndex, lookup, text_eq}
use open_dark_basic.Ast.{AstExpression, ArgList}
use open_dark_basic.Ir.{Expression, Arguments, Callee, get_type}
use open_dark_basic.Ir.Types.{IrType, void}
use open_dark_basic.Convert.{
  FunctionEntry, M, pure, ◌>>=◌, ◌>>◌, or_fatal, ensure_type, resolve_variable_ref,
  get_type_from_command_type,
}
use open_dark_basic.Convert.Overload.{argument_types, find_command}

pub arguments_length : Arguments → ℕ
arguments_length Arguments.nil = 0
arguments_length (Arguments.cons e args) = suc (arguments_length args)

-- The casts that a command's parameters ask for; an argument without a parameter is out of bounds.
unfoldable pub coerce_to_parameters : Arguments → List Arg → M Arguments
coerce_to_parameters Arguments.nil parameters = pure Arguments.nil
coerce_to_parameters (Arguments.cons e args) [] = λ s. none
coerce_to_parameters (Arguments.cons e args) (p ∷ parameters) = do
  t ← or_fatal (get_type_from_command_type p.type)
  e' ← ensure_type e t
  args' ← coerce_to_parameters args parameters
  pure (Arguments.cons e' args')

-- `convertCommandCallExpression`, once the arguments are converted.
unfoldable pub call_command : CommandIndex → Bytes → Arguments → M Expression
unfolding coerce_to_parameters argument_types
call_command db name args = do
  types ← or_fatal (argument_types args)
  c ← or_fatal (find_command types (lookup db name))
  args' ← coerce_to_parameters args c.args
  t ← or_fatal (get_type_from_command_type c.return_type)
  pure (Expression.call (Callee.command c) args' t)

unfoldable pub find_function : Bytes → List (Bytes × FunctionEntry) → Option FunctionEntry
find_function name [] = none
find_function name ((n, f) ∷ functions) =
    if text_eq n name then some f else find_function name functions

-- The type of the expression that the function returns, as far as that is converted; no type is `void`.
abbrev pub return_type : Option Expression → Option IrType
return_type none = some void
return_type (some e) = get_type e

abbrev pub same_number : ℕ → ℕ → Option (Unit {0})
same_number a b = if a == b then some tt else none

pub arg_count : ArgList → ℕ
arg_count ArgList.nil = 0
arg_count (ArgList.cons e args) = suc (arg_count args)

module _ (db : CommandIndex) where
  unfoldable mutual
    unfolding find_function arg_count

    -- `convertExpression`.
    pub convert_expression : AstExpression → M Expression
    convert_expression (AstExpression.unary_op op e) = do
      e' ← convert_expression e
      pure (Expression.unary op e')
    convert_expression (AstExpression.binary_op op l r) = do
      l' ← convert_expression l
      r' ← convert_expression r
      common ← or_fatal (get_type l')
      l'' ← ensure_type l' common
      r'' ← ensure_type r' common
      pure (Expression.binary op l'' r'')
    convert_expression (AstExpression.var_ref symbol) = do
      v ← resolve_variable_ref symbol.name symbol.annotation
      pure (Expression.var_ref v)
    convert_expression (AstExpression.literal t value) = pure (Expression.literal t value)
    convert_expression (AstExpression.command_expr name args) = do
      args' ← convert_arguments args
      call_command db name args'
    -- `convertFunctionCallExpression`.
    convert_expression (AstExpression.func_call_expr symbol args) = do
      f ← λ s. or_fatal (find_function symbol.name s.function_map) s
      or_fatal (same_number (length f.argument_types) (arg_count args))
      args' ← convert_arguments_to args f.argument_types
      t ← or_fatal (return_type f.return_expression)
      pure (Expression.call (Callee.user_function symbol.name) args' t)
    convert_expression AstExpression.other_expression = λ s. none

    -- The arguments of a command, from the first on.
    pub convert_arguments : ArgList → M Arguments
    convert_arguments ArgList.nil = pure Arguments.nil
    convert_arguments (ArgList.cons e args) = do
      e' ← convert_expression e
      args' ← convert_arguments args
      pure (Arguments.cons e' args')

    -- The arguments of a function, each cast to the type of its parameter.
    pub convert_arguments_to : ArgList → List IrType → M Arguments
    convert_arguments_to ArgList.nil types = pure Arguments.nil
    convert_arguments_to (ArgList.cons e args) [] = λ s. none
    convert_arguments_to (ArgList.cons e args) (t ∷ types) = do
      e' ← convert_expression e
      e'' ← ensure_type e' t
      args' ← convert_arguments_to args types
      pure (Arguments.cons e'' args')

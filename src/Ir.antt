-- ===== src/Ir.antt =====
-- odb-compiler/include/odb-compiler/ir/Node.hpp and src/ir/Node.cpp: types, variables and
-- expressions of the intermediate representation.
pub mod Types
pub mod Statements
use open_dark_basic.Prelude.{
  ℕ, suc, Bool, true, false, ◌&&◌, ◌||◌, Option, none, some, List, [], ◌∷◌, ◌++◌, Bytes, ◌==◌,
  if◌then◌else◌,
}
use open_dark_basic.Commands.Command.{Command}
use open_dark_basic.Commands.Index.{text_eq}
use open_dark_basic.Ir.Types.{BuiltinType, boolean, IrType, builtin}

pub data UnaryOp : Type 0 where
  logical_not negate bitwise_not : UnaryOp

pub data BinaryOp : Type 0 where
  add sub mul div mod' pow : BinaryOp
  shift_left shift_right bitwise_or bitwise_and bitwise_xor bitwise_not : BinaryOp
  less_than less_equal greater_than greater_equal equal not_equal : BinaryOp
  logical_or logical_and logical_xor : BinaryOp

-- `Variable::Annotation`.
pub data VarAnnotation : Type 0 where
  unannotated string float : VarAnnotation

abbrev pub annotation_eq : VarAnnotation → VarAnnotation → Bool
annotation_eq unannotated unannotated = true
annotation_eq string string = true
annotation_eq float float = true
annotation_eq _ _ = false

pub record Variable : Type 0 where
  pub name : Bytes
  pub annotation : VarAnnotation
  pub type : IrType

-- What a call calls: a command of a plugin or a function of the program, which is known by its name.
pub data Callee : Type 0 where
  command : Command → Callee
  user_function : Bytes → Callee

-- The value of a literal is a number that stands for it.
mutual
  pub data Expression : Type 0 where
    cast : Expression → IrType → Expression
    unary : UnaryOp → Expression → Expression
    binary : BinaryOp → Expression → Expression → Expression
    var_ref : Variable → Expression
    literal : BuiltinType → ℕ → Expression
    call : Callee → Arguments → IrType → Expression

  pub data Arguments : Type 0 where
    nil : Arguments
    cons : Expression → Arguments → Arguments

-- `BinaryExpression::getType`, given the type of the left operand; `none` is the fatal error.
unfoldable pub binary_type : BinaryOp → Option IrType → Option IrType
binary_type add t = t
binary_type sub t = t
binary_type mul t = t
binary_type div t = t
binary_type mod' t = t
binary_type pow t = t
binary_type shift_left t = t
binary_type shift_right t = t
binary_type bitwise_and t = t
binary_type bitwise_or t = t
binary_type bitwise_xor t = t
binary_type bitwise_not t = t
binary_type less_than t = some (builtin boolean)
binary_type less_equal t = some (builtin boolean)
binary_type greater_than t = some (builtin boolean)
binary_type greater_equal t = some (builtin boolean)
binary_type equal t = some (builtin boolean)
binary_type not_equal t = some (builtin boolean)
binary_type logical_or t = some (builtin boolean)
binary_type logical_and t = some (builtin boolean)
binary_type logical_xor t = none

-- `getType` of an expression.
unfoldable pub get_type : Expression → Option IrType
unfolding binary_type
get_type (cast e t) = some t
get_type (unary op e) = get_type e
get_type (binary op l r) = binary_type op (get_type l)
get_type (var_ref v) = some v.type
get_type (literal t value) = some (builtin t)
get_type (call callee args t) = some t

-- `FunctionDefinition::VariableScope`: the list in the order of `add`, and the table, in which a
-- variable replaces the one that has its name and annotation.
pub record VariableScope : Type 0 where
  pub list : List Variable
  pub table : List Variable

unfoldable pub add_variable : VariableScope → Variable → VariableScope
add_variable scope v = record { list = scope.list ++ v ∷ []; table = v ∷ scope.table }

abbrev pub names : Variable → Bytes → VarAnnotation → Bool
names v name annotation = text_eq v.name name && annotation_eq v.annotation annotation

pub lookup_table : List Variable → Bytes → VarAnnotation → Option Variable
lookup_table [] name annotation = none
lookup_table (v ∷ vs) name annotation =
    if names v name annotation then some v else lookup_table vs name annotation

unfoldable pub lookup_variable : VariableScope → Bytes → VarAnnotation → Option Variable
unfolding lookup_table
lookup_variable scope = lookup_table scope.table

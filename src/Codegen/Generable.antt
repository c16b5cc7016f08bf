-- ===== src/Codegen/Generable.antt =====
-- odb-compiler/src/ir/codegen/CodeGenerator.cpp: which expressions `generateExpression` has
-- instructions for.
use open_dark_basic.Prelude.{◌≡◌, Bool, true, false, ◌&&◌, ◌||◌, some, List, [], ◌∷◌, Bytes}
use open_dark_basic.Commands.Index.{text_eq}
use open_dark_basic.Convert.{get_type_from_command_type}
use open_dark_basic.Ir.{Expression, Arguments, Callee, UnaryOp, BinaryOp, Variable, names, get_type}
use open_dark_basic.Ir.Types.{
  BuiltinType, IrType, builtin, builtin_eq, is_integral_type, is_floating_point_type,
}
use open_dark_basic.Codegen.{
  LlvmType, command_llvm_type, get_llvm_type, Builder, find_entry, argument_llvm_types,
}

abbrev pub is_number : BuiltinType → Bool
is_number t = is_integral_type t || is_floating_point_type t

abbrev integral_or_single : BuiltinType → Bool
integral_or_single t = is_integral_type t || builtin_eq t BuiltinType.float

-- The types for which an operator has an instruction, and a type.
abbrev pub implemented : BinaryOp → BuiltinType → Bool
implemented BinaryOp.add t = is_number t
implemented BinaryOp.sub t = integral_or_single t
implemented BinaryOp.mul t = integral_or_single t
implemented BinaryOp.div t = integral_or_single t
implemented BinaryOp.mod' t = integral_or_single t
implemented BinaryOp.less_than t = integral_or_single t
implemented BinaryOp.less_equal t = integral_or_single t
implemented BinaryOp.greater_than t = integral_or_single t
implemented BinaryOp.greater_equal t = integral_or_single t
implemented BinaryOp.equal t = integral_or_single t
implemented BinaryOp.not_equal t = integral_or_single t
implemented BinaryOp.pow t = false
implemented BinaryOp.logical_xor t = false
implemented BinaryOp.logical_or t = builtin_eq t BuiltinType.boolean
implemented BinaryOp.logical_and t = builtin_eq t BuiltinType.boolean
implemented op t = is_integral_type t

abbrev pub castable : BuiltinType → BuiltinType → Bool
castable s t =
    (is_number s && is_number t)
    || (builtin_eq s BuiltinType.string && builtin_eq t BuiltinType.string)

-- The arguments have these LLVM types, one each.
abbrev pub FitLlvmTypes : Arguments → List LlvmType → Type 0
FitLlvmTypes Arguments.nil [] = Unit
FitLlvmTypes (Arguments.cons e args) (t ∷ ts) =
    ((τ : IrType) × (get_type e ≡ some τ) × (get_llvm_type τ ≡ some t)) × FitLlvmTypes args ts
FitLlvmTypes _ _ = ⊥

-- What the generator gives an instruction for: `signature_of` has the types of the function
-- behind a command's symbol. A call of a command is generable with arguments of the LLVM types of
-- its parameters, where the symbol has the command's types; a call of a function of the program with arguments
-- of the types of its LLVM function, where neither has a result.
module _ (b : Builder) (signature_of : Bytes → List LlvmType × LlvmType)
    (variables : List (Variable × b.Value)) (functions : List (Bytes × b.Function)) where
  abbrev mutual
    pub IsGenerable : Expression → Type 0
    IsGenerable (Expression.cast e t) =
        IsGenerable e
        × ((s : BuiltinType) × (t' : BuiltinType) × (get_type e ≡ some (builtin s))
            × (t ≡ builtin t')
            × (castable s t' ≡ true))
    IsGenerable (Expression.unary op e) =
        (op ≡ UnaryOp.negate)
        × IsGenerable e
        × ((t : BuiltinType) × (get_type e ≡ some (builtin t)) × (is_number t ≡ true))
    IsGenerable (Expression.binary op l r) =
        IsGenerable l
        × IsGenerable r
        × ((t : BuiltinType) × (get_type l ≡ some (builtin t))
            × (get_type r ≡ some (builtin t))
            × (implemented op t ≡ true))
    IsGenerable (Expression.var_ref v) =
        (x : b.Value) × (find_entry (λ w. names w v.name v.annotation) variables ≡ some x)
        × (get_llvm_type v.type ≡ some (b.pointee x))
    IsGenerable (Expression.literal t value) = is_number t || builtin_eq t BuiltinType.string ≡ true
    IsGenerable (Expression.call (Callee.command c) args t) =
        AreGenerable args
        × FitLlvmTypes args (signature_of c.cpp_symbol).0
        × (argument_llvm_types c.args ≡ some (signature_of c.cpp_symbol).0)
        × (get_type_from_command_type c.return_type ≡ some t)
        × (command_llvm_type c.return_type ≡ some (signature_of c.cpp_symbol).1)
    IsGenerable (Expression.call (Callee.user_function name) args t) =
        AreGenerable args
        × (t ≡ IrType.void)
        × ((f : b.Function) × (find_entry (text_eq name) functions ≡ some f)
            × FitLlvmTypes args (b.function_type f).0
            × ((b.function_type f).1 ≡ LlvmType.void))

    pub AreGenerable : Arguments → Type 0
    AreGenerable Arguments.nil = Unit
    AreGenerable (Arguments.cons e args) = IsGenerable e × AreGenerable args

-- ===== src/Codegen/Emit.antt =====
-- odb-compiler/src/ir/codegen/CodeGenerator.cpp: `generateExpression`, with the symbol tables that it
-- reads and fills.
use open_dark_basic.Prelude.{
  ℕ, ◌==◌, true, ◌&&◌, if◌then◌else◌, Option, some, none, List, [], ◌∷◌, ◌++◌, Bytes, codes,
}
use open_dark_basic.Commands.Command.{Command}
use open_dark_basic.Commands.Index.{text_eq}
use open_dark_basic.Ir.{Expression, Arguments, Callee, UnaryOp, BinaryOp, Variable, names, get_type}
use open_dark_basic.Ir.Types.{BuiltinType, IrType, type_eq}
use open_dark_basic.Codegen.{
  LlvmType, llvm_eq, is_integer_ty, is_float_ty, is_floating_point_ty, command_llvm_type,
  get_llvm_type, Compare, Instruction, Builder, Gen, ◌>>=◌, pure, demand, find_entry, Symbols,
  upper_camel_case, argument_llvm_types,
}

-- The instruction of a cast between different types; `none` is the fatal error of an unhandled cast.
unfoldable pub cast_instruction : LlvmType → LlvmType → Option Instruction
cast_instruction s t =
    if is_integer_ty s && is_integer_ty t
    then some (Instruction.int_cast t)
    else if is_floating_point_ty s && is_floating_point_ty t
    then some (Instruction.fp_cast t)
    else if is_integer_ty s && is_floating_point_ty t
    then some (Instruction.si_to_fp t)
    else if is_floating_point_ty s && is_integer_ty t
    then some (Instruction.fp_to_si t)
    else none

unfoldable pub unary_instruction : UnaryOp → LlvmType → Option Instruction
unary_instruction UnaryOp.negate t =
    if is_integer_ty t
    then some Instruction.neg
    else if is_floating_point_ty t
    then some Instruction.fneg
    else none
unary_instruction op t = none

-- An instruction for integers and one for what `isFloatTy` accepts.
abbrev pub int_or_float : Instruction → Instruction → LlvmType → Option Instruction
int_or_float i f t = if is_integer_ty t then some i else if is_float_ty t then some f else none

-- An instruction behind the assertions that both operands are integers.
abbrev pub on_integers : Instruction → LlvmType → LlvmType → Option Instruction
on_integers i s t = if is_integer_ty s && is_integer_ty t then some i else none

abbrev pub comparison : Compare → LlvmType → Option Instruction
comparison c = int_or_float (Instruction.icmp c) (Instruction.fcmp c)

-- The instruction of an operator, by the types of the operands.
unfoldable pub binary_instruction : BinaryOp → LlvmType → LlvmType → Option Instruction
binary_instruction BinaryOp.add s t =
    if is_integer_ty s
    then some Instruction.add
    else if is_floating_point_ty s
    then some Instruction.fadd
    else none
binary_instruction BinaryOp.sub s t = int_or_float Instruction.sub Instruction.fsub s
binary_instruction BinaryOp.mul s t = int_or_float Instruction.mul Instruction.fmul s
binary_instruction BinaryOp.div s t = int_or_float Instruction.sdiv Instruction.fdiv s
binary_instruction BinaryOp.mod' s t = int_or_float Instruction.srem Instruction.frem s
binary_instruction BinaryOp.pow s t = none
binary_instruction BinaryOp.shift_left s t = on_integers Instruction.shl s t
binary_instruction BinaryOp.shift_right s t = on_integers Instruction.ashr s t
binary_instruction BinaryOp.bitwise_or s t = on_integers Instruction.or s t
binary_instruction BinaryOp.bitwise_and s t = on_integers Instruction.and s t
binary_instruction BinaryOp.bitwise_xor s t = on_integers Instruction.xor s t
binary_instruction BinaryOp.bitwise_not s t = if is_integer_ty s then some Instruction.not else none
binary_instruction BinaryOp.less_than s t = comparison Compare.less_than s
binary_instruction BinaryOp.less_equal s t = comparison Compare.less_equal s
binary_instruction BinaryOp.greater_than s t = comparison Compare.greater_than s
binary_instruction BinaryOp.greater_equal s t = comparison Compare.greater_equal s
binary_instruction BinaryOp.equal s t = comparison Compare.equal s
binary_instruction BinaryOp.not_equal s t = comparison Compare.not_equal s
binary_instruction BinaryOp.logical_or s t = some Instruction.or
binary_instruction BinaryOp.logical_and s t = some Instruction.and
binary_instruction BinaryOp.logical_xor s t = some Instruction.xor

-- The operands of an operator's instruction behind the first one.
abbrev pub more_operands : {V : Type 0} → BinaryOp → V → List V
more_operands BinaryOp.bitwise_not r = []
more_operands op r = r ∷ []

-- The assertion that both operands of an operator have one type.
abbrev pub same_type : Option IrType → Option IrType → Option (Unit {0})
same_type (some s) (some t) = if type_eq s t then some tt else none
same_type _ _ = none

module _ (b : Builder) where
  -- A call of the builder on the module.
  abbrev pub on_module : {A : Type 0} → (b.Module → A × b.Module) → Gen (Symbols b) A
  on_module f s = let (a, m) = f s.module_ in some (a, record s { module_ = m })

  abbrev pub emit_in : Instruction → b.Value → List b.Value → Gen (Symbols b) b.Value
  emit_in i x xs = on_module (b.emit i (x ∷ xs))

  -- `getVar`; without an entry it logs a fatal error and returns a null pointer.
  unfoldable pub get_var : Variable → Gen (Symbols b) b.Value
  get_var v s = demand (find_entry (λ w. names w v.name v.annotation) s.variable_table) s

  -- `getOrAddStrLiteral`.
  unfoldable pub get_or_add_str_literal : ℕ → Gen (Symbols b) b.Value
  get_or_add_str_literal text s = elim (find_entry (λ t. t == text) s.string_literal_table) [
    | some storage ↦ some (storage, s)
    | none ↦
        let (storage, m) = b.global_string text s.module_ in
        some (
          storage,
          record s { module_ = m; string_literal_table = (text, storage) ∷ s.string_literal_table },
        )
  ]

  -- `GlobalSymbolTable::getFunction`, which asserts that there is an entry.
  unfoldable pub get_function : Bytes → Gen (Symbols b) b.Function
  get_function name s = demand (find_entry (text_eq name) s.function_definitions) s

  abbrev pub thunk_made : Command → List LlvmType → LlvmType → Gen (Symbols b) b.Function
  thunk_made c types result s =
      let (f, m) =
        b.generate_command_call c (codes "DBCommand" ++ upper_camel_case true c.db_symbol) types
          result s.module_ in
      some (f, record s { module_ = m; command_thunks = (c.cpp_symbol, f) ∷ s.command_thunks })

  abbrev pub create_thunk : Command → Gen (Symbols b) b.Function
  create_thunk c = do
    types ← demand (argument_llvm_types c.args)
    result ← demand (command_llvm_type c.return_type)
    thunk_made c types result

  -- `getOrCreateCommandThunk`: there is one function for each symbol.
  unfoldable pub get_or_create_command_thunk : Command → Gen (Symbols b) b.Function
  get_or_create_command_thunk c s = elim (find_entry (text_eq c.cpp_symbol) s.command_thunks) [
    | some f ↦ some (f, s)
    | none ↦ create_thunk c s
  ]

  unfoldable pub get_callee : Callee → Gen (Symbols b) b.Function
  get_callee (Callee.command c) = get_or_create_command_thunk c
  get_callee (Callee.user_function name) = get_function name

  abbrev pub integer_literal : ℕ → ℕ → Gen (Symbols b) b.Value
  integer_literal width value = pure (b.constant_int (LlvmType.integer width) value)

  unfoldable pub generate_literal : BuiltinType → ℕ → Gen (Symbols b) b.Value
  generate_literal BuiltinType.double_integer value = integer_literal 64 value
  generate_literal BuiltinType.integer value = integer_literal 32 value
  generate_literal BuiltinType.dword value = integer_literal 32 value
  generate_literal BuiltinType.word value = integer_literal 16 value
  generate_literal BuiltinType.byte value = integer_literal 8 value
  generate_literal BuiltinType.boolean value = integer_literal 1 (if value == 0 then 0 else 1)
  generate_literal BuiltinType.double_float value = pure (b.constant_fp LlvmType.double value)
  generate_literal BuiltinType.float value = pure (b.constant_fp LlvmType.float value)
  generate_literal BuiltinType.string value = do
    storage ← get_or_add_str_literal value
    emit_in (Instruction.bit_cast LlvmType.int8_ptr) storage []
  generate_literal t value = demand none

  -- Nothing is to be done between equal types.
  unfoldable pub generate_cast : LlvmType → LlvmType → b.Value → Gen (Symbols b) b.Value
  generate_cast s t inner =
      if llvm_eq s t then pure inner else demand (cast_instruction s t) >>= λ i. emit_in i inner []

  -- `generateExpression`.
  unfoldable mutual
    pub generate_expression : Expression → Gen (Symbols b) b.Value
    generate_expression (Expression.cast e to) = do
      given ← demand (get_type e)
      s ← demand (get_llvm_type given)
      t ← demand (get_llvm_type to)
      inner ← generate_expression e
      generate_cast s t inner
    generate_expression (Expression.unary op e) = do
      inner ← generate_expression e
      i ← demand (unary_instruction op (b.type_of inner))
      emit_in i inner []
    generate_expression (Expression.binary op l r) = do
      left ← generate_expression l
      right ← generate_expression r
      same ← demand (same_type (get_type l) (get_type r))
      i ← demand (binary_instruction op (b.type_of left) (b.type_of right))
      emit_in i left (more_operands op right)
    generate_expression (Expression.var_ref v) = do
      storage ← get_var v
      on_module (b.create_load storage)
    generate_expression (Expression.literal t value) = generate_literal t value
    generate_expression (Expression.call callee args t) = do
      f ← get_callee callee
      values ← generate_arguments args
      on_module (b.create_call f values)

    pub generate_arguments : Arguments → Gen (Symbols b) (List b.Value)
    generate_arguments Arguments.nil = pure []
    generate_arguments (Arguments.cons e args) = do
      value ← generate_expression e
      values ← generate_arguments args
      pure (value ∷ values)

-- ===== src/Codegen/Doubles.antt =====
-- odb-compiler/src/ir/codegen/CodeGenerator.cpp: operators on `DoubleFloat`.
use open_dark_basic.Prelude.{◌≡◌, refl, Bool, true, false, some, none, List, Bytes}
use open_dark_basic.Ir.{Expression, BinaryOp, Variable, get_type}
use open_dark_basic.Ir.Types.{BuiltinType, builtin}
use open_dark_basic.Codegen.{
  LlvmType, get_llvm_type, Builder, Documented, TypedThunks, Symbols, ◌>>=◌,
}
use open_dark_basic.Codegen.Emit.{generate_expression, binary_instruction}
use open_dark_basic.Codegen.Generable.{IsGenerable}
use open_dark_basic.Codegen.Typed.{generate_expression-HasValue}
use open_dark_basic.Codegen.Ready.{IsReady, same_llvm_type, same_type_holds}

-- Arithmetic but addition, and comparisons.
abbrev pub asks_for_float : BinaryOp → Bool
asks_for_float BinaryOp.sub = true
asks_for_float BinaryOp.mul = true
asks_for_float BinaryOp.div = true
asks_for_float BinaryOp.mod' = true
asks_for_float BinaryOp.less_than = true
asks_for_float BinaryOp.less_equal = true
asks_for_float BinaryOp.greater_than = true
asks_for_float BinaryOp.greater_equal = true
asks_for_float BinaryOp.equal = true
asks_for_float BinaryOp.not_equal = true
asks_for_float _ = false

no_instruction :
    (op : BinaryOp)
    → asks_for_float op ≡ true
    → binary_instruction op LlvmType.double LlvmType.double ≡ none
unfolding binary_instruction
no_instruction BinaryOp.sub h = refl
no_instruction BinaryOp.mul h = refl
no_instruction BinaryOp.div h = refl
no_instruction BinaryOp.mod' h = refl
no_instruction BinaryOp.less_than h = refl
no_instruction BinaryOp.less_equal h = refl
no_instruction BinaryOp.greater_than h = refl
no_instruction BinaryOp.greater_equal h = refl
no_instruction BinaryOp.equal h = refl
no_instruction BinaryOp.not_equal h = refl
no_instruction op h = cc

double_known : get_llvm_type (builtin BuiltinType.double_float) ≡ some LlvmType.double
unfolding get_llvm_type
double_known = refl

module _ (b : Builder) (documented : Documented b) (engine : TypedThunks b)
    (signature_of : Bytes → List LlvmType × LlvmType) (variables : List (Variable × b.Value))
    (functions : List (Bytes × b.Function)) where
  -- From tables that are ready, subtraction, multiplication, division, modulo and the comparisons of two
  -- generable operands of type DoubleFloat end in a fatal error, although the operands have values.
  pub generate_expression_double_fault :
      (op : BinaryOp) (l r : Expression) (s : Symbols b)
      → asks_for_float op ≡ true
      → IsReady b documented engine signature_of variables functions s
      → IsGenerable b signature_of variables functions l
      → IsGenerable b signature_of variables functions r
      → get_type l ≡ some (builtin BuiltinType.double_float)
      → get_type r ≡ some (builtin BuiltinType.double_float)
      → generate_expression b (Expression.binary op l r) s ≡ none
  unfolding generate_expression
  generate_expression_double_fault op l r s asks ready gl gr kl kr =
      let made =
        generate_expression-HasValue b documented engine signature_of variables functions in
      let (τl, k, (x, s1, ran, yield, ready1)) = made l s ready gl in
      let (τr, k', (y, s2, ran', yield', ready2)) = made r s1 ready1 gr in
      let tx : b.type_of x ≡ LlvmType.double = same_llvm_type _ _ _ _ _ k kl yield double_known in
      let ty : b.type_of y ≡ LlvmType.double = same_llvm_type _ _ _ _ _ k' kr yield' double_known in
      let nothing : binary_instruction op (b.type_of x) (b.type_of y) ≡ none =
        rw (tx, ty) (no_instruction op asks) in
      let same = same_type_holds (get_type l) (get_type r) BuiltinType.double_float kl kr in
      rw (ran, ran', same, nothing, generate_expression, ◌>>=◌) refl

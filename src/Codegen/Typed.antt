-- ===== src/Codegen/Typed.antt =====
-- odb-compiler/src/ir/codegen/CodeGenerator.cpp: the values that `generateExpression` makes have the
-- LLVM types of the expressions.
use open_dark_basic.Prelude.{subst, [], ◌≡◌, refl, sym, ap, ◌∙◌, some, List, map, ◌∷◌, Bytes}
use open_dark_basic.Ir.{Expression, BinaryOp, Arguments, Callee, Variable, get_type, binary_type}
use open_dark_basic.Ir.Types.{IrType, builtin}
use open_dark_basic.Codegen.{
  LlvmType, get_llvm_type, Builder, Documented, TypedThunks, Symbols, ◌>>=◌,
}
use open_dark_basic.Codegen.Emit.{
  generate_expression, generate_arguments, get_callee, unary_instruction, more_operands,
  binary_instruction,
}
use open_dark_basic.Codegen.Fits.{binary_found, negation_found, cast_found}
use open_dark_basic.Codegen.Generable.{IsGenerable, AreGenerable, FitLlvmTypes}
use open_dark_basic.Codegen.Ready.{
  IsReady, Makes, emitted, still_IsReady, literal_made, cast_made, command-IsReady, function_ready,
  variable_ready, same_type_holds, same_llvm_type, command_types_agree, void_known,
}

more_types :
    {V : Type 0} (f : V → LlvmType) (op : BinaryOp) (y : V)
    → map f (more_operands op y) ≡ more_operands op (f y)
more_types f BinaryOp.bitwise_not y = refl
more_types f _ y = refl

module _ (b : Builder) (documented : Documented b) (engine : TypedThunks b)
    (signature_of : Bytes → List LlvmType × LlvmType) (variables : List (Variable × b.Value))
    (functions : List (Bytes × b.Function)) where
  abbrev pub HasValue : Expression → Symbols b → Type 0
  HasValue e s =
      (τ : IrType) × (get_type e ≡ some τ)
      × Makes b documented engine signature_of variables functions τ (generate_expression b e s)

  abbrev ArgumentsMade : Arguments → Symbols b → Type 0
  ArgumentsMade args s =
      (vs : List b.Value) × (s' : Symbols b) × (generate_arguments b args s ≡ some (vs, s'))
      × ((ts : List LlvmType) → FitLlvmTypes args ts → map b.type_of vs ≡ ts)
      × IsReady b documented engine signature_of variables functions s'

  -- A call of a function whose result has the call's LLVM type.
  call_made :
      (callee : Callee) (args : Arguments) (t : IrType) (s : Symbols b) (f : b.Function)
      (s1 : Symbols b)
      → get_callee b callee s ≡ some (f, s1)
      → get_llvm_type t ≡ some (b.function_type f).1
      → FitLlvmTypes args (b.function_type f).0
      → ArgumentsMade args s1
      → HasValue (Expression.call callee args t) s
  unfolding generate_expression get_type
  call_made callee args t s f s1 ran known fit (vs, s2, ran', typed, ready2) =
      let (v, m) = b.create_call f vs s2.module_ in
      (
        t,
        refl,
        (
          v,
          record s2 { module_ = m },
          rw (ran, ran', generate_expression, ◌>>=◌) refl,
          known
              ∙ ap some
                  (sym (documented.call_type f vs s2.module_ (typed (b.function_type f).0 fit))),
          still_IsReady b documented engine signature_of variables functions s2 m ready2,
        ),
      )

  no_arguments : (ts : List LlvmType) → FitLlvmTypes Arguments.nil ts → map b.type_of [] ≡ ts
  no_arguments [] fit = refl
  no_arguments (t ∷ ts) fit = absurd fit

  one_more :
      (e : Expression) (args : Arguments) (τ : IrType) (v : b.Value) (vs : List b.Value)
      → get_type e ≡ some τ
      → get_llvm_type τ ≡ some (b.type_of v)
      → ((ts : List LlvmType) → FitLlvmTypes args ts → map b.type_of vs ≡ ts)
      → (ts : List LlvmType) → FitLlvmTypes (Arguments.cons e args) ts
      → map b.type_of (v ∷ vs) ≡ ts
  one_more e args τ v vs known yield typed [] fit = absurd fit
  one_more e args τ v vs known yield typed (t ∷ ts) ((σ, k, k'), fit) =
      let head = same_llvm_type (get_type e) τ σ (b.type_of v) t known k yield k' in
      rw (head, typed ts fit) refl

  mutual
    unfolding generate_expression generate_arguments get_type

    expression_made :
        (e : Expression) (s : Symbols b)
        → IsReady b documented engine signature_of variables functions s
        → IsGenerable b signature_of variables functions e
        → HasValue e s
    expression_made (Expression.cast e t) s ready (g, (p, q, known, same, can)) =
        let (τ, k, (x, s1, ran, yield, ready1)) = expression_made e s ready g in
        let (from, ef, (to, et, how)) = cast_found p q can in
        let start = same_llvm_type (get_type e) τ (builtin p) (b.type_of x) from k known yield ef in
        let (v, s2, ran2, yield2, ready2) =
          cast_made b documented engine signature_of variables functions (builtin q) from to x s1
            ready1 start et how in
        subst (λ t'. HasValue (Expression.cast e t') s) (sym same)
          (
            builtin q,
            refl,
            (v, s2, rw (known, ef, et, ran, generate_expression, ◌>>=◌) ran2, yield2, ready2),
          )
    expression_made (Expression.unary op e) s ready (same, g, (t, known, num)) =
        let (τ', k, (x, s1, ran, yield, ready1)) = expression_made e s ready g in
        let (ty, ef, (τ, eτ, (i, found, takes, made))) = negation_found t num in
        let start = same_llvm_type (get_type e) τ' (builtin t) (b.type_of x) ty k known yield ef in
        let found' : unary_instruction op (b.type_of x) ≡ some i = rw (same, start) found in
        let (v, s2, ran2, yield2, ready2) =
          emitted b documented engine signature_of variables functions τ i x [] s1 ready1
            (rw start takes) (rw start made) in
        (τ, known ∙ eτ, (v, s2, rw (ran, found', generate_expression, ◌>>=◌) ran2, yield2, ready2))
    expression_made (Expression.binary op l r) s ready (gl, gr, (t, kl, kr, can)) =
        let (τl, k, (x, s1, ran, yield, ready1)) = expression_made l s ready gl in
        let (τr, k', (y, s2, ran', yield', ready2)) = expression_made r s1 ready1 gr in
        let (ty, e, (τ, eτ, (i, found, takes, made))) = binary_found op t can in
        let tx = same_llvm_type (get_type l) τl (builtin t) (b.type_of x) ty k kl yield e in
        let ty' = same_llvm_type (get_type r) τr (builtin t) (b.type_of y) ty k' kr yield' e in
        let (v, s3, ran3, yield3, ready3) =
          emitted b documented engine signature_of variables functions τ i x (more_operands op y) s2
            ready2 (rw (more_types b.type_of op y, tx, ty') takes) (rw tx made) in
        let found' : binary_instruction op (b.type_of x) (b.type_of y) ≡ some i =
          rw (tx, ty') found in
        let same = same_type_holds (get_type l) (get_type r) t kl kr in
        (
          τ,
          ap (binary_type op) kl ∙ eτ,
          (v, s3, rw (ran, ran', same, found', generate_expression, ◌>>=◌) ran3, yield3, ready3),
        )
    expression_made (Expression.var_ref v) s ready (x, e, k) =
        let (y, m) = b.create_load x s.module_ in
        (
          v.type,
          refl,
          (
            y,
            record s { module_ = m },
            rw
                (
                  variable_ready b documented engine signature_of variables functions v x s ready e,
                  generate_expression,
                  ◌>>=◌,
                )
                refl,
            k ∙ ap some (sym (documented.load_type x s.module_)),
            still_IsReady b documented engine signature_of variables functions s m ready,
          ),
        )
    expression_made (Expression.literal t value) s ready h = (
      builtin t,
      refl,
      literal_made b documented engine signature_of variables functions t value s ready h,
    )
    expression_made (Expression.call (Callee.command c) args t) s ready (gs, fit, e, k, k') =
        let (f, s1, ran, known, ready1) =
          command-IsReady b documented engine signature_of variables functions c s ready e k' in
        let fits : FitLlvmTypes args (b.function_type f).0 = rw known fit in
        call_made (Callee.command c) args t s f s1 ran
          (command_types_agree c.return_type t (signature_of c.cpp_symbol).1 k k'
            ∙ ap (λ g. some g.1) (sym known))
          fits (arguments_made args s1 ready1 gs)
    expression_made (Expression.call (Callee.user_function name) args t) s ready
          (gs, same, (f, e, fit, k)) =
        let known : get_llvm_type t ≡ some (b.function_type f).1 =
          ap get_llvm_type same ∙ void_known ∙ ap some (sym k) in
        call_made (Callee.user_function name) args t s f s
          (function_ready b documented engine signature_of variables functions name f s ready e)
          known fit (arguments_made args s ready gs)

    arguments_made :
        (args : Arguments) (s : Symbols b)
        → IsReady b documented engine signature_of variables functions s
        → AreGenerable b signature_of variables functions args
        → ArgumentsMade args s
    arguments_made Arguments.nil s ready g = ([], s, refl, no_arguments, ready)
    arguments_made (Arguments.cons e args) s ready (g, gs) =
        let (τ, known, (v, s1, ran, yield, ready1)) = expression_made e s ready g in
        let (vs, s2, ran', typed, ready2) = arguments_made args s1 ready1 gs in
        (v ∷ vs, s2, rw (ran, ran', ◌>>=◌) refl, one_more e args τ v vs known yield typed, ready2)

  pub generate_expression-HasValue :
      (e : Expression) (s : Symbols b)
      → IsReady b documented engine signature_of variables functions s
      → IsGenerable b signature_of variables functions e
      → HasValue e s
  generate_expression-HasValue = expression_made

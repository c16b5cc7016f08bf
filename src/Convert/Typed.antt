-- ===== src/Convert/Typed.antt =====
-- odb-compiler/src/ir/semantic/ASTConverter.cpp: what is converted without an error is well typed.
use open_dark_basic.Prelude.{
  ◌≡◌, refl, ap, sym, subst, ◌∙◌, true, false, inl, inr, some, List, [], ◌∷◌, Bytes, length,
  Bool-cases, Option-cases,
}
use open_dark_basic.Commands.Command.{Arg}
use open_dark_basic.Commands.Index.{CommandIndex, lookup}
use open_dark_basic.Ast.{AstExpression, ArgList, Annotation}
use open_dark_basic.Ir.{Expression, Arguments, Callee, get_type, lookup_variable}
use open_dark_basic.Ir.Types.{IrType, type_eq, type_eq→eq}
use open_dark_basic.Convert.{
  get_annotation, State, FunctionEntry, or_fatal, ensure_type, coerce, resolve_variable_ref,
  get_type_from_command_type, is_type_convertible,
}
use open_dark_basic.Convert.Overload.{argument_types, find_command}
use open_dark_basic.Convert.Expressions.{
  same_number, arg_count, convert_expression, convert_arguments, convert_arguments_to,
  coerce_to_parameters, call_command, find_function, return_type,
}
use open_dark_basic.Convert.Monad.{Ensures, Ensures-then, Ensures-or_fatal}

-- The arguments have the types of a command's parameters, one each.
abbrev pub FitParameters : Arguments → List Arg → Type 0
FitParameters Arguments.nil parameters = Unit
FitParameters (Arguments.cons e args) [] = ⊥
FitParameters (Arguments.cons e args) (p ∷ parameters) =
    (get_type e ≡ get_type_from_command_type p.type) × FitParameters args parameters

abbrev pub FitTypes : Arguments → List IrType → Type 0
FitTypes Arguments.nil types = Unit
FitTypes (Arguments.cons e args) [] = ⊥
FitTypes (Arguments.cons e args) (t ∷ types) = (get_type e ≡ some t) × FitTypes args types

-- Casts are between types that can be converted, the operands of an operator have one type, and a call
-- has the type of what it calls, and arguments of the types of its parameters.
abbrev mutual
  pub IsTyped : List (Bytes × FunctionEntry) → Expression → Type 0
  IsTyped functions (Expression.cast e t) =
      IsTyped functions e
      × ((s : IrType) × (get_type e ≡ some s) × (is_type_convertible s t ≡ true))
  IsTyped functions (Expression.unary op e) = IsTyped functions e
  IsTyped functions (Expression.binary op l r) =
      IsTyped functions l × IsTyped functions r × (get_type l ≡ get_type r)
  IsTyped functions (Expression.var_ref v) = Unit
  IsTyped functions (Expression.literal t value) = Unit
  IsTyped functions (Expression.call (Callee.command c) args t) =
      AreTyped functions args
      × FitParameters args c.args
      × (get_type_from_command_type c.return_type ≡ some t)
  IsTyped functions (Expression.call (Callee.user_function name) args t) =
      AreTyped functions args
      × ((f : FunctionEntry) × (find_function name functions ≡ some f)
          × FitTypes args f.argument_types
          × (return_type f.return_expression ≡ some t))

  pub AreTyped : List (Bytes × FunctionEntry) → Arguments → Type 0
  AreTyped functions Arguments.nil = Unit
  AreTyped functions (Arguments.cons e args) = IsTyped functions e × AreTyped functions args

-- A conversion that gives an expression of a type, when what it is made from is typed.
abbrev Gives : List (Bytes × FunctionEntry) → IrType → Expression → Expression → Type 0
Gives functions t e e' = IsTyped functions e → IsTyped functions e' × (get_type e' ≡ some t)

module _ (functions : List (Bytes × FunctionEntry)) where
  coerce-Ensures :
      (s : State) (e : Expression) (t given : IrType)
      → Ensures s (λ e'. get_type e ≡ some given → Gives functions t e e') (coerce e t given s)
  coerce-Ensures s e t given = elim (Bool-cases (type_eq given t)) [
    | inl same ↦ rw same (refl, λ ok. (ok, λ g p. (p, g ∙ ap some (type_eq→eq given t same))))
    | inr other ↦ elim (Bool-cases (is_type_convertible given t)) [
      | inl can ↦
          rw (other, can) (refl, λ ok. (ok, λ g p. ((p, (given, g, can)), unfold get_type in refl)))
      | inr cannot ↦ rw (other, cannot) (refl, λ ok. cc)
    ]
  ]

  -- What `ensureType` gives has the type asked for.
  pub ensure_type-Ensures :
      (s : State) (e : Expression) (t : IrType)
      → Ensures s (Gives functions t e) (ensure_type e t s)
  unfolding ensure_type
  ensure_type-Ensures s e t =
      Ensures-then _ _ s (or_fatal (get_type e) s) (coerce e t) (Ensures-or_fatal s (get_type e))
        (λ given s' same. coerce-Ensures s' e t given)

  coerce_to_parameters-Ensures :
      (s : State) (args : Arguments) (parameters : List Arg)
      → Ensures s
          (λ args'.
            AreTyped functions args → AreTyped functions args' × FitParameters args' parameters)
          (coerce_to_parameters args parameters s)
  unfolding coerce_to_parameters
  coerce_to_parameters-Ensures s Arguments.nil parameters = (refl, λ ok. (ok, λ p. (tt, tt)))
  coerce_to_parameters-Ensures s (Arguments.cons e args) [] = tt
  coerce_to_parameters-Ensures s (Arguments.cons e args) (p ∷ parameters) =
      Ensures-then _ _ s _ _ (Ensures-or_fatal s (get_type_from_command_type p.type)) (λ t s1 same1.
        Ensures-then _ _ s1 _ _ (ensure_type-Ensures s1 e t) (λ e' s2 same2.
          Ensures-then _ _ s2 _ _ (coerce_to_parameters-Ensures s2 args parameters)
            (λ args' s3 same3. (
              refl,
              λ ok. (
                ok,
                λ rest first known typed.
                    let (p1, t1) = first typed.0 in
                    let (p2, t2) = rest typed.1 in ((p1, p2), (t1 ∙ sym known, t2)),
              ),
            ))))

  call_command-Ensures :
      (db : CommandIndex) (s : State) (name : Bytes) (args : Arguments)
      → Ensures s (λ e. AreTyped functions args → IsTyped functions e) (call_command db name args s)
  unfolding call_command
  call_command-Ensures db s name args =
      Ensures-then _ _ s _ _ (Ensures-or_fatal s (argument_types args)) (λ types s1 same1.
        Ensures-then _ _ s1 _ _ (Ensures-or_fatal s1 (find_command types (lookup db name)))
          (λ c s2 same2.
            Ensures-then _ _ s2 _ _ (coerce_to_parameters-Ensures s2 args c.args) (λ args' s3 same3.
              Ensures-then _ _ s3 _ _
                (Ensures-or_fatal s3 (get_type_from_command_type c.return_type))
                (λ t s4 same4. (
                  refl,
                  λ ok. (
                    ok,
                    λ returns fit found types' typed. let (p1, t1) = fit typed in (p1, t1, returns),
                  ),
                )))))

pub resolve-Ensures :
    (s : State) (name : Bytes) (a : Annotation)
    → Ensures s (λ v. Unit) (resolve_variable_ref name a s)
unfolding resolve_variable_ref
resolve-Ensures s name a =
    Ensures-then _ _ s _ _ (Ensures-or_fatal s (get_annotation a)) (λ b s1 same.
      elim (Option-cases (lookup_variable s1.variables name b)) [
        | inl e ↦ rw e (refl, λ ok. (ok, λ u. tt))
        | inr (v, e) ↦ rw e (refl, λ ok. (ok, λ u. tt))
      ])

module _ (db : CommandIndex) (functions : List (Bytes × FunctionEntry)) where
  mutual
    unfolding convert_expression

    pub convert_expression-Ensures :
        (e : AstExpression) (s : State)
        → s.function_map ≡ functions
        → Ensures s (IsTyped functions) (convert_expression db e s)
    convert_expression-Ensures (AstExpression.unary_op op e) s h =
        Ensures-then _ _ s _ _ (convert_expression-Ensures e s h)
          (λ e' s1 same1. (refl, λ ok. (ok, λ p. p)))
    convert_expression-Ensures (AstExpression.binary_op op l r) s h =
        Ensures-then _ _ s _ _ (convert_expression-Ensures l s h) (λ l' s1 same1.
          Ensures-then _ _ s1 _ _ (convert_expression-Ensures r s1 (same1 ∙ h)) (λ r' s2 same2.
            Ensures-then _ _ s2 _ _ (Ensures-or_fatal s2 (get_type l')) (λ t s3 same3.
              Ensures-then _ _ s3 _ _ (ensure_type-Ensures functions s3 l' t) (λ l'' s4 same4.
                Ensures-then _ _ s4 _ _ (ensure_type-Ensures functions s4 r' t) (λ r'' s5 same5. (
                  refl,
                  λ ok. (
                    ok,
                    λ right left type typed_r typed_l.
                        let (p1, t1) = left typed_l in
                        let (p2, t2) = right typed_r in (p1, p2, t1 ∙ sym t2),
                  ),
                ))))))
    convert_expression-Ensures (AstExpression.var_ref symbol) s h =
        Ensures-then _ _ s _ _ (resolve-Ensures s symbol.name symbol.annotation)
          (λ v s1 same1. (refl, λ ok. (ok, λ u. tt)))
    convert_expression-Ensures (AstExpression.literal t value) s h = (refl, λ ok. (ok, tt))
    convert_expression-Ensures (AstExpression.command_expr name args) s h =
        Ensures-then _ _ s _ _ (convert_arguments-Ensures args s h)
          (λ args' s1 same1. call_command-Ensures functions db s1 name args')
    convert_expression-Ensures (AstExpression.func_call_expr symbol args) s h =
        Ensures-then _ _ s _ _ (Ensures-or_fatal s (find_function symbol.name s.function_map))
          (λ f s1 same1.
            Ensures-then _ _ s1 _ _
              (Ensures-or_fatal s1 (same_number (length f.argument_types) (arg_count args)))
              (λ u s2 same2.
                Ensures-then _ _ s2 _ _
                  (convert_arguments_to-Ensures args f.argument_types s2 (same2 ∙ same1 ∙ h))
                  (λ args' s3 same3.
                    Ensures-then _ _ s3 _ _ (Ensures-or_fatal s3 (return_type f.return_expression))
                      (λ t s4 same4. (
                        refl,
                        λ ok. (
                          ok,
                          λ returns fit count found. (
                            fit.0,
                            (
                              f,
                              subst (λ fs. find_function symbol.name fs ≡ some f) h found,
                              fit.1,
                              returns,
                            ),
                          ),
                        ),
                      )))))
    convert_expression-Ensures AstExpression.other_expression s h = tt

    convert_arguments-Ensures :
        (args : ArgList) (s : State)
        → s.function_map ≡ functions
        → Ensures s (AreTyped functions) (convert_arguments db args s)
    convert_arguments-Ensures ArgList.nil s h = (refl, λ ok. (ok, tt))
    convert_arguments-Ensures (ArgList.cons e args) s h =
        Ensures-then _ _ s _ _ (convert_expression-Ensures e s h) (λ e' s1 same1.
          Ensures-then _ _ s1 _ _ (convert_arguments-Ensures args s1 (same1 ∙ h))
            (λ args' s2 same2. (refl, λ ok. (ok, λ rest first. (first, rest)))))

    convert_arguments_to-Ensures :
        (args : ArgList) (types : List IrType) (s : State)
        → s.function_map ≡ functions
        → Ensures s
            (λ args'. AreTyped functions args' × FitTypes args' types)
            (convert_arguments_to db args types s)
    convert_arguments_to-Ensures ArgList.nil types s h = (refl, λ ok. (ok, (tt, tt)))
    convert_arguments_to-Ensures (ArgList.cons e args) [] s h = tt
    convert_arguments_to-Ensures (ArgList.cons e args) (t ∷ types) s h =
        Ensures-then _ _ s _ _ (convert_expression-Ensures e s h) (λ e' s1 same1.
          Ensures-then _ _ s1 _ _ (ensure_type-Ensures functions s1 e' t) (λ e'' s2 same2.
            Ensures-then _ _ s2 _ _ (convert_arguments_to-Ensures args types s2 (same2 ∙ same1 ∙ h))
              (λ args' s3 same3. (
                refl,
                λ ok. (
                  ok,
                  λ rest cast_first first.
                      let (p1, t1) = cast_first first in ((p1, rest.0), (t1, rest.1)),
                ),
              ))))

  -- An expression that is converted while no error is reported is well typed: operands of one type,
  -- arguments of the types of the parameters, casts between types that can be converted.
  pub convert_expression-IsTyped :
      (e : AstExpression) (s : State)
      → s.function_map ≡ functions
      → (e' : Expression) (s' : State) → convert_expression db e s ≡ some (e', s')
      → s'.error_occurred ≡ false
      → IsTyped functions e'
  convert_expression-IsTyped e s h e' s' r ok =
      ((subst (Ensures s (IsTyped functions)) r (convert_expression-Ensures e s h)).1 ok).1

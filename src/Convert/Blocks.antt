-- ===== src/Convert/Blocks.antt =====
-- odb-compiler/src/ir/semantic/ASTConverter.cpp: the statements that are converted without an error.
use open_dark_basic.Prelude.{
  ℕ, ◌≡◌, refl, subst, ◌∙◌, false, inl, inr, Option, none, some, List, Bytes, Option-cases,
}
use open_dark_basic.Commands.Index.{CommandIndex}
use open_dark_basic.Ast.{AstExpression, AstStatement, Block}
use open_dark_basic.Ir.{Expression, Variable, VarAnnotation, get_type, lookup_variable}
use open_dark_basic.Ir.Statements.{Statement, Statements}
use open_dark_basic.Ir.Types.{IrType, BuiltinType, builtin}
use open_dark_basic.Convert.{State, FunctionEntry, M, pure, ensure_type, get_annotation}
use open_dark_basic.Convert.Expressions.{convert_expression}
use open_dark_basic.Convert.Statements.{
  convert_statement, convert_block, new_id, declare_variable, exit_loop, add_goto, add_gosub,
  define_label, step_or_one, find_label,
}
use open_dark_basic.Convert.Monad.{Ensures, Ensures-then, Ensures-or_fatal, weaken}
use open_dark_basic.Convert.Typed.{
  IsTyped, ensure_type-Ensures, resolve-Ensures, convert_expression-Ensures,
}

-- The value of a variable's type, or of another given one.
abbrev pub IsTypedAs : List (Bytes × FunctionEntry) → IrType → Expression → Type 0
IsTypedAs functions t e = IsTyped functions e × (get_type e ≡ some t)

-- What is assigned to a variable has its type, a condition of `if` is Boolean, an exit leaves the loop
-- it stands in, and no statement is missing.
abbrev mutual
  pub AreTypedIn : List (Bytes × FunctionEntry) → Option ℕ → Statements → Type 0
  AreTypedIn functions loop Statements.nil = Unit
  AreTypedIn functions loop (Statements.cons st b) =
      IsTypedIn functions loop st × AreTypedIn functions loop b

  pub IsTypedIn : List (Bytes × FunctionEntry) → Option ℕ → Statement → Type 0
  IsTypedIn functions loop (Statement.var_assignment v e) = IsTypedAs functions v.type e
  IsTypedIn functions loop (Statement.conditional c b1 b2) =
      IsTypedAs functions (builtin BuiltinType.boolean) c
      × AreTypedIn functions loop b1
      × AreTypedIn functions loop b2
  IsTypedIn functions loop Statement.sub_return = Unit
  IsTypedIn functions loop (Statement.exit_function e) = IsTyped functions e
  IsTypedIn functions loop (Statement.for_loop id v e1 e2 e3 b) =
      IsTypedAs functions v.type e1
      × IsTypedAs functions v.type e2
      × IsTypedAs functions v.type e3
      × AreTypedIn functions (some id) b
  IsTypedIn functions loop (Statement.while_loop id c b) =
      IsTyped functions c × AreTypedIn functions (some id) b
  IsTypedIn functions loop (Statement.until_loop id c b) =
      IsTyped functions c × AreTypedIn functions (some id) b
  IsTypedIn functions loop (Statement.infinite_loop id b) = AreTypedIn functions (some id) b
  IsTypedIn functions loop (Statement.exit id) = loop ≡ some id
  IsTypedIn functions loop (Statement.label l name) = Unit
  IsTypedIn functions loop (Statement.goto j) = Unit
  IsTypedIn functions loop (Statement.gosub j) = Unit
  IsTypedIn functions loop (Statement.function_call e) = IsTyped functions e
  IsTypedIn functions loop Statement.no_statement = ⊥

new_id-Ensures : (s : State) → Ensures s (λ id. Unit) (new_id s)
unfolding new_id
new_id-Ensures s = (refl, λ ok. (ok, tt))

define_label-Ensures :
    (s : State) (name : Bytes) (l : ℕ) → Ensures s (λ u. Unit) (define_label name l s)
unfolding define_label
define_label-Ensures s name l = (refl, λ ok. (ok, tt))

add_goto-Ensures : (s : State) (name : Bytes) (j : ℕ) → Ensures s (λ u. Unit) (add_goto name j s)
unfolding add_goto
add_goto-Ensures s name j = elim (Option-cases (find_label name s.labels)) [
  | inl e ↦ rw e (refl, λ ok. (ok, tt))
  | inr (l, e) ↦ rw e (refl, λ ok. (ok, tt))
]

add_gosub-Ensures : (s : State) (name : Bytes) (j : ℕ) → Ensures s (λ u. Unit) (add_gosub name j s)
unfolding add_gosub
add_gosub-Ensures s name j = elim (Option-cases (find_label name s.labels)) [
  | inl e ↦ rw e (refl, λ ok. (ok, tt))
  | inr (l, e) ↦ rw e (refl, λ ok. (ok, tt))
]

exit_loop-Ensures :
    (db : CommandIndex) (functions : List (Bytes × FunctionEntry)) (s : State) (loop : Option ℕ)
    → Ensures s (IsTypedIn functions loop) (exit_loop db loop s)
exit_loop-Ensures db functions s none = (refl, λ ok. cc)
exit_loop-Ensures db functions s (some l) = (refl, λ ok. (ok, refl))

module _ (db : CommandIndex) (functions : List (Bytes × FunctionEntry)) where
  -- An expression and its cast to a type.
  convert_as-Ensures :
      {B : Type 0} (Q : B → Type 0) (e : AstExpression) (t : IrType) (s : State)
      (f : Expression → M B)
      → s.function_map ≡ functions
      → ((e' : Expression) (s' : State)
          → s'.function_map ≡ functions
          → Ensures s' (λ b. IsTypedAs functions t e' → Q b) (f e' s'))
      → Ensures s Q (elim (convert_expression db e s) [
        | none ↦ none
        | some (e', s') ↦ elim (ensure_type e' t s') [ none ↦ none | some (e'', s'') ↦ f e'' s'' ]
      ])
  convert_as-Ensures Q e t s f h next =
      Ensures-then _ _ s _ _ (convert_expression-Ensures db functions e s h) (λ e' s1 same1.
        Ensures-then _ _ s1 _ _ (ensure_type-Ensures functions s1 e' t) (λ e'' s2 same2.
          weaken (λ b. IsTypedAs functions t e'' → Q b) _ s2 _ (λ b q gives typed. q (gives typed))
            (next e'' s2 (same2 ∙ same1 ∙ h))))

  abbrev LoopTyped : Variable → Expression → Expression → Expression → Option ℕ → Statement → Type 0
  LoopTyped v e1 e2 e3 loop b =
      IsTypedAs functions v.type e3
      → IsTypedAs functions v.type e2
      → IsTypedAs functions v.type e1
      → Unit
      → IsTypedIn functions loop b

  declare_variable-Ensures :
      (name : Bytes) (a : VarAnnotation) (type : BuiltinType) (value : AstExpression)
      (loop : Option ℕ) (o : Option Variable) (s : State)
      → s.function_map ≡ functions
      → Ensures s (IsTypedIn functions loop) (declare_variable db name a type value o s)
  unfolding declare_variable
  declare_variable-Ensures name a type value loop (some v) s h = (refl, λ ok. cc)
  declare_variable-Ensures name a type value loop none s h =
      convert_as-Ensures (IsTypedIn functions loop) value (builtin type) _ _ h
        (λ e s1 same1. (refl, λ ok. (ok, λ typed. typed)))

  mutual
    unfolding convert_statement

    convert_statement-Ensures :
        (st : AstStatement) (loop : Option ℕ) (s : State)
        → s.function_map ≡ functions
        → Ensures s (IsTypedIn functions loop) (convert_statement db st loop s)
    convert_statement-Ensures (AstStatement.var_decl symbol type value) loop s h =
        Ensures-then _ _ s _ _ (Ensures-or_fatal s (get_annotation symbol.annotation))
          (λ a s1 same1.
            weaken (IsTypedIn functions loop) _ s1 _ (λ b p e. p)
              (declare_variable-Ensures symbol.name a type value loop
                (lookup_variable s1.variables symbol.name a) s1 (same1 ∙ h)))
    convert_statement-Ensures (AstStatement.var_assignment symbol value) loop s h =
        Ensures-then _ _ s _ _ (resolve-Ensures s symbol.name symbol.annotation) (λ v s1 same1.
          convert_as-Ensures (λ b. Unit → IsTypedIn functions loop b) value v.type s1 _ (same1 ∙ h)
            (λ e s2 same2. (refl, λ ok. (ok, λ typed u. typed))))
    convert_statement-Ensures (AstStatement.conditional condition yes_branch no_branch) loop s h =
        convert_as-Ensures (IsTypedIn functions loop) condition (builtin BuiltinType.boolean) s _ h
          (λ c s1 same1.
            Ensures-then _ _ s1 _ _ (convert_block-Ensures yes_branch loop s1 same1) (λ b1 s2 same2.
              Ensures-then _ _ s2 _ _ (convert_block-Ensures no_branch loop s2 (same2 ∙ same1))
                (λ b2 s3 same3. (refl, λ ok. (ok, λ p2 p1 typed. (typed, p1, p2))))))
    convert_statement-Ensures AstStatement.sub_return loop s h = (refl, λ ok. (ok, tt))
    convert_statement-Ensures (AstStatement.func_exit value) loop s h =
        Ensures-then _ _ s _ _ (convert_expression-Ensures db functions value s h)
          (λ e s1 same1. (refl, λ ok. (ok, λ p. p)))
    convert_statement-Ensures (AstStatement.for_loop counter from to step body) loop s h =
        Ensures-then _ _ s _ _ (resolve-Ensures s counter.name counter.annotation) (λ v s1 same1.
          convert_as-Ensures (λ b. Unit → IsTypedIn functions loop b) from v.type s1 _ (same1 ∙ h)
            (λ e1 s2 same2.
              convert_as-Ensures
                (λ b. IsTypedAs functions v.type e1 → Unit → IsTypedIn functions loop b) to v.type
                s2 _ same2
                (λ e2 s3 same3.
                  convert_as-Ensures
                    (λ b.
                      IsTypedAs functions v.type e2
                      → IsTypedAs functions v.type e1
                      → Unit
                      → IsTypedIn functions loop b)
                    (step_or_one step) v.type s3 _ same3
                    (λ e3 s4 same4.
                      Ensures-then (λ id. Unit) (λ b. LoopTyped v e1 e2 e3 loop b) s4 _ _
                        (new_id-Ensures s4)
                        (λ id s5 same5.
                          Ensures-then (AreTypedIn functions (some id))
                            (λ b. Unit → LoopTyped v e1 e2 e3 loop b) s5 _
                            (λ b. pure (Statement.for_loop id v e1 e2 e3 b))
                            (convert_block-Ensures body (some id) s5 (same5 ∙ same4))
                            (λ b s6 same6.
                              (refl, λ ok. (ok, λ p u t3 t2 t1 u'. (t1, t2, t3, p)))))))))
    convert_statement-Ensures (AstStatement.while_loop condition body) loop s h =
        Ensures-then _ _ s _ _ (convert_expression-Ensures db functions condition s h)
          (λ c s1 same1.
            Ensures-then (λ id. Unit) (λ b. IsTyped functions c → IsTypedIn functions loop b) s1 _ _
              (new_id-Ensures s1)
              (λ id s2 same2.
                Ensures-then (AreTypedIn functions (some id))
                  (λ b. Unit → IsTyped functions c → IsTypedIn functions loop b) s2 _
                  (λ b. pure (Statement.while_loop id c b))
                  (convert_block-Ensures body (some id) s2 (same2 ∙ same1 ∙ h))
                  (λ b s3 same3. (refl, λ ok. (ok, λ p u q. (q, p))))))
    convert_statement-Ensures (AstStatement.until_loop condition body) loop s h =
        Ensures-then _ _ s _ _ (convert_expression-Ensures db functions condition s h)
          (λ c s1 same1.
            Ensures-then (λ id. Unit) (λ b. IsTyped functions c → IsTypedIn functions loop b) s1 _ _
              (new_id-Ensures s1)
              (λ id s2 same2.
                Ensures-then (AreTypedIn functions (some id))
                  (λ b. Unit → IsTyped functions c → IsTypedIn functions loop b) s2 _
                  (λ b. pure (Statement.until_loop id c b))
                  (convert_block-Ensures body (some id) s2 (same2 ∙ same1 ∙ h))
                  (λ b s3 same3. (refl, λ ok. (ok, λ p u q. (q, p))))))
    convert_statement-Ensures (AstStatement.infinite_loop body) loop s h =
        Ensures-then _ _ s _ _ (new_id-Ensures s) (λ id s1 same1.
          Ensures-then (AreTypedIn functions (some id)) (λ b. Unit → IsTypedIn functions loop b) s1
            _ (λ b. pure (Statement.infinite_loop id b))
            (convert_block-Ensures body (some id) s1 (same1 ∙ h))
            (λ b s2 same2. (refl, λ ok. (ok, λ p u. p))))
    convert_statement-Ensures AstStatement.exit loop s h = exit_loop-Ensures db functions s loop
    convert_statement-Ensures (AstStatement.label name) loop s h =
        Ensures-then _ _ s _ _ (new_id-Ensures s) (λ l s1 same1.
          Ensures-then (λ u. Unit) (λ b. Unit → IsTypedIn functions loop b) s1 _
            (λ u. pure (Statement.label l name)) (define_label-Ensures s1 name l)
            (λ u s2 same2. (refl, λ ok. (ok, λ p q. tt))))
    convert_statement-Ensures (AstStatement.func_call_stmnt symbol args) loop s h =
        Ensures-then _ _ s _ _
          (convert_expression-Ensures db functions (AstExpression.func_call_expr symbol args) s h)
          (λ e s1 same1. (refl, λ ok. (ok, λ p. p)))
    convert_statement-Ensures (AstStatement.goto name) loop s h =
        Ensures-then _ _ s _ _ (new_id-Ensures s) (λ l s1 same1.
          Ensures-then (λ u. Unit) (λ b. Unit → IsTypedIn functions loop b) s1 _
            (λ u. pure (Statement.goto l)) (add_goto-Ensures s1 name l)
            (λ u s2 same2. (refl, λ ok. (ok, λ p q. tt))))
    convert_statement-Ensures (AstStatement.sub_call name) loop s h =
        Ensures-then _ _ s _ _ (new_id-Ensures s) (λ l s1 same1.
          Ensures-then (λ u. Unit) (λ b. Unit → IsTypedIn functions loop b) s1 _
            (λ u. pure (Statement.gosub l)) (add_gosub-Ensures s1 name l)
            (λ u s2 same2. (refl, λ ok. (ok, λ p q. tt))))
    convert_statement-Ensures (AstStatement.command_stmnt name args) loop s h =
        Ensures-then _ _ s _ _
          (convert_expression-Ensures db functions (AstExpression.command_expr name args) s h)
          (λ e s1 same1. (refl, λ ok. (ok, λ p. p)))
    convert_statement-Ensures AstStatement.other_statement loop s h = tt

    pub convert_block-Ensures :
        (block : Block) (loop : Option ℕ) (s : State)
        → s.function_map ≡ functions
        → Ensures s (AreTypedIn functions loop) (convert_block db block loop s)
    convert_block-Ensures Block.nil loop s h = (refl, λ ok. (ok, tt))
    convert_block-Ensures (Block.cons st block) loop s h =
        Ensures-then _ _ s _ _ (convert_statement-Ensures st loop s h) (λ st' s1 same1.
          Ensures-then _ _ s1 _ _ (convert_block-Ensures block loop s1 (same1 ∙ h))
            (λ b s2 same2. (refl, λ ok. (ok, λ rest first. (first, rest)))))

  -- The statements that are converted while no error is reported: none is missing, what is assigned to
  -- a variable has its type, conditions of `if` are Boolean, calls and operators are well typed, and
  -- every exit leaves the innermost loop around it.
  pub convert_block-AreTypedIn :
      (block : Block) (loop : Option ℕ) (s : State)
      → s.function_map ≡ functions
      → (b : Statements) (s' : State) → convert_block db block loop s ≡ some (b, s')
      → s'.error_occurred ≡ false
      → AreTypedIn functions loop b
  convert_block-AreTypedIn block loop s h b s' r ok =
      ((subst (Ensures s (AreTypedIn functions loop)) r (convert_block-Ensures block loop s h)).1
        ok).1

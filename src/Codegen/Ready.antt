-- ===== src/Codegen/Ready.antt =====
-- odb-compiler/src/ir/codegen/CodeGenerator.cpp: the symbol tables stay ready while values are made.
use open_dark_basic.Prelude.{
  ℕ, subst, ◌==◌, ◌⊎◌, [], ◌≡◌, refl, sym, ap, ◌∙◌, true, false, ◌||◌, Option, some, List, ◌∷◌, map,
  Bytes, inl, inr, Bool-cases, Option-cases,
}
use open_dark_basic.Commands.Command.{CommandType, Command}
use open_dark_basic.Commands.Index.{text_eq}
use open_dark_basic.Commands.Index.Conflicts.{text_eq→eq}
use open_dark_basic.Convert.{get_type_from_command_type}
use open_dark_basic.Ir.{Callee, Variable, names}
use open_dark_basic.Ir.Types.{
  BuiltinType, IrType, builtin, builtin_eq, type_eq_self, is_integral_type, is_floating_point_type,
}
use open_dark_basic.Codegen.{
  LlvmType, argument_llvm_types, command_llvm_type, get_llvm_type, result_type, accepts, llvm_eq,
  Builder, Documented, TypedThunks, Symbols, ◌>>=◌, demand, find_entry, Instruction,
}
use open_dark_basic.Codegen.Emit.{
  generate_cast, generate_literal, get_callee, emit_in, get_or_add_str_literal,
  get_or_create_command_thunk, thunk_made, get_function, get_var, same_type, cast_instruction,
}
use open_dark_basic.Codegen.Fits.{Chosen, llvm_eq_self}
use open_dark_basic.Codegen.Generable.{is_number}

some_injective : {A : Type 0} {x y : A} → some x ≡ some y → x ≡ y
some_injective e = cc

demand_run : {S A : Type 0} (o : Option A) (a : A) (s : S) → o ≡ some a → demand o s ≡ some (a, s)
demand_run o a s e = rw e refl

pub same_llvm_type :
    (o : Option IrType) (σ τ : IrType) (s t : LlvmType)
    → o ≡ some σ
    → o ≡ some τ
    → get_llvm_type σ ≡ some s
    → get_llvm_type τ ≡ some t
    → s ≡ t
same_llvm_type o σ τ s t e e' k k' = cc

pub same_type_holds :
    (l r : Option IrType) (t : BuiltinType)
    → l ≡ some (builtin t)
    → r ≡ some (builtin t)
    → same_type l r ≡ some tt
same_type_holds l r t e e' = rw (e, e', type_eq_self t) refl

pub void_known : get_llvm_type IrType.void ≡ some LlvmType.void
unfolding get_llvm_type
void_known = refl

-- A command's type becomes the same LLVM type by way of a type of the program.
pub command_types_agree :
    (c : CommandType) (t : IrType) (l : LlvmType)
    → get_type_from_command_type c ≡ some t
    → command_llvm_type c ≡ some l
    → get_llvm_type t ≡ some l
unfolding get_type_from_command_type command_llvm_type get_llvm_type
command_types_agree CommandType.integer t l h k =
    subst (λ x. get_llvm_type x ≡ some l) (some_injective h) k
command_types_agree CommandType.float t l h k =
    subst (λ x. get_llvm_type x ≡ some l) (some_injective h) k
command_types_agree CommandType.string t l h k =
    subst (λ x. get_llvm_type x ≡ some l) (some_injective h) k
command_types_agree CommandType.double t l h k =
    subst (λ x. get_llvm_type x ≡ some l) (some_injective h) k
command_types_agree CommandType.long t l h k =
    subst (λ x. get_llvm_type x ≡ some l) (some_injective h) k
command_types_agree CommandType.dword t l h k =
    subst (λ x. get_llvm_type x ≡ some l) (some_injective h) k
command_types_agree CommandType.void t l h k =
    subst (λ x. get_llvm_type x ≡ some l) (some_injective h) k
command_types_agree (CommandType.unlisted c) t l h k = cc

module _ (b : Builder) (documented : Documented b) (engine : TypedThunks b)
    (signature_of : Bytes → List LlvmType × LlvmType) (variables : List (Variable × b.Value))
    (functions : List (Bytes × b.Function)) where
  -- The tables are these, the storage of texts has its type, and the functions behind the
  -- symbols of commands have the types expected.
  pub record IsReady (s : Symbols b) : Type 0 where
    pub same_variables : s.variable_table ≡ variables
    pub same_functions : s.function_definitions ≡ functions
    pub texts :
        (text : ℕ) (x : b.Value)
        → find_entry (λ t. t == text) s.string_literal_table ≡ some x
        → b.type_of x ≡ LlvmType.text_ptr
    pub thunks :
        (name : Bytes) (f : b.Function)
        → find_entry (text_eq name) s.command_thunks ≡ some f
        → b.function_type f ≡ signature_of name

  -- A value of the type's LLVM type is made, and the tables stay ready.
  abbrev pub Makes : IrType → Option (b.Value × Symbols b) → Type 0
  Makes τ o =
      (v : b.Value) × (s' : Symbols b) × (o ≡ some (v, s'))
      × (get_llvm_type τ ≡ some (b.type_of v))
      × IsReady s'

  pub still_IsReady :
      (s : Symbols b) (m : b.Module) → IsReady s → IsReady (record s { module_ = m })
  still_IsReady s m ready = record {
    same_variables = ready.same_variables;
    same_functions = ready.same_functions;
    texts = ready.texts;
    thunks = ready.thunks;
  }

  pub emitted :
      (τ : IrType) (i : Instruction) (x : b.Value) (xs : List b.Value) (s : Symbols b)
      → IsReady s
      → accepts i (map b.type_of (x ∷ xs)) ≡ true
      → get_llvm_type τ ≡ some (result_type i (b.type_of x))
      → Makes τ (emit_in b i x xs s)
  emitted τ i x xs s ready takes e = (
    _,
    _,
    refl,
    e ∙ ap some (sym (documented.emit_type i x xs s.module_ takes)),
    still_IsReady s _ ready,
  )

  text_IsReady :
      (s : Symbols b) (text : ℕ)
      → IsReady s
      → let (x, m) = b.global_string text s.module_ in
        IsReady
          (record s { module_ = m; string_literal_table = (text, x) ∷ s.string_literal_table })
  unfolding find_entry
  text_IsReady s text ready = record {
    same_variables = ready.same_variables;
    same_functions = ready.same_functions;
    thunks = ready.thunks;
    texts = λ text' x h. elim (Bool-cases (text == text')) [
      | inl hit ↦
          let made : some _ ≡ some x = rw (hit, find_entry) at h in
          ap b.type_of (some_injective (sym made)) ∙ documented.global_string_type text s.module_
      | inr miss ↦ ready.texts text' x (rw (miss, find_entry) at h)
    ];
  }

  literal_stored :
      (text : ℕ) (s : Symbols b)
      → IsReady s
      → (x : b.Value) × (s' : Symbols b) × (get_or_add_str_literal b text s ≡ some (x, s'))
        × (b.type_of x ≡ LlvmType.text_ptr)
        × IsReady s'
  unfolding get_or_add_str_literal
  literal_stored text s ready =
      elim (Option-cases (find_entry (λ t. t == text) s.string_literal_table)) [
        | inl n ↦
            let (x, m) = b.global_string text s.module_ in
            let texts = (text, x) ∷ s.string_literal_table in
            (
              x,
              record s { module_ = m; string_literal_table = texts },
              rw (n, get_or_add_str_literal) refl,
              documented.global_string_type text s.module_,
              text_IsReady s text ready,
            )
        | inr (x, e) ↦ (x, s, rw (e, get_or_add_str_literal) refl, ready.texts text x e, ready)
      ]

  pub literal_made :
      (t : BuiltinType) (value : ℕ) (s : Symbols b)
      → IsReady s
      → is_number t || builtin_eq t BuiltinType.string ≡ true
      → Makes (builtin t) (generate_literal b t value s)
  unfolding generate_literal get_llvm_type is_integral_type is_floating_point_type
  literal_made BuiltinType.double_integer value s ready h =
      (_, s, refl, ap some (sym (documented.constant_int_type _ _)), ready)
  literal_made BuiltinType.integer value s ready h =
      (_, s, refl, ap some (sym (documented.constant_int_type _ _)), ready)
  literal_made BuiltinType.dword value s ready h =
      (_, s, refl, ap some (sym (documented.constant_int_type _ _)), ready)
  literal_made BuiltinType.word value s ready h =
      (_, s, refl, ap some (sym (documented.constant_int_type _ _)), ready)
  literal_made BuiltinType.byte value s ready h =
      (_, s, refl, ap some (sym (documented.constant_int_type _ _)), ready)
  literal_made BuiltinType.boolean value s ready h =
      (_, s, refl, ap some (sym (documented.constant_int_type _ _)), ready)
  literal_made BuiltinType.double_float value s ready h =
      (_, s, refl, ap some (sym (documented.constant_fp_type _ _)), ready)
  literal_made BuiltinType.float value s ready h =
      (_, s, refl, ap some (sym (documented.constant_fp_type _ _)), ready)
  literal_made BuiltinType.string value s ready h =
      let (x, s', e, known, ready') = literal_stored value s ready in
      let (v, s'', e', yield, made) =
        emitted (builtin BuiltinType.string) (Instruction.bit_cast LlvmType.int8_ptr) x [] s' ready'
          (rw known refl) refl in
      (v, s'', rw (e, generate_literal, ◌>>=◌) e', yield, made)
  literal_made t value s ready h = cc

  -- A cast of a value of the type that it starts from.
  pub cast_made :
      (t : IrType) (from to : LlvmType) (x : b.Value) (s : Symbols b)
      → IsReady s
      → b.type_of x ≡ from
      → get_llvm_type t ≡ some to
      → ((from ≡ to) ⊎ ((llvm_eq from to ≡ false) × Chosen t (cast_instruction from to) from []))
      → Makes t (generate_cast b from to x s)
  unfolding generate_cast
  cast_made t from to x s ready e e' (inl same) =
      (x, s, rw (llvm_eq_self from to same) refl, e' ∙ ap some (sym same ∙ sym e), ready)
  cast_made t from to x s ready e e' (inr (other, (i, found, takes, yield))) =
      let (v, s', ran, yield', made) =
        emitted t i x [] s ready (rw e takes) (yield ∙ ap (λ y. some (result_type i y)) (sym e)) in
      (v, s', rw (other, found) ran, yield', made)

  thunk-IsReady :
      (c : Command) (s : Symbols b)
      → IsReady s
      → (f : b.Function) × (s' : Symbols b) × (thunk_made b c
            (signature_of c.cpp_symbol).0
            (signature_of c.cpp_symbol).1
            s
          ≡ some (f, s'))
        × (b.function_type f ≡ signature_of c.cpp_symbol)
        × IsReady s'
  unfolding find_entry
  thunk-IsReady c s ready =
      let (types, result) = signature_of c.cpp_symbol in
      let known = engine.thunk_type c _ types result s.module_ in
      (
        _,
        _,
        refl,
        known,
        record {
          same_variables = ready.same_variables;
          same_functions = ready.same_functions;
          texts = ready.texts;
          thunks = λ name f h. elim (Bool-cases (text_eq name c.cpp_symbol)) [
            | inl hit ↦
                let made : some _ ≡ some f = rw (hit, find_entry) at h in
                ap b.function_type (some_injective (sym made))
                ∙ known
                ∙ ap signature_of (sym (text_eq→eq name c.cpp_symbol hit))
            | inr miss ↦ ready.thunks name f (rw (miss, find_entry) at h)
          ];
        },
      )

  pub command-IsReady :
      (c : Command) (s : Symbols b)
      → IsReady s
      → argument_llvm_types c.args ≡ some (signature_of c.cpp_symbol).0
      → command_llvm_type c.return_type ≡ some (signature_of c.cpp_symbol).1
      → (f : b.Function) × (s' : Symbols b) × (get_callee b (Callee.command c) s ≡ some (f, s'))
        × (b.function_type f ≡ signature_of c.cpp_symbol)
        × IsReady s'
  unfolding get_callee get_or_create_command_thunk
  command-IsReady c s ready e e' =
      elim (Option-cases (find_entry (text_eq c.cpp_symbol) s.command_thunks)) [
        | inl n ↦
            let (f, s', ran, known, ready') = thunk-IsReady c s ready in
            (f, s', rw (n, e, e', get_or_create_command_thunk) ran, known, ready')
        | inr (f, found) ↦ (
          f,
          s,
          rw (found, get_or_create_command_thunk) refl,
          ready.thunks c.cpp_symbol f found,
          ready,
        )
      ]

  pub function_ready :
      (name : Bytes) (f : b.Function) (s : Symbols b)
      → IsReady s
      → find_entry (text_eq name) functions ≡ some f
      → get_callee b (Callee.user_function name) s ≡ some (f, s)
  unfolding get_callee get_function
  function_ready name f s ready e = rw (ready.same_functions, e) refl

  pub variable_ready :
      (v : Variable) (x : b.Value) (s : Symbols b)
      → IsReady s
      → find_entry (λ w. names w v.name v.annotation) variables ≡ some x
      → get_var b v s ≡ some (x, s)
  unfolding get_var
  variable_ready v x s ready e =
      demand_run _ x s (ap (find_entry (λ w. names w v.name v.annotation)) ready.same_variables ∙ e)

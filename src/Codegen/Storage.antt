-- ===== src/Codegen/Storage.antt =====
-- odb-compiler/src/ir/codegen/CodeGenerator.cpp: `generateFunctionBody` makes storage for the variables
-- of a function.
use open_dark_basic.Prelude.{
  ◌≡◌, refl, sym, ap, ◌∙◌, true, false, ◌||◌, if◌then◌else◌, Option, some, none, List, [], ◌∷◌,
  ◌++◌, In, All, All-In, subst, inl, inr, Bool-cases,
}
use mathlib.Core.List.{append-nil, append_assoc}
use open_dark_basic.Ir.{Variable, VarAnnotation, names, annotation_eq}
use open_dark_basic.Commands.Index.Conflicts.{text_eq_self}
use open_dark_basic.Ir.Types.{
  BuiltinType, IrType, builtin, builtin_eq, is_integral_type, is_floating_point_type,
}
use open_dark_basic.Codegen.{
  LlvmType, get_llvm_type, Builder, Documented, Symbols, Gen, ◌>>=◌, pure, demand, find_entry,
}
use open_dark_basic.Codegen.Emit.{on_module}
use open_dark_basic.Codegen.Generable.{is_number}
use open_dark_basic.Codegen.Fits.{scalar_known}

module _ (b : Builder) where
  -- The first value of a variable; there is none for the other types, and the source stores a pointer
  -- that it has not set.
  unfoldable pub initialiser : IrType → LlvmType → Gen (Symbols b) b.Value
  initialiser (builtin t) ty =
      if is_integral_type t
      then pure (b.constant_int ty 0)
      else if is_floating_point_type t
      then pure (b.constant_fp ty 0)
      else if builtin_eq t BuiltinType.string
      then on_module b (b.global_string_ptr [])
      else demand none
  initialiser _ ty = demand none

  -- `addVar`: an entry that is there stays. The source finds a variable by its address; a scope has one
  -- variable for a name and an annotation.
  unfoldable pub add_var : Variable → b.Value → Gen (Symbols b) (Unit {0})
  add_var v x s = some (tt, record s { variable_table = s.variable_table ++ (v, x) ∷ [] })

  abbrev store_in : b.Value → b.Value → Gen (Symbols b) (Unit {0})
  store_in x y s = some (tt, record s { module_ = b.create_store x y s.module_ })

  unfoldable pub allocate_variable : Variable → Gen (Symbols b) (Unit {0})
  allocate_variable v = do
    t ← demand (get_llvm_type v.type)
    storage ← on_module b (b.create_alloca t v.name)
    first ← initialiser v.type t
    stored ← store_in first storage
    add_var v storage

  unfoldable pub allocate_variables : List Variable → Gen (Symbols b) (Unit {0})
  allocate_variables [] = pure tt
  allocate_variables (v ∷ vs) = allocate_variable v >>= λ done. allocate_variables vs

-- A variable of a type that has a first value.
abbrev pub IsInitialised : Variable → Type 0
IsInitialised v =
    (t : BuiltinType) × (v.type ≡ builtin t)
    × (is_number t || builtin_eq t BuiltinType.string ≡ true)

-- No variable has the name and annotation of one before it.
abbrev pub AreDistinct : List Variable → Type 0
AreDistinct [] = Unit
AreDistinct (v ∷ vs) = All (λ w. names v w.name w.annotation ≡ false) vs × AreDistinct vs

annotation_eq_self : (a : VarAnnotation) → annotation_eq a a ≡ true
annotation_eq_self VarAnnotation.unannotated = refl
annotation_eq_self _ = refl

module _ (b : Builder) (documented : Documented b) where
  -- The variable is found in the table, at storage for a value of its type.
  abbrev pub HasStorage : List (Variable × b.Value) → Variable → Type 0
  HasStorage table v =
      (x : b.Value) × (find_entry (λ w. names w v.name v.annotation) table ≡ some x)
      × (get_llvm_type v.type ≡ some (b.pointee x))

  -- The last entry is a variable's storage, the others and the functions stay as they were.
  abbrev Adds : Variable → Symbols b → Option (Unit {0} × Symbols b) → Type 0
  Adds v s o =
      (x : b.Value) × (s' : Symbols b) × (o ≡ some (tt, s'))
      × (s'.variable_table ≡ s.variable_table ++ (v, x) ∷ [])
      × (get_llvm_type v.type ≡ some (b.pointee x))

  initialiser_runs :
      (t : BuiltinType) (ty : LlvmType) (s : Symbols b)
      → is_number t || builtin_eq t BuiltinType.string ≡ true
      → (x : b.Value) × (s' : Symbols b) × (initialiser b (builtin t) ty s ≡ some (x, s'))
        × (s'.variable_table ≡ s.variable_table)
  unfolding initialiser
  initialiser_runs t ty s h = elim (Bool-cases (is_integral_type t)) [
    | inl i ↦ (b.constant_int ty 0, s, rw i refl, refl)
    | inr n ↦ elim (Bool-cases (is_floating_point_type t)) [
      | inl f ↦ (b.constant_fp ty 0, s, rw (n, f) refl, refl)
      | inr n' ↦
          let text : builtin_eq t BuiltinType.string ≡ true = rw (n, n') at h in
          let (x, m) = b.global_string_ptr [] s.module_ in
          (x, record s { module_ = m }, rw (n, n', text) refl, refl)
    ]
  ]

  allocate_variable-Adds :
      (v : Variable) (s : Symbols b) → IsInitialised v → Adds v s (allocate_variable b v s)
  unfolding allocate_variable add_var
  allocate_variable-Adds v s (t, e, h) =
      let (ty, known) = scalar_known t h in
      let known' : get_llvm_type v.type ≡ some ty = ap get_llvm_type e ∙ known in
      let (x, m) = b.create_alloca ty v.name s.module_ in
      let (y, s1, ran, kept) = initialiser_runs t ty (record s { module_ = m }) h in
      let ran' : initialiser b v.type ty (record s { module_ = m }) ≡ some (y, s1) = rw e ran in
      (
        x,
        record s1 {
          module_ = b.create_store y x s1.module_;
          variable_table = s1.variable_table ++ (v, x) ∷ [];
        },
        rw (known', ran', ◌>>=◌, add_var) refl,
        ap (λ table. table ++ (v, x) ∷ []) kept,
        known' ∙ ap some (sym (documented.alloca_pointee ty v.name s.module_)),
      )

  -- Entries for these variables, in their order.
  abbrev Stores : List Variable → List (Variable × b.Value) → Type 0
  Stores [] [] = Unit
  Stores (v ∷ vs) ((w, x) ∷ entries) =
      (w ≡ v) × (get_llvm_type v.type ≡ some (b.pointee x)) × Stores vs entries
  Stores _ _ = ⊥

  allocate_variables-Stores :
      (vs : List Variable) (s : Symbols b)
      → All IsInitialised vs
      → (s' : Symbols b) × (allocate_variables b vs s ≡ some (tt, s'))
        × ((entries : List (Variable × b.Value)) × (s'.variable_table ≡ s.variable_table ++ entries)
            × Stores vs entries)
  unfolding allocate_variables
  allocate_variables-Stores [] s h = (s, refl, ([], sym (append-nil s.variable_table), tt))
  allocate_variables-Stores (v ∷ vs) s (h, hs) =
      let (x, s1, ran, added, known) = allocate_variable-Adds v s h in
      let (s2, ran', (entries, same, stores)) = allocate_variables-Stores vs s1 hs in
      (
        s2,
        rw (ran, ◌>>=◌) ran',
        (
          (v, x) ∷ entries,
          same
              ∙ ap (λ table. table ++ entries) added
              ∙ append_assoc s.variable_table ((v, x) ∷ []) entries,
          (refl, known, stores),
        ),
      )

  names_self : (v : Variable) → names v v.name v.annotation ≡ true
  names_self v = rw (text_eq_self v.name) (annotation_eq_self v.annotation)

  stored_variable :
      (v : Variable) (vs : List Variable) (entries : List (Variable × b.Value))
      → AreDistinct vs
      → Stores vs entries
      → In v vs
      → HasStorage entries v
  unfolding find_entry
  stored_variable v [] entries d h i = absurd i
  stored_variable v (w ∷ vs) [] d h i = absurd h
  stored_variable v (w ∷ vs) ((w', x) ∷ entries) (d, ds) (e, k, h) (inl same) =
      let hit : names w' v.name v.annotation ≡ true = rw (e, same) (names_self w) in
      (x, rw hit refl, rw same k)
  stored_variable v (w ∷ vs) ((w', x) ∷ entries) (d, ds) (e, k, h) (inr i) =
      let (y, found, known) = stored_variable v vs entries ds h i in
      let other : names w' v.name v.annotation ≡ false =
        rw e (All-In (λ u. names w u.name u.annotation ≡ false) v vs d i) in
      (y, rw other found, known)

  -- Where a function's variables are of number types or texts and no two have one name and annotation,
  -- storage is made for all: each is found in the table, at storage for a value of its type.
  pub allocate_variables-HasStorage :
      (vs : List Variable) (s : Symbols b)
      → s.variable_table ≡ []
      → All IsInitialised vs
      → AreDistinct vs
      → (s' : Symbols b) × (allocate_variables b vs s ≡ some (tt, s'))
        × ((v : Variable) → In v vs → HasStorage s'.variable_table v)
  allocate_variables-HasStorage vs s empty h d =
      let (s', ran, (entries, same, stores)) = allocate_variables-Stores vs s h in
      let table : s'.variable_table ≡ entries = same ∙ ap (λ table. table ++ entries) empty in
      (
        s',
        ran,
        λ v i. subst (λ t. HasStorage t v) (sym table) (stored_variable v vs entries d stores i),
      )

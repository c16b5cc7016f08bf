-- ===== src/Codegen/Fits.antt =====
-- odb-compiler/src/ir/codegen/CodeGenerator.cpp: operators and casts that are implemented have an
-- instruction, whose result has the right type.
use open_dark_basic.Prelude.{
  ◌≡◌, refl, ap, subst, ◌∙◌, arith, ==_self, Bool, true, false, ◌&&◌, ◌||◌, List, [], ◌∷◌, not,
  Option, some, none, inl, inr, Option-cases, Bool-cases, ◌⊎◌,
}
use open_dark_basic.Ir.{UnaryOp, BinaryOp, binary_type}
use open_dark_basic.Ir.Types.{
  BuiltinType, IrType, builtin, builtin_eq, is_integral_type, is_floating_point_type,
  holds_of_every_type, holds_of_every_type→one, and_both,
}
use open_dark_basic.Codegen.{LlvmType, llvm_eq, get_llvm_type, Instruction, result_type, accepts}
use open_dark_basic.Codegen.Emit.{
  cast_instruction, unary_instruction, binary_instruction, more_operands,
}
use open_dark_basic.Codegen.Generable.{is_number, implemented, castable}

-- Whether a type of the program becomes this LLVM type.
abbrev becomes : Option IrType → LlvmType → Bool
becomes none t = false
becomes (some s) t = elim (get_llvm_type s) [ none ↦ false | some s' ↦ llvm_eq s' t ]

-- The instruction takes operands of these types, and its result has the type's LLVM type.
abbrev yields : Option IrType → Option Instruction → LlvmType → List LlvmType → Bool
yields s none t more = false
yields s (some i) t more = accepts i (t ∷ more) && becomes s (result_type i t)

abbrev fits : BuiltinType → (LlvmType → Bool) → Bool
fits t p = elim (get_llvm_type (builtin t)) [ none ↦ false | some ty ↦ p ty ]

abbrev binary_fits : BinaryOp → BuiltinType → Bool
binary_fits op t = fits t (λ ty.
    yields (binary_type op (some (builtin t))) (binary_instruction op ty ty) ty
      (more_operands op ty))

unary_fits : BuiltinType → Bool
unary_fits t = fits t (λ ty. yields (some (builtin t)) (unary_instruction UnaryOp.negate ty) ty [])

cast_fits : BuiltinType → BuiltinType → Bool
cast_fits s t = fits s (λ from.
    fits t (λ to. llvm_eq from to || yields (some (builtin t)) (cast_instruction from to) from []))

scalar_fits_all :
    holds_of_every_type
      (λ t. not (is_number t || builtin_eq t BuiltinType.string) || fits t (λ ty. true))
    ≡ true
unfolding get_llvm_type is_integral_type is_floating_point_type
scalar_fits_all = refl

implemented_fits_all :
    (op : BinaryOp) → holds_of_every_type (λ t. not (implemented op t) || binary_fits op t) ≡ true
unfolding binary_type binary_instruction get_llvm_type is_integral_type is_floating_point_type
implemented_fits_all BinaryOp.add = refl
implemented_fits_all _ = refl

number_fits_all : holds_of_every_type (λ t. not (is_number t) || unary_fits t) ≡ true
unfolding unary_fits unary_instruction get_llvm_type is_integral_type is_floating_point_type
number_fits_all = refl

castable_fits_all :
    holds_of_every_type (λ s. holds_of_every_type (λ t. not (castable s t) || cast_fits s t)) ≡ true
unfolding cast_fits cast_instruction get_llvm_type is_integral_type is_floating_point_type
castable_fits_all = refl

llvm_eq→eq : (s t : LlvmType) → llvm_eq s t ≡ true → s ≡ t
llvm_eq→eq (LlvmType.integer m) t h = ground arith
llvm_eq→eq s t h = ground arith

llvm_eq_refl : (t : LlvmType) → llvm_eq t t ≡ true
llvm_eq_refl (LlvmType.integer n) = ==_self n
llvm_eq_refl _ = refl

pub llvm_eq_self : (s t : LlvmType) → s ≡ t → llvm_eq s t ≡ true
llvm_eq_self s t e = rw e (llvm_eq_refl t)

-- An instruction that is chosen takes operands of these types, and its result has the LLVM type of
-- this type.
abbrev pub Chosen : IrType → Option Instruction → LlvmType → List LlvmType → Type 0
Chosen τ o t more =
    (i : Instruction) × (o ≡ some i)
    × (accepts i (t ∷ more) ≡ true)
    × (get_llvm_type τ ≡ some (result_type i t))

implies : (a b : Bool) → not a || b ≡ true → a ≡ true → b ≡ true
implies true b h e = h
implies false b h e = cc

becomes→eq :
    (s : Option IrType) (t : LlvmType)
    → becomes s t ≡ true
    → (τ : IrType) × (s ≡ some τ) × (get_llvm_type τ ≡ some t)
becomes→eq none t h = cc
becomes→eq (some τ) t h = elim (Option-cases (get_llvm_type τ)) [
  | inl n ↦ let impossible : false ≡ true = rw (n, becomes) at h in cc
  | inr (s, e) ↦
      let same : llvm_eq s t ≡ true = rw (e, becomes) at h in
      (τ, refl, e ∙ ap some (llvm_eq→eq s t same))
]

yields→Chosen :
    (s : Option IrType) (o : Option Instruction) (t : LlvmType) (more : List LlvmType)
    → yields s o t more ≡ true
    → (τ : IrType) × (s ≡ some τ) × Chosen τ o t more
yields→Chosen s none t more h = cc
yields→Chosen s (some i) t more h =
    let (takes, gives) = and_both (accepts i (t ∷ more)) (becomes s (result_type i t)) h in
    let (τ, e, k) = becomes→eq s (result_type i t) gives in (τ, e, (i, refl, takes, k))

fits_at :
    (t : BuiltinType) (p : LlvmType → Bool)
    → fits t p ≡ true
    → (ty : LlvmType) × (get_llvm_type (builtin t) ≡ some ty) × (p ty ≡ true)
fits_at t p h = elim (Option-cases (get_llvm_type (builtin t))) [
  | inl n ↦ let impossible : false ≡ true = rw (n, fits) at h in cc
  | inr (ty, e) ↦ (ty, e, rw (e, fits) at h)
]

-- An operator that is implemented has a type and an instruction.
pub binary_found :
    (op : BinaryOp) (t : BuiltinType)
    → implemented op t ≡ true
    → (ty : LlvmType) × (get_llvm_type (builtin t) ≡ some ty)
      × ((τ : IrType) × (binary_type op (some (builtin t)) ≡ some τ)
          × Chosen τ (binary_instruction op ty ty) ty (more_operands op ty))
binary_found op t h =
    let fit =
      implies (implemented op t) (binary_fits op t)
        (holds_of_every_type→one (λ t. not (implemented op t) || binary_fits op t)
          (implemented_fits_all op) t)
        h in
    let (ty, e, k) = fits_at t _ fit in (ty, e, yields→Chosen _ _ ty _ k)

-- So has the negation of a number.
pub negation_found :
    (t : BuiltinType)
    → is_number t ≡ true
    → (ty : LlvmType) × (get_llvm_type (builtin t) ≡ some ty)
      × ((τ : IrType) × (some (builtin t) ≡ some τ)
          × Chosen τ (unary_instruction UnaryOp.negate ty) ty [])
unfolding unary_fits
negation_found t h =
    let fit =
      implies (is_number t) (unary_fits t)
        (holds_of_every_type→one (λ t. not (is_number t) || unary_fits t) number_fits_all t) h in
    let (ty, e, k) = fits_at t _ fit in (ty, e, yields→Chosen _ _ ty _ k)

same_or_cast :
    (t : IrType) (from to : LlvmType)
    → llvm_eq from to || yields (some t) (cast_instruction from to) from [] ≡ true
    → (from ≡ to) ⊎ ((llvm_eq from to ≡ false) × Chosen t (cast_instruction from to) from [])
same_or_cast t from to h = elim (Bool-cases (llvm_eq from to)) [
  | inl same ↦ inl (llvm_eq→eq from to same)
  | inr other ↦
      let (τ, e, chosen) =
        yields→Chosen (some t) (cast_instruction from to) from [] (rw (other, ◌||◌) at h) in
      let back : τ ≡ t = cc in
      inr (other, subst (λ x. Chosen x (cast_instruction from to) from []) back chosen)
]

-- A cast between such types is between LLVM types that are the same or have an instruction.
pub cast_found :
    (s t : BuiltinType)
    → castable s t ≡ true
    → (from : LlvmType) × (get_llvm_type (builtin s) ≡ some from)
      × ((to : LlvmType) × (get_llvm_type (builtin t) ≡ some to)
          × ((from ≡ to)
              ⊎ ((llvm_eq from to ≡ false)
                  × Chosen (builtin t) (cast_instruction from to) from [])))
unfolding cast_fits
cast_found s t h =
    let fit =
      implies (castable s t) (cast_fits s t)
        (holds_of_every_type→one (λ t. not (castable s t) || cast_fits s t)
          (holds_of_every_type→one
            (λ s. holds_of_every_type (λ t. not (castable s t) || cast_fits s t)) castable_fits_all
            s)
          t)
        h in
    let (from, e, k) = fits_at s _ fit in
    let (to, e', k') = fits_at t _ k in (from, e, (to, e', same_or_cast (builtin t) from to k'))

abbrev scalar : BuiltinType → Bool
scalar t = is_number t || builtin_eq t BuiltinType.string

-- A number or a text has an LLVM type.
pub scalar_known :
    (t : BuiltinType)
    → is_number t || builtin_eq t BuiltinType.string ≡ true
    → (ty : LlvmType) × (get_llvm_type (builtin t) ≡ some ty)
scalar_known t h =
    let fit =
      implies (scalar t) (fits t (λ ty. true))
        (holds_of_every_type→one (λ t. not (scalar t) || fits t (λ ty. true)) scalar_fits_all t)
        h in
    let (ty, e, k) = fits_at t _ fit in (ty, e)

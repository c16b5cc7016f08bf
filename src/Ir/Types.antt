-- ===== src/Ir/Types.antt =====
-- odb-compiler/src/ir/Node.cpp: `BuiltinType` and `Type`.
use open_dark_basic.Prelude.{
  ℕ, zero, suc, ◌≡◌, refl, ap, sym, subst, ◌∙◌, Bool, true, false, ◌&&◌, ◌||◌, List, [], ◌∷◌,
  get_or, ◌==◌, ==_iff, ==_self,
}

-- The types of `ODB_DATATYPE_LIST`.
pub data BuiltinType : Type 0 where
  double_integer integer dword word byte boolean double_float float string : BuiltinType
  complex mat2x2 mat2x3 mat2x4 mat3x2 mat3x3 mat3x4 mat4x2 mat4x3 mat4x4 : BuiltinType
  quat vec2 vec3 vec4 : BuiltinType

-- The number of an enumerator.
abbrev pub builtin_number : BuiltinType → ℕ
builtin_number double_integer = 0
builtin_number integer = 1
builtin_number dword = 2
builtin_number word = 3
builtin_number byte = 4
builtin_number boolean = 5
builtin_number double_float = 6
builtin_number float = 7
builtin_number string = 8
builtin_number complex = 9
builtin_number mat2x2 = 10
builtin_number mat2x3 = 11
builtin_number mat2x4 = 12
builtin_number mat3x2 = 13
builtin_number mat3x3 = 14
builtin_number mat3x4 = 15
builtin_number mat4x2 = 16
builtin_number mat4x3 = 17
builtin_number mat4x4 = 18
builtin_number quat = 19
builtin_number vec2 = 20
builtin_number vec3 = 21
builtin_number vec4 = 22

abbrev pub builtin_eq : BuiltinType → BuiltinType → Bool
builtin_eq a b = builtin_number a == builtin_number b

-- `isIntegralType`.
unfoldable pub is_integral_type : BuiltinType → Bool
is_integral_type t =
    builtin_eq t double_integer
    || builtin_eq t integer
    || builtin_eq t dword
    || builtin_eq t word
    || builtin_eq t byte
    || builtin_eq t boolean

-- `isFloatingPointType`.
unfoldable pub is_floating_point_type : BuiltinType → Bool
is_floating_point_type t = builtin_eq t double_float || builtin_eq t float

-- `Type`; a type of the user is known by a number.
pub data IrType : Type 0 where
  void : IrType
  udt : ℕ → IrType
  builtin : BuiltinType → IrType

-- `Type::operator==`, for which no type of the user is equal to any.
unfoldable pub type_eq : IrType → IrType → Bool
type_eq void void = true
type_eq (udt a) (udt b) = false
type_eq (builtin a) (builtin b) = builtin_eq a b
type_eq _ _ = false

pub and_both : (a b : Bool) → a && b ≡ true → (a ≡ true) × (b ≡ true)
and_both true b h = (refl, h)
and_both false b h = cc

abbrev builtin_types : List BuiltinType
builtin_types =
    double_integer ∷ integer ∷ dword ∷ word ∷ byte ∷ boolean ∷ double_float ∷ float ∷ string
    ∷ complex ∷ mat2x2 ∷ mat2x3 ∷ mat2x4 ∷ mat3x2 ∷ mat3x3 ∷ mat3x4 ∷ mat4x2 ∷ mat4x3 ∷ mat4x4
    ∷ quat ∷ vec2 ∷ vec3 ∷ []

abbrev builtin_of : ℕ → BuiltinType
builtin_of n = get_or builtin_types n vec4

builtin_of-number : (t : BuiltinType) → builtin_of (builtin_number t) ≡ t
builtin_of-number double_integer = refl
builtin_of-number _ = refl

-- A test of every type.
abbrev holds_of_all : (BuiltinType → Bool) → List BuiltinType → Bool
holds_of_all p [] = true
holds_of_all p (t ∷ ts) = p t && holds_of_all p ts

abbrev pub holds_of_every_type : (BuiltinType → Bool) → Bool
holds_of_every_type p = p vec4 && holds_of_all p builtin_types

holds_of_all-get_or :
    (p : BuiltinType → Bool) (ts : List BuiltinType) (n : ℕ) (d : BuiltinType)
    → holds_of_all p ts ≡ true
    → p d ≡ true
    → p (get_or ts n d) ≡ true
holds_of_all-get_or p [] n d h e = e
holds_of_all-get_or p (t ∷ ts) zero d h e = (and_both _ _ h).0
holds_of_all-get_or p (t ∷ ts) (suc n) d h e = holds_of_all-get_or p ts n d (and_both _ _ h).1 e

pub holds_of_every_type→one :
    (p : BuiltinType → Bool) → holds_of_every_type p ≡ true → (t : BuiltinType) → p t ≡ true
holds_of_every_type→one p h t =
    let (v, all) = and_both (p vec4) (holds_of_all p builtin_types) h in
    subst (λ s. p s ≡ true) (builtin_of-number t)
      (holds_of_all-get_or p builtin_types (builtin_number t) vec4 all v)

pub builtin_eq→eq : (a b : BuiltinType) → builtin_eq a b ≡ true → a ≡ b
builtin_eq→eq a b h =
    sym (builtin_of-number a)
    ∙ ap builtin_of ((==_iff (builtin_number a) (builtin_number b)).0 h)
    ∙ builtin_of-number b

-- Types that `==` says are equal are the same.
pub type_eq→eq : (s t : IrType) → type_eq s t ≡ true → s ≡ t
unfolding type_eq
type_eq→eq void void h = refl
type_eq→eq (builtin a) (builtin b) h = ap builtin (builtin_eq→eq a b h)
type_eq→eq void (udt b) h = cc
type_eq→eq void (builtin b) h = cc
type_eq→eq (udt a) void h = cc
type_eq→eq (udt a) (udt b) h = cc
type_eq→eq (udt a) (builtin b) h = cc
type_eq→eq (builtin a) void h = cc
type_eq→eq (builtin a) (udt b) h = cc

pub type_eq_self : (t : BuiltinType) → type_eq (builtin t) (builtin t) ≡ true
unfolding type_eq
type_eq_self t = ==_self (builtin_number t)

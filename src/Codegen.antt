-- ===== src/Codegen.antt =====
-- odb-compiler/src/ir/codegen/CodeGenerator.cpp and CodeGenerator.hpp: the types, the symbol tables
-- and the calls of the instruction builder. LLVM is a parameter (`Builder`), with what it documents
-- as `Documented`; `TypedThunks` is what the engine interfaces of the repository keep to.
mod Emit
mod Generable
mod Fits
mod Ready
mod Typed
mod Doubles
mod Storage
mod Tests
use open_dark_basic.Prelude.{
  ℕ, ◌+◌, ◌-◌, ◌≡◌, Bool, true, false, ◌&&◌, ◌==◌, leb, if◌then◌else◌, Option, some, none, List, [],
  ◌∷◌, ◌++◌, Bytes, map,
}
use open_dark_basic.Commands.Command.{CommandType, Command, Arg}
use open_dark_basic.Commands.Index.{text_eq}
use open_dark_basic.Str.{char_to_lower}
use open_dark_basic.Ir.{Variable, names}
use open_dark_basic.Ir.Types.{IrType, BuiltinType}

-- The LLVM types that the generator asks for: integers by their width. `null` is the null pointer,
-- which stands for a type of the user, `text_ptr` the type of the storage of a text, a pointer to an
-- array of bytes.
pub data LlvmType : Type 0 where
  integer : ℕ → LlvmType
  float double int8_ptr text_ptr void null : LlvmType

-- LLVM keeps one object for each type of a context, so `==` of pointers compares types.
abbrev pub llvm_eq : LlvmType → LlvmType → Bool
llvm_eq (LlvmType.integer m) (LlvmType.integer n) = m == n
llvm_eq LlvmType.float LlvmType.float = true
llvm_eq LlvmType.double LlvmType.double = true
llvm_eq LlvmType.int8_ptr LlvmType.int8_ptr = true
llvm_eq LlvmType.text_ptr LlvmType.text_ptr = true
llvm_eq LlvmType.void LlvmType.void = true
llvm_eq LlvmType.null LlvmType.null = true
llvm_eq _ _ = false

abbrev pub is_integer_ty : LlvmType → Bool
is_integer_ty (LlvmType.integer n) = true
is_integer_ty _ = false

abbrev pub is_float_ty : LlvmType → Bool
is_float_ty LlvmType.float = true
is_float_ty _ = false

abbrev pub is_floating_point_ty : LlvmType → Bool
is_floating_point_ty LlvmType.float = true
is_floating_point_ty LlvmType.double = true
is_floating_point_ty _ = false

-- `getLLVMType` of a command's type; `none` is `std::terminate`.
unfoldable pub command_llvm_type : CommandType → Option LlvmType
command_llvm_type CommandType.integer = some (LlvmType.integer 32)
command_llvm_type CommandType.float = some LlvmType.float
command_llvm_type CommandType.string = some LlvmType.int8_ptr
command_llvm_type CommandType.double = some LlvmType.double
command_llvm_type CommandType.long = some (LlvmType.integer 64)
command_llvm_type CommandType.dword = some (LlvmType.integer 32)
command_llvm_type CommandType.void = some LlvmType.void
command_llvm_type (CommandType.unlisted c) = none

-- `getLLVMType` of a type of the program.
unfoldable pub get_llvm_type : IrType → Option LlvmType
get_llvm_type IrType.void = some LlvmType.void
get_llvm_type (IrType.udt n) = some LlvmType.null
get_llvm_type (IrType.builtin BuiltinType.boolean) = some (LlvmType.integer 1)
get_llvm_type (IrType.builtin BuiltinType.integer) = some (LlvmType.integer 32)
get_llvm_type (IrType.builtin BuiltinType.double_integer) = some (LlvmType.integer 64)
get_llvm_type (IrType.builtin BuiltinType.dword) = some (LlvmType.integer 32)
get_llvm_type (IrType.builtin BuiltinType.word) = some (LlvmType.integer 16)
get_llvm_type (IrType.builtin BuiltinType.byte) = some (LlvmType.integer 8)
get_llvm_type (IrType.builtin BuiltinType.float) = some LlvmType.float
get_llvm_type (IrType.builtin BuiltinType.double_float) = some LlvmType.double
get_llvm_type (IrType.builtin BuiltinType.string) = some LlvmType.int8_ptr
get_llvm_type (IrType.builtin t) = none

pub data Compare : Type 0 where
  less_than less_equal greater_than greater_equal equal not_equal : Compare

-- The calls of the builder that make a value of values. The comparisons of integers are signed, those
-- of floats ordered.
pub data Instruction : Type 0 where
  neg fneg add fadd sub fsub mul fmul sdiv fdiv srem frem shl ashr or and xor not : Instruction
  icmp fcmp : Compare → Instruction
  int_cast fp_cast si_to_fp fp_to_si bit_cast : LlvmType → Instruction

-- What the generator calls: values and functions of LLVM (a function's type is those of its parameters
-- and its result), the module with the builder's place in it,
-- and the engine interface's `generateCommandCall`, which is given the name and the type of the function.
pub record Builder : Type 1 where
  pub Value : Type 0
  pub Function : Type 0
  pub Module : Type 0
  pub type_of : Value → LlvmType
  pub pointee : Value → LlvmType
  pub function_type : Function → List LlvmType × LlvmType
  pub emit : Instruction → List Value → Module → Value × Module
  pub create_load : Value → Module → Value × Module
  pub create_alloca : LlvmType → Bytes → Module → Value × Module
  pub create_store : Value → Value → Module → Module
  pub create_call : Function → List Value → Module → Value × Module
  pub constant_int : LlvmType → ℕ → Value
  pub constant_fp : LlvmType → ℕ → Value
  pub global_string_ptr : Bytes → Module → Value × Module
  pub global_string : ℕ → Module → Value × Module
  pub generate_command_call :
      Command → Bytes → List LlvmType → LlvmType → Module → Function × Module

-- The type of an instruction's result, by that of its first operand.
abbrev pub result_type : Instruction → LlvmType → LlvmType
result_type (icmp c) t = LlvmType.integer 1
result_type (fcmp c) t = LlvmType.integer 1
result_type (int_cast to) t = to
result_type (fp_cast to) t = to
result_type (si_to_fp to) t = to
result_type (fp_to_si to) t = to
result_type (bit_cast to) t = to
result_type _ t = t

abbrev both_of : (LlvmType → Bool) → List LlvmType → Bool
both_of p (s ∷ t ∷ []) = p s && llvm_eq s t
both_of p _ = false

abbrev one_of : (LlvmType → Bool) → List LlvmType → Bool
one_of p (t ∷ []) = p t
one_of p _ = false

-- The types of the operands that an instruction takes: one, or two of one type.
abbrev pub accepts : Instruction → List LlvmType → Bool
accepts neg ts = one_of is_integer_ty ts
accepts fneg ts = one_of is_floating_point_ty ts
accepts not ts = one_of is_integer_ty ts
accepts fadd ts = both_of is_floating_point_ty ts
accepts fsub ts = both_of is_floating_point_ty ts
accepts fmul ts = both_of is_floating_point_ty ts
accepts fdiv ts = both_of is_floating_point_ty ts
accepts frem ts = both_of is_floating_point_ty ts
accepts (fcmp c) ts = both_of is_floating_point_ty ts
accepts (int_cast to) ts = one_of is_integer_ty ts && is_integer_ty to
accepts (fp_cast to) ts = one_of is_floating_point_ty ts && is_floating_point_ty to
accepts (si_to_fp to) ts = one_of is_integer_ty ts && is_floating_point_ty to
accepts (fp_to_si to) ts = one_of is_floating_point_ty ts && is_integer_ty to
accepts (bit_cast to) ts = one_of (llvm_eq LlvmType.text_ptr) ts && llvm_eq to LlvmType.int8_ptr
accepts i ts = both_of is_integer_ty ts

-- What LLVM documents of the types of values, where operands and arguments have the types asked for.
pub record Documented (b : Builder) : Type 0 where
  pub emit_type :
      (i : Instruction) (x : b.Value) (xs : List b.Value) (m : b.Module)
      → accepts i (map b.type_of (x ∷ xs)) ≡ true
      → b.type_of (b.emit i (x ∷ xs) m).0 ≡ result_type i (b.type_of x)
  pub load_type : (x : b.Value) (m : b.Module) → b.type_of (b.create_load x m).0 ≡ b.pointee x
  pub alloca_pointee :
      (t : LlvmType) (name : Bytes) (m : b.Module) → b.pointee (b.create_alloca t name m).0 ≡ t
  pub call_type :
      (f : b.Function) (xs : List b.Value) (m : b.Module)
      → map b.type_of xs ≡ (b.function_type f).0
      → b.type_of (b.create_call f xs m).0 ≡ (b.function_type f).1
  pub constant_int_type : (t : LlvmType) (n : ℕ) → b.type_of (b.constant_int t n) ≡ t
  pub constant_fp_type : (t : LlvmType) (n : ℕ) → b.type_of (b.constant_fp t n) ≡ t
  pub global_string_type :
      (text : ℕ) (m : b.Module) → b.type_of (b.global_string text m).0 ≡ LlvmType.text_ptr

-- The engine interfaces create the function of the type that they are given, as
-- odb-compiler/src/ir/codegen/TGCEngineInterface.cpp and ODBEngineInterface.cpp do.
pub record TypedThunks (b : Builder) : Type 0 where
  pub thunk_type :
      (c : Command) (name : Bytes) (args : List LlvmType) (t : LlvmType) (m : b.Module)
      → b.function_type (b.generate_command_call c name args t m).0 ≡ (args, t)

-- A step of the generator; `none` is a fatal error, a failed assertion or the use of a null pointer.
abbrev pub Gen : Type 0 → Type 0 → Type 0
Gen S A = S → Option (A × S)

infixl 5 ◌>>=◌
abbrev pub ◌>>=◌ : {S A B : Type 0} → Gen S A → (A → Gen S B) → Gen S B
◌>>=◌ first rest s = elim (first s) [ none ↦ none | some (a, t) ↦ rest a t ]

abbrev pub pure : {S A : Type 0} → A → Gen S A
pure a s = some (a, s)

abbrev pub demand : {S A : Type 0} → Option A → Gen S A
demand none s = none
demand (some a) s = some (a, s)

-- The first entry of a table whose key passes a test; `emplace` leaves an entry that is there.
pub find_entry : {K V : Type 0} → (K → Bool) → List (K × V) → Option V
find_entry test [] = none
find_entry test ((key, value) ∷ entries) = if test key then some value else find_entry test entries

-- `SymbolTable` and `GlobalSymbolTable`, with the module. A function of the program is known by its
-- name, a text by its number.
pub record Symbols (b : Builder) : Type 0 where
  pub module_ : b.Module
  pub variable_table : List (Variable × b.Value)
  pub string_literal_table : List (ℕ × b.Value)
  pub command_thunks : List (Bytes × b.Function)
  pub function_definitions : List (Bytes × b.Function)

-- `std::toupper` in the "C" locale.
unfoldable pub char_to_upper : ℕ → ℕ
char_to_upper c = if leb 97 c && leb c 122 then c - 32 else c

-- The name of a command in upper camel case; `first` says whether this is its first byte.
unfoldable pub upper_camel_case : Bool → Bytes → Bytes
upper_camel_case first [] = []
upper_camel_case first (c ∷ []) = (if first then char_to_upper c else char_to_lower c) ∷ []
upper_camel_case first (c ∷ d ∷ rest) =
    let skipped = upper_camel_case false rest in
    let kept = upper_camel_case false (d ∷ rest) in
    if c == 32
    then char_to_upper d ∷ skipped
    else (if first then char_to_upper c else char_to_lower c) ∷ kept

-- The types of a command's arguments.
unfoldable pub argument_llvm_types : List Arg → Option (List LlvmType)
argument_llvm_types [] = some []
argument_llvm_types (a ∷ args) = elim (command_llvm_type a.type) [
  | none ↦ none
  | some t ↦ elim (argument_llvm_types args) [ none ↦ none | some types ↦ some (t ∷ types) ]
]

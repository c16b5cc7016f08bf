-- ===== src/Commands/Command.antt =====
-- odb-compiler/include/odb-compiler/commands/Command.hpp: a command and its types.
use open_dark_basic.Prelude.{ℕ, ◌≡◌, refl, Bool, true, false, List, Bytes, arith, ◌==◌, ==_iff}

-- `Command::Type`. The enumeration is a `char`, and the loader for DBP plugins casts any character
-- to it: one that the enumeration does not list is `unlisted`.
pub data CommandType : Type 0 where
  integer float string double long dword void : CommandType
  unlisted : ℕ → CommandType

-- `==` of the enumeration.
abbrev pub type_eq : CommandType → CommandType → Bool
type_eq integer integer = true
type_eq float float = true
type_eq string string = true
type_eq double double = true
type_eq long long = true
type_eq dword dword = true
type_eq void void = true
type_eq (unlisted c) (unlisted d) = c == d
type_eq _ _ = false

pub type_eq→eq : (a b : CommandType) → type_eq a b ≡ true → a ≡ b
type_eq→eq integer b h = ground arith
type_eq→eq a b h = ground arith

pub type_eq_self : (a : CommandType) → type_eq a a ≡ true
type_eq_self (unlisted c) = (==_iff c c).1 refl
type_eq_self _ = refl

pub record Arg : Type 0 where
  pub type : CommandType
  pub sym_name : Bytes
  pub description : Bytes

-- The library that a command comes from is known by a number; two commands of one library have one
-- number.
pub record Command : Type 0 where
  pub library : ℕ
  pub db_symbol : Bytes
  pub cpp_symbol : Bytes
  pub help_file : Bytes
  pub args : List Arg
  pub return_type : CommandType

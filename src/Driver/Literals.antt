-- ===== src/Driver/Literals.antt =====
-- odb-compiler/src/parsers/db/Driver.cpp: the literals made from integers. `DoubleInteger`, `Dword`,
-- `Integer`, `Word` and `Byte` are of 64, 32, 32, 16 and 8 bits.
use open_dark_basic.Prelude.{ℕ, ◌-◌, ◌%◌, ◌≡◌, ◌≤◌, ltb, if◌then◌else◌, arith}
use open_dark_basic.Prelude.Int.{ℤ, pos, negsuc, ◌≤ℤ◌, ltb_ℤ}

-- The literals that stand for integers.
pub data Literal : Type 0 where
  double_integer_literal : ℤ → Literal
  dword_literal : ℕ → Literal
  integer_literal : ℤ → Literal
  word_literal : ℕ → Literal
  byte_literal : ℕ → Literal

-- The conversion to an unsigned integer that has `m` values.
unfoldable pub to_unsigned : ℕ → ℤ → ℕ
to_unsigned m (pos n) = n % m
to_unsigned m (negsuc n) = m - 1 - n % m

-- The conversion to `int32_t`.
unfoldable pub to_int32 : ℤ → ℤ
unfolding to_unsigned
to_int32 z =
    let u = to_unsigned 4294967296 z in if ltb u 2147483648 then pos u else negsuc (4294967295 - u)

-- `newIntLikeLiteral`.
unfoldable pub new_int_like_literal : ℤ → Literal
unfolding to_int32
new_int_like_literal value =
    if ltb_ℤ value (pos 0)
    then if ltb_ℤ value (negsuc 2147483647)
      then double_integer_literal value
      else integer_literal (to_int32 value)
    else if ltb_ℤ (pos 4294967295) value
    then double_integer_literal value
    else if ltb_ℤ (pos 2147483647) value
    then dword_literal (to_unsigned 4294967296 value)
    else if ltb_ℤ (pos 65535) value
    then integer_literal (to_int32 value)
    else if ltb_ℤ (pos 255) value
    then word_literal (to_unsigned 65536 value)
    else byte_literal (to_unsigned 256 value)

-- The types of these literals, from the one preferred to the one that takes all.
pub data IntType : Type 0 where
  byte word integer dword double_integer : IntType

abbrev pub type_of : Literal → IntType
type_of (double_integer_literal z) = double_integer
type_of (dword_literal n) = dword
type_of (integer_literal z) = integer
type_of (word_literal n) = word
type_of (byte_literal n) = byte

abbrev pub value_of : Literal → ℤ
value_of (double_integer_literal z) = z
value_of (dword_literal n) = pos n
value_of (integer_literal z) = z
value_of (word_literal n) = pos n
value_of (byte_literal n) = pos n

-- The values of a type.
abbrev pub Fits : IntType → ℤ → Type 0
Fits byte z = (pos 0 ≤ℤ z) × (z ≤ℤ pos 255)
Fits word z = (pos 0 ≤ℤ z) × (z ≤ℤ pos 65535)
Fits integer z = (negsuc 2147483647 ≤ℤ z) × (z ≤ℤ pos 2147483647)
Fits dword z = (pos 0 ≤ℤ z) × (z ≤ℤ pos 4294967295)
Fits double_integer z = (negsuc 9223372036854775807 ≤ℤ z) × (z ≤ℤ pos 9223372036854775807)

abbrev pub rank : IntType → ℕ
rank byte = 0
rank word = 1
rank integer = 2
rank dword = 3
rank double_integer = 4

value_pos : (n : ℕ) → value_of (new_int_like_literal (pos n)) ≡ pos n
unfolding new_int_like_literal to_unsigned to_int32
value_pos n = ground arith

value_negsuc : (n : ℕ) → value_of (new_int_like_literal (negsuc n)) ≡ negsuc n
unfolding new_int_like_literal to_unsigned to_int32
value_negsuc n = ground arith

-- The literal that is made has the value it is made from, of 64 bits.
pub value_of-new_int_like_literal : (z : ℤ) → value_of (new_int_like_literal z) ≡ z
value_of-new_int_like_literal (pos n) = value_pos n
value_of-new_int_like_literal (negsuc n) = value_negsuc n

-- And its type is the first, in the order of `IntType`, that has the value.
pub type_of-new_int_like_literal :
    (z : ℤ)
    → Fits double_integer z
    → (let t = type_of (new_int_like_literal z) in
        Fits t z × ((s : IntType) → Fits s z → rank t ≤ rank s))
unfolding new_int_like_literal
type_of-new_int_like_literal (pos n) h = (ground arith, λ s f. ground arith)
type_of-new_int_like_literal (negsuc n) h = (ground arith, λ s f. ground arith)

-- ===== src/Str/Case.antt =====
-- odb-sdk/src/Str.cpp: case folding and the comparison `strncicmp`.
use open_dark_basic.Prelude.{
  ℕ, zero, suc, ◌≡◌, ◌≢◌, ◌↔◌, refl, ap, [], ◌∷◌, Bytes, arith, length, take, All,
}
use open_dark_basic.Prelude.Int.{pos}
use open_dark_basic.Str.{char_to_lower, to_lower, strncicmp}

pub char_to_lower_idem : (c : ℕ) → char_to_lower (char_to_lower c) ≡ char_to_lower c
unfolding char_to_lower
char_to_lower_idem c = ground arith

pub char_to_lower_zero : (c : ℕ) → (char_to_lower c ≡ 0) ↔ (c ≡ 0)
unfolding char_to_lower
char_to_lower_zero c = ground arith

-- A text with no NUL byte, as a C string has it.
abbrev pub IsCStr : Bytes → Type 0
IsCStr = All (λ c. c ≢ 0)

pub to_lower_idem : (s : Bytes) → to_lower (to_lower s) ≡ to_lower s
unfolding to_lower
to_lower_idem [] = refl
to_lower_idem (c ∷ s) = cc (char_to_lower_idem c, to_lower_idem s)

pub length-to_lower : (s : Bytes) → length (to_lower s) ≡ length s
unfolding to_lower
length-to_lower [] = refl
length-to_lower (c ∷ s) = ap suc (length-to_lower s)

strncicmp→same :
    (a b : Bytes) (n : ℕ)
    → IsCStr a
    → IsCStr b
    → strncicmp a b n ≡ pos 0
    → take n (to_lower a) ≡ take n (to_lower b)
unfolding strncicmp to_lower
strncicmp→same a b zero ha hb e = refl
strncicmp→same [] [] (suc n) ha hb e = refl
strncicmp→same [] (y ∷ b) (suc n) ha hb e =
    ground (arith, char_to_lower_zero y, char_to_lower_zero 0)
strncicmp→same (x ∷ a) [] (suc n) ha hb e =
    ground (arith, char_to_lower_zero x, char_to_lower_zero 0)
strncicmp→same (x ∷ a) (y ∷ b) (suc n) ha hb e = ground (arith, strncicmp→same a b n ha.1 hb.1)

same→strncicmp :
    (a b : Bytes) (n : ℕ)
    → IsCStr a
    → IsCStr b
    → take n (to_lower a) ≡ take n (to_lower b)
    → strncicmp a b n ≡ pos 0
unfolding strncicmp to_lower
same→strncicmp a b zero ha hb e = refl
same→strncicmp [] [] (suc n) ha hb e = ground (arith)
same→strncicmp [] (y ∷ b) (suc n) ha hb e = cc
same→strncicmp (x ∷ a) [] (suc n) ha hb e = cc
same→strncicmp (x ∷ a) (y ∷ b) (suc n) ha hb e = ground (arith, same→strncicmp a b n ha.1 hb.1)

-- `strncicmp` gives 0 on two texts without a NUL byte exactly when their first `n` bytes are the
-- same up to case.
pub strncicmp_iff :
    (a b : Bytes) (n : ℕ)
    → IsCStr a
    → IsCStr b
    → (strncicmp a b n ≡ pos 0) ↔ (take n (to_lower a) ≡ take n (to_lower b))
strncicmp_iff a b n ha hb = (strncicmp→same a b n ha hb, same→strncicmp a b n ha hb)

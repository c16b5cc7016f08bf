-- ===== src/Commands/Loader/Signature.antt =====
-- odb-compiler/src/commands/ODBCommandLoader.cpp: which texts parseTypeinfoString accepts.
use open_dark_basic.Prelude.{
  ℕ, suc, ◌≤◌, ◌<◌, ◌≡◌, ◌↔◌, ◌⊎◌, refl, sym, ap, ◌∙◌, subst, true, false, List, [], ◌∷◌, ◌++◌, map,
  Bytes, All, length, ◌==◌, if◌then◌else◌, ltb, lt→ltb, Bool-cases, inl, inr, ==_iff, arith,
}
use open_dark_basic.Commands.Command.{
  CommandType, Arg, integer, float, string, double, long, dword, void, unlisted,
}
use open_dark_basic.Commands.Loader.{
  parsed, rejected, undefined, type_of_char, type_exists, arg_of_char, parse_args, head_of, tail_of,
  parse_typeinfo_string,
}

-- The character of a type.
abbrev pub char_of : CommandType → ℕ
char_of integer = b'L'
char_of float = b'F'
char_of string = b'S'
char_of double = b'O'
char_of long = b'R'
char_of dword = b'D'
char_of void = b'0'
char_of (unlisted c) = c

abbrev pub Exists : CommandType → Type 0
Exists t = type_exists t ≡ true

-- An argument of the type, without a name.
abbrev pub plain : CommandType → Arg
plain t = record { type = t; sym_name = []; description = [] }

-- The text gives the types of the result and of the arguments, in the form `L(SF)`, and may go on
-- behind that.
pub record IsTypeinfo (info : Bytes) (ret : CommandType) (ts : List CommandType) : Type 0 where
  pub listed : Exists ret
  pub all_listed : All Exists ts
  pub rest : Bytes
  pub spelled : info ≡ char_of ret ∷ b'(' ∷ (map char_of ts ++ b')' ∷ rest)

type_of_char-char_of : (t : CommandType) → Exists t → type_of_char (char_of t) ≡ t
unfolding type_of_char type_exists
type_of_char-char_of (unlisted c) h = cc
type_of_char-char_of integer h = refl
type_of_char-char_of float h = refl
type_of_char-char_of string h = refl
type_of_char-char_of double h = refl
type_of_char-char_of long h = refl
type_of_char-char_of dword h = refl
type_of_char-char_of void h = refl

char_of-type_of_char : (c : ℕ) → Exists (type_of_char c) → char_of (type_of_char c) ≡ c
unfolding type_of_char type_exists
char_of-type_of_char c h = ground arith

-- No type's character ends the text or the arguments.
char_of_bounds :
    (t : CommandType) → Exists t → ((char_of t == 0) ≡ false) × ((char_of t == b')') ≡ false)
unfolding type_exists
char_of_bounds (unlisted c) h = cc
char_of_bounds t h = (refl, refl)

-- Behind the first argument.
after_one :
    (ret r : CommandType) (a : Arg) (args : List Arg) (cs : Bytes)
    → parse_args ret (a ∷ []) cs ≡ parsed r args
    → (cs ≡ b')' ∷ tail_of cs) × (args ≡ a ∷ []) × (r ≡ ret)
unfolding parse_args
after_one ret r a args [] e = cc
after_one ret r a args (c ∷ cs) e = ground (arith, ==_iff c b')')

no : {r : CommandType} {args : List Arg} → rejected ≡ parsed r args → ⊥
no e = cc

first_arg :
    (ret r : CommandType) (args : List Arg) (c : ℕ) (cs : Bytes)
    → parse_args ret [] (c ∷ cs) ≡ parsed r args
    → ((c ≡ b')') × (args ≡ []) × (r ≡ ret))
      ⊎ (Exists (type_of_char c) × (parse_args ret (arg_of_char c ∷ []) cs ≡ parsed r args))
unfolding parse_args
first_arg ret r args c cs e = elim (Bool-cases (c == 0)) [
  | inl t ↦ absurd (no (rw t at e))
  | inr t ↦ elim (Bool-cases (c == b')')) [
    | inl s ↦ let f = rw s at (rw t at e) in inl ((==_iff c b')').0 s, cc, cc)
    | inr s ↦ elim (Bool-cases (type_exists (type_of_char c))) [
      | inl x ↦ inr (x, rw x at (rw s at (rw t at e)))
      | inr x ↦ absurd (no (rw x at (rw s at (rw t at e))))
    ]
  ]
]

head_exists :
    (r : CommandType) (args : List Arg) (info : Bytes)
    → parse_typeinfo_string info ≡ parsed r args
    → Exists (type_of_char (head_of info))
      × (head_of (tail_of info) ≡ b'(')
      × (parse_args (type_of_char (head_of info)) [] (tail_of (tail_of info)) ≡ parsed r args)
unfolding parse_typeinfo_string
head_exists r args info e = elim (Bool-cases (type_exists (type_of_char (head_of info)))) [
  | inl x ↦ elim (Bool-cases (head_of (tail_of info) == b'(')) [
    | inl s ↦ (x, (==_iff _ _).0 s, rw s at (rw x at e))
    | inr s ↦ absurd (no (rw s at (rw x at e)))
  ]
  | inr x ↦ absurd (no (rw x at e))
]

-- The two ways in which the arguments end.
args_spelled :
    (ret r : CommandType) (args : List Arg) (cs : Bytes)
    → parse_args ret [] cs ≡ parsed r args
    → (r ≡ ret)
      × (ts : List CommandType) × All Exists ts
      × (length ts ≤ 1)
      × (args ≡ map plain ts)
      × (rest : Bytes) × (cs ≡ map char_of ts ++ b')' ∷ rest)
unfolding parse_args arg_of_char
args_spelled ret r args [] e = absurd (no e)
args_spelled ret r args (c ∷ cs) e = elim (first_arg ret r args c cs e) [
  | inl (s, a, b) ↦ (b, [], tt, omega arith, a, cs, cc)
  | inr (x, more) ↦
      let (s, a, b) = after_one ret r (arg_of_char c) args cs more in
      let k = char_of-type_of_char c x in
      (b, type_of_char c ∷ [], (x, tt), omega arith, a, tail_of cs, cc (s, k))
]

types-plain : (ts : List CommandType) → map (λ a. a.type) (map plain ts) ≡ ts
types-plain [] = refl
types-plain (t ∷ ts) = ap (λ l. t ∷ l) (types-plain ts)

two_heads :
    (info : Bytes)
    → head_of (tail_of info) ≡ b'('
    → info ≡ head_of info ∷ b'(' ∷ tail_of (tail_of info)
two_heads [] e = absurd (omega (arith, e))
two_heads (c ∷ []) e = absurd (omega (arith, e))
two_heads (c ∷ d ∷ cs) e = rw (← e) refl

accepted :
    (info : Bytes) (ret : CommandType) (ts : List CommandType)
    → parse_typeinfo_string info ≡ parsed ret (map plain ts)
    → IsTypeinfo info ret ts × (length ts ≤ 1)
accepted info ret ts e =
    let (x, open_, run) = head_exists ret (map plain ts) info e in
    let (same, us, all, short, args, rest, cs) =
      args_spelled (type_of_char (head_of info)) ret (map plain ts) (tail_of (tail_of info)) run in
    let us_ts : us ≡ ts =
      sym (types-plain us) ∙ ap (map (λ a. a.type)) (sym args) ∙ types-plain ts in
    let head : char_of ret ≡ head_of info =
      ap char_of same ∙ char_of-type_of_char (head_of info) x in
    (
      record {
        listed = rw same x;
        all_listed = subst (All Exists) us_ts all;
        rest = rest;
        spelled =
            two_heads info open_
            ∙ ap (λ c. c ∷ b'(' ∷ tail_of (tail_of info)) (sym head)
            ∙ ap (λ l. char_of ret ∷ b'(' ∷ l) (cs ∙ ap (λ l. map char_of l ++ b')' ∷ rest) us_ts);
      },
      subst (λ l. length l ≤ 1) us_ts short,
    )

parse_spelled :
    (ret : CommandType) (cs : Bytes)
    → Exists ret
    → parse_typeinfo_string (char_of ret ∷ b'(' ∷ cs) ≡ parse_args ret [] cs
unfolding parse_typeinfo_string
parse_spelled ret cs x = rw (type_of_char-char_of ret x) (rw x refl)

parse_args_spelled :
    (ret : CommandType) (ts : List CommandType) (rest : Bytes)
    → All Exists ts
    → parse_args ret [] (map char_of ts ++ b')' ∷ rest)
      ≡ (if ltb 1 (length ts) then undefined else parsed ret (map plain ts))
unfolding parse_args arg_of_char
parse_args_spelled ret [] rest x = refl
parse_args_spelled ret (t ∷ []) rest x =
    let (a, b) = char_of_bounds t x.0 in
    rw (a, parse_args) (rw b (rw (type_of_char-char_of t x.0) (rw x.0 refl)))
parse_args_spelled ret (t ∷ u ∷ ts) rest x =
    let (a, b) = char_of_bounds t x.0 in
    let (c, d) = char_of_bounds u x.1.0 in
    let more : ltb 1 (suc (suc (length ts))) ≡ true =
      lt→ltb 1 (suc (suc (length ts))) (omega arith) in
    rw (a, parse_args)
      (rw b (rw (type_of_char-char_of t x.0) (rw x.0 (rw c (rw d (rw more refl))))))

parse_whole :
    (info : Bytes) (ret : CommandType) (ts : List CommandType)
    → IsTypeinfo info ret ts
    → parse_typeinfo_string info
      ≡ (if ltb 1 (length ts) then undefined else parsed ret (map plain ts))
parse_whole info ret ts v =
    ap parse_typeinfo_string v.spelled
    ∙ parse_spelled ret (map char_of ts ++ b')' ∷ v.rest) v.listed
    ∙ parse_args_spelled ret ts v.rest v.all_listed

one_or_none : (n : ℕ) → n ≤ 1 → ltb 1 n ≡ false
one_or_none n h = ground arith

-- parseTypeinfoString accepts a text exactly when it is the character of the result's type, `(`, at
-- most one character of a type and `)`, where the characters are those of types that exist, with
-- whatever behind it; it gives these types. With two characters or more in the brackets the
-- behaviour is undefined.
pub parse_typeinfo_string_iff :
    (info : Bytes) (ret : CommandType) (ts : List CommandType)
    → ((parse_typeinfo_string info ≡ parsed ret (map plain ts))
        ↔ (IsTypeinfo info ret ts × (length ts ≤ 1)))
      × (IsTypeinfo info ret ts → 1 < length ts → parse_typeinfo_string info ≡ undefined)
parse_typeinfo_string_iff info ret ts = (
  (
    accepted info ret ts,
    λ v.
        parse_whole info ret ts v.0
        ∙ ap (λ b. if b then undefined else parsed ret (map plain ts))
            (one_or_none (length ts) v.1),
  ),
  λ v many.
      parse_whole info ret ts v
      ∙ ap (λ b. if b then undefined else parsed ret (map plain ts)) (lt→ltb 1 (length ts) many),
)

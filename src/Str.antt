-- ===== src/Str.antt =====
-- odb-sdk/src/Str.cpp: the text helpers of the SDK. A text is the list of its bytes; a C string
-- ends at the end of its list, where a read gives the terminator 0. `std::tolower` is that of the C
-- locale: it changes the bytes of 'A' to 'Z' alone.
pub mod Case
pub mod Escape
pub mod Split
pub mod Replace
pub mod Wrap
mod Tests
use open_dark_basic.Prelude.{
  ℕ, zero, suc, ◌+◌, ◌-◌, Bool, true, false, ◌&&◌, ◌||◌, not, Option, none, some, List, [], ◌∷◌,
  ◌++◌, map, Bytes, ltb, leb, ◌==◌, if◌then◌else◌, length, take, drop,
}
use open_dark_basic.Prelude.Int.{ℤ, pos, sub_ℕ}
use mathlib.Core.Option

-- `std::tolower` on one byte.
unfoldable pub char_to_lower : ℕ → ℕ
char_to_lower c = if leb b'A' c && leb c b'Z' then c + 32 else c

-- `toLower`: a copy, transformed in place byte by byte.
unfoldable pub to_lower : Bytes → Bytes
to_lower s = map char_to_lower s

-- A read of the byte at the pointer, and the pointer moved on by one.
abbrev pub deref : Bytes → ℕ
deref [] = 0
deref (c ∷ s) = c

abbrev pub advance : Bytes → Bytes
advance [] = []
advance (c ∷ s) = s

abbrev is_zero : ℤ → Bool
is_zero (pos zero) = true
is_zero _ = false

-- `strncicmp`: the difference of the first two bytes that differ when lowered, or 0.
unfoldable pub strncicmp : Bytes → Bytes → ℕ → ℤ
strncicmp a b zero = pos 0
strncicmp a b (suc n) =
    let d = sub_ℕ (char_to_lower (deref a)) (char_to_lower (deref b)) in
    let rest = strncicmp (advance a) (advance b) n in
    if not (is_zero d) || deref a == 0 then d else rest

-- `copy.insert(copy.begin() + i, v)`.
abbrev pub insert_at : Bytes → ℕ → ℕ → Bytes
insert_at xs zero v = v ∷ xs
insert_at [] (suc i) v = v ∷ []
insert_at (x ∷ xs) (suc i) v = x ∷ insert_at xs i v

abbrev backslash : ℕ
backslash = b'\\'

-- Does `escape` put a backslash in front of this byte?
abbrev pub is_escaped : ℕ → Bool
is_escaped c = c == backslash || c == b'"'

-- The loop of `escape` over `s[i]`, with the shift `off` of the copy.
escape_loop : Bytes → ℕ → ℕ → Bytes → Bytes
escape_loop [] i off copy = copy
escape_loop (c ∷ s) i off copy =
    escape_loop s (i + 1) (if is_escaped c then off + 1 else off)
      (if is_escaped c then insert_at copy (i + off) backslash else copy)

unfoldable pub escape : Bytes → Bytes
unfolding escape_loop
escape s = escape_loop s 0 0 s

-- The place of the first `c`.
index_of : ℕ → Bytes → Option ℕ
index_of c [] = none
index_of c (x ∷ s) = if x == c then some 0 else Option.map suc (index_of c s)

-- `str.find(delim, from)`.
find_from : ℕ → Bytes → ℕ → Option ℕ
unfolding index_of
find_from c s from = Option.map (λ i. from + i) (index_of c (drop from s))

-- `str.substr(from, len)`.
abbrev substr : Bytes → ℕ → ℕ → Bytes
substr s from len = take len (drop from s)

-- The loop of `split`: `previous` is where the open piece begins. `none`: the fuel ran out.
split_loop : ℕ → Bytes → ℕ → ℕ → List Bytes → Option (List Bytes)
split_loop zero str delim previous pieces = none
split_loop (suc fuel) str delim previous pieces = elim (find_from delim str previous) [
  | none ↦ some (pieces ++ drop previous str ∷ [])
  | some current ↦
      split_loop fuel str delim (current + 1)
        (pieces ++ substr str previous (current - previous) ∷ [])
]

-- `split` appends the pieces of `str` to `strlist`.
unfoldable pub split : List Bytes → Bytes → ℕ → Option (List Bytes)
unfolding split_loop find_from
split strlist str delim = split_loop (suc (length str)) str delim 0 strlist

-- Does the text begin with `search`?
abbrev pub starts_with : Bytes → Bytes → Bool
starts_with [] s = true
starts_with (c ∷ search) [] = false
starts_with (c ∷ search) (x ∷ s) = x == c && starts_with search s

-- The first place where `search` stands.
index_of_text : Bytes → Bytes → Option ℕ
index_of_text search [] = if starts_with search [] then some 0 else none
index_of_text search (x ∷ s) =
    if starts_with search (x ∷ s) then some 0 else Option.map suc (index_of_text search s)

-- `subject.find(search, from)`, which is `npos` past the end of the subject.
find_text : Bytes → Bytes → ℕ → Option ℕ
unfolding index_of_text
find_text search s from =
    if ltb (length s) from
    then none
    else Option.map (λ i. from + i) (index_of_text search (drop from s))

-- The loop of `replaceAll`. `none`: the fuel ran out.
replace_loop : ℕ → Bytes → Bytes → Bytes → ℕ → Option Bytes
replace_loop zero subject search by from = none
replace_loop (suc fuel) subject search by from = elim (find_text search subject from) [
  | none ↦ some subject
  | some i ↦
      replace_loop fuel (take i subject ++ (by ++ drop (i + length search) subject)) search by
        (i + length by)
]

unfoldable pub replace_all : ℕ → Bytes → Bytes → Bytes → Option Bytes
unfolding replace_loop find_text
replace_all fuel subject search by = replace_loop fuel subject search by 0

-- `appendAndJustify`: the words of a line with one space between two.
unfoldable pub justify : List Bytes → Bytes
justify [] = []
justify (w ∷ []) = w
justify (w ∷ v ∷ ws) = w ++ (b' ' ∷ justify (v ∷ ws))

-- The loop of `justifyWrap`: the words of the open line (`lineStart` to `lineEnd`), those from
-- `lineEnd` on, the length `len`, and the finished lines. `none`: the fuel ran out.
unfoldable pub wrap_loop : ℕ → ℕ → List Bytes → List Bytes → ℕ → List Bytes → Option (List Bytes)
unfolding justify
wrap_loop zero width line words len lines = none
wrap_loop (suc fuel) width [] [] len lines = some lines
wrap_loop (suc fuel) width (w ∷ line) [] len lines = some (lines ++ justify (w ∷ line) ∷ [])
wrap_loop (suc fuel) width line (word ∷ words) len lines =
    let broken = wrap_loop fuel width [] (word ∷ words) 0 (lines ++ justify line ∷ []) in
    let longer = wrap_loop fuel width (line ++ word ∷ []) words (len + (length word + 1)) lines in
    if ltb width (len + length word) then broken else longer

-- `justifyWrap`. It splits at spaces whatever `delim` says, as the source does.
unfoldable pub justify_wrap : ℕ → List Bytes → Bytes → ℕ → ℕ → Option (List Bytes)
unfolding wrap_loop split
justify_wrap fuel lines str width delim = elim (split [] str b' ') [
  | none ↦ none
  | some words ↦ wrap_loop fuel width [] words 0 lines
]

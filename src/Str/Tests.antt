-- ===== src/Str/Tests.antt =====
-- odb-sdk/src/Str.cpp: runs of the text helpers, and the theorems at concrete texts.
use open_dark_basic.Prelude.{
  ◌≡◌, ◌↔◌, ◌≤◌, refl, inl, inr, some, none, List, [], ◌∷◌, ◌++◌, Bytes, codes, arith, length, take,
  All,
}
use open_dark_basic.Prelude.Int.{pos}
use open_dark_basic.Str.{to_lower, strncicmp, escape, split, replace_all, justify_wrap}
use open_dark_basic.Str.Case.{strncicmp_iff}
use open_dark_basic.Str.Escape.{unescape, unescape-escape}
use open_dark_basic.Str.Split.{join, Lacks, join-split, split-join}
use open_dark_basic.Str.Replace.{replaced, replace_all-byte, replace_all-empty}
use open_dark_basic.Str.Wrap.{justify_wrap-lines, justify_wrap_diverges}

abbrev quoted : Bytes
quoted = codes "say \"hi\" \\"

escape_run : escape (codes "a\"b") ≡ codes "a\\\"b"
unfolding escape
escape_run = refl

strncicmp_iff_example :
    (strncicmp (codes "Make") (codes "maker") 4 ≡ pos 0)
    ↔ (take 4 (to_lower (codes "Make")) ≡ take 4 (to_lower (codes "maker")))
strncicmp_iff_example =
    strncicmp_iff (codes "Make") (codes "maker") 4
      (ground arith, (ground arith, (ground arith, (ground arith, tt))))
      (ground arith, (ground arith, (ground arith, (ground arith, (ground arith, tt)))))

unescape-escape_example : unescape (escape quoted) ≡ some quoted
unescape-escape_example = unescape-escape quoted

join-split_example :
    (qs : List Bytes) × (split (codes "x" ∷ []) (codes "a,,b") b',' ≡ some ((codes "x" ∷ []) ++ qs))
    × (join b',' qs ≡ codes "a,,b")
    × All (Lacks b',') qs
join-split_example = join-split (codes "x" ∷ []) (codes "a,,b") b','

split-join_example :
    split [] (join b',' (codes "a" ∷ [] ∷ codes "b" ∷ [])) b','
    ≡ some (codes "a" ∷ [] ∷ codes "b" ∷ [])
split-join_example =
    split-join b',' (codes "a") ([] ∷ codes "b" ∷ [])
      ((ground arith, tt), (tt, ((ground arith, tt), tt)))

replace_all-byte_example :
    replace_all 4 (codes "a.b") (b'.' ∷ []) (codes "..")
    ≡ some (replaced b'.' (codes "..") (codes "a.b"))
replace_all-byte_example = replace_all-byte 4 b'.' (codes "..") (codes "a.b") (omega arith)

replace_all-empty_example : replace_all 9 (codes "ab") [] (codes "x") ≡ none
replace_all-empty_example = replace_all-empty 9 (codes "x") (codes "ab")

justify_wrap-lines_example :
    (ls : List Bytes) × (justify_wrap 20 [] (codes "make object cube") 6 b',' ≡ some ([] ++ ls))
    × (join b' ' ls ≡ codes "make object cube")
    × All (λ l. length l ≤ 6) ls
justify_wrap-lines_example =
    justify_wrap-lines 20 [] (codes "make object cube") 6 b','
      (omega arith, (omega arith, (omega arith, tt))) (omega arith)

justify_wrap_diverges_example : justify_wrap 100 [] (codes "make objects") 6 b' ' ≡ none
justify_wrap_diverges_example =
    justify_wrap_diverges 100 [] (codes "make objects") 6 b' ' (codes "objects") (inr (inl refl))
      (omega arith)

-- ===== src/Driver/Tests.antt =====
-- odb-compiler/src/parsers/db/Driver.cpp: runs of the token queue, and the theorems at concrete tokens.
use open_dark_basic.Prelude.{
  ℕ, suc, ◌≡◌, ◌≢◌, ◌≤◌, refl, ap, sym, ◌∙◌, ◌⊎◌, false, Option, some, none, List, [], ◌∷◌, Bytes,
  codes, arith,
}
use open_dark_basic.Prelude.Int.{pos, negsuc}
use open_dark_basic.Str.{char_to_lower, to_lower, strncicmp}
use open_dark_basic.Commands.Matcher.{text_lt, CommandMatcher, find_longest_command_matching}
use open_dark_basic.Commands.Matcher.Search.{IsMatcher}
use open_dark_basic.Driver.{
  Location, Kind, symbol, integer_literal, end, annotation, string, plain, Token, append_token,
  note_match, drop_annotated, scan_ahead, ParseResult, push_more, result, do_parse,
}
use open_dark_basic.Driver.Runs.{runs}
use open_dark_basic.Driver.Command.{Merged, NoCommand, scan_ahead-merges}
use open_dark_basic.Driver.Parse.{do_parse-ends}
use open_dark_basic.Driver.Literals.{
  new_int_like_literal, value_of, type_of, Fits, IntType, rank, value_of-new_int_like_literal,
  type_of-new_int_like_literal,
}

abbrev matcher : CommandMatcher
matcher = record {
  commands = codes "do" ∷ codes "do x" ∷ [];
  longest_command_length = 4;
  longest_command_word_count = 2;
}

matcher-IsMatcher : IsMatcher matcher
unfolding char_to_lower text_lt
matcher-IsMatcher = record {
  sorted = ((refl, tt), (tt, tt));
  names = (
    ((ground arith, omega arith, refl), ((ground arith, omega arith, refl), tt)),
    (
      (
        (ground arith, omega arith, refl),
        (
          (ground arith, omega arith, refl),
          ((ground arith, omega arith, refl), ((ground arith, omega arith, refl), tt)),
        ),
      ),
      tt,
    ),
  );
  longest = (omega arith, (omega arith, tt));
}

abbrev at_start : Location
at_start = record { first_line = 1; last_line = 1; first_column = 1; last_column = 1 }

abbrev word : Bytes → Token
word s = record { pushed_char = symbol; pushed_value = string s; loc = at_start; str = s }

abbrev number : Bytes → ℕ → Token
number s n = record {
  pushed_char = integer_literal;
  pushed_value = plain n;
  loc = at_start;
  str = s;
}

abbrev dollar : Token
dollar = record {
  pushed_char = annotation b'$';
  pushed_value = plain 0;
  loc = at_start;
  str = codes "$";
}

abbrev behind : List Token
behind = word (codes "X") ∷ number (codes "7") 7 ∷ []

merge_run : (scan_ahead matcher (word (codes "Do")) behind 1).0.pushed_value ≡ string (codes "Do X")
unfolding scan_ahead append_token note_match drop_annotated find_longest_command_matching to_lower
    char_to_lower strncicmp
merge_run = refl

annotated_run : (scan_ahead matcher (word (codes "do")) (dollar ∷ []) 1).0.pushed_char ≡ symbol
unfolding scan_ahead append_token note_match drop_annotated find_longest_command_matching to_lower
    char_to_lower strncicmp
annotated_run = refl

scan_ahead-merges_example :
    Merged matcher
      (word (codes "Do"))
      behind
      (scan_ahead matcher (word (codes "Do")) behind 1).0
      (scan_ahead matcher (word (codes "Do")) behind 1).1.coming
    ⊎ (NoCommand matcher (runs (codes "Do") false behind)
        × ((scan_ahead matcher (word (codes "Do")) behind 1).0 ≡ word (codes "Do"))
        × ((scan_ahead matcher (word (codes "Do")) behind 1).1.coming ≡ behind))
scan_ahead-merges_example =
    scan_ahead-merges matcher matcher-IsMatcher (word (codes "Do")) behind 1
      ((ground arith, omega arith), ((ground arith, omega arith), tt)) (omega arith)
      (((ground arith, omega arith), tt), (((ground arith, omega arith), tt), tt))

loop_keyword : Bytes → Option ℕ
loop_keyword [] = none
loop_keyword (c ∷ s) = some 270

abbrev result_of : Kind → ParseResult
result_of end = result 0
result_of _ = push_more

abbrev push : ℕ → Token → ℕ × ParseResult
push n t = (suc n, result_of t.pushed_char)

differ : result 0 ≢ push_more
differ h = cc

push_ends : (p : ℕ) (t : Token) → t.pushed_char ≡ end → (push p t).1 ≢ push_more
push_ends p t e h = differ (ap result_of (sym e) ∙ h)

do_parse-ends_example :
    (b : Option ℕ) × (do_parse loop_keyword push some 4 matcher
        (record { coming = word (codes "Do") ∷ behind; queued = 0 })
        0
      ≡ some b)
do_parse-ends_example =
    do_parse-ends loop_keyword push some push_ends matcher 4
      (record { coming = word (codes "Do") ∷ behind; queued = 0 }) 0 (omega arith)

value_of-new_int_like_literal_example :
    value_of (new_int_like_literal (negsuc 40000)) ≡ negsuc 40000
value_of-new_int_like_literal_example = value_of-new_int_like_literal (negsuc 40000)

type_of-new_int_like_literal_example :
    (let t = type_of (new_int_like_literal (pos 300)) in
      Fits t (pos 300) × ((s : IntType) → Fits s (pos 300) → rank t ≤ rank s))
type_of-new_int_like_literal_example =
    type_of-new_int_like_literal (pos 300) (omega arith, omega arith)

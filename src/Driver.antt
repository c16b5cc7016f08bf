-- ===== src/Driver.antt =====
-- odb-compiler/src/parsers/db/Driver.cpp: what happens to the tokens between the lexer and the
-- parser. Both are generated: the lexer is the list of the tokens it has still to give, after which it
-- gives the end of the file, the parser is a function that takes a token, and the table of keywords
-- is a function from a text to the number of a token.
pub mod Runs
pub mod Merge
pub mod Command
pub mod Parse
mod Tests
pub mod Literals
use open_dark_basic.Prelude.{
  ℕ, zero, suc, ◌+◌, ◌-◌, Bool, true, false, ◌&&◌, ◌||◌, not, Option, none, some, List, [], ◌∷◌,
  ◌++◌, Bytes, ltb, leb, ◌==◌, if◌then◌else◌, length, take, drop,
}
use open_dark_basic.Commands.Matcher.{CommandMatcher, MatchResult, find_longest_command_matching}

-- `DBLTYPE`.
pub record Location : Type 0 where
  pub first_line : ℕ
  pub last_line : ℕ
  pub first_column : ℕ
  pub last_column : ℕ

-- The kinds of tokens that the driver tells apart; `annotation` is one of the characters of
-- `isAnnotation`, `keyword` what the table of keywords gives.
pub data Kind : Type 0 where
  end dbempty symbol command integer_literal string_literal : Kind
  annotation keyword other : ℕ → Kind

-- `DBSTYPE`: a string on the heap, one that is freed, or a value that the driver leaves alone.
pub data Value : Type 0 where
  string : Bytes → Value
  freed : Value
  plain : ℕ → Value

-- `Token`, with `str` what the lexer read.
pub record Token : Type 0 where
  pub pushed_char : Kind
  pub pushed_value : Value
  pub loc : Location
  pub str : Bytes

-- `isAnnotation`.
abbrev pub is_annotation : Kind → Bool
is_annotation (annotation c) = true
is_annotation _ = false

abbrev pub is_symbol : Kind → Bool
is_symbol symbol = true
is_symbol _ = false

abbrev pub is_integer_literal : Kind → Bool
is_integer_literal integer_literal = true
is_integer_literal _ = false

abbrev pub is_end : Kind → Bool
is_end end = true
is_end dbempty = true
is_end _ = false

-- The tokens still to be pushed: those of `tokens`, of which there are `queued`, and behind them those
-- that the lexer has still to give.
pub record Queue : Type 0 where
  pub coming : List Token
  pub queued : ℕ

-- `result` of `scanAheadForPossibleCommand`.
pub record Scan : Type 0 where
  pub match : MatchResult
  pub token_idx : ℕ

-- The match of a text that is a command as a whole.
unfoldable pub note_match : CommandMatcher → Bytes → ℕ → Scan → Scan
note_match m possible_command i result =
    let match = find_longest_command_matching m possible_command in
    if match.found && match.matched_length == length possible_command
    then record { match = match; token_idx = i }
    else result

-- The text after one token more.
unfoldable pub append_token : Bytes → Bool → Token → Bytes
append_token possible_command last_symbol_was_integer t =
    if not last_symbol_was_integer && not (is_annotation t.pushed_char)
    then (possible_command ++ b' ' ∷ []) ++ t.str
    else possible_command ++ t.str

-- A match that a type annotation follows does not count.
unfoldable pub drop_annotated : Bool → ℕ → Token → Scan → Scan
drop_annotated last_symbol_was_integer i t result =
    if not last_symbol_was_integer && not (is_annotation t.pushed_char)
    then result
    else if result.token_idx == i && is_annotation t.pushed_char
    then record {
      match = record { matched_length = result.match.matched_length; found = false };
      token_idx = result.token_idx;
    }
    else result

-- The loop of `scanAheadForPossibleCommand`, over the tokens from place `i` on, and the number of
-- tokens that it has looked at.
pub scan_loop : CommandMatcher → Bytes → Bool → ℕ → Scan → List Token → Scan × ℕ
scan_loop m possible_command last_symbol_was_integer i result [] =
    if leb (length possible_command) m.longest_command_length
    then (note_match m possible_command i result, suc i)
    else (result, i)
scan_loop m possible_command last_symbol_was_integer i result (t ∷ coming) =
    let noted = note_match m possible_command i result in
    let rest =
      scan_loop m (append_token possible_command last_symbol_was_integer t)
        (is_integer_literal t.pushed_char) (suc i)
        (drop_annotated last_symbol_was_integer i t noted) coming in
    if leb (length possible_command) m.longest_command_length
    then if is_end t.pushed_char then (noted, suc i) else rest
    else (result, i)

abbrev pub no_result : Scan
no_result = record { match = record { matched_length = 0; found = false }; token_idx = 0 }

-- The text that the loop assembled when it stopped; the merged token takes its beginning.
pub assembled : CommandMatcher → Bytes → Bool → List Token → Bytes
assembled m possible_command last_symbol_was_integer [] = possible_command
assembled m possible_command last_symbol_was_integer (t ∷ coming) =
    let rest =
      assembled m (append_token possible_command last_symbol_was_integer t)
        (is_integer_literal t.pushed_char) coming in
    if leb (length possible_command) m.longest_command_length && not (is_end t.pushed_char)
    then rest
    else possible_command

abbrev pub max : ℕ → ℕ → ℕ
max a b = if ltb a b then b else a

-- `scanAheadForPossibleCommand`, where `first` is `tokens[0]`, which the queue that it returns leaves
-- out while `queued` counts it: on a match the tokens that it covers
-- are one token `TOK_COMMAND`, at the place of the first.
unfoldable pub scan_ahead : CommandMatcher → Token → List Token → ℕ → Token × Queue
unfolding scan_loop assembled
scan_ahead m first coming queued =
    let (result, looked) = scan_loop m first.str false 1 no_result coming in
    let text = assembled m first.str false coming in
    if result.match.found
    then (
      record {
        pushed_char = command;
        pushed_value = string (take result.match.matched_length text);
        loc = first.loc;
        str = first.str;
      },
      record {
        coming = drop (result.token_idx - 1) coming;
        queued = max queued looked - result.token_idx;
      },
    )
    else (first, record { coming = coming; queued = max queued looked - 1 })

unfoldable pub kind_of_next : List Token → Kind
kind_of_next [] = end
kind_of_next (t ∷ coming) = t.pushed_char

abbrev pub string_of : Value → Bytes
string_of (string s) = s
string_of _ = []

abbrev pub is_symbol_or_command : Kind → Bool
is_symbol_or_command symbol = true
is_symbol_or_command command = true
is_symbol_or_command _ = false

module _ (lookup : Bytes → Option ℕ) where
  -- The second `switch`: a symbol or a command that is a keyword, unless an annotation follows.
  unfoldable pub to_keyword : Token → Kind → Token
  to_keyword t next =
      if is_symbol_or_command t.pushed_char && not (is_annotation next)
      then elim (lookup (string_of t.pushed_value)) [
        | none ↦ t
        | some k ↦ record {
          pushed_char = keyword k;
          pushed_value = freed;
          loc = t.loc;
          str = t.str;
        }
      ]
      else t

  -- What a round does before it pushes `tokens[0]`, and the tokens behind that one.
  unfoldable pub prepare : CommandMatcher → Queue → Token × Queue
  unfolding scan_ahead kind_of_next
  prepare m q = elim q.coming [
    | [] ↦ (
      record {
        pushed_char = end;
        pushed_value = plain 0;
        loc = record { first_line = 0; last_line = 0; first_column = 0; last_column = 0 };
        str = [];
      },
      record { coming = []; queued = 0 },
    )
    | first ∷ coming ↦
        let (t, behind) =
          if is_integer_literal first.pushed_char || is_symbol first.pushed_char
          then scan_ahead m first coming (max 1 q.queued)
          else (first, record { coming = coming; queued = q.queued - 1 }) in
        (
          to_keyword t (kind_of_next behind.coming),
          record {
            coming = behind.coming;
            queued =
                if is_symbol_or_command t.pushed_char then max 1 behind.queued else behind.queued;
          },
        )
  ]

-- What `dbpush_parse` returns: `YYPUSH_MORE`, or the result of the parse.
pub data ParseResult : Type 0 where
  push_more : ParseResult
  result : ℕ → ParseResult

-- What the loop does with the result: another round, or the end with the program or without one.
abbrev pub on_result :
    {Block : Type 0} → ParseResult → Option Block → Option (Option Block) → Option (Option Block)
on_result push_more program rest = rest
on_result (result n) program rest = some (if n == 0 then program else none)

module _ {Parser Block : Type 0} (lookup : Bytes → Option ℕ)
    (dbpush_parse : Parser → Token → Parser × ParseResult) (program : Parser → Option Block) where
  -- The main loop of `doParse` and what follows it, on fuel; `none` is out of fuel.
  pub do_parse : ℕ → CommandMatcher → Queue → Parser → Option (Option Block)
  do_parse zero m q p = none
  do_parse (suc fuel) m q p =
      let (t, behind) = prepare lookup m q in
      let (p', r) = dbpush_parse p t in
      let rest = do_parse fuel m behind p' in on_result r (program p') rest

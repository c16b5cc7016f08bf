-- ===== src/Commands/Matcher.antt =====
-- odb-compiler/src/commands/CommandMatcher.cpp: which command a text begins with. An iterator range
-- into the sorted names is the list of the names in it. `std::sort` is an insertion sort (equal
-- names cannot be told apart), and `std::lower_bound` and `std::upper_bound` give the first place
-- where their test changes, as they do on a range that the test partitions. Plain `char` is signed.
pub mod Order
pub mod Narrow
pub mod Sharing
pub mod Rounds
pub mod Boundary
pub mod Search
use open_dark_basic.Prelude.{
  ℕ, suc, ◌+◌, ◌%◌, Bool, true, false, ◌&&◌, ◌||◌, not, List, [], ◌∷◌, map, Bytes, ltb, leb, ◌==◌,
  if◌then◌else◌, length, get_or,
}
use open_dark_basic.Prelude.Int.{ℤ, pos, negsuc}
use open_dark_basic.Str.{char_to_lower, to_lower, strncicmp, deref}
use open_dark_basic.Commands.Index.{CommandIndex, command_names_as_list}

-- `charIsSymbolToken`.
unfoldable pub char_is_symbol_token : ℕ → Bool
char_is_symbol_token c =
    if leb b'0' c && leb c b'9'
    then true
    else if leb b'A' c && leb c b'Z'
    then true
    else if leb b'a' c && leb c b'z'
    then true
    else c == b'_'

pub record CommandMatcher : Type 0 where
  pub commands : List Bytes
  pub longest_command_length : ℕ
  pub longest_command_word_count : ℕ

pub record MatchResult : Type 0 where
  pub matched_length : ℕ
  pub found : Bool

-- `<` of `std::string`, which compares bytes without a sign.
unfoldable pub text_lt : Bytes → Bytes → Bool
text_lt a [] = false
text_lt [] (y ∷ b) = true
text_lt (x ∷ a) (y ∷ b) = if ltb x y then true else x == y && text_lt a b

pub insert_sorted : Bytes → List Bytes → List Bytes
insert_sorted s [] = s ∷ []
insert_sorted s (t ∷ ts) = if text_lt t s then t ∷ insert_sorted s ts else s ∷ t ∷ ts

-- `std::sort` of the names.
pub sort_names : List Bytes → List Bytes
unfolding insert_sorted text_lt
sort_names [] = []
sort_names (s ∷ ss) = insert_sorted s (sort_names ss)

-- `std::max_element` by a measure, read through the measure; 0 where the range is empty.
pub max_by : (Bytes → ℕ) → List Bytes → ℕ
max_by f [] = 0
max_by f (s ∷ ss) = if ltb (f s) (max_by f ss) then max_by f ss else f s

-- `wordCount`: the spaces and one.
pub word_count : Bytes → ℕ
word_count [] = 1
word_count (c ∷ s) = if c == b' ' then suc (word_count s) else word_count s

-- `updateFromIndex`.
unfoldable pub update_from_index : CommandIndex → CommandMatcher
unfolding sort_names max_by word_count
update_from_index db =
    let commands = sort_names (map to_lower (command_names_as_list db)) in
    record {
      commands = commands;
      longest_command_length = max_by length commands;
      longest_command_word_count = max_by word_count commands;
    }

-- The order of `std::tolower(a[k])` as an `int`, for a signed `char`, shifted to start at 0.
pub lower_at : ℕ → Bytes → ℕ
lower_at k a = (char_to_lower (get_or a k 0) + 128) % 256

pub drop_while : (Bytes → Bool) → List Bytes → List Bytes
drop_while p [] = []
drop_while p (a ∷ as') = if p a then drop_while p as' else a ∷ as'

pub take_while : (Bytes → Bool) → List Bytes → List Bytes
take_while p [] = []
take_while p (a ∷ as') = if p a then a ∷ take_while p as' else []

-- One round: `lower_bound` from the first name that is not below, `upper_bound` up to the first that
-- is above, by the byte at place `k`.
pub narrow : ℕ → Bytes → List Bytes → List Bytes
unfolding lower_at drop_while take_while
narrow k str range =
    take_while (λ a. not (ltb (lower_at k str) (lower_at k a)))
      (drop_while (λ a. ltb (lower_at k a) (lower_at k str)) range)

-- What the first loop leaves: the stack of candidate names, the last pushed first, and `matchedLen`.
pub record Descent : Type 0 where
  pub command_stack : List Bytes
  pub matched_len : ℕ

-- The first loop of `findLongestCommandMatching`: `rest` is what `str` has from `matchedLen` on.
pub descend : Bytes → Bytes → ℕ → List Bytes → List Bytes → Descent
descend str [] k range stack = record { command_stack = stack; matched_len = k }
descend str (c ∷ rest) k range stack =
    let stop : Descent = record { command_stack = stack; matched_len = k } in
    if c == 0 then stop else elim (narrow k str range) [
      | [] ↦ stop
      | first ∷ others ↦
          descend str rest (suc k) (first ∷ others)
            (if char_is_symbol_token (deref rest) then stack else first ∷ stack)
    ]

abbrev is_zero : ℤ → Bool
is_zero (pos n) = n == 0
is_zero (negsuc n) = false

-- The second loop, which pops the stack.
pub pop_match : Bytes → ℕ → List Bytes → MatchResult
pop_match str matched_len [] = record { matched_length = matched_len; found = false }
pop_match str matched_len (command ∷ stack) =
    if is_zero (strncicmp str command (length command))
    then record { matched_length = length command; found = true }
    else pop_match str matched_len stack

unfoldable pub find_longest_command_matching : CommandMatcher → Bytes → MatchResult
unfolding descend narrow pop_match char_is_symbol_token
find_longest_command_matching m str =
    let d = descend str str 0 m.commands [] in pop_match str d.matched_len d.command_stack

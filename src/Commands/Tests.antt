-- ===== src/Commands/Tests.antt =====
-- odb-compiler/src/commands/: runs of the index and of the matcher, and the theorems at a concrete
-- index.
use open_dark_basic.Prelude.{
  ◌≡◌, ◌≢◌, ◌≤◌, ◌↔◌, refl, inl, ◌⊎◌, Bool, true, false, ◌&&◌, not, List, [], ◌∷◌, Bytes, codes,
  arith, ltb, ◌==◌, length, drop, In, All, suc, ap,
}
use open_dark_basic.Str.{char_to_lower, to_lower, strncicmp, deref}
use open_dark_basic.Commands.Command.{Command, CommandType, void, Arg}
use open_dark_basic.Commands.Index.{
  CommandIndex, add_command, empty, command_names_as_list, find_conflicts, lookup,
}
use open_dark_basic.Commands.Index.Conflicts.{
  RepeatsFirst, SameSignature, find_conflicts_iff, find_conflicts_misses,
}
use open_dark_basic.Commands.Index.Lookup.{add_commands, lookup_iff, lookup_unreachable}
use open_dark_basic.Commands.Matcher.{
  update_from_index, find_longest_command_matching, char_is_symbol_token, CommandMatcher,
  MatchResult,
}
use open_dark_basic.Commands.Matcher.Narrow.{IsText}
use open_dark_basic.Commands.Matcher.Sharing.{sharing}
use open_dark_basic.Commands.Matcher.Boundary.{BeginsWith}
use open_dark_basic.Commands.Matcher.Search.{
  IsMatcher, FoundIn, found_sound, found_longest, found_whole_iff, unfound_length,
  update_from_index-IsMatcher,
}

abbrev args_of : List CommandType → List Arg
args_of [] = []
args_of (t ∷ ts) = record { type = t; sym_name = []; description = [] } ∷ args_of ts

abbrev with_args : Bytes → List CommandType → Command
with_args s types = record {
  library = 0;
  db_symbol = s;
  cpp_symbol = [];
  help_file = [];
  args = args_of types;
  return_type = void;
}

abbrev some_index : CommandIndex
unfolding add_command
some_index =
    add_command
      (add_command (add_command empty (with_args (codes "DELETE OBJECT COLLISION BOX") []))
        (with_args (codes "delete object") (CommandType.integer ∷ [])))
      (with_args (codes "delete objects") [])

longest_run :
    find_longest_command_matching (update_from_index some_index) (codes "Delete Object 100")
    ≡ record { matched_length = 13; found = true }
unfolding find_longest_command_matching update_from_index add_command to_lower char_to_lower
    strncicmp command_names_as_list
longest_run = refl

is_text : Bytes → Bool
is_text [] = true
is_text (c ∷ s) = not (c == 0) && (ltb c 128 && is_text s)

text : (s : Bytes) → is_text s ≡ true → IsText s
unfolding is_text
text [] h = tt
text (c ∷ s) h = ((ground arith, ground arith), text s (ground arith))

abbrev some_matcher : CommandMatcher
some_matcher = update_from_index some_index

names_are_text : All (λ (c : Command). IsText c.db_symbol) some_index.commands
unfolding is_text some_index
names_are_text = (
  text (codes "DELETE OBJECT COLLISION BOX") refl,
  (text (codes "delete object") refl, (text (codes "delete objects") refl, tt)),
)

update_from_index-IsMatcher_example :
    IsMatcher (update_from_index some_index)
    × ((a : Bytes)
        → In a (update_from_index some_index).commands
          ↔ ((c : Command) × In c some_index.commands × (to_lower c.db_symbol ≡ a)))
update_from_index-IsMatcher_example = update_from_index-IsMatcher some_index names_are_text

some_matcher-IsMatcher : IsMatcher some_matcher
some_matcher-IsMatcher = (update_from_index-IsMatcher some_index names_are_text).0

abbrev call_text : Bytes
call_text = codes "Delete Object 100"

call_text-IsText : IsText call_text
unfolding is_text
call_text-IsText = text call_text refl

call_text-found : (find_longest_command_matching some_matcher call_text).found ≡ true
call_text-found = ap MatchResult.found longest_run

found_sound_example :
    FoundIn call_text some_matcher.commands (find_longest_command_matching some_matcher call_text)
found_sound_example =
    found_sound some_matcher some_matcher-IsMatcher call_text call_text-IsText call_text-found

delete_object : In (codes "delete object") some_matcher.commands
unfolding update_from_index add_command to_lower char_to_lower command_names_as_list
delete_object = inl refl

begins : BeginsWith call_text (codes "delete object")
unfolding to_lower char_to_lower
begins = refl

ends : char_is_symbol_token (deref (drop (length (codes "delete object")) call_text)) ≡ false
unfolding char_is_symbol_token
ends = refl

found_longest_example :
    ((find_longest_command_matching some_matcher call_text).found ≡ true)
    × (length (codes "delete object")
        ≤ (find_longest_command_matching some_matcher call_text).matched_length)
found_longest_example =
    found_longest some_matcher some_matcher-IsMatcher call_text call_text-IsText
      (codes "delete object") delete_object (omega arith) begins ends

found_whole_iff_example :
    (find_longest_command_matching some_matcher call_text
      ≡ record { matched_length = length call_text; found = true })
    ↔ In (to_lower call_text) some_matcher.commands
found_whole_iff_example =
    found_whole_iff some_matcher some_matcher-IsMatcher call_text call_text-IsText (omega arith)

other-IsText : IsText (codes "delay")
unfolding is_text
other-IsText = text (codes "delay") refl

other_run : (find_longest_command_matching some_matcher (codes "delay")).found ≡ false
unfolding find_longest_command_matching update_from_index add_command to_lower char_to_lower
    strncicmp command_names_as_list
other_run = refl

unfound_length_example :
    (let n = (find_longest_command_matching some_matcher (codes "delay")).matched_length in
      (n ≤ length (codes "delay"))
      × ((n ≡ 0) ⊎ ((a : Bytes) × In a (sharing (codes "delay") n some_matcher.commands)))
      × ((n ≡ length (codes "delay"))
          ⊎ (sharing (codes "delay") (suc n) some_matcher.commands ≡ [])))
unfound_length_example =
    unfound_length some_matcher some_matcher-IsMatcher (codes "delay") other-IsText other_run

find_conflicts_iff_example :
    (find_conflicts some_index ≡ true) ↔ RepeatsFirst [] some_index.commands
find_conflicts_iff_example = find_conflicts_iff some_index

abbrev print_number : Command
print_number = with_args (codes "print") (CommandType.integer ∷ [])

abbrev print_text : Command
print_text = with_args (codes "print") (CommandType.string ∷ [])

differ : ¬ SameSignature print_text print_number
differ (e, r) = cc

find_conflicts_misses_example :
    find_conflicts
      (add_command (add_command (add_command empty print_number) print_text) print_text)
    ≡ false
find_conflicts_misses_example =
    find_conflicts_misses print_number print_text print_text refl refl (refl, refl) differ

lookup_iff_example :
    In print_number (lookup (add_commands empty (print_number ∷ print_text ∷ [])) (codes "PRINT"))
    ↔ (In print_number (print_number ∷ print_text ∷ [])
        × (print_number.db_symbol ≡ to_lower (codes "PRINT")))
lookup_iff_example = lookup_iff (print_number ∷ print_text ∷ []) (codes "PRINT") print_number

upper_case : to_lower (codes "PRINT") ≢ codes "PRINT"
unfolding to_lower char_to_lower
upper_case e = omega (arith, ap deref e)

lookup_unreachable_example :
    ¬ In
      (with_args (codes "PRINT") [])
      (lookup (add_commands empty (with_args (codes "PRINT") [] ∷ [])) (codes "PRINT"))
lookup_unreachable_example =
    lookup_unreachable (with_args (codes "PRINT") [] ∷ []) (codes "PRINT")
      (with_args (codes "PRINT") []) upper_case

-- ===== src/Commands/Loader/Tests.antt =====
-- odb-compiler/src/commands/ODBCommandLoader.cpp: runs of the loader, and the theorems at a plugin.
use open_dark_basic.Prelude.{
  ◌<◌, ◌≤◌, ◌≡◌, sym, subst, inr, ◌↔◌, ◌⊎◌, refl, inl, true, if◌then◌else◌, length, some, [], ◌∷◌,
  ◌++◌, map, Bytes, codes, In, arith,
}
use open_dark_basic.Str.{to_lower, char_to_lower}
use open_dark_basic.Commands.Command.{Command, string, void}
use open_dark_basic.Commands.Index.{CommandIndex, add_command, empty, text_eq}
use open_dark_basic.Commands.Matcher.{find_longest_command_matching, update_from_index}
use open_dark_basic.Commands.Matcher.Narrow.{IsText}
use open_dark_basic.Commands.Loader.{
  parsed, rejected, undefined, type_of_char, type_exists, arg_of_char, parse_args,
  parse_typeinfo_string, Library, export_of, command_of, loaded, populate_symbols,
  populate_from_library, populate_libraries, FileSystem, plugins_of_dirs, populate_index,
}
use open_dark_basic.Commands.Loader.Signature.{IsTypeinfo, plain, parse_typeinfo_string_iff}
use open_dark_basic.Commands.Loader.Recognised.{
  Exports, populate_from_library_iff, exported_command_found,
}

one_argument_run : parse_typeinfo_string (codes "0(S)") ≡ parsed void (plain string ∷ [])
unfolding parse_typeinfo_string parse_args type_of_char type_exists arg_of_char
one_argument_run = refl

no_bracket_run : parse_typeinfo_string (codes "0(S") ≡ rejected
unfolding parse_typeinfo_string parse_args type_of_char type_exists arg_of_char
no_bracket_run = refl

two_arguments_run : parse_typeinfo_string (codes "0(SL)") ≡ undefined
unfolding parse_typeinfo_string parse_args type_of_char type_exists arg_of_char
two_arguments_run = refl

-- A plugin with one command, `PRINT`, which takes a text, and a symbol that is no command.
abbrev text_at : Bytes → Bytes
text_at symbol =
    if text_eq symbol (codes "prnt_name")
    then codes "PRINT"
    else if text_eq symbol (codes "prnt_typeinfo")
    then codes "0(S)"
    else []

abbrev plugin : Library
plugin = record { number = 7; symbols = codes "init" ∷ codes "prnt" ∷ []; lookup_string = text_at }

abbrev print : Command
print = command_of plugin (codes "prnt") void (plain string ∷ [])

abbrev with_print : CommandIndex
with_print = add_command empty print

plugin_run : populate_from_library plugin empty ≡ loaded with_print
unfolding populate_from_library populate_symbols export_of parse_typeinfo_string parse_args
    type_of_char type_exists arg_of_char
plugin_run = refl

print-Exports : Exports plugin (codes "prnt") print
print-Exports = record {
  named = λ e. cc;
  typed = λ e. cc;
  understood = one_argument_run;
  is = refl;
}

-- The SDK has no plugins, and a directory of plugins has one: it is not loaded.
abbrev files : FileSystem
files = record {
  is_directory = λ path. true;
  libraries_below = λ path. if text_eq path (codes "mine") then some plugin ∷ [] else [];
}

ignored_directory_run :
    populate_index files (codes "sdk") (codes "mine" ∷ []) empty ≡ some (loaded empty)
unfolding populate_index plugins_of_dirs populate_libraries
ignored_directory_run = refl

parse_typeinfo_string_iff_example :
    ((parse_typeinfo_string (codes "0(S)") ≡ parsed void (map plain (string ∷ [])))
      ↔ (IsTypeinfo (codes "0(S)") void (string ∷ []) × (length (string ∷ []) ≤ 1)))
    × (IsTypeinfo (codes "0(S)") void (string ∷ [])
        → 1 < length (string ∷ [])
        → parse_typeinfo_string (codes "0(S)") ≡ undefined)
parse_typeinfo_string_iff_example = parse_typeinfo_string_iff (codes "0(S)") void (string ∷ [])

populate_from_library_iff_example :
    In print with_print.commands
    ↔ (In print empty.commands ⊎ ((s : Bytes) × In s plugin.symbols × Exports plugin s print))
populate_from_library_iff_example =
    populate_from_library_iff plugin empty with_print print plugin_run

names-IsText :
    (s : Bytes) → In s plugin.symbols → IsText (plugin.lookup_string (s ++ codes "_name"))
names-IsText s i = elim i [
  | inl e ↦ subst (λ x. IsText (text_at (x ++ codes "_name"))) (sym e) tt
  | inr j ↦ elim j [
    | inl e ↦ subst (λ x. IsText (text_at (x ++ codes "_name"))) (sym e) (omega arith)
    | inr k ↦ absurd k
  ]
]

exported_command_found_example :
    find_longest_command_matching (update_from_index with_print) (codes "Print")
    ≡ record { matched_length = 5; found = true }
unfolding to_lower char_to_lower
exported_command_found_example =
    exported_command_found plugin with_print plugin_run names-IsText (codes "prnt") print
      (codes "Print") (inr (inl refl)) print-Exports (omega arith) (omega arith) refl

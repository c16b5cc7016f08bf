-- ===== src/Commands/Dbp/Tests.antt =====
-- odb-compiler/src/commands/DBPCommandLoader.cpp: runs of the loader, and a witness.
use open_dark_basic.Prelude.{
  ◌≡◌, refl, sym, ◌∙◌, ℕ, Bool, true, false, inl, inr, Bool-cases, any_of, ◌==◌, ==_iff, [], ◌∷◌,
  Bytes, codes, some,
}
use open_dark_basic.Str.{to_lower, char_to_lower, split}
use open_dark_basic.Str.Split.{join, Lacks}
use open_dark_basic.Commands.Command.{CommandType, Command}
use open_dark_basic.Commands.Index.{CommandIndex, add_command}
use open_dark_basic.Commands.Loader.{type_of_char}
use open_dark_basic.Commands.Dbp.{
  described, faulty, finish_entry, split_last, argument_names, entry_args, parse_tokens,
  parse_entry, add_entries, populate_index_from_library, insert_string, order_of, string_set,
}
use open_dark_basic.Commands.Dbp.Entries.{
  bracketed, bare, char_of_type, print_entry, parse_entry-print_entry,
}

abbrev no_keyword : Bytes → Bool
no_keyword name = false

abbrev height : Command
height = record {
  library = 7;
  db_symbol = codes "up";
  cpp_symbol = codes "U";
  help_file = [];
  args =
      record { type = CommandType.integer; sym_name = []; description = codes "x" }
      ∷ record { type = CommandType.float; sym_name = []; description = codes "y" }
      ∷ [];
  return_type = CommandType.float;
}

height_printed : print_entry bracketed height ≡ codes "up[%FLF%U%x,y"
unfolding print_entry join char_of_type
height_printed = refl

two_tokens_faulty : parse_entry no_keyword 7 (codes "up%F") ≡ faulty
unfolding parse_entry parse_tokens split
two_tokens_faulty = refl

strings_sorted : string_set (codes "b" ∷ codes "ab" ∷ codes "b" ∷ []) ≡ codes "ab" ∷ codes "b" ∷ []
unfolding string_set insert_string order_of
strings_sorted = refl

true_not_false : true ≡ false → ⊥
true_not_false e = cc

without_byte : (d : ℕ) (s : Bytes) → any_of (λ c. c == d) s ≡ false → Lacks d s
without_byte d [] h = tt
without_byte d (c ∷ s) h = elim (Bool-cases (c == d)) [
  | inl hit ↦ let impossible : true ≡ false = rw hit at h in cc
  | inr miss ↦
      let rest : any_of (λ c. c == d) s ≡ false = rw miss at h in
      (λ e. true_not_false (sym ((==_iff c d).1 e) ∙ miss), without_byte d s rest)
]

parse_entry-print_entry_example :
    parse_entry no_keyword 7 (print_entry bracketed height) ≡ described height
unfolding to_lower char_to_lower char_of_type type_of_char join
parse_entry-print_entry_example =
    parse_entry-print_entry no_keyword 7 bracketed height refl refl
      (
        without_byte b'%' (codes "up[") refl,
        (
          without_byte b'%' (codes "FLF") refl,
          (without_byte b'%' (codes "U") refl, (without_byte b'%' (codes "x,y") refl, tt)),
        ),
      )
      (without_byte b',' (codes "x") refl, (without_byte b',' (codes "y") refl, tt))
      ((refl, refl, refl), ((refl, refl, refl), tt)) refl refl

abbrev jump : Command
jump = record {
  library = 7;
  db_symbol = codes "jump";
  cpp_symbol = codes "J";
  help_file = [];
  args = record { type = CommandType.integer; sym_name = []; description = codes "n" } ∷ [];
  return_type = CommandType.void;
}

jump_printed : print_entry bare jump ≡ codes "jump%L%J%n"
unfolding print_entry join char_of_type
jump_printed = refl

-- Entries without tokens are passed over; a name without a bracket has no result.
populate_jump :
    (index : CommandIndex)
    → populate_index_from_library no_keyword 7 index (codes "junk" ∷ codes "JUMP%L%J%n" ∷ [])
      ≡ some (add_command index jump)
unfolding populate_index_from_library add_entries string_set insert_string order_of parse_entry
    parse_tokens finish_entry split_last argument_names entry_args split to_lower char_to_lower
    type_of_char
populate_jump index = refl

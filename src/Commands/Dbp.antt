-- ===== src/Commands/Dbp.antt =====
-- odb-compiler/src/commands/DBPCommandLoader.cpp, as it is built for Windows: the commands in the
-- string table of a library. The string table and the keywords are parameters.
mod Entries
mod Tests
use open_dark_basic.Prelude.{
  ℕ, Bool, true, false, Option, some, none, List, [], ◌∷◌, Bytes, ◌==◌, ltb, if◌then◌else◌,
}
use open_dark_basic.Str.{split, to_lower}
use open_dark_basic.Commands.Command.{Command, CommandType, Arg, type_eq, void}
use open_dark_basic.Commands.Index.{CommandIndex, add_command}
use open_dark_basic.Commands.Loader.{type_of_char}

pub data Order : Type 0 where
  before same behind : Order

-- How `std::string` orders texts.
unfoldable pub order_of : Bytes → Bytes → Order
order_of [] [] = same
order_of [] (d ∷ t) = before
order_of (c ∷ s) [] = behind
order_of (c ∷ s) (d ∷ t) =
    let rest = order_of s t in if ltb c d then before else if ltb d c then behind else rest

-- The set of texts that the entries are put into, in its order: byte by byte.
unfoldable pub insert_string : Bytes → List Bytes → List Bytes
insert_string text [] = text ∷ []
insert_string text (t ∷ ts) =
    let rest = t ∷ insert_string text ts in
    elim (order_of text t) [ before ↦ text ∷ t ∷ ts | same ↦ t ∷ ts | behind ↦ rest ]

unfoldable pub string_set : List Bytes → List Bytes
string_set [] = []
string_set (text ∷ table) = insert_string text (string_set table)

-- What an entry comes to. `faulty` is behaviour that the standard leaves undefined, or an exception
-- that nothing catches.
pub data Entry : Type 0 where
  described : Command → Entry
  skipped faulty : Entry

-- The last byte of a text and what stands before it.
unfoldable pub split_last : Bytes → Option (Bytes × ℕ)
split_last [] = none
split_last (c ∷ []) = some ([], c)
split_last (c ∷ d ∷ rest) = elim (split_last (d ∷ rest)) [
  | none ↦ none
  | some (front, last) ↦ some (c ∷ front, last)
]

-- The loop over the arguments' types. A type that is void has no argument, and takes a name all the same.
unfoldable pub entry_args : Bytes → List Bytes → List Arg
entry_args [] names = []
entry_args (c ∷ types) [] =
    let rest = entry_args types [] in
    if type_eq (type_of_char c) void
    then rest
    else record { type = type_of_char c; sym_name = []; description = [] } ∷ rest
entry_args (c ∷ types) (name ∷ names) =
    let rest = entry_args types names in
    if type_eq (type_of_char c) void
    then rest
    else record { type = type_of_char c; sym_name = []; description = name } ∷ rest

-- The names of the arguments, where there is a token for them.
unfoldable pub argument_names : List Bytes → Option (List Bytes)
argument_names [] = some []
argument_names (names ∷ more) = split [] names b','

module _ (is_keyword : Bytes → Bool) (library : ℕ) where
  unfoldable pub finish_entry : Bytes → Bytes → Bytes → List Bytes → CommandType → Entry
  finish_entry name types symbol more result =
      if is_keyword (to_lower name) then skipped else elim (argument_names more) [
        | none ↦ faulty
        | some names ↦ described (record {
          library = library;
          db_symbol = to_lower name;
          cpp_symbol = symbol;
          help_file = [];
          args = entry_args types names;
          return_type = result;
        })
      ]

  -- A name that ends in a bracket has its result's type before those of the arguments.
  unfoldable pub returning_entry : Bytes → Bytes → Bytes → List Bytes → Entry
  returning_entry name [] symbol more = faulty
  returning_entry name (c ∷ types) symbol more =
      finish_entry name types symbol more (type_of_char c)

  -- An entry's tokens. The test lets two tokens pass, and the third is read.
  unfoldable pub parse_tokens : List Bytes → Entry
  parse_tokens [] = skipped
  parse_tokens (name ∷ []) = skipped
  parse_tokens (name ∷ types ∷ []) = faulty
  parse_tokens (name ∷ types ∷ symbol ∷ more) = elim (split_last name) [
    | none ↦ faulty
    | some (front, last) ↦
        if last == b'['
        then returning_entry front types symbol more
        else finish_entry name types symbol more void
  ]

  unfoldable pub parse_entry : Bytes → Entry
  parse_entry entry = elim (split [] entry b'%') [
    | none ↦ faulty
    | some tokens ↦ parse_tokens tokens
  ]

  unfoldable pub add_entries : CommandIndex → List Bytes → Option CommandIndex
  add_entries index [] = some index
  add_entries index (entry ∷ entries) = elim (parse_entry entry) [
    | described command ↦ add_entries (add_command index command) entries
    | skipped ↦ add_entries index entries
    | faulty ↦ none
  ]

  -- `populateIndexFromLibrary`, which returns true; `none` is a faulty entry.
  unfoldable pub populate_index_from_library : CommandIndex → List Bytes → Option CommandIndex
  populate_index_from_library index table = add_entries index (string_set table)

-- ===== src/Commands/Loader.antt =====
-- odb-compiler/src/commands/ODBCommandLoader.cpp: the commands of plugins that describe themselves.
-- What the operating system does is a parameter: which paths are directories, which libraries lie
-- below a path and open, their symbols, and the texts at addresses.
mod Signature
mod Recognised
mod Tests
use open_dark_basic.Prelude.{
  ℕ, Bool, true, false, Option, some, none, List, [], ◌∷◌, ◌++◌, Bytes, codes, ◌==◌, if◌then◌else◌,
}
use open_dark_basic.Commands.Command.{
  Command, CommandType, Arg, integer, float, string, double, long, dword, void, unlisted,
}
use open_dark_basic.Commands.Index.{CommandIndex, add_command}

-- The cast of a character to `Command::Type`.
unfoldable pub type_of_char : ℕ → CommandType
type_of_char c =
    if c == b'L'
    then integer
    else if c == b'F'
    then float
    else if c == b'S'
    then string
    else if c == b'O'
    then double
    else if c == b'R'
    then long
    else if c == b'D'
    then dword
    else if c == b'0'
    then void
    else unlisted c

-- `typeExists`.
unfoldable pub type_exists : CommandType → Bool
type_exists (unlisted c) = false
type_exists _ = true

-- What parseTypeinfoString comes to. `undefined` is behaviour that the standard leaves undefined.
pub data Typeinfo : Type 0 where
  parsed : CommandType → List Arg → Typeinfo
  rejected undefined : Typeinfo

-- The argument that the loop makes of a character.
unfoldable pub arg_of_char : ℕ → Arg
arg_of_char c = record { type = type_of_char c; sym_name = []; description = [] }

-- The loop over the arguments and the test behind it. `emplace({})` takes `{}` for the place, an
-- iterator that stands at no place: only where there are no elements is it the end.
unfoldable pub parse_args : CommandType → List Arg → Bytes → Typeinfo
parse_args ret args [] = rejected
parse_args ret [] (c ∷ cs) =
    let rest = parse_args ret (arg_of_char c ∷ []) cs in
    if c == 0
    then rejected
    else if c == b')'
    then parsed ret []
    else if type_exists (type_of_char c)
    then rest
    else rejected
parse_args ret (a ∷ args) (c ∷ cs) =
    if c == 0 then rejected else if c == b')' then parsed ret (a ∷ args) else undefined

-- A text has a NUL behind its end.
abbrev pub head_of : Bytes → ℕ
head_of [] = 0
head_of (c ∷ cs) = c

abbrev pub tail_of : Bytes → Bytes
tail_of [] = []
tail_of (c ∷ cs) = cs

-- `parseTypeinfoString`.
unfoldable pub parse_typeinfo_string : Bytes → Typeinfo
parse_typeinfo_string info =
    if type_exists (type_of_char (head_of info))
    then if head_of (tail_of info) == b'('
      then parse_args (type_of_char (head_of info)) [] (tail_of (tail_of info))
      else rejected
    else rejected

-- A library: its number, the symbols in it, and the text that a symbol points to, empty where there
-- is no such symbol (`lookupString`).
pub record Library : Type 0 where
  pub number : ℕ
  pub symbols : List Bytes
  pub lookup_string : Bytes → Bytes

-- What one symbol exports.
pub data Export : Type 0 where
  exports : Command → Export
  no_command broken undefined : Export

abbrev pub command_of : Library → Bytes → CommandType → List Arg → Command
command_of library symbol ret args = record {
  library = library.number;
  db_symbol = library.lookup_string (symbol ++ codes "_name");
  cpp_symbol = symbol;
  help_file = library.lookup_string (symbol ++ codes "_helpfile");
  args = args;
  return_type = ret;
}

abbrev pub is_empty : Bytes → Bool
is_empty [] = true
is_empty (c ∷ cs) = false

-- The body of the loop in populateIndexFromLibrary.
unfoldable pub export_of : Library → Bytes → Export
export_of library symbol =
    if is_empty (library.lookup_string (symbol ++ codes "_name"))
    then no_command
    else if is_empty (library.lookup_string (symbol ++ codes "_typeinfo"))
    then no_command
    else elim (parse_typeinfo_string (library.lookup_string (symbol ++ codes "_typeinfo"))) [
      | parsed ret args ↦ exports (command_of library symbol ret args)
      | rejected ↦ broken
      | undefined ↦ Export.undefined
    ]

-- The index that is left, and what the function returns.
pub data Loaded : Type 0 where
  loaded stopped : CommandIndex → Loaded
  undefined : Loaded

unfoldable pub populate_symbols : Library → List Bytes → CommandIndex → Loaded
populate_symbols library [] index = loaded index
populate_symbols library (symbol ∷ symbols) index = elim (export_of library symbol) [
  | exports c ↦ populate_symbols library symbols (add_command index c)
  | no_command ↦ populate_symbols library symbols index
  | broken ↦ stopped index
  | undefined ↦ Loaded.undefined
]

-- `populateIndexFromLibrary`.
unfoldable pub populate_from_library : Library → CommandIndex → Loaded
populate_from_library library index = populate_symbols library library.symbols index

-- The loop over the plugins; one that does not open is passed over.
unfoldable pub populate_libraries : List (Option Library) → CommandIndex → Loaded
populate_libraries [] index = loaded index
populate_libraries (none ∷ libraries) index = populate_libraries libraries index
populate_libraries (some library ∷ libraries) index = elim (populate_from_library library index) [
  | loaded index' ↦ populate_libraries libraries index'
  | stopped index' ↦ stopped index'
  | undefined ↦ Loaded.undefined
]

-- The file system: the directories, and the dynamic libraries below one.
pub record FileSystem : Type 0 where
  pub is_directory : Bytes → Bool
  pub libraries_below : Bytes → List (Option Library)

-- The loop over the directories of plugins. Each round visits the directory of the SDK; no result is
-- the exception where that is no directory.
unfoldable pub plugins_of_dirs : FileSystem → Bytes → List Bytes → Option (List (Option Library))
plugins_of_dirs fs sdk_plugins [] = some []
plugins_of_dirs fs sdk_plugins (dir ∷ dirs) = elim (plugins_of_dirs fs sdk_plugins dirs) [
  | none ↦ none
  | some more ↦
      if fs.is_directory dir
      then if fs.is_directory sdk_plugins
        then some (fs.libraries_below sdk_plugins ++ more)
        else none
      else some more
]

-- `populateIndex`; no result is an exception.
unfoldable pub populate_index : FileSystem → Bytes → List Bytes → CommandIndex → Option Loaded
populate_index fs sdk_root dirs index =
    if fs.is_directory sdk_root
    then elim (plugins_of_dirs fs (sdk_root ++ codes "/plugins") dirs) [
      | none ↦ none
      | some more ↦ some (
          populate_libraries
            ((if fs.is_directory (sdk_root ++ codes "/plugins")
                then fs.libraries_below (sdk_root ++ codes "/plugins")
                else [])
              ++ more)
            index)
    ]
    else some (stopped index)

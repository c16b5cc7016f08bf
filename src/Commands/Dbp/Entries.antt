-- ===== src/Commands/Dbp/Entries.antt =====
-- odb-compiler/src/commands/DBPCommandLoader.cpp: what an entry of the string table describes.
use open_dark_basic.Prelude.{
  ℕ, ◌≡◌, refl, ap, sym, ◌∙◌, Bool, false, some, List, [], ◌∷◌, ◌++◌, map, Bytes, All, ◌≢◌, ==_ne,
  Bool-cases, inl, inr, if◌then◌else◌,
}
use open_dark_basic.Str.{to_lower}
use open_dark_basic.Str.Split.{join, Lacks, split-join}
use open_dark_basic.Commands.Command.{Command, CommandType, Arg, type_eq}
use open_dark_basic.Commands.Loader.{type_of_char}
use open_dark_basic.Commands.Dbp.{
  described, skipped, split_last, entry_args, argument_names, finish_entry, returning_entry,
  parse_tokens, parse_entry,
}

-- The letter of a type.
unfoldable pub char_of_type : CommandType → ℕ
char_of_type CommandType.integer = b'L'
char_of_type CommandType.float = b'F'
char_of_type CommandType.string = b'S'
char_of_type CommandType.double = b'O'
char_of_type CommandType.long = b'R'
char_of_type CommandType.dword = b'D'
char_of_type CommandType.void = b'0'
char_of_type (CommandType.unlisted c) = c

-- A type that its letter gives back: no other type's letter stands for it.
abbrev pub IsLettered : CommandType → Type 0
IsLettered t = type_of_char (char_of_type t) ≡ t

-- An argument as an entry can describe it.
abbrev pub IsPlain : Arg → Type 0
IsPlain a = IsLettered a.type × (type_eq a.type CommandType.void ≡ false) × (a.sym_name ≡ [])

abbrev pub names_token : List Arg → List Bytes
names_token [] = []
names_token (a ∷ args) = join b',' (map (λ a. a.description) (a ∷ args)) ∷ []

-- The two forms of an entry: with a bracket behind the name, and the result's type before those of the
-- arguments; and without, where there is no result.
pub data Form : Type 0 where
  bracketed bare : Form

abbrev pub name_token : Form → Command → Bytes
name_token bracketed c = c.db_symbol ++ b'[' ∷ []
name_token bare c = c.db_symbol

abbrev pub types_token : Form → Command → Bytes
types_token bracketed c = char_of_type c.return_type ∷ map (λ a. char_of_type a.type) c.args
types_token bare c = map (λ a. char_of_type a.type) c.args

-- The tokens of an entry: the name, the letters of the types, the symbol, the names of the arguments.
abbrev pub entry_tokens : Form → Command → List Bytes
entry_tokens form c = name_token form c ∷ types_token form c ∷ c.cpp_symbol ∷ names_token c.args

unfoldable pub print_entry : Form → Command → Bytes
print_entry form c = join b'%' (entry_tokens form c)

-- Whether a command has this form: the result's type has a letter; or it is void, and the name ends in
-- a byte that is not the bracket.
abbrev pub HasForm : Form → Command → Type 0
HasForm bracketed c = IsLettered c.return_type
HasForm bare c =
    (c.return_type ≡ CommandType.void)
    × ((front : Bytes) × (last : ℕ) × (c.db_symbol ≡ front ++ last ∷ []) × (last ≢ b'['))

split_last-append : (s : Bytes) (c : ℕ) → split_last (s ++ c ∷ []) ≡ some (s, c)
unfolding split_last
split_last-append [] c = refl
split_last-append (a ∷ []) c = refl
split_last-append (a ∷ b ∷ s) c = rw (split_last-append (b ∷ s) c) refl

names_back :
    (args : List Arg)
    → All (Lacks b',') (map (λ a. a.description) args)
    → argument_names (names_token args) ≡ some (map (λ a. a.description) args)
unfolding argument_names
names_back [] h = refl
names_back (a ∷ args) h = split-join b',' a.description (map (λ a. a.description) args) h

args_back :
    (args : List Arg)
    → All IsPlain args
    → entry_args (map (λ a. char_of_type a.type) args) (map (λ a. a.description) args) ≡ args
unfolding entry_args
args_back [] h = refl
args_back (a ∷ args) ((letter, some_type, empty), hs) =
    rw (letter, some_type, args_back args hs)
      (ap (λ n. record { type = a.type; sym_name = n; description = a.description } ∷ args)
        (sym empty))

module _ (is_keyword : Bytes → Bool) (library : ℕ) where
  -- Behind the name and the result's type, an entry is skipped or describes the command.
  finished :
      (c : Command)
      → to_lower c.db_symbol ≡ c.db_symbol
      → All (Lacks b',') (map (λ a. a.description) c.args)
      → All IsPlain c.args
      → c.library ≡ library
      → c.help_file ≡ []
      → finish_entry is_keyword library c.db_symbol
          (map (λ a. char_of_type a.type) c.args)
          c.cpp_symbol
          (names_token c.args)
          c.return_type
        ≡ (if is_keyword c.db_symbol then skipped else described c)
  unfolding finish_entry
  finished c low commas plain same no_help = elim (Bool-cases (is_keyword c.db_symbol)) [
    | inl word ↦ rw (low, word, finish_entry) refl
    | inr free ↦
        rw (low, free, names_back c.args commas, args_back c.args plain, ← same, finish_entry)
          (ap (λ name. described (record c { db_symbol = name; help_file = [] })) low
            ∙ ap (λ help. described (record c { help_file = help })) (sym no_help))
  ]

  parsed :
      (form : Form) (c : Command)
      → HasForm form c
      → parse_tokens is_keyword library (entry_tokens form c)
        ≡ finish_entry is_keyword library c.db_symbol
            (map (λ a. char_of_type a.type) c.args)
            c.cpp_symbol
            (names_token c.args)
            c.return_type
  unfolding parse_tokens returning_entry
  parsed bracketed c letter =
      rw (split_last-append c.db_symbol b'[', letter, parse_tokens, returning_entry) refl
  parsed bare c (no_result, (front, last, name, other)) =
      let parts : split_last c.db_symbol ≡ some (front, last) =
        ap split_last name ∙ split_last-append front last in
      rw (parts, ==_ne last b'[' other, no_result, parse_tokens) refl

  -- An entry in either form that is printed for a command of the library reads back as that command, or
  -- is skipped where the name is a keyword. The name is in lower case, no token has a percent sign, no
  -- argument's name a comma, the arguments have types with a letter, none of them void, and there is no
  -- help file.
  pub parse_entry-print_entry :
      (form : Form) (c : Command)
      → HasForm form c
      → to_lower c.db_symbol ≡ c.db_symbol
      → All (Lacks b'%') (entry_tokens form c)
      → All (Lacks b',') (map (λ a. a.description) c.args)
      → All IsPlain c.args
      → c.library ≡ library
      → c.help_file ≡ []
      → parse_entry is_keyword library (print_entry form c)
        ≡ (if is_keyword c.db_symbol then skipped else described c)
  unfolding parse_entry print_entry
  parse_entry-print_entry form c has low lacks commas plain same no_help =
      let tokens =
        split-join b'%' (name_token form c) (types_token form c ∷ c.cpp_symbol ∷ names_token c.args)
          lacks in
      rw (tokens, parse_entry, print_entry)
        (parsed form c has ∙ finished c low commas plain same no_help)

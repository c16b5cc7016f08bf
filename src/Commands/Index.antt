-- ===== src/Commands/Index.antt =====
-- odb-compiler/src/commands/CommandIndex.cpp: the index that collects the commands of all plugins.
pub mod Conflicts
pub mod Lookup
use open_dark_basic.Prelude.{
  ℕ, Bool, true, false, ◌&&◌, Option, none, some, List, [], ◌∷◌, ◌++◌, map, Bytes, ◌==◌,
  if◌then◌else◌, length, keep, any_of,
}
use open_dark_basic.Str.{to_lower}
use open_dark_basic.Commands.Command.{Command, Arg, CommandType, type_eq}

-- `==` of two texts.
abbrev pub text_eq : Bytes → Bytes → Bool
text_eq [] [] = true
text_eq (x ∷ a) (y ∷ b) = x == y && text_eq a b
text_eq _ _ = false

-- `commands_`, and the multimap `commandLookupTable_` by name. The standard leaves open in which
-- order a multimap gives the entries of one key; here it is that of insertion.
pub record CommandIndex : Type 0 where
  pub commands : List Command
  pub lookup_table : List (Bytes × Command)

abbrev pub empty : CommandIndex
empty = record { commands = []; lookup_table = [] }

-- `addCommand`.
unfoldable pub add_command : CommandIndex → Command → CommandIndex
add_command index c = record {
  commands = index.commands ++ c ∷ [];
  lookup_table = index.lookup_table ++ (c.db_symbol, c) ∷ [];
}

-- The loop over the arguments of both commands, as far as both have one.
abbrev pub types_agree : List Arg → List Arg → Bool
types_agree (a ∷ as') (b ∷ bs) = if type_eq a.type b.type then types_agree as' bs else false
types_agree [] bs = true
types_agree as' [] = true

-- `compare`, inside `findConflicts`.
unfoldable pub same_signature : Command → Command → Bool
same_signature a b =
    if types_agree a.args b.args
    then if length a.args == length b.args then type_eq a.return_type b.return_type else false
    else false

-- `map_`, from a name to the overloads seen under it.
abbrev pub Overloads : Type 0
Overloads = List (Bytes × List Command)

pub find_overloads : Bytes → Overloads → Option (List Command)
find_overloads name [] = none
find_overloads name ((n, cs) ∷ seen) = if text_eq n name then some cs else find_overloads name seen

-- The loop of `findConflicts`. A name that is new is put into the map with its command; one that is
-- there is compared with the overloads under it, which stay as they are.
pub conflict_loop : Overloads → List Command → Bool
conflict_loop seen [] = false
conflict_loop seen (c ∷ cs) = elim (find_overloads (to_lower c.db_symbol) seen) [
  | none ↦ conflict_loop ((to_lower c.db_symbol, c ∷ []) ∷ seen) cs
  | some overloads ↦
      let rest = conflict_loop seen cs in
      if any_of (λ overload. same_signature c overload) overloads then true else rest
]

unfoldable pub find_conflicts : CommandIndex → Bool
unfolding conflict_loop find_overloads
find_conflicts index = conflict_loop [] index.commands

-- The values of the entries whose key is `name`.
pub equal_range : Bytes → List (Bytes × Command) → List Command
equal_range name [] = []
equal_range name ((n, c) ∷ table) =
    if text_eq n name then c ∷ equal_range name table else equal_range name table

unfoldable pub lookup : CommandIndex → Bytes → List Command
unfolding equal_range
lookup index name = equal_range (to_lower name) index.lookup_table

-- `commandNamesAsList`.
unfoldable pub command_names_as_list : CommandIndex → List Bytes
command_names_as_list index = map (λ c. c.db_symbol) index.commands

-- An insertion into a set of libraries.
pub insert_library : ℕ → List ℕ → List ℕ
insert_library l libraries = if any_of (λ m. m == l) libraries then libraries else l ∷ libraries

pub collect_libraries : List Command → List ℕ
unfolding insert_library
collect_libraries [] = []
collect_libraries (c ∷ cs) = insert_library c.library (collect_libraries cs)

-- `librariesAsList`, whose order the standard leaves open.
unfoldable pub libraries_as_list : CommandIndex → List ℕ
unfolding collect_libraries
libraries_as_list index = collect_libraries index.commands

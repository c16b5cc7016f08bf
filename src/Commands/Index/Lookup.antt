-- ===== src/Commands/Index/Lookup.antt =====
-- odb-compiler/src/commands/CommandIndex.cpp: what `lookup` and `librariesAsList` return.
use open_dark_basic.Prelude.{
  ℕ, ◌≡◌, ◌≢◌, ◌↔◌, refl, ap, sym, ◌∙◌, subst, true, inl, inr, List, [], ◌∷◌, ◌++◌, map, Bytes,
  ◌==◌, any_of, arith, Bool-cases, ==_iff, ==_self, In,
}
use mathlib.Core.List.{map-append, append-nil, append_assoc}
use open_dark_basic.Str.{to_lower}
use open_dark_basic.Str.Case.{to_lower_idem}
use open_dark_basic.Commands.Command.{Command}
use open_dark_basic.Commands.Index.{
  CommandIndex, text_eq, add_command, empty, equal_range, lookup, insert_library, collect_libraries,
  libraries_as_list,
}
use open_dark_basic.Commands.Index.Conflicts.{text_eq→eq, text_eq_self}

abbrev entry : Command → Bytes × Command
entry c = (c.db_symbol, c)

-- The table holds the commands under their names.
pub record IsIndexed (index : CommandIndex) : Type 0 where
  pub entries : index.lookup_table ≡ map entry index.commands

empty-IsIndexed : IsIndexed empty
empty-IsIndexed = record { entries = refl }

pub add_command-IsIndexed :
    (index : CommandIndex) (c : Command) → IsIndexed index → IsIndexed (add_command index c)
unfolding add_command
add_command-IsIndexed index c v = record {
  entries = rw v.entries (sym (map-append entry index.commands (c ∷ [])));
}

-- The index after adding commands, in their order.
pub add_commands : CommandIndex → List Command → CommandIndex
add_commands index [] = index
add_commands index (c ∷ cs) = add_commands (add_command index c) cs

add_commands-IsIndexed :
    (index : CommandIndex) (cs : List Command) → IsIndexed index → IsIndexed (add_commands index cs)
unfolding add_commands
add_commands-IsIndexed index [] v = v
add_commands-IsIndexed index (c ∷ cs) v =
    add_commands-IsIndexed (add_command index c) cs (add_command-IsIndexed index c v)

commands-add_commands :
    (index : CommandIndex) (cs : List Command)
    → (add_commands index cs).commands ≡ index.commands ++ cs
unfolding add_commands add_command
commands-add_commands index [] = sym (append-nil index.commands)
commands-add_commands index (c ∷ cs) =
    commands-add_commands (add_command index c) cs ∙ append_assoc index.commands (c ∷ []) cs

first_or_rest :
    (c d : Command) (name : Bytes) (cs rest : List Command)
    → d.db_symbol ≡ name
    → (In c rest → In c cs × (c.db_symbol ≡ name))
    → In c (d ∷ rest)
    → In c (d ∷ cs) × (c.db_symbol ≡ name)
first_or_rest c d name cs rest e f (inl s) = (inl s, ap (λ (x : Command). x.db_symbol) s ∙ e)
first_or_rest c d name cs rest e f (inr i) = let (j, n) = f i in (inr j, n)

equal_range→In :
    (c : Command) (name : Bytes) (cs : List Command)
    → In c (equal_range name (map entry cs))
    → In c cs × (c.db_symbol ≡ name)
unfolding equal_range
equal_range→In c name [] i = absurd i
equal_range→In c name (d ∷ cs) i = elim (Bool-cases (text_eq d.db_symbol name)) [
  | inl t ↦
      first_or_rest c d name cs _ (text_eq→eq d.db_symbol name t) (equal_range→In c name cs)
        (rw t at i)
  | inr f ↦ let r = equal_range→In c name cs (rw f at i) in (inr r.0, r.1)
]

In→equal_range :
    (c : Command) (name : Bytes) (cs : List Command)
    → In c cs
    → c.db_symbol ≡ name
    → In c (equal_range name (map entry cs))
unfolding equal_range
In→equal_range c name [] i e = absurd i
In→equal_range c name (d ∷ cs) (inl s) e =
    let hit : text_eq d.db_symbol name ≡ true = rw (← s, e) (text_eq_self name) in rw hit (inl s)
In→equal_range c name (d ∷ cs) (inr i) e = elim (Bool-cases (text_eq d.db_symbol name)) [
  | inl t ↦ rw t (inr (In→equal_range c name cs i e))
  | inr f ↦ rw f (In→equal_range c name cs i e)
]

-- In an index filled by `addCommand`, `lookup` returns exactly the commands whose name is the
-- lowered text: case is ignored in what is looked up, and not in the names that were added.
pub lookup_iff :
    (cs : List Command) (name : Bytes) (c : Command)
    → In c (lookup (add_commands empty cs) name) ↔ (In c cs × (c.db_symbol ≡ to_lower name))
unfolding lookup
lookup_iff cs name c =
    let table : (add_commands empty cs).lookup_table ≡ map entry cs =
      (add_commands-IsIndexed empty cs empty-IsIndexed).entries
      ∙ ap (map entry) (commands-add_commands empty cs) in
    (
      λ i. equal_range→In c (to_lower name) cs (rw table at i),
      λ r. rw table (In→equal_range c (to_lower name) cs r.0 r.1),
    )

-- So a command whose name has an upper-case letter is never found, by any text.
pub lookup_unreachable :
    (cs : List Command) (name : Bytes) (c : Command)
    → to_lower c.db_symbol ≢ c.db_symbol
    → ¬ In c (lookup (add_commands empty cs) name)
lookup_unreachable cs name c upper i =
    let (_, e) = (lookup_iff cs name c).0 i in upper (rw e (to_lower_idem name))

-- No two entries are the same.
abbrev pub Distinct : List ℕ → Type 0
Distinct [] = Unit
Distinct (l ∷ ls) = ¬ In l ls × Distinct ls

any_of→In : (l : ℕ) (ls : List ℕ) → any_of (λ m. m == l) ls ≡ true → In l ls
any_of→In l [] h = cc
any_of→In l (m ∷ ls) h = elim (Bool-cases (m == l)) [
  | inl t ↦ inl (sym ((==_iff m l).0 t))
  | inr f ↦ inr (any_of→In l ls (rw f at h))
]

In→any_of : (l : ℕ) (ls : List ℕ) → In l ls → any_of (λ m. m == l) ls ≡ true
In→any_of l [] i = absurd i
In→any_of l (m ∷ ls) (inl e) = rw (← e, ==_self l)
In→any_of l (m ∷ ls) (inr i) = ground (arith, In→any_of l ls i)

insert_library_iff : (l m : ℕ) (ls : List ℕ) → In m (insert_library l ls) ↔ In m (l ∷ ls)
unfolding insert_library
insert_library_iff l m ls = elim (Bool-cases (any_of (λ k. k == l) ls)) [
  | inl t ↦
      rw t
        (λ i. inr i, elim [ inl e ↦ subst (λ k. In k ls) (sym e) (any_of→In l ls t) | inr i ↦ i ])
  | inr f ↦ rw f (λ i. i, λ i. i)
]

insert_library-Distinct : (l : ℕ) (ls : List ℕ) → Distinct ls → Distinct (insert_library l ls)
unfolding insert_library
insert_library-Distinct l ls d = elim (Bool-cases (any_of (λ k. k == l) ls)) [
  | inl t ↦ rw t d
  | inr f ↦ rw f (λ i. cc (sym f ∙ In→any_of l ls i), d)
]

collect-Distinct : (cs : List Command) → Distinct (collect_libraries cs)
unfolding collect_libraries
collect-Distinct [] = tt
collect-Distinct (c ∷ cs) = insert_library-Distinct c.library _ (collect-Distinct cs)

In-collect : (cs : List Command) (c : Command) → In c cs → In c.library (collect_libraries cs)
unfolding collect_libraries
In-collect [] c i = absurd i
In-collect (d ∷ cs) c (inl e) =
    (insert_library_iff d.library c.library _).1 (inl (ap (λ (x : Command). x.library) e))
In-collect (d ∷ cs) c (inr i) =
    (insert_library_iff d.library c.library _).1 (inr (In-collect cs c i))

of_first_or_rest :
    (d : Command) (cs : List Command) (l : ℕ) (ls : List ℕ)
    → (In l ls → (c : Command) × In c cs × (c.library ≡ l))
    → In l (d.library ∷ ls)
    → (c : Command) × In c (d ∷ cs) × (c.library ≡ l)
of_first_or_rest d cs l ls f (inl e) = (d, inl refl, sym e)
of_first_or_rest d cs l ls f (inr i) = let (c, j, e) = f i in (c, inr j, e)

collect-In :
    (cs : List Command) (l : ℕ)
    → In l (collect_libraries cs)
    → (c : Command) × In c cs × (c.library ≡ l)
unfolding collect_libraries
collect-In [] l i = absurd i
collect-In (d ∷ cs) l i =
    of_first_or_rest d cs l (collect_libraries cs) (collect-In cs l)
      ((insert_library_iff d.library l (collect_libraries cs)).0 i)

-- The libraries that are returned are those of the commands, each once.
pub libraries_as_list_lem :
    (index : CommandIndex)
    → Distinct (libraries_as_list index)
      × ((c : Command) → In c index.commands → In c.library (libraries_as_list index))
      × ((l : ℕ)
          → In l (libraries_as_list index)
          → (c : Command) × In c index.commands × (c.library ≡ l))
unfolding libraries_as_list
libraries_as_list_lem index =
    (collect-Distinct index.commands, In-collect index.commands, collect-In index.commands)

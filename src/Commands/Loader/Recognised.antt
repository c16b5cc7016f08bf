-- ===== src/Commands/Loader/Recognised.antt =====
-- odb-compiler/src/commands/: from a plugin to the parser: the loader fills the index, and the matcher
-- that is made of it finds the commands.
use open_dark_basic.Prelude.{
  ◌<◌, ◌≡◌, ◌≢◌, ◌↔◌, ◌⊎◌, inl, inr, refl, sym, ap, ◌∙◌, subst, Bool, true, false, List, [], ◌∷◌,
  ◌++◌, Bytes, codes, All, In, In-append, All-of_In, length, if◌then◌else◌,
}
use open_dark_basic.Str.{to_lower}
use open_dark_basic.Commands.Command.{Command}
use open_dark_basic.Commands.Index.{CommandIndex, add_command, empty}
use open_dark_basic.Commands.Matcher.{find_longest_command_matching, update_from_index}
use open_dark_basic.Commands.Matcher.Narrow.{IsText}
use open_dark_basic.Commands.Matcher.Search.{found_whole_iff, update_from_index-IsMatcher}
use open_dark_basic.Commands.Loader.{
  Typeinfo, parsed, rejected, undefined, parse_typeinfo_string, Library, Export, exports,
  no_command, broken, command_of, is_empty, export_of, Loaded, loaded, stopped, populate_symbols,
  populate_from_library,
}

-- The symbol has a name and a type, and the command is the one that they describe.
pub record Exports (library : Library) (symbol : Bytes) (c : Command) : Type 0 where
  pub named : library.lookup_string (symbol ++ codes "_name") ≢ []
  pub typed : library.lookup_string (symbol ++ codes "_typeinfo") ≢ []
  pub understood :
      parse_typeinfo_string (library.lookup_string (symbol ++ codes "_typeinfo"))
      ≡ parsed c.return_type c.args
  pub is : c ≡ command_of library symbol c.return_type c.args

is_empty_iff : (a : Bytes) → (is_empty a ≡ false) ↔ (a ≢ [])
is_empty_iff [] = (λ h e. cc, λ h. absurd (h refl))
is_empty_iff (c ∷ cs) = (λ h e. cc, λ h. refl)

-- What the parsed type makes.
abbrev of_typeinfo : Library → Bytes → Typeinfo → Export
of_typeinfo library symbol t = elim t [
  | parsed ret args ↦ exports (command_of library symbol ret args)
  | rejected ↦ broken
  | undefined ↦ Export.undefined
]

export_of_typeinfo :
    (library : Library) (symbol : Bytes) (t : Typeinfo) (c : Command)
    → of_typeinfo library symbol t ≡ exports c
    → (t ≡ parsed c.return_type c.args) × (c ≡ command_of library symbol c.return_type c.args)
export_of_typeinfo library symbol (parsed ret args) c e =
    let same : command_of library symbol ret args ≡ c = cc in
    let r : ret ≡ c.return_type = ap (λ x. x.return_type) same in
    let a : args ≡ c.args = ap (λ x. x.args) same in (cc (r, a), sym same ∙ cc (r, a))
export_of_typeinfo library symbol rejected c e = cc
export_of_typeinfo library symbol undefined c e = cc

past_guards :
    (a b : Bool) (x : Export) (c : Command)
    → (if a then no_command else if b then no_command else x) ≡ exports c
    → (a ≡ false) × (b ≡ false) × (x ≡ exports c)
past_guards true b x c e = cc
past_guards false true x c e = cc
past_guards false false x c e = (refl, refl, e)

export_of_iff :
    (library : Library) (symbol : Bytes) (c : Command)
    → (export_of library symbol ≡ exports c) ↔ Exports library symbol c
unfolding export_of
export_of_iff library symbol c = (to, from)
  where
    to : export_of library symbol ≡ exports c → Exports library symbol c
    to e =
        let (a, b, x) = past_guards _ _ _ c e in
        let (p, q) = export_of_typeinfo library symbol _ c x in
        record {
          named = (is_empty_iff _).0 a;
          typed = (is_empty_iff _).0 b;
          understood = p;
          is = q;
        }

    from : Exports library symbol c → export_of library symbol ≡ exports c
    from v =
        let a = (is_empty_iff (library.lookup_string (symbol ++ codes "_name"))).1 v.named in
        let b = (is_empty_iff (library.lookup_string (symbol ++ codes "_typeinfo"))).1 v.typed in
        rw (a, export_of) (rw b (rw v.understood (ap exports (sym v.is))))

-- The commands of an index behind the loop: those that were there and those that were exported.
abbrev Gains : Library → List Bytes → CommandIndex → CommandIndex → Type 0
Gains library symbols index index' =
    (c : Command)
    → In c index'.commands
      ↔ (In c index.commands ⊎ ((s : Bytes) × In s symbols × Exports library s c))

In_add_command :
    (index : CommandIndex) (d c : Command)
    → In c (add_command index d).commands ↔ (In c index.commands ⊎ (c ≡ d))
unfolding add_command
In_add_command index d c =
    let (to, from) = In-append c index.commands (d ∷ []) in
    (
      λ i. elim (to i) [ inl j ↦ inl j | inr j ↦ elim j [ inl e ↦ inr e | inr k ↦ absurd k ] ],
      λ h. elim h [ inl i ↦ from (inl i) | inr e ↦ from (inr (inl e)) ],
    )

-- A symbol that exports nothing.
gain_nothing :
    (library : Library) (s : Bytes) (symbols : List Bytes) (index index' : CommandIndex)
    → ((c : Command) → export_of library s ≡ exports c → ⊥)
    → Gains library symbols index index'
    → Gains library (s ∷ symbols) index index'
gain_nothing library s symbols index index' none_ gains c =
    let (to, from) = gains c in
    (
      λ i. elim (to i) [ inl j ↦ inl j | inr (s', j, v) ↦ inr (s', inr j, v) ],
      λ h. elim h [
        | inl i ↦ from (inl i)
        | inr (s', j, v) ↦ elim j [
          | inl e ↦
              absurd
                (none_ c ((export_of_iff library s c).1 (subst (λ x. Exports library x c) e v)))
          | inr j' ↦ from (inr (s', j', v))
        ]
      ],
    )

-- A symbol that exports a command.
gain_one :
    (library : Library) (s : Bytes) (d : Command) (symbols : List Bytes)
    (index index' : CommandIndex)
    → export_of library s ≡ exports d
    → Gains library symbols (add_command index d) index'
    → Gains library (s ∷ symbols) index index'
gain_one library s d symbols index index' x gains c =
    let (to, from) = gains c in
    let (split_, join_) = In_add_command index d c in
    (
      λ i. elim (to i) [
        | inl j ↦ elim (split_ j) [
          | inl k ↦ inl k
          | inr e ↦ inr (s, inl refl, (export_of_iff library s c).0 (x ∙ ap exports (sym e)))
        ]
        | inr (s', j, v) ↦ inr (s', inr j, v)
      ],
      λ h. elim h [
        | inl i ↦ from (inl (join_ (inl i)))
        | inr (s', j, v) ↦ elim j [
          | inl e ↦ from (inl (join_ (inr (same s' e v))))
          | inr j' ↦ from (inr (s', j', v))
        ]
      ],
    )
  where
    same : (s' : Bytes) → s' ≡ s → Exports library s' c → c ≡ d
    same s' e v =
        let y = (export_of_iff library s c).1 (subst (λ z. Exports library z c) e v) in cc (x, y)

gain_symbol :
    (library : Library) (s : Bytes) (symbols : List Bytes) (index index' : CommandIndex)
    (x : Export)
    → export_of library s ≡ x
    → ((i : CommandIndex)
        → populate_symbols library symbols i ≡ loaded index'
        → Gains library symbols i index')
    → (elim x as (λ _. Loaded) [
      | exports c ↦ populate_symbols library symbols (add_command index c)
      | no_command ↦ populate_symbols library symbols index
      | broken ↦ stopped index
      | undefined ↦ Loaded.undefined
    ])
      ≡ loaded index'
    → Gains library (s ∷ symbols) index index'
gain_symbol library s symbols index index' (exports d) e ih run =
    gain_one library s d symbols index index' e (ih (add_command index d) run)
gain_symbol library s symbols index index' no_command e ih run =
    gain_nothing library s symbols index index' (λ c f. differ (sym e ∙ f)) (ih index run)
  where
    differ : {c : Command} → no_command ≡ exports c → ⊥
    differ f = cc
gain_symbol library s symbols index index' broken e ih run = cc
gain_symbol library s symbols index index' Export.undefined e ih run = cc

populate_symbols-Gains :
    (library : Library) (symbols : List Bytes) (index index' : CommandIndex)
    → populate_symbols library symbols index ≡ loaded index'
    → Gains library symbols index index'
unfolding populate_symbols
populate_symbols-Gains library [] index index' e =
    let same : index ≡ index' = cc in
    λ c. (
      λ i. inl (subst (λ x. In c x.commands) (sym same) i),
      λ h. elim h [ inl i ↦ subst (λ x. In c x.commands) same i | inr (s, i, v) ↦ absurd i ],
    )
populate_symbols-Gains library (s ∷ symbols) index index' e =
    gain_symbol library s symbols index index' (export_of library s) refl
      (λ i run. populate_symbols-Gains library symbols i index' run) e

-- Where populateIndexFromLibrary returns true, the index holds the commands that it held and those
-- that the library exports: for each symbol with a name and a type, the command that these describe.
pub populate_from_library_iff :
    (library : Library) (index index' : CommandIndex) (c : Command)
    → populate_from_library library index ≡ loaded index'
    → In c index'.commands
      ↔ (In c index.commands ⊎ ((s : Bytes) × In s library.symbols × Exports library s c))
unfolding populate_from_library
populate_from_library_iff library index index' c run =
    populate_symbols-Gains library library.symbols index index' run c

-- From the plugin to the parser: where a library with names in ASCII is loaded into an empty index,
-- the matcher that is made of the index finds every command that the library exports, in whatever
-- case its name is written.
pub exported_command_found :
    (library : Library) (index : CommandIndex)
    → populate_from_library library empty ≡ loaded index
    → ((s : Bytes) → In s library.symbols → IsText (library.lookup_string (s ++ codes "_name")))
    → (s : Bytes) (c : Command) (text : Bytes) → In s library.symbols
    → Exports library s c
    → IsText text
    → 0 < length text
    → to_lower text ≡ to_lower c.db_symbol
    → find_longest_command_matching (update_from_index index) text
      ≡ record { matched_length = length text; found = true }
exported_command_found library index run texts s c text at v ascii long case =
    let names : All (λ d. IsText d.db_symbol) index.commands =
      All-of_In (λ d. IsText d.db_symbol) index.commands is_text in
    let (matcher, holds) = update_from_index-IsMatcher index names in
    (found_whole_iff (update_from_index index) matcher text ascii long).1 (
      (holds (to_lower text)).1
        (c, (populate_from_library_iff library empty index c run).1 (inr (s, at, v)), sym case))
  where
    is_text : (d : Command) → In d index.commands → IsText d.db_symbol
    is_text d i = elim ((populate_from_library_iff library empty index d run).0 i) [
      | inl j ↦ absurd j
      | inr (s', j, w) ↦ subst (λ x. IsText x) (sym (ap (λ x. x.db_symbol) w.is)) (texts s' j)
    ]

-- ===== src/Commands/Matcher/Search.antt =====
-- odb-compiler/src/commands/CommandMatcher.cpp: what `findLongestCommandMatching` promises.
use open_dark_basic.Prelude.{
  ℕ, zero, suc, ◌≡◌, ◌≤◌, ◌<◌, ◌↔◌, refl, ap, sym, ◌∙◌, subst, true, false, inl, inr, ◌⊎◌, List, [],
  ◌∷◌, ◌++◌, map, Bytes, length, take, drop, arith, Bool-cases, In, All, All-map, All-In,
  length-take,
}
use mathlib.Core.List.{append-nil}
use open_dark_basic.Prelude.Int.{ℤ, pos, negsuc}
use open_dark_basic.Str.{char_to_lower, to_lower, strncicmp, deref}
use open_dark_basic.Str.Case.{length-to_lower, strncicmp_iff}
use open_dark_basic.Commands.Command.{Command}
use open_dark_basic.Commands.Index.{CommandIndex, command_names_as_list}
use open_dark_basic.Commands.Matcher.{
  descend, pop_match, MatchResult, CommandMatcher, char_is_symbol_token,
  find_longest_command_matching, max_by, sort_names, is_zero, update_from_index,
}
use open_dark_basic.Commands.Matcher.Order.{
  IsSorted, sort_names-IsSorted, sort_names_iff, All-sort_names,
}
use open_dark_basic.Commands.Matcher.Narrow.{IsName, IsText}
use open_dark_basic.Commands.Matcher.Sharing.{sharing}
use open_dark_basic.Commands.Matcher.Rounds.{Descended, descend-Descended}
use open_dark_basic.Commands.Matcher.Boundary.{BeginsWith, Holds, descend-Holds}

-- What the matcher's names are: sorted, lowered, free of NUL, and not longer than it says.
pub record IsMatcher (m : CommandMatcher) : Type 0 where
  pub sorted : IsSorted m.commands
  pub names : All IsName m.commands
  pub longest : All (λ a. length a ≤ m.longest_command_length) m.commands

max_by-bound : (f : Bytes → ℕ) (ss : List Bytes) → All (λ s. f s ≤ max_by f ss) ss
unfolding max_by
max_by-bound f [] = tt
max_by-bound f (s ∷ ss) = (
  ground arith,
  All-map (λ a. f a ≤ max_by f ss) (λ a. f a ≤ max_by f (s ∷ ss)) (λ a h. ground arith) ss
      (max_by-bound f ss),
)

to_lower-IsName : (s : Bytes) → IsText s → IsName (to_lower s)
unfolding to_lower char_to_lower
to_lower-IsName [] h = tt
to_lower-IsName (c ∷ s) h = (ground (arith, h.0), to_lower-IsName s h.1)

lowered :
    (cs : List Command)
    → All (λ c. IsText c.db_symbol) cs
    → All IsName (map to_lower (map (λ c. c.db_symbol) cs))
lowered [] h = tt
lowered (c ∷ cs) h = (to_lower-IsName c.db_symbol h.0, lowered cs h.1)

In-lowered :
    (a : Bytes) (cs : List Command)
    → In a (map to_lower (map (λ c. c.db_symbol) cs))
      ↔ ((c : Command) × In c cs × (to_lower c.db_symbol ≡ a))
In-lowered a [] = (λ i. absurd i, λ (c, i, e). absurd i)
In-lowered a (b ∷ cs) =
    let (to, from) = In-lowered a cs in
    (
      elim [ inl e ↦ (b, inl refl, sym e) | inr i ↦ let (c, j, e) = to i in (c, inr j, e) ],
      λ (c, i, e). at_place c e i from,
    )
  where
    at_place :
        (c : Command)
        → to_lower c.db_symbol ≡ a
        → In c (b ∷ cs)
        → (((d : Command) × In d cs × (to_lower d.db_symbol ≡ a))
            → In a (map to_lower (map (λ d. d.db_symbol) cs)))
        → In a (map to_lower (map (λ d. d.db_symbol) (b ∷ cs)))
    at_place c e (inl same) f = inl (sym e ∙ ap (λ d. to_lower d.db_symbol) same)
    at_place c e (inr i) f = inr (f (c, i, e))

-- A name is its own lower case, and has no NUL.
to_lower-name : (a : Bytes) → IsName a → to_lower a ≡ a
unfolding to_lower
to_lower-name [] h = refl
to_lower-name (c ∷ a) h = cc (h.0.2, to_lower-name a h.1)

take-length : (a : Bytes) → take (length a) a ≡ a
take-length [] = refl
take-length (c ∷ a) = ap (λ t. c ∷ t) (take-length a)

is_zero_iff : (z : ℤ) → (is_zero z ≡ true) ↔ (z ≡ pos 0)
is_zero_iff (pos n) = ground arith
is_zero_iff (negsuc n) = (λ e. cc, λ e. cc)

-- The test of the second loop: does the text begin with the name?
tests-BeginsWith :
    (str name : Bytes)
    → IsText str
    → IsName name
    → (is_zero (strncicmp str name (length name)) ≡ true) ↔ BeginsWith str name
tests-BeginsWith str name ht hn =
    let (to, from) =
      strncicmp_iff str name (length name) (All-map _ _ (λ c h. h.0) str ht)
        (All-map _ _ (λ c h. h.0) name hn) in
    let (is0, as0) = is_zero_iff (strncicmp str name (length name)) in
    let whole : take (length name) (to_lower name) ≡ name =
      ap (take (length name)) (to_lower-name name hn) ∙ take-length name in
    (λ e. to (is0 e) ∙ whole, λ e. as0 (from (e ∙ sym whole)))

-- A name of the list with which the text begins, and it is what the result says.
abbrev pub FoundIn : Bytes → List Bytes → MatchResult → Type 0
FoundIn str names r =
    (r.found ≡ true) × ((a : Bytes) × In a names × BeginsWith str a × (r.matched_length ≡ length a))

-- The second loop finds a name on the stack with which the text begins, or there is none.
pop_match_lem :
    (str : Bytes) (k : ℕ) (stack : List Bytes)
    → IsText str
    → All IsName stack
    → FoundIn str stack (pop_match str k stack)
      ⊎ (pop_match str k stack ≡ record { matched_length = k; found = false })
unfolding pop_match
pop_match_lem str k [] ht hs = inr refl
pop_match_lem str k (a ∷ stack) ht hs = elim (Bool-cases (is_zero (strncicmp str a (length a)))) [
  | inl t ↦ rw t (inl (refl, (a, inl refl, (tests-BeginsWith str a ht hs.0).0 t, refl)))
  | inr n ↦ rw n (elim (pop_match_lem str k stack ht hs.1) [
    | inl (hit, (b, i, begins, long)) ↦ inl (hit, (b, inr i, begins, long))
    | inr miss ↦ inr miss
  ])
]

-- Below names that are at least as long, a name with which the text begins is found, or a longer.
pop_match-longest :
    (str : Bytes) (k : ℕ) (deeper others : List Bytes) (name : Bytes)
    → IsText str
    → IsName name
    → BeginsWith str name
    → All (λ a. length name ≤ length a) deeper
    → (let r = pop_match str k (deeper ++ name ∷ others) in
        (r.found ≡ true) × (length name ≤ r.matched_length))
unfolding pop_match
pop_match-longest str k [] others name ht hn b h =
    rw ((tests-BeginsWith str name ht hn).1 b) (refl, omega arith)
pop_match-longest str k (a ∷ deeper) others name ht hn b h =
    elim (Bool-cases (is_zero (strncicmp str a (length a)))) [
      | inl t ↦ rw t (refl, h.0)
      | inr n ↦ rw n (pop_match-longest str k deeper others name ht hn b h.1)
    ]

take_all : (a : Bytes) (n : ℕ) → length a ≤ n → take n a ≡ a
take_all [] zero h = refl
take_all (x ∷ a) zero h = absurd (omega (arith, h))
take_all [] (suc n) h = refl
take_all (x ∷ a) (suc n) h = ap (λ t. x ∷ t) (take_all a n (omega arith))

drop_all : (a : Bytes) (n : ℕ) → length a ≤ n → drop n a ≡ []
drop_all [] zero h = refl
drop_all (x ∷ a) zero h = absurd (omega (arith, h))
drop_all [] (suc n) h = refl
drop_all (x ∷ a) (suc n) h = drop_all a n (omega arith)

result_eq :
    (r : MatchResult) (n : ℕ)
    → r.found ≡ true
    → r.matched_length ≡ n
    → r ≡ record { matched_length = n; found = true }
result_eq r n f l = cc (f, l)

sharing_zero : (str : Bytes) (names : List Bytes) → sharing str 0 names ≡ names
sharing_zero str [] = refl
sharing_zero str (a ∷ names) = ap (λ t. a ∷ t) (sharing_zero str names)

module _ (m : CommandMatcher) (ok : IsMatcher m) (str : Bytes) (text : IsText str) where
  whole_descent :
      Descended str text m.commands ok.sorted ok.names 0 [] (descend str str 0 m.commands [])
  whole_descent =
      subst
        (λ names.
          Descended str text m.commands ok.sorted ok.names 0 [] (descend str str 0 names []))
        (sharing_zero str m.commands)
        (descend-Descended str text m.commands ok.sorted ok.names str 0 [] refl (omega arith))

  pushed : List Bytes
  pushed = whole_descent.pushed

  stack_known : All (λ a. In a m.commands) (descend str str 0 m.commands []).command_stack
  stack_known =
      subst (λ stack. All (λ a. In a m.commands) stack)
        (sym (whole_descent.grows ∙ append-nil whole_descent.pushed)) whole_descent.known

  outcome :
      FoundIn str
        (descend str str 0 m.commands []).command_stack
        (find_longest_command_matching m str)
      ⊎ (find_longest_command_matching m str ≡ record {
        matched_length = (descend str str 0 m.commands []).matched_len;
        found = false;
      })
  unfolding find_longest_command_matching
  outcome =
      pop_match_lem str _ _ text
        (All-map _ _ (λ a i. All-In IsName a m.commands ok.names i) _ stack_known)

  -- What is found is a command's name with which the text begins, case aside, and `matched_length`
  -- is its length.
  pub found_sound :
      (find_longest_command_matching m str).found ≡ true
      → FoundIn str m.commands (find_longest_command_matching m str)
  found_sound h = elim outcome [
    | inl (hit, (a, i, begins, long)) ↦ (hit, (a, All-In _ a _ stack_known i, begins, long))
    | inr miss ↦ absurd (ground (arith, h, ap MatchResult.found miss))
  ]

  -- The longest: where the text begins with a command's name that ends at the end of a word, one is
  -- found, and it is no shorter than that one.
  pub found_longest :
      (name : Bytes)
      → In name m.commands
      → 0 < length name
      → BeginsWith str name
      → char_is_symbol_token (deref (drop (length name) str)) ≡ false
      → ((find_longest_command_matching m str).found ≡ true)
        × (length name ≤ (find_longest_command_matching m str).matched_length)
  unfolding find_longest_command_matching
  found_longest name i z begins ends =
      let held : Holds name (descend str str 0 m.commands []).command_stack =
        subst (λ names. Holds name (descend str str 0 names []).command_stack)
          (sharing_zero str m.commands)
          (descend-Holds str text m.commands ok.sorted ok.names name i begins ends str 0 [] refl
            z) in
      rw (held.place) (
        pop_match-longest str _ held.deeper held.others name text
          (All-In IsName name m.commands ok.names i) begins held.longer)

  -- A text is found whole exactly when it is a command's name, case aside.
  pub found_whole_iff :
      0 < length str
      → (find_longest_command_matching m str ≡ record { matched_length = length str; found = true })
        ↔ In (to_lower str) m.commands
  found_whole_iff z = (to, from)
    where
      to :
          find_longest_command_matching m str ≡ record { matched_length = length str; found = true }
          → In (to_lower str) m.commands
      to e =
          let (_, (a, i, begins, long)) = found_sound (ap MatchResult.found e) in
          let all_of_it : length a ≡ length str = sym long ∙ ap MatchResult.matched_length e in
          let is : to_lower str ≡ a =
            sym (take_all (to_lower str) (length a) (omega (arith, all_of_it, length-to_lower str)))
            ∙ begins in
          subst (λ s. In s m.commands) (sym is) i

      from :
          In (to_lower str) m.commands
          → find_longest_command_matching m str
            ≡ record { matched_length = length str; found = true }
      from i =
          let same = length-to_lower str in
          let nothing_after = drop_all str (length (to_lower str)) (omega (arith, same)) in
          let (hit, long) =
            found_longest (to_lower str) i (omega (arith, same, z)) (take-length (to_lower str))
              (rw nothing_after (unfold char_is_symbol_token in refl)) in
          let (_, (a, j, begins, exact)) = found_sound hit in
          let inside : length a ≤ length str =
            omega (arith, ap length begins, length-take (length a) (to_lower str), same) in
          result_eq (find_longest_command_matching m str) (length str) hit
            (omega (arith, long, exact, inside, same))

  -- What is not found: `matched_length` is the greatest number of bytes that the text has in common
  -- with the beginning of a command's name.
  pub unfound_length :
      (find_longest_command_matching m str).found ≡ false
      → (let n = (find_longest_command_matching m str).matched_length in
          (n ≤ length str)
          × ((n ≡ 0) ⊎ ((a : Bytes) × In a (sharing str n m.commands)))
          × ((n ≡ length str) ⊎ (sharing str (suc n) m.commands ≡ [])))
  unfound_length h = elim outcome [
    | inl (hit, _) ↦ absurd (ground (arith, h, hit))
    | inr miss ↦ rw miss (whole_descent.most, whole_descent.shared, whole_descent.stop)
  ]

-- The matcher that `updateFromIndex` makes: its names are in order and in lower case, and they are
-- the names of the index's commands.
pub update_from_index-IsMatcher :
    (db : CommandIndex)
    → All (λ c. IsText c.db_symbol) db.commands
    → IsMatcher (update_from_index db)
      × ((a : Bytes)
          → In a (update_from_index db).commands
            ↔ ((c : Command) × In c db.commands × (to_lower c.db_symbol ≡ a)))
unfolding update_from_index command_names_as_list
update_from_index-IsMatcher db h = (
  record {
    sorted = sort_names-IsSorted (map to_lower (command_names_as_list db));
    names = All-sort_names IsName (map to_lower (command_names_as_list db)) (lowered db.commands h);
    longest = max_by-bound length (sort_names (map to_lower (command_names_as_list db)));
  },
  λ a.
      let (to, from) = sort_names_iff a (map to_lower (map (λ c. c.db_symbol) db.commands)) in
      let (to', from') = In-lowered a db.commands in (λ i. to' (to i), λ w. from (from' w)),
)

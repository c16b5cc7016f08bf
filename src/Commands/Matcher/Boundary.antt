-- ===== src/Commands/Matcher/Boundary.antt =====
-- odb-compiler/src/commands/CommandMatcher.cpp: a name that the text begins with, and that ends at a
-- word's end, is put on the stack, and nothing shorter is found after it.
use open_dark_basic.Prelude.{
  In-keep, keep-In, ℕ, suc, ◌≡◌, ◌≤◌, ◌<◌, refl, ap, sym, ◌∙◌, subst, true, false, inl, inr, List,
  [], ◌∷◌, ◌++◌, Bytes, ◌==◌, if◌then◌else◌, length, take, drop, arith, Bool-cases, ==_iff, In, All,
  All-map, All-In, length-take,
}
use open_dark_basic.Str.{starts_with, to_lower, deref}
use open_dark_basic.Str.Case.{length-to_lower}
use open_dark_basic.Commands.Matcher.{descend, Descent, char_is_symbol_token}
use open_dark_basic.Commands.Matcher.Order.{NotAfter, IsSorted, eq_of_starts_with}
use open_dark_basic.Commands.Matcher.Narrow.{IsName, IsText, IsSorted-keep}
use open_dark_basic.Commands.Matcher.Sharing.{sharing, narrow-sharing}
use open_dark_basic.Commands.Matcher.Rounds.{
  descend_next, drop_cons, starts_with-take, List-cases, drop_nil, descend-Descended,
}

-- The text begins with the name, case aside.
abbrev pub BeginsWith : Bytes → Bytes → Type 0
BeginsWith str name = take (length name) (to_lower str) ≡ name

-- The stack holds `name`, and above it only names at least as long.
pub record Holds (name : Bytes) (stack : List Bytes) : Type 0 where
  pub deeper : List Bytes
  pub others : List Bytes
  pub place : stack ≡ deeper ++ name ∷ others
  pub longer : All (λ a. length name ≤ length a) deeper

first_is :
    (name first : Bytes) (others : List Bytes)
    → IsSorted (first ∷ others)
    → In name (first ∷ others)
    → starts_with name first ≡ true
    → first ≡ name
first_is name first others s (inl e) b = sym e
first_is name first others s (inr i) b =
    eq_of_starts_with name first b (All-In (NotAfter first) name others s.0 i)

module _ (str : Bytes) (text : IsText str) (names : List Bytes) (sorted : IsSorted names)
    (all_names : All IsName names) (name : Bytes) (known : In name names)
    (begins : BeginsWith str name)
    (ends : char_is_symbol_token (deref (drop (length name) str)) ≡ false) where
  shares : (k : ℕ) → k ≤ length name → In name (sharing str k names)
  shares k h = In-keep (starts_with (take k (to_lower str))) name names known (
      subst (λ n. starts_with (take k (to_lower str)) n ≡ true) begins
        (starts_with-take k (length name) (to_lower str) h))

  the_name :
      (k : ℕ) (first : Bytes) (others : List Bytes)
      → sharing str (suc k) names ≡ first ∷ others
      → suc k ≡ length name
      → first ≡ name
  the_name k first others e len =
      let here : In first (sharing str (suc k) names) = rw e (inl refl) in
      let (_, b) = keep-In (starts_with (take (suc k) (to_lower str))) first names here in
      let whole : take (suc k) (to_lower str) ≡ name =
        ap (λ n. take n (to_lower str)) len ∙ begins in
      first_is name first others
        (subst IsSorted e (IsSorted-keep (starts_with (take (suc k) (to_lower str))) names sorted))
        (subst (In name) e (shares (suc k) (omega arith)))
        (subst (λ p. starts_with p first ≡ true) whole b)

  -- The round that reaches the name's end pushes the name.
  at_end :
      (k : ℕ) (stack : List Bytes) (after first : Bytes)
      → suc k ≡ length name
      → suc k ≤ length str
      → drop (suc k) str ≡ after
      → first ≡ name
      → Holds name
          (descend str after
            (suc k)
            (sharing str (suc k) names)
            (if char_is_symbol_token (deref after) then stack else first ∷ stack)).command_stack
  at_end k stack after first len le e is =
      let word_end : char_is_symbol_token (deref after) ≡ false =
        subst (λ s. char_is_symbol_token (deref s) ≡ false) (ap (λ n. drop n str) (sym len) ∙ e)
          ends in
      let r = descend-Descended str text names sorted all_names after (suc k) (name ∷ stack) e le in
      rw (word_end, is)
        (record {
          deeper = r.pushed;
          others = stack;
          place = r.grows;
          longer = All-map _ _ (λ a h. omega arith) r.pushed r.long;
        })

  pub descend-Holds :
      (rest : Bytes) (k : ℕ) (stack : List Bytes)
      → drop k str ≡ rest
      → k < length name
      → Holds name (descend str rest k (sharing str k names) stack).command_stack
  descend-Holds [] k stack e lt = absurd (
      omega (
        arith,
        drop_nil k str e,
        ap length begins,
        length-take (length name) (to_lower str),
        length-to_lower str,
      ))
  descend-Holds (c ∷ rest) k stack e lt =
      let (lt', e', nz) = drop_cons k c str rest text e in
      let narrowed = narrow-sharing str k names text lt' sorted all_names in
      elim (List-cases (sharing str (suc k) names)) [
        | inl none_left ↦ absurd (subst (In name) none_left (shares (suc k) lt))
        | inr (first, others, some_left) ↦
            let next : List Bytes =
              if char_is_symbol_token (deref rest) then stack else first ∷ stack in
            let on : descend str (c ∷ rest) k (sharing str k names) stack
                ≡ descend str rest (suc k) (sharing str (suc k) names) next =
              descend_next str c rest k _ stack nz first others (narrowed ∙ some_left)
              ∙ ap (λ r. descend str rest (suc k) r next) (sym some_left) in
            subst (λ (d : Descent). Holds name d.command_stack) (sym on)
              (elim (Bool-cases (suc k == length name)) [
                | inl last ↦
                    at_end k stack rest first ((==_iff (suc k) (length name)).0 last) lt' e'
                      (the_name k first others some_left ((==_iff (suc k) (length name)).0 last))
                | inr more ↦ descend-Holds rest (suc k) next e' (ground (arith, more))
              ])
      ]

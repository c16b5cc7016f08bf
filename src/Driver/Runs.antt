-- ===== src/Driver/Runs.antt =====
-- odb-compiler/src/parsers/db/Driver.cpp: the texts that the tokens from one place on can be read as.
use open_dark_basic.Prelude.{
  ℕ, ◌≡◌, ◌≢◌, ◌≤◌, ◌<◌, refl, ap, sym, ◌∙◌, Bool, true, false, ◌&&◌, not, inl, inr, ◌⊎◌, List, [],
  ◌∷◌, ◌++◌, Bytes, ◌==◌, if◌then◌else◌, length, arith, Bool-cases, ==_self, In, All, All-In,
  All-append, length-append,
}
use open_dark_basic.Str.{to_lower}
use open_dark_basic.Str.Case.{length-to_lower}
use open_dark_basic.Commands.Matcher.{CommandMatcher, MatchResult, find_longest_command_matching}
use open_dark_basic.Commands.Matcher.Narrow.{IsText}
use open_dark_basic.Commands.Matcher.Search.{IsMatcher, found_whole_iff}
use open_dark_basic.Driver.{
  Token, Scan, is_annotation, is_integer_literal, is_end, append_token, note_match,
}

-- A text, and whether a type annotation follows it.
abbrev pub Run : Type 0
Run = Bytes × Bool

-- The text of the first token, of the first two, and so on up to the end of the file.
unfoldable pub runs : Bytes → Bool → List Token → List Run
runs text last_symbol_was_integer [] = (text, false) ∷ []
runs text last_symbol_was_integer (t ∷ coming) =
    let rest =
      runs (append_token text last_symbol_was_integer t) (is_integer_literal t.pushed_char)
        coming in
    (text, is_annotation t.pushed_char) ∷ (if is_end t.pushed_char then [] else rest)

-- The text is a command's name, case aside.
abbrev pub IsCommand : CommandMatcher → Run → Type 0
IsCommand m r = In (to_lower r.0) m.commands

pub append_token-length :
    (s : Bytes) (l : Bool) (t : Token) → length s ≤ length (append_token s l t)
unfolding append_token
append_token-length s l t = ground (
  arith,
  length-append s t.str,
  length-append (s ++ b' ' ∷ []) t.str,
  length-append s (b' ' ∷ []),
)

pub append_token-IsText :
    (s : Bytes) (l : Bool) (t : Token) → IsText s → IsText t.str → IsText (append_token s l t)
unfolding append_token
append_token-IsText s l t hs ht = elim (Bool-cases (not l && not (is_annotation t.pushed_char))) [
  | inl e ↦ rw e (
      All-append _ (s ++ b' ' ∷ []) t.str
        (All-append _ s (b' ' ∷ []) hs ((ground arith, omega arith), tt)) ht)
  | inr e ↦ rw e (All-append _ s t.str hs ht)
]

whole_match :
    (r : MatchResult) (n : ℕ)
    → (r.found && r.matched_length == n) ≡ true
    → r ≡ record { matched_length = n; found = true }
whole_match r n h =
    let f : r.found ≡ true = ground arith in
    let l : r.matched_length ≡ n = ground (arith, h, f) in cc (f, l)

true-false : true ≢ false
true-false e = cc

whole_test :
    (r : MatchResult) (n : ℕ)
    → r ≡ record { matched_length = n; found = true }
    → (r.found && r.matched_length == n) ≡ true
whole_test r n h = rw (h, ==_self n) refl

module _ (m : CommandMatcher) (ok : IsMatcher m) where
  pub too_long-text :
      (s : Bytes) → m.longest_command_length < length s → ¬ In (to_lower s) m.commands
  too_long-text s h i =
      omega (arith, length-to_lower s, All-In _ (to_lower s) m.commands ok.longest i)

  -- Behind a text that is longer than any command there is no command.
  pub too_long :
      (s : Bytes) (l : Bool) (coming : List Token)
      → m.longest_command_length < length s
      → All (λ r. ¬ IsCommand m r) (runs s l coming)
  unfolding runs
  too_long s l [] h = (too_long-text s h, tt)
  too_long s l (t ∷ coming) h = elim (Bool-cases (is_end t.pushed_char)) [
    | inl e ↦ rw e (too_long-text s h, tt)
    | inr e ↦ rw e (
      too_long-text s h,
      too_long (append_token s l t) _ coming (omega (arith, append_token-length s l t)),
    )
  ]

  -- What one look at the matcher notes.
  pub note_match_lem :
      (s : Bytes) (i : ℕ) (result : Scan)
      → IsText s
      → 0 < length s
      → (In (to_lower s) m.commands
          × (note_match m s i result ≡ record {
            match = record { matched_length = length s; found = true };
            token_idx = i;
          }))
        ⊎ ((¬ In (to_lower s) m.commands) × (note_match m s i result ≡ result))
  unfolding note_match
  note_match_lem s i result hs z =
      let match = find_longest_command_matching m s in
      let (to, from) = found_whole_iff m ok s hs z in
      elim (Bool-cases (match.found && match.matched_length == length s)) [
        | inl e ↦
            let is = whole_match match (length s) e in
            inl (to is, rw e (ap (λ r. record { match = r; token_idx = i }) is))
        | inr e ↦ inr (λ j. true-false (sym (whole_test match (length s) (from j)) ∙ e), rw e refl)
      ]

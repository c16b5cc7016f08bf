-- ===== src/Driver/Command.antt =====
-- odb-compiler/src/parsers/db/Driver.cpp: the token `TOK_COMMAND` that stands for merged tokens.
use open_dark_basic.Prelude.{
  ℕ, ◌≡◌, ◌≤◌, ◌<◌, refl, ap, sym, ◌∙◌, subst, Bool, true, false, ◌&&◌, not, inl, inr, ◌⊎◌, List,
  [], ◌∷◌, ◌++◌, Bytes, leb, length, take, drop, arith, Bool-cases, In, All, All-In,
}
use mathlib.Core.List.{append-nil, append_assoc}
use open_dark_basic.Str.{to_lower}
use open_dark_basic.Str.Case.{length-to_lower}
use open_dark_basic.Commands.Matcher.{CommandMatcher}
use open_dark_basic.Commands.Matcher.Narrow.{IsText}
use open_dark_basic.Commands.Matcher.Search.{IsMatcher}
use open_dark_basic.Driver.{
  Token, command, string, Scan, no_result, is_annotation, is_integer_literal, is_end, append_token,
  assembled, scan_loop, scan_ahead,
}
use open_dark_basic.Driver.Runs.{Run, runs, IsCommand, append_token-length}
use open_dark_basic.Driver.Merge.{scan_loop_lem}

append_token-grows :
    (s : Bytes) (l : Bool) (t : Token) → (x : Bytes) × (append_token s l t ≡ s ++ x)
unfolding append_token
append_token-grows s l t = elim (Bool-cases (not l && not (is_annotation t.pushed_char))) [
  | inl e ↦ (b' ' ∷ t.str, rw e (append_assoc s (b' ' ∷ []) t.str))
  | inr e ↦ (t.str, rw e refl)
]

runs-longer :
    (s : Bytes) (l : Bool) (coming : List Token) (run : Run)
    → In run (runs s l coming)
    → length s ≤ length run.0
unfolding runs
runs-longer s l [] run (inl e) = omega (arith, ap (λ (r : Run). length r.0) e)
runs-longer s l [] run (inr i) = absurd i
runs-longer s l (t ∷ coming) run (inl e) = omega (arith, ap (λ (r : Run). length r.0) e)
runs-longer s l (t ∷ coming) run (inr i) = elim (Bool-cases (is_end t.pushed_char)) [
  | inl e ↦ absurd (rw e at i)
  | inr n ↦
      let j = rw n at i in
      omega (arith, append_token-length s l t, runs-longer (append_token s l t) _ coming run j)
]

-- The text that the loop ends with begins with the one it starts with.
assembled-grows :
    (m : CommandMatcher) (s : Bytes) (l : Bool) (coming : List Token)
    → (x : Bytes) × (assembled m s l coming ≡ s ++ x)
unfolding assembled
assembled-grows m s l [] = ([], sym (append-nil s))
assembled-grows m s l (t ∷ coming) =
    elim (Bool-cases (leb (length s) m.longest_command_length && not (is_end t.pushed_char))) [
      | inl e ↦
          let (x, first) = append_token-grows s l t in
          let (y, rest) =
            assembled-grows m (append_token s l t) (is_integer_literal t.pushed_char) coming in
          (x ++ y, rw e (rest ∙ ap (λ u. u ++ y) first ∙ append_assoc s x y))
      | inr e ↦ ([], rw e (sym (append-nil s)))
    ]

-- And with every text that is not too long.
assembled-run :
    (m : CommandMatcher) (s : Bytes) (l : Bool) (coming : List Token) (run : Run)
    → In run (runs s l coming)
    → length run.0 ≤ m.longest_command_length
    → (x : Bytes) × (assembled m s l coming ≡ run.0 ++ x)
unfolding assembled runs
assembled-run m s l [] run (inl e) h = ([], sym (append-nil run.0 ∙ ap (λ (r : Run). r.0) e))
assembled-run m s l [] run (inr i) h = absurd i
assembled-run m s l (t ∷ coming) run (inl e) h =
    let (x, g) = assembled-grows m s l (t ∷ coming) in (x, g ∙ ap (λ (r : Run). r.0 ++ x) (sym e))
assembled-run m s l (t ∷ coming) run (inr i) h = elim (Bool-cases (is_end t.pushed_char)) [
  | inl e ↦ absurd (rw e at i)
  | inr n ↦
      let j = rw n at i in
      let short : leb (length s) m.longest_command_length ≡ true =
        ground
          (arith, runs-longer (append_token s l t) _ coming run j, append_token-length s l t) in
      rw (n, short) (assembled-run m (append_token s l t) _ coming run j h)
]

take-append : (xs ys : Bytes) → take (length xs) (xs ++ ys) ≡ xs
take-append [] ys = refl
take-append (x ∷ xs) ys = ap (λ t. x ∷ t) (take-append xs ys)

In-middle : (before after : List Run) (run : Run) → In run (before ++ run ∷ after)
In-middle [] after run = inl refl
In-middle (b ∷ before) after run = inr (In-middle before after run)

-- Among the texts there is no command, or a type annotation follows the last that is one.
abbrev pub NoCommand : CommandMatcher → List Run → Type 0
NoCommand m rs =
    All (λ s. ¬ IsCommand m s) rs
    ⊎ ((before : List Run) × (after : List Run) × (name : Bytes) × (rs
          ≡ before ++ (name, true) ∷ after)
        × In (to_lower name) m.commands
        × All (λ s. ¬ IsCommand m s) after)

-- The tokens of the longest text that is a command, merged into one token.
pub record Merged (m : CommandMatcher) (first : Token) (coming : List Token) (t : Token)
    (behind : List Token) : Type 0 where
  pub before : List Run
  pub name : Bytes
  pub after : List Run
  pub place : runs first.str false coming ≡ before ++ (name, false) ∷ after
  pub is_command : In (to_lower name) m.commands
  pub none_after : All (λ s. ¬ IsCommand m s) after
  pub kind : t.pushed_char ≡ command
  pub value : t.pushed_value ≡ string name
  pub rest : behind ≡ drop (length before) coming

module _ (m : CommandMatcher) (ok : IsMatcher m) (first : Token) (coming : List Token)
    (queued : ℕ) where
  -- `scanAheadForPossibleCommand` merges the tokens of the longest text that is a command into one
  -- token, unless a type annotation follows or there is no such text; then it merges none.
  pub scan_ahead-merges :
      IsText first.str
      → 0 < length first.str
      → All (λ t. IsText t.str) coming
      → Merged m first coming
          (scan_ahead m first coming queued).0
          (scan_ahead m first coming queued).1.coming
        ⊎ (NoCommand m (runs first.str false coming)
            × ((scan_ahead m first coming queued).0 ≡ first)
            × ((scan_ahead m first coming queued).1.coming ≡ coming))
  unfolding scan_ahead
  scan_ahead-merges hs z ht =
      elim (scan_loop_lem m ok first.str false 1 no_result coming hs z ht (omega arith)) [
        | inl (none_there, e) ↦
            let missed = ap (λ (r : Scan). r.match.found) e in
            inr (inl none_there, rw missed refl, rw missed refl)
        | inr last ↦ elim (Bool-cases last.last.1) [
          | inl annotated ↦
              let missed : (scan_loop m first.str false 1 no_result coming).0.match.found ≡ false =
                ap (λ (r : Scan). r.match.found) last.result ∙ ap not annotated in
              inr (
                inr (
                  last.before,
                  last.after,
                  last.last.0,
                  last.place ∙ ap (λ b. last.before ++ (last.last.0, b) ∷ last.after) annotated,
                  last.is_command,
                  last.none_after,
                ),
                rw missed refl,
                rw missed refl,
              )
          | inr bare ↦
              let hit : (scan_loop m first.str false 1 no_result coming).0.match.found ≡ true =
                ap (λ (r : Scan). r.match.found) last.result ∙ ap not bare in
              let (more, grown) =
                assembled-run m first.str false coming last.last
                  (subst (In last.last) (sym last.place)
                    (In-middle last.before last.after last.last))
                  (omega (
                    arith,
                    All-In _ (to_lower last.last.0) m.commands ok.longest last.is_command,
                    length-to_lower last.last.0,
                  )) in
              inl (record {
                before = last.before;
                name = last.last.0;
                after = last.after;
                place = last.place ∙ ap (λ b. last.before ++ (last.last.0, b) ∷ last.after) bare;
                is_command = last.is_command;
                none_after = last.none_after;
                kind = rw hit refl;
                value = rw (hit, last.result, grown, take-append last.last.0 more) refl;
                rest = rw (hit, last.result) (ap (λ n. drop n coming) (omega arith));
              })
        ]
      ]

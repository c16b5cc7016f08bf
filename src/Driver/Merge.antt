-- ===== src/Driver/Merge.antt =====
-- odb-compiler/src/parsers/db/Driver.cpp: which tokens `scanAheadForPossibleCommand` merges.
use open_dark_basic.Prelude.{
  ℕ, suc, ◌+◌, ◌≡◌, ◌<◌, refl, ap, ◌∙◌, Bool, true, false, not, inl, inr, ◌⊎◌, List, [], ◌∷◌, ◌++◌,
  Bytes, leb, length, arith, Bool-cases, ==_self, All,
}
use open_dark_basic.Commands.Matcher.{CommandMatcher}
use open_dark_basic.Commands.Matcher.Narrow.{IsText}
use open_dark_basic.Commands.Matcher.Search.{IsMatcher}
use open_dark_basic.Driver.{
  Token, Kind, Scan, is_annotation, is_end, append_token, note_match, drop_annotated, scan_loop,
}
use open_dark_basic.Driver.Runs.{
  Run, runs, IsCommand, append_token-length, append_token-IsText, too_long, note_match_lem,
}

-- The last of the texts that is a command's name, at its place, and found unless an annotation follows.
pub record LastCommand (m : CommandMatcher) (i : ℕ) (rs : List Run) (r : Scan) : Type 0 where
  pub before : List Run
  pub last : Run
  pub after : List Run
  pub place : rs ≡ before ++ last ∷ after
  pub is_command : IsCommand m last
  pub none_after : All (λ s. ¬ IsCommand m s) after
  pub result : r ≡ record {
    match = record { matched_length = length last.0; found = not last.1 };
    token_idx = i + length before;
  }

-- What the loop finds: nothing more, or the last command among the texts.
abbrev pub Scanned : CommandMatcher → ℕ → Scan → List Run → Scan → Type 0
Scanned m i before rs r = (All (λ s. ¬ IsCommand m s) rs × (r ≡ before)) ⊎ LastCommand m i rs r

end_annotation : (k : Kind) → is_end k ≡ true → is_annotation k ≡ false
end_annotation k h = ground arith

-- The result after a look that noted the match at place `i`, and after one that noted none.
drop_annotated-noted :
    (l : Bool) (i n : ℕ) (t : Token)
    → drop_annotated l i t
        (record { match = record { matched_length = n; found = true }; token_idx = i })
      ≡ record {
        match = record { matched_length = n; found = not (is_annotation t.pushed_char) };
        token_idx = i;
      }
unfolding drop_annotated
drop_annotated-noted l i n t = ground (arith, ==_self i)

drop_annotated-other :
    (l : Bool) (i : ℕ) (t : Token) (r : Scan) → r.token_idx < i → drop_annotated l i t r ≡ r
unfolding drop_annotated
drop_annotated-other l i t r h = ground arith

abbrev found_at : Run → ℕ → Scan
found_at run i = record {
  match = record { matched_length = length run.0; found = not run.1 };
  token_idx = i;
}

module _ (m : CommandMatcher) where
  later :
      (i : ℕ) (r : Scan) (run : Run) (rs : List Run)
      → LastCommand m (suc i) rs r
      → LastCommand m i (run ∷ rs) r
  later i r run rs c = record {
    before = run ∷ c.before;
    last = c.last;
    after = c.after;
    place = ap (λ t. run ∷ t) c.place;
    is_command = c.is_command;
    none_after = c.none_after;
    result = c.result ∙ ap (found_at c.last) (omega arith);
  }

  -- A first text that is no command, and one that is.
  cons_other :
      (i : ℕ) (result r : Scan) (run : Run) (rs : List Run)
      → ¬ IsCommand m run
      → Scanned m (suc i) result rs r
      → Scanned m i result (run ∷ rs) r
  cons_other i result r run rs n (inl (ns, e)) = inl ((n, ns), e)
  cons_other i result r run rs n (inr c) = inr (later i r run rs c)

  cons_command :
      (i : ℕ) (result r : Scan) (run : Run) (rs : List Run)
      → IsCommand m run
      → Scanned m (suc i) (found_at run i) rs r
      → Scanned m i result (run ∷ rs) r
  cons_command i result r run rs n (inl (ns, e)) = inr (record {
    before = [];
    last = run;
    after = rs;
    place = refl;
    is_command = n;
    none_after = ns;
    result = e ∙ ap (found_at run) (omega arith);
  })
  cons_command i result r run rs n (inr c) = inr (later i r run rs c)

  -- The last text of all.
  at_end :
      (ok : IsMatcher m) (s : Bytes) (i : ℕ) (result : Scan) (annotated : Bool)
      → annotated ≡ false
      → IsText s
      → 0 < length s
      → Scanned m i result ((s, annotated) ∷ []) (note_match m s i result)
  at_end ok s i result annotated a hs z = elim (note_match_lem m ok s i result hs z) [
    | inl (c, e) ↦ cons_command i result _ (s, annotated) [] c (inl (tt, e ∙ (rw a refl)))
    | inr (n, e) ↦ inl ((n, tt), e)
  ]

module _ (m : CommandMatcher) (ok : IsMatcher m) where
  -- A text behind which there is another token, from what the loop does behind it.
  one_more :
      (s : Bytes) (l : Bool) (i : ℕ) (result : Scan) (t : Token) (rs : List Run)
      (go_on : Scan → Scan)
      → IsText s
      → 0 < length s
      → result.token_idx < i
      → ((r : Scan) → r.token_idx < suc i → Scanned m (suc i) r rs (go_on r))
      → Scanned m i result
          ((s, is_annotation t.pushed_char) ∷ rs)
          (go_on (drop_annotated l i t (note_match m s i result)))
  one_more s l i result t rs go_on hs z h next = elim (note_match_lem m ok s i result hs z) [
    | inl (c, e) ↦
        cons_command m i result _ (s, is_annotation t.pushed_char) rs c
          (rw (e, drop_annotated-noted l i (length s) t)
            (next (found_at (s, is_annotation t.pushed_char) i) (omega arith)))
    | inr (n, e) ↦
        cons_other m i result _ (s, is_annotation t.pushed_char) rs n
          (rw (e, drop_annotated-other l i t result h) (next result (omega arith)))
  ]

  pub scan_loop_lem :
      (s : Bytes) (l : Bool) (i : ℕ) (result : Scan) (coming : List Token)
      → IsText s
      → 0 < length s
      → All (λ t. IsText t.str) coming
      → result.token_idx < i
      → Scanned m i result (runs s l coming) (scan_loop m s l i result coming).0
  unfolding scan_loop runs
  scan_loop_lem s l i result [] hs z ht h =
      elim (Bool-cases (leb (length s) m.longest_command_length)) [
        | inl short ↦ rw short (at_end m ok s i result false refl hs z)
        | inr long ↦ rw long (inl (too_long m ok s l [] (ground (arith, long)), refl))
      ]
  scan_loop_lem s l i result (t ∷ coming) hs z ht h =
      elim (Bool-cases (leb (length s) m.longest_command_length)) [
        | inr long ↦ rw long (inl (too_long m ok s l (t ∷ coming) (ground (arith, long)), refl))
        | inl short ↦ elim (Bool-cases (is_end t.pushed_char)) [
          | inl e ↦
              rw (short, e)
                (at_end m ok s i result (is_annotation t.pushed_char)
                  (end_annotation t.pushed_char e) hs z)
          | inr n ↦
              rw (short, n)
                (one_more s l i result t _ _ hs z h (λ r.
                  scan_loop_lem (append_token s l t) _ (suc i) r coming
                    (append_token-IsText s l t hs ht.0)
                    (omega (arith, z, append_token-length s l t)) ht.1))
        ]
      ]

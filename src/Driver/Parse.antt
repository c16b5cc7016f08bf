-- ===== src/Driver/Parse.antt =====
-- odb-compiler/src/parsers/db/Driver.cpp: the main loop of `doParse` ends, and what it pushes.
use open_dark_basic.Prelude.{
  ℕ, zero, suc, ◌-◌, ◌≡◌, ◌≢◌, ◌≤◌, ◌<◌, refl, false, ◌||◌, inl, inr, ◌⊎◌, List, [], ◌∷◌, Bytes,
  length, arith, Bool-cases, length-drop, Option, some,
}
use open_dark_basic.Commands.Matcher.{CommandMatcher}
use open_dark_basic.Driver.{
  max, Token, end, Queue, prepare, scan_ahead, scan_loop, no_result, to_keyword, ParseResult,
  push_more, result, do_parse, is_symbol, is_integer_literal,
}

scan_ahead-shorter :
    (m : CommandMatcher) (first : Token) (coming : List Token) (queued : ℕ)
    → length (scan_ahead m first coming queued).1.coming ≤ length coming
unfolding scan_ahead
scan_ahead-shorter m first coming queued =
    let r = (scan_loop m first.str false 1 no_result coming).0 in
    ground (arith, length-drop (r.token_idx - 1) coming)

result_cases : (r : ParseResult) → (r ≡ push_more) ⊎ ((n : ℕ) × (r ≡ result n))
result_cases push_more = inl refl
result_cases (result n) = inr (n, refl)

queue_cases : (ts : List Token) → (ts ≡ []) ⊎ ((t : Token) × (rest : List Token) × (ts ≡ t ∷ rest))
queue_cases [] = inl refl
queue_cases (t ∷ rest) = inr (t, rest, refl)

module _ (lookup : Bytes → Option ℕ) (m : CommandMatcher) where
  -- A round takes at least one token away, as long as there is one.
  prepare-shorter :
      (q : Queue) (first : Token) (coming : List Token)
      → q.coming ≡ first ∷ coming
      → length (prepare lookup m q).1.coming < length q.coming
  unfolding prepare
  prepare-shorter q first coming e =
      rw e
        (elim (Bool-cases (is_integer_literal first.pushed_char || is_symbol first.pushed_char)) [
          | inl t ↦ rw t (omega (arith, scan_ahead-shorter m first coming (max 1 q.queued)))
          | inr n ↦ rw n (omega arith)
        ])

  -- With no token left, it pushes the end.
  prepare-end : (q : Queue) → q.coming ≡ [] → (prepare lookup m q).0.pushed_char ≡ end
  unfolding prepare to_keyword
  prepare-end q e = rw e refl

module _ {Parser Block : Type 0} (lookup : Bytes → Option ℕ)
    (dbpush_parse : Parser → Token → Parser × ParseResult) (program : Parser → Option Block)
    (ends : (p : Parser) (t : Token) → t.pushed_char ≡ end → (dbpush_parse p t).1 ≢ push_more) where
  -- The main loop ends for every text: it takes at most one round more than there are tokens, where the
  -- parser does not ask for more behind the end of the file.
  pub do_parse-ends :
      (m : CommandMatcher) (fuel : ℕ) (q : Queue) (p : Parser)
      → length q.coming < fuel
      → (b : Option Block) × (do_parse lookup dbpush_parse program fuel m q p ≡ some b)
  unfolding do_parse
  do_parse-ends m zero q p h = absurd (omega arith)
  do_parse-ends m (suc fuel) q p h =
      let pushed = (prepare lookup m q).0 in
      let behind = (prepare lookup m q).1 in
      elim (result_cases (dbpush_parse p pushed).1) [
        | inr (n, done) ↦ rw done (_, refl)
        | inl more ↦ elim (queue_cases q.coming) [
          | inl e ↦ absurd (ends p pushed (prepare-end lookup m q e) more)
          | inr (first, coming, e) ↦ rw more (
              do_parse-ends m fuel behind (dbpush_parse p pushed).0
                (omega (arith, prepare-shorter lookup m q first coming e)))
        ]
      ]

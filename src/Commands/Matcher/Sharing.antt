-- ===== src/Commands/Matcher/Sharing.antt =====
-- odb-compiler/src/commands/CommandMatcher.cpp: the range after `k` rounds.
use open_dark_basic.Prelude.{
  ℕ, zero, suc, ◌+◌, ◌≡◌, ◌≢◌, ◌<◌, ap, ◌∙◌, subst, Bool, true, ◌&&◌, inl, inr, List, [], ◌∷◌,
  Bytes, ◌==◌, length, get_or, take, arith, Bool-cases, All, keep, All-map, length-take,
}
use open_dark_basic.Str.{starts_with, to_lower}
use open_dark_basic.Str.Case.{length-to_lower, char_to_lower_zero}
use open_dark_basic.Commands.Matcher.{lower_at, narrow}
use open_dark_basic.Commands.Matcher.Order.{IsSorted}
use open_dark_basic.Commands.Matcher.Narrow.{
  IsName, IsText, lower_at-name, lower_at-text, starts_with-suc, narrow_equal, Rises-beginning,
  Rises, keep-keep, IsSorted-keep, All-keep,
}

-- The names that begin with the first `k` bytes of the text, case aside.
abbrev pub sharing : Bytes → ℕ → List Bytes → List Bytes
sharing str k = keep (λ a. starts_with (take k (to_lower str)) a)

nonzero_byte : (str : Bytes) (k : ℕ) → IsText str → k < length str → get_or (to_lower str) k 0 ≢ 0
unfolding to_lower
nonzero_byte [] k h lt = absurd (omega arith)
nonzero_byte (c ∷ str) zero h lt = λ e. h.0.0 ((char_to_lower_zero c).0 e)
nonzero_byte (c ∷ str) (suc k) h lt = nonzero_byte str k h.1 (omega arith)

All-keep_self : (p : Bytes → Bool) (as' : List Bytes) → All (λ a. p a ≡ true) (keep p as')
All-keep_self p [] = tt
All-keep_self p (a ∷ as') = elim (Bool-cases (p a)) [
  | inl t ↦ rw t (t, All-keep_self p as')
  | inr n ↦ rw n (All-keep_self p as')
]

same_shifted : (x y : ℕ) → (x == y) ≡ (x + 128 == y + 128)
same_shifted x y = ground arith

one_byte_more :
    (str : Bytes) (k : ℕ) (a : Bytes)
    → IsText str
    → k < length str
    → IsName a
    → starts_with (take (suc k) (to_lower str)) a
      ≡ (starts_with (take k (to_lower str)) a && (lower_at k a == lower_at k str))
one_byte_more str k a text lt n =
    rw (lower_at-name k a n, lower_at-text k str text)
      (starts_with-suc (to_lower str) a k (omega (arith, length-to_lower str))
          (nonzero_byte str k text lt)
        ∙ ap (λ b. starts_with (take k (to_lower str)) a && b)
            (same_shifted (get_or a k 0) (get_or (to_lower str) k 0)))

-- One round leaves the names that share one byte more with the text.
pub narrow-sharing :
    (str : Bytes) (k : ℕ) (names : List Bytes)
    → IsText str
    → k < length str
    → IsSorted names
    → All IsName names
    → narrow k str (sharing str k names) ≡ sharing str (suc k) names
unfolding narrow
narrow-sharing str k names text lt s n =
    let p = take k (to_lower str) in
    let same : length p ≡ k = omega (arith, length-take k (to_lower str), length-to_lower str) in
    let rises : Rises (lower_at k) (sharing str k names) =
      subst (λ j. Rises (lower_at j) (sharing str k names)) same
        (Rises-beginning p (sharing str k names) (IsSorted-keep (starts_with p) names s)
          (All-keep IsName (starts_with p) names n) (All-keep_self (starts_with p) names)) in
    narrow_equal (lower_at k) (lower_at k str) (sharing str k names) rises
    ∙ keep-keep (starts_with p) (λ a. lower_at k a == lower_at k str) _ names
        (All-map IsName _ (λ a h. one_byte_more str k a text lt h) names n)

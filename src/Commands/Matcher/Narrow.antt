-- ===== src/Commands/Matcher/Narrow.antt =====
-- odb-compiler/src/commands/CommandMatcher.cpp: one round of the search narrows the range to the
-- names that have one byte more in common with the text.
use open_dark_basic.Prelude.{
  ℕ, zero, suc, ◌+◌, ◌≡◌, ◌≢◌, ◌≤◌, ◌<◌, refl, sym, Bool, true, ◌&&◌, not, inl, inr, List, [], ◌∷◌,
  Bytes, ◌==◌, ltb, length, get_or, take, arith, Bool-cases, ltb→lt, All, keep, All-map,
}
use open_dark_basic.Str.{starts_with, char_to_lower, to_lower}
use open_dark_basic.Commands.Matcher.{lower_at, drop_while, take_while}
use open_dark_basic.Commands.Matcher.Order.{NotAfter, IsSorted, byte_le}

-- A list whose elements do not fall under a measure.
abbrev pub Rises : (Bytes → ℕ) → List Bytes → Type 0
Rises f [] = Unit
Rises f (a ∷ as') = All (λ b. f a ≤ f b) as' × Rises f as'

abbrev pub below : (Bytes → ℕ) → ℕ → Bytes → Bool
below f v a = ltb (f a) v

abbrev pub at_most : (Bytes → ℕ) → ℕ → Bytes → Bool
at_most f v a = not (ltb v (f a))

abbrev pub equal : (Bytes → ℕ) → ℕ → Bytes → Bool
equal f v a = f a == v

keep_none :
    (f : Bytes → ℕ) (v : ℕ) (as' : List Bytes) → All (λ b. v < f b) as' → keep (equal f v) as' ≡ []
keep_none f v [] h = refl
keep_none f v (a ∷ as') h = ground (arith, keep_none f v as' h.1)

take_while-equal :
    (f : Bytes → ℕ) (v : ℕ) (as' : List Bytes)
    → Rises f as'
    → All (λ b. v ≤ f b) as'
    → take_while (at_most f v) as' ≡ keep (equal f v) as'
unfolding take_while
take_while-equal f v [] r h = refl
take_while-equal f v (a ∷ as') r h = elim (Bool-cases (ltb v (f a))) [
  | inl t ↦
      let above = All-map (λ b. f a ≤ f b) (λ b. v < f b) (λ b q. ground (arith, t)) as' r.0 in
      rw t (sym (keep_none f v (a ∷ as') (ltb→lt v (f a) t, above)))
  | inr n ↦ rw n (ground (arith, n, h.0, take_while-equal f v as' r.1 h.1))
]

pub narrow_equal :
    (f : Bytes → ℕ) (v : ℕ) (as' : List Bytes)
    → Rises f as'
    → take_while (at_most f v) (drop_while (below f v) as') ≡ keep (equal f v) as'
unfolding drop_while
narrow_equal f v [] r = unfold take_while in refl
narrow_equal f v (a ∷ as') r = elim (Bool-cases (ltb (f a) v)) [
  | inl t ↦ rw t (ground (arith, t, narrow_equal f v as' r.1))
  | inr n ↦
      let from_here = All-map (λ b. f a ≤ f b) (λ b. v ≤ f b) (λ b q. ground (arith, n)) as' r.0 in
      rw n (take_while-equal f v (a ∷ as') r (ground (arith, n), from_here))
]

-- The bytes of a name in the matcher: no NUL, ASCII, lowered.
abbrev pub IsNameByte : ℕ → Type 0
IsNameByte c = (c ≢ 0) × (c < 128) × (char_to_lower c ≡ c)

-- A text without NUL and beyond ASCII.
abbrev pub IsText : Bytes → Type 0
IsText = All (λ c. (c ≢ 0) × (c < 128))

abbrev pub IsName : Bytes → Type 0
IsName = All IsNameByte

pub lower_at-name : (k : ℕ) (a : Bytes) → IsName a → lower_at k a ≡ get_or a k 0 + 128
unfolding lower_at char_to_lower
lower_at-name k [] h = refl
lower_at-name zero (x ∷ a) h = ground (arith, h.0)
lower_at-name (suc k) (x ∷ a) h = lower_at-name k a h.1

pub lower_at-text : (k : ℕ) (a : Bytes) → IsText a → lower_at k a ≡ get_or (to_lower a) k 0 + 128
unfolding lower_at char_to_lower to_lower
lower_at-text k [] h = refl
lower_at-text zero (x ∷ a) h = ground (arith, h.0)
lower_at-text (suc k) (x ∷ a) h = lower_at-text k a h.1

-- One byte more of the beginning.
pub starts_with-suc :
    (p a : Bytes) (k : ℕ)
    → k < length p
    → get_or p k 0 ≢ 0
    → starts_with (take (suc k) p) a ≡ (starts_with (take k p) a && (get_or a k 0 == get_or p k 0))
starts_with-suc [] a k h z = absurd (omega arith)
starts_with-suc (c ∷ p) [] zero h z = ground arith
starts_with-suc (c ∷ p) (x ∷ a) zero h z = ground arith
starts_with-suc (c ∷ p) [] (suc k) h z = refl
starts_with-suc (c ∷ p) (x ∷ a) (suc k) h z = ground (arith, starts_with-suc p a k)

pub keep-keep :
    (p q r : Bytes → Bool) (as' : List Bytes)
    → All (λ a. r a ≡ (p a && q a)) as'
    → keep q (keep p as') ≡ keep r as'
keep-keep p q r [] h = refl
keep-keep p q r (a ∷ as') h = ground (arith, h.0, keep-keep p q r as' h.1)

pub All-keep :
    (P : Bytes → Type 0) (p : Bytes → Bool) (as' : List Bytes) → All P as' → All P (keep p as')
All-keep P p [] h = tt
All-keep P p (a ∷ as') h = elim (Bool-cases (p a)) [
  | inl t ↦ rw t (h.0, All-keep P p as' h.1)
  | inr n ↦ rw n (All-keep P p as' h.1)
]

pub IsSorted-keep : (p : Bytes → Bool) (as' : List Bytes) → IsSorted as' → IsSorted (keep p as')
IsSorted-keep p [] h = tt
IsSorted-keep p (a ∷ as') h = elim (Bool-cases (p a)) [
  | inl t ↦ rw t (All-keep (NotAfter a) p as' h.0, IsSorted-keep p as' h.1)
  | inr n ↦ rw n (IsSorted-keep p as' h.1)
]

rises_head :
    (p a : Bytes) (as' : List Bytes)
    → All (NotAfter a) as'
    → IsName a
    → All IsName as'
    → starts_with p a ≡ true
    → All (λ b. starts_with p b ≡ true) as'
    → All (λ b. lower_at (length p) a ≤ lower_at (length p) b) as'
rises_head p a [] s n ns h hs = tt
rises_head p a (b ∷ as') s n ns h hs = (
  omega (
    arith,
    byte_le p a b h hs.0 s.0,
    lower_at-name (length p) a n,
    lower_at-name (length p) b ns.0,
  ),
  rises_head p a as' s.1 n ns.1 h hs.1,
)

-- Sorted names with a common beginning rise in the byte behind it.
pub Rises-beginning :
    (p : Bytes) (as' : List Bytes)
    → IsSorted as'
    → All IsName as'
    → All (λ a. starts_with p a ≡ true) as'
    → Rises (lower_at (length p)) as'
Rises-beginning p [] s n b = tt
Rises-beginning p (a ∷ as') s n b =
    (rises_head p a as' s.0 n.0 n.1 b.0 b.1, Rises-beginning p as' s.1 n.1 b.1)

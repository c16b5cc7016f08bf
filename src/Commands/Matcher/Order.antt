-- ===== src/Commands/Matcher/Order.antt =====
-- odb-compiler/src/commands/CommandMatcher.cpp: the order of the names, and the sort.
use open_dark_basic.Prelude.{
  ◌≡◌, ◌≤◌, ◌↔◌, refl, true, false, inl, inr, List, [], ◌∷◌, Bytes, length, get_or, arith,
  Bool-cases, In, All, All-map,
}
use open_dark_basic.Str.{starts_with}
use open_dark_basic.Commands.Matcher.{text_lt, insert_sorted, sort_names}

-- `a` does not come after `b`.
abbrev pub NotAfter : Bytes → Bytes → Type 0
NotAfter a b = text_lt b a ≡ false

pub NotAfter-refl : (a : Bytes) → NotAfter a a
unfolding text_lt
NotAfter-refl [] = refl
NotAfter-refl (x ∷ a) = ground (arith, NotAfter-refl a)

pub NotAfter-trans : (a b c : Bytes) → NotAfter a b → NotAfter b c → NotAfter a c
unfolding text_lt
NotAfter-trans [] b c h k = refl
NotAfter-trans (x ∷ a) [] c h k = cc
NotAfter-trans (x ∷ a) (y ∷ b) [] h k = cc
NotAfter-trans (x ∷ a) (y ∷ b) (z ∷ c) h k = ground (arith, NotAfter-trans a b c)

pub NotAfter-of_lt : (a b : Bytes) → text_lt a b ≡ true → NotAfter a b
unfolding text_lt
NotAfter-of_lt a [] h = cc
NotAfter-of_lt [] (y ∷ b) h = refl
NotAfter-of_lt (x ∷ a) (y ∷ b) h = ground (arith, NotAfter-of_lt a b)

-- No name comes before one that stands ahead of it.
abbrev pub IsSorted : List Bytes → Type 0
IsSorted [] = Unit
IsSorted (s ∷ ss) = All (NotAfter s) ss × IsSorted ss

second : (s t u : Bytes) (ss : List Bytes) → In t (s ∷ ss) → In t (s ∷ u ∷ ss)
second s t u ss (inl q) = inl q
second s t u ss (inr i) = inr (inr i)

insert_sorted_iff : (s t : Bytes) (ss : List Bytes) → In t (insert_sorted s ss) ↔ In t (s ∷ ss)
unfolding insert_sorted
insert_sorted_iff s t [] = (λ i. i, λ i. i)
insert_sorted_iff s t (u ∷ ss) =
    let ih = insert_sorted_iff s t ss in
    elim (Bool-cases (text_lt u s)) [
      | inl e ↦ rw e (
        elim [ inl q ↦ inr (inl q) | inr i ↦ second s t u ss (ih.0 i) ],
        elim [
          | inl q ↦ inr (ih.1 (inl q))
          | inr (inl q) ↦ inl q
          | inr (inr i) ↦ inr (ih.1 (inr i))
        ],
      )
      | inr f ↦ rw f (λ i. i, λ i. i)
    ]

All-insert_sorted :
    (P : Bytes → Type 0) (s : Bytes) (ss : List Bytes) → P s → All P ss → All P (insert_sorted s ss)
unfolding insert_sorted
All-insert_sorted P s [] p h = (p, tt)
All-insert_sorted P s (u ∷ ss) p h = elim (Bool-cases (text_lt u s)) [
  | inl t ↦ rw t (h.0, All-insert_sorted P s ss p h.1)
  | inr f ↦ rw f (p, h)
]

insert_sorted-IsSorted : (s : Bytes) (ss : List Bytes) → IsSorted ss → IsSorted (insert_sorted s ss)
unfolding insert_sorted
insert_sorted-IsSorted s [] h = (tt, tt)
insert_sorted-IsSorted s (u ∷ ss) h = elim (Bool-cases (text_lt u s)) [
  | inl t ↦ rw t (
    All-insert_sorted (NotAfter u) s ss (NotAfter-of_lt u s t) h.0,
    insert_sorted-IsSorted s ss h.1,
  )
  | inr f ↦ rw f ((f, All-map (NotAfter u) (NotAfter s) (λ a. NotAfter-trans s u a f) ss h.0), h)
]

pub sort_names-IsSorted : (ss : List Bytes) → IsSorted (sort_names ss)
unfolding sort_names
sort_names-IsSorted [] = tt
sort_names-IsSorted (s ∷ ss) = insert_sorted-IsSorted s (sort_names ss) (sort_names-IsSorted ss)

in_tail : (t s : Bytes) (xs ys : List Bytes) → (In t xs → In t ys) → In t (s ∷ xs) → In t (s ∷ ys)
in_tail t s xs ys f (inl q) = inl q
in_tail t s xs ys f (inr i) = inr (f i)

pub sort_names_iff : (t : Bytes) (ss : List Bytes) → In t (sort_names ss) ↔ In t ss
unfolding sort_names
sort_names_iff t [] = (λ i. i, λ i. i)
sort_names_iff t (s ∷ ss) =
    let (to, from) = insert_sorted_iff s t (sort_names ss) in
    let (to', from') = sort_names_iff t ss in
    (
      λ i. in_tail t s (sort_names ss) ss to' (to i),
      λ i. from (in_tail t s ss (sort_names ss) from' i),
    )

pub All-sort_names : (P : Bytes → Type 0) (ss : List Bytes) → All P ss → All P (sort_names ss)
unfolding sort_names
All-sort_names P [] h = tt
All-sort_names P (s ∷ ss) h = All-insert_sorted P s (sort_names ss) h.0 (All-sort_names P ss h.1)

-- Two names with a common beginning are ordered by the byte behind it, where the end counts as 0.
pub byte_le :
    (p a b : Bytes)
    → starts_with p a ≡ true
    → starts_with p b ≡ true
    → NotAfter a b
    → get_or a (length p) 0 ≤ get_or b (length p) 0
unfolding text_lt
byte_le [] [] b ha hb h = omega arith
byte_le [] (x ∷ a) [] ha hb h = cc
byte_le [] (x ∷ a) (y ∷ b) ha hb h = ground arith
byte_le (c ∷ p) [] b ha hb h = cc
byte_le (c ∷ p) (x ∷ a) [] ha hb h = cc
byte_le (c ∷ p) (x ∷ a) (y ∷ b) ha hb h = ground (arith, byte_le p a b)

-- A name that begins with `c` and does not come after it is `c`.
pub eq_of_starts_with : (c a : Bytes) → starts_with c a ≡ true → NotAfter a c → a ≡ c
unfolding text_lt
eq_of_starts_with [] [] h k = refl
eq_of_starts_with [] (x ∷ a) h k = cc
eq_of_starts_with (y ∷ c) [] h k = cc
eq_of_starts_with (y ∷ c) (x ∷ a) h k = ground (arith, eq_of_starts_with c a)

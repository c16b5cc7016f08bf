-- ===== src/Str/Replace.antt =====
-- odb-sdk/src/Str.cpp: `replaceAll` of one byte, and of the empty text.
use open_dark_basic.Prelude.{
  ℕ, zero, suc, ◌+◌, ◌<◌, ◌≤◌, ◌≡◌, refl, ap, sym, ◌∙◌, false, inl, inr, [], ◌∷◌, ◌++◌, Bytes,
  arith, ltb, ◌==◌, if◌then◌else◌, length, take, drop, Option-cases, none, some, length-append,
  length-take, length-drop,
}
use mathlib.Core.List.{append_assoc}
use open_dark_basic.Str.{index_of_text, find_text, replace_loop, replace_all}
use mathlib.Core.Option
use native.Mathlib.Nat.{add-zero, zero-add}
use Prim.Native.Nat.add

-- Every `c` replaced, byte by byte.
abbrev pub replaced : ℕ → Bytes → Bytes → Bytes
replaced c by [] = []
replaced c by (x ∷ s) = if x == c then by ++ replaced c by s else x ∷ replaced c by s

take-append : (xs ys : Bytes) (n i : ℕ) → n ≡ length xs → take (n + i) (xs ++ ys) ≡ xs ++ take i ys
take-append [] ys n i h = rw (h, zero-add)
take-append (x ∷ xs) ys zero i h = absurd (omega arith)
take-append (x ∷ xs) ys (suc n) i h =
    rw (add.suc n i) (ap (λ t. x ∷ t) (take-append xs ys n i (omega arith)))

drop-append : (xs ys : Bytes) (n i : ℕ) → n ≡ length xs → drop (n + i) (xs ++ ys) ≡ drop i ys
drop-append [] ys n i h = rw (h, zero-add)
drop-append (x ∷ xs) ys zero i h = absurd (omega arith)
drop-append (x ∷ xs) ys (suc n) i h = rw (add.suc n i) (drop-append xs ys n i (omega arith))

index_none : (c : ℕ) (by s : Bytes) → index_of_text (c ∷ []) s ≡ none → replaced c by s ≡ s
unfolding index_of_text
index_none c by [] h = refl
index_none c by (x ∷ s) h = ground (arith, index_none c by s)

index_some :
    (c : ℕ) (by s : Bytes) (i : ℕ)
    → index_of_text (c ∷ []) s ≡ some i
    → (replaced c by s ≡ take i s ++ (by ++ replaced c by (drop (suc i) s))) × (i < length s)
unfolding index_of_text
index_some c by [] i h = cc
index_some c by (x ∷ s) zero h = ground arith
index_some c by (x ∷ s) (suc i) h = ground (arith, index_some c by s i)

module _ (c : ℕ) (done rest : Bytes) (from : ℕ) (h : from ≡ length done) where
  find_text-eq :
      find_text (c ∷ []) (done ++ rest) from
      ≡ Option.map (λ i. from + i) (index_of_text (c ∷ []) rest)
  unfolding find_text
  find_text-eq =
      let whole : drop from (done ++ rest) ≡ rest =
        ap (λ n. drop n (done ++ rest)) (sym (add-zero from)) ∙ drop-append done rest from 0 h in
      ground (arith, length-append done rest, whole)

replace_loop-eq :
    (fuel c : ℕ) (by done rest : Bytes) (from : ℕ)
    → from ≡ length done
    → length rest < fuel
    → replace_loop fuel (done ++ rest) (c ∷ []) by from ≡ some (done ++ replaced c by rest)
unfolding replace_loop
replace_loop-eq zero c by done rest from h k = absurd (omega arith)
replace_loop-eq (suc fuel) c by done rest from h k =
    elim (Option-cases (index_of_text (c ∷ []) rest)) [
      | inl e ↦ rw (find_text-eq c done rest from h, e, replace_loop) (rw (index_none c by rest e))
      | inr (i, e) ↦
          let (eq, lt) = index_some c by rest i e in
          let next : from + i + 1 ≡ from + suc i = omega arith in
          let kept : length ((done ++ take i rest) ++ by) ≡ from + i + length by = omega (
            arith,
            length-append (done ++ take i rest) by,
            length-append done (take i rest),
            length-take i rest,
          ) in
          let shorter : length (drop (suc i) rest) < fuel =
            omega (arith, length-drop (suc i) rest) in
          rw (find_text-eq c done rest from h, e, replace_loop, eq, next)
            (rw (take-append done rest from i h, drop-append done rest from (suc i) h)
              (ap (λ t. replace_loop fuel t (c ∷ []) by (from + i + length by))
                  (sym (append_assoc (done ++ take i rest) by (drop (suc i) rest)))
                ∙ replace_loop-eq fuel c by ((done ++ take i rest) ++ by) (drop (suc i) rest)
                    (from + i + length by) (sym kept) shorter
                ∙ ap some
                    (append_assoc (done ++ take i rest) by _ ∙ append_assoc done (take i rest) _)))
    ]

-- Replacing one byte needs no more rounds than the text has bytes, and one: the result is the text
-- with every such byte replaced, and what was put in is not searched again.
pub replace_all-byte :
    (fuel c : ℕ) (by s : Bytes)
    → length s < fuel
    → replace_all fuel s (c ∷ []) by ≡ some (replaced c by s)
unfolding replace_all
replace_all-byte fuel c by s h = replace_loop-eq fuel c by [] s 0 refl h

index_empty : (s : Bytes) → index_of_text [] s ≡ some 0
unfolding index_of_text
index_empty [] = refl
index_empty (x ∷ s) = refl

find_empty : (s : Bytes) (from : ℕ) → from ≤ length s → find_text [] s from ≡ some from
unfolding find_text
find_empty s from h =
    let inside : ltb (length s) from ≡ false = ground arith in
    rw (inside, index_empty (drop from s), find_text) (ap some (add-zero from))

empty_loop :
    (fuel : ℕ) (by s : Bytes) (from : ℕ) → from ≤ length s → replace_loop fuel s [] by from ≡ none
unfolding replace_loop
empty_loop zero by s from h = refl
empty_loop (suc fuel) by s from h =
    let longer : from + length by ≤ length (take from s ++ (by ++ drop (from + 0) s)) = omega (
      arith,
      length-append (take from s) (by ++ drop (from + 0) s),
      length-append by (drop (from + 0) s),
      length-take from s,
    ) in
    rw (find_empty s from h, replace_loop)
      (empty_loop fuel by (take from s ++ (by ++ drop (from + 0) s)) (from + length by) longer)

-- An empty search text is found wherever the loop looks, so the loop never ends.
pub replace_all-empty : (fuel : ℕ) (by s : Bytes) → replace_all fuel s [] by ≡ none
unfolding replace_all
replace_all-empty fuel by s = empty_loop fuel by s 0 (omega arith)

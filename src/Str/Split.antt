-- ===== src/Str/Split.antt =====
-- odb-sdk/src/Str.cpp: `split` against a plain recursion, and its inverse.
use open_dark_basic.Prelude.{
  ℕ, zero, suc, ◌+◌, ◌-◌, ◌<◌, ◌≤◌, ◌≡◌, ◌≢◌, refl, ap, sym, ◌∙◌, inl, inr, List, [], ◌∷◌, ◌++◌,
  Bytes, arith, ◌==◌, if◌then◌else◌, length, take, drop, Bool-cases, Option-cases, All, none, some,
  length-drop, ==_self, ==_iff,
}
use mathlib.Core.List.{append_assoc}
use open_dark_basic.Str.{index_of, find_from, split_loop, split}
use native.Mathlib.Nat.{add-zero, zero-add, add-suc}
use Prim.Native.Nat.add

-- A byte in front of the first piece.
abbrev pub first_with : ℕ → List Bytes → List Bytes
first_with c [] = (c ∷ []) ∷ []
first_with c (p ∷ ps) = (c ∷ p) ∷ ps

-- The pieces by one pass over the text.
abbrev pub pieces_of : ℕ → Bytes → List Bytes
pieces_of d [] = [] ∷ []
pieces_of d (c ∷ s) = if c == d then [] ∷ pieces_of d s else first_with c (pieces_of d s)

-- The pieces with the delimiter between two.
unfoldable pub join : ℕ → List Bytes → Bytes
join d [] = []
join d (p ∷ []) = p
join d (p ∷ q ∷ ps) = p ++ (d ∷ join d (q ∷ ps))

abbrev pub Lacks : ℕ → Bytes → Type 0
Lacks d = All (λ c. c ≢ d)

drop-add : (m n : ℕ) (s : Bytes) → drop m (drop n s) ≡ drop (n + m) s
drop-add m zero s = rw zero-add
drop-add zero (suc n) [] = rw add-zero
drop-add (suc m) (suc n) [] = rw add-suc
drop-add m (suc n) (x ∷ s) = drop-add m n s ∙ sym (ap (λ k. drop k (x ∷ s)) (add.suc n m))

index_of-none : (d : ℕ) (s : Bytes) → index_of d s ≡ none → pieces_of d s ≡ s ∷ []
unfolding index_of
index_of-none d [] h = refl
index_of-none d (c ∷ s) h = ground (arith, index_of-none d s)

index_of-some :
    (d : ℕ) (s : Bytes) (i : ℕ)
    → index_of d s ≡ some i
    → (pieces_of d s ≡ take i s ∷ pieces_of d (drop (suc i) s)) × (i < length s)
unfolding index_of
index_of-some d [] i h = cc
index_of-some d (c ∷ s) zero h = ground arith
index_of-some d (c ∷ s) (suc i) h = ground (arith, index_of-some d s i)

split_loop-eq :
    (fuel : ℕ) (s : Bytes) (d from : ℕ) (ps : List Bytes)
    → from ≤ length s
    → length s < fuel + from
    → split_loop fuel s d from ps ≡ some (ps ++ pieces_of d (drop from s))
unfolding split_loop find_from
split_loop-eq zero s d from ps h k = absurd (omega arith)
split_loop-eq (suc fuel) s d from ps h k = elim (Option-cases (index_of d (drop from s))) [
  | inl e ↦ rw (e, split_loop, find_from) (rw (index_of-none d (drop from s) e))
  | inr (i, e) ↦
      let (eq, lt) = index_of-some d (drop from s) i e in
      let same : from + i - from ≡ i = omega arith in
      let next : from + suc i ≡ from + i + 1 = omega arith in
      let bound : from + i + 1 ≤ length s = omega (arith, length-drop from s) in
      rw (e, split_loop, find_from, eq, drop-add (suc i) from s, same, next)
        (split_loop-eq fuel s d (from + i + 1) (ps ++ take i (drop from s) ∷ []) bound (omega arith)
          ∙ ap some (append_assoc ps (take i (drop from s) ∷ []) _))
]

-- The loop returns, and appends the pieces to what was there.
pub split-eq : (ps : List Bytes) (s : Bytes) (d : ℕ) → split ps s d ≡ some (ps ++ pieces_of d s)
unfolding split
split-eq ps s d = split_loop-eq (suc (length s)) s d 0 ps (omega arith) (omega arith)

join-first_with : (d c : ℕ) (ps : List Bytes) → join d (first_with c ps) ≡ c ∷ join d ps
unfolding join
join-first_with d c [] = refl
join-first_with d c (p ∷ []) = refl
join-first_with d c (p ∷ q ∷ ps) = refl

pub pieces_of-cons :
    (d : ℕ) (s : Bytes) → (p : Bytes) × (ps : List Bytes) × (pieces_of d s ≡ p ∷ ps)
pieces_of-cons d [] = ([], [], refl)
pieces_of-cons d (c ∷ s) =
    let (p, ps, e) = pieces_of-cons d s in
    elim (Bool-cases (c == d)) [
      | inl t ↦ ([], pieces_of d s, rw t)
      | inr f ↦ (c ∷ p, ps, rw (f, e))
    ]

pub join-pieces_of : (d : ℕ) (s : Bytes) → join d (pieces_of d s) ≡ s
unfolding join
join-pieces_of d [] = refl
join-pieces_of d (c ∷ s) =
    let (p, ps, e) = pieces_of-cons d s in
    elim (Bool-cases (c == d)) [
      | inl t ↦
          rw (t, e)
            (let ih : join d (p ∷ ps) ≡ s = rw (← e) (join-pieces_of d s) in
              cc ((==_iff c d).0 t, ih))
      | inr f ↦ rw (f, join-first_with) (ap (λ t. c ∷ t) (join-pieces_of d s))
    ]

Lacks-first_with :
    (d c : ℕ) (ps : List Bytes) → c ≢ d → All (Lacks d) ps → All (Lacks d) (first_with c ps)
Lacks-first_with d c [] h a = ((h, tt), tt)
Lacks-first_with d c (p ∷ ps) h a = ((h, a.0), a.1)

Lacks-pieces_of : (d : ℕ) (s : Bytes) → All (Lacks d) (pieces_of d s)
Lacks-pieces_of d [] = (tt, tt)
Lacks-pieces_of d (c ∷ s) = elim (Bool-cases (c == d)) [
  | inl t ↦ rw t (tt, Lacks-pieces_of d s)
  | inr f ↦ rw f (Lacks-first_with d c (pieces_of d s) (ground arith) (Lacks-pieces_of d s))
]

-- A text without the delimiter, and what follows it.
pieces_of-append :
    (d : ℕ) (p s : Bytes) → Lacks d p → pieces_of d (p ++ (d ∷ s)) ≡ p ∷ pieces_of d s
pieces_of-append d [] s h = rw (==_self d)
pieces_of-append d (c ∷ p) s h = ground (arith, pieces_of-append d p s h.1)

pieces_of-whole : (d : ℕ) (p : Bytes) → Lacks d p → pieces_of d p ≡ p ∷ []
pieces_of-whole d [] h = refl
pieces_of-whole d (c ∷ p) h = ground (arith, pieces_of-whole d p h.1)

pieces_of-join :
    (d : ℕ) (p : Bytes) (ps : List Bytes)
    → All (Lacks d) (p ∷ ps)
    → pieces_of d (join d (p ∷ ps)) ≡ p ∷ ps
unfolding join
pieces_of-join d p [] h = pieces_of-whole d p h.0
pieces_of-join d p (q ∷ ps) h =
    pieces_of-append d p (join d (q ∷ ps)) h.0 ∙ ap (λ t. p ∷ t) (pieces_of-join d q ps h.1)

-- Splitting returns for every text and delimiter: what it appends to the list are pieces without
-- the delimiter, and they give the text back when the delimiter is put between two.
pub join-split :
    (ps : List Bytes) (s : Bytes) (d : ℕ)
    → (qs : List Bytes) × (split ps s d ≡ some (ps ++ qs)) × (join d qs ≡ s) × All (Lacks d) qs
join-split ps s d = (pieces_of d s, split-eq ps s d, join-pieces_of d s, Lacks-pieces_of d s)

-- One or more pieces without the delimiter, joined by it, are what splitting gives back.
pub split-join :
    (d : ℕ) (p : Bytes) (ps : List Bytes)
    → All (Lacks d) (p ∷ ps)
    → split [] (join d (p ∷ ps)) d ≡ some (p ∷ ps)
split-join d p ps h = split-eq [] (join d (p ∷ ps)) d ∙ ap some (pieces_of-join d p ps h)

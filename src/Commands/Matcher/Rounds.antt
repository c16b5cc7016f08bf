-- ===== src/Commands/Matcher/Rounds.antt =====
-- odb-compiler/src/commands/CommandMatcher.cpp: what the first loop leaves.
use open_dark_basic.Prelude.{
  keep-In, ℕ, zero, suc, ◌≡◌, ◌≢◌, ◌≤◌, ◌<◌, refl, ap, sym, ◌∙◌, subst, Bool, true, false, inl, inr,
  ◌⊎◌, List, [], ◌∷◌, ◌++◌, Bytes, ◌==◌, if◌then◌else◌, length, take, drop, arith, ==_self, In, All,
  All-map, All-append, length-take,
}
use mathlib.Core.List.{append-nil, append_assoc}
use open_dark_basic.Str.{starts_with, to_lower, deref}
use open_dark_basic.Str.Case.{length-to_lower}
use open_dark_basic.Commands.Matcher.{narrow, descend, Descent, char_is_symbol_token}
use open_dark_basic.Commands.Matcher.Order.{IsSorted}
use open_dark_basic.Commands.Matcher.Sharing.{sharing, narrow-sharing}
use open_dark_basic.Commands.Matcher.Narrow.{IsName, IsText}

pub starts_with-length : (p a : Bytes) → starts_with p a ≡ true → length p ≤ length a
starts_with-length [] a h = omega arith
starts_with-length (c ∷ p) [] h = cc
starts_with-length (c ∷ p) (x ∷ a) h = ground (arith, starts_with-length p a)

pub starts_with-take : (j m : ℕ) (s : Bytes) → j ≤ m → starts_with (take j s) (take m s) ≡ true
starts_with-take zero m s h = refl
starts_with-take (suc j) zero s h = absurd (omega arith)
starts_with-take (suc j) (suc m) [] h = refl
starts_with-take (suc j) (suc m) (x ∷ s) h = rw (==_self x) (starts_with-take j m s (omega arith))

pub List-cases : (xs : List Bytes) → (xs ≡ []) ⊎ ((x : Bytes) × (ys : List Bytes) × (xs ≡ x ∷ ys))
List-cases [] = inl refl
List-cases (x ∷ ys) = inr (x, ys, refl)

pub drop_nil : (k : ℕ) (s : Bytes) → drop k s ≡ [] → length s ≤ k
drop_nil zero s h = omega (arith, ap length h)
drop_nil (suc k) [] h = omega arith
drop_nil (suc k) (x ∷ s) h = omega (arith, drop_nil k s h)

pub drop_cons :
    (k c : ℕ) (s rest : Bytes)
    → IsText s
    → drop k s ≡ c ∷ rest
    → (k < length s) × (drop (suc k) s ≡ rest) × (c ≢ 0)
drop_cons zero c [] rest h e = cc
drop_cons zero c (x ∷ s) rest h e = let first : x ≡ c = cc in (omega arith, cc, rw (← first) h.0.0)
drop_cons (suc k) c [] rest h e = cc
drop_cons (suc k) c (x ∷ s) rest h e =
    let (lt, d, z) = drop_cons k c s rest h.1 e in (omega arith, d, z)

module _ (str : Bytes) (c : ℕ) (rest : Bytes) (k : ℕ) (range stack : List Bytes) (h : c ≢ 0) where
  descend_stop :
      narrow k str range ≡ []
      → descend str (c ∷ rest) k range stack ≡ record { command_stack = stack; matched_len = k }
  unfolding descend
  descend_stop e = let z : (c == 0) ≡ false = ground arith in rw (z, e, descend)

  pub descend_next :
      (first : Bytes) (others : List Bytes)
      → narrow k str range ≡ first ∷ others
      → descend str (c ∷ rest) k range stack
        ≡ descend str rest
            (suc k)
            (first ∷ others)
            (if char_is_symbol_token (deref rest) then stack else first ∷ stack)
  unfolding descend
  descend_next first others e = let z : (c == 0) ≡ false = ground arith in rw (z, e, descend)

push_append :
    (b : Bool) (ps stack : List Bytes) (first : Bytes)
    → ps ++ (if b then stack else first ∷ stack) ≡ (ps ++ (if b then [] else first ∷ [])) ++ stack
push_append true ps stack first = ap (λ t. t ++ stack) (sym (append-nil ps))
push_append false ps stack first = sym (append_assoc ps (first ∷ []) stack)

All-push :
    (P : Bytes → Type 0) (b : Bool) (ps : List Bytes) (first : Bytes)
    → All P ps
    → P first
    → All P (ps ++ (if b then [] else first ∷ []))
All-push P true ps first h p = All-append P ps [] h tt
All-push P false ps first h p = All-append P ps (first ∷ []) h (p, tt)

-- What is in the range begins with the text's first `k` bytes, and is so long.
sharing-length :
    (str a : Bytes) (k : ℕ) (names : List Bytes)
    → k ≤ length str
    → In a (sharing str k names)
    → k ≤ length a
sharing-length str a k names h i =
    let (_, b) = keep-In (starts_with (take k (to_lower str))) a names i in
    omega (
      arith,
      starts_with-length (take k (to_lower str)) a b,
      length-take k (to_lower str),
      length-to_lower str,
    )

module _ (str : Bytes) (text : IsText str) (names : List Bytes) (sorted : IsSorted names)
    (all_names : All IsName names) where
  -- What the first loop leaves when it starts at place `k` over the names that share `k` bytes.
  pub record Descended (k : ℕ) (stack : List Bytes) (d : Descent) : Type 0 where
    pub pushed : List Bytes
    pub grows : d.command_stack ≡ pushed ++ stack
    pub long : All (λ a. k < length a) pushed
    pub known : All (λ a. In a names) pushed
    pub least : k ≤ d.matched_len
    pub most : d.matched_len ≤ length str
    pub shared : (d.matched_len ≡ k) ⊎ ((a : Bytes) × In a (sharing str d.matched_len names))
    pub stop : (d.matched_len ≡ length str) ⊎ (sharing str (suc d.matched_len) names ≡ [])

  at_stop :
      (k : ℕ) (stack : List Bytes)
      → k ≤ length str
      → (k ≡ length str) ⊎ (sharing str (suc k) names ≡ [])
      → Descended k stack (record { command_stack = stack; matched_len = k })
  at_stop k stack le h = record {
    pushed = [];
    grows = refl;
    long = tt;
    known = tt;
    least = omega arith;
    most = le;
    shared = inl refl;
    stop = h;
  }

  -- A round that goes on keeps what the later rounds push, and pushes the first name or nothing.
  after_round :
      (k : ℕ) (stack : List Bytes) (first : Bytes) (others : List Bytes) (b : Bool) (d : Descent)
      → sharing str (suc k) names ≡ first ∷ others
      → k < length str
      → Descended (suc k) (if b then stack else first ∷ stack) d
      → Descended k stack d
  after_round k stack first others b d e lt r = record {
    pushed = r.pushed ++ (if b then [] else first ∷ []);
    grows = r.grows ∙ push_append b r.pushed stack first;
    long =
        All-push _ b r.pushed first (All-map _ _ (λ a h. omega arith) r.pushed r.long)
          (sharing-length str first (suc k) names lt here);
    known = All-push _ b r.pushed first r.known (keep-In _ first names here).0;
    least = omega (arith, r.least);
    most = r.most;
    shared = inr (go r.shared);
    stop = r.stop;
  }
    where
      here : In first (sharing str (suc k) names)
      here = rw e (inl refl)

      go :
          (d.matched_len ≡ suc k) ⊎ ((a : Bytes) × In a (sharing str d.matched_len names))
          → (a : Bytes) × In a (sharing str d.matched_len names)
      go (inl q) = (first, rw (q, e) (inl refl))
      go (inr w) = w

  pub descend-Descended :
      (rest : Bytes) (k : ℕ) (stack : List Bytes)
      → drop k str ≡ rest
      → k ≤ length str
      → Descended k stack (descend str rest k (sharing str k names) stack)
  descend-Descended [] k stack e le =
      unfold descend in at_stop k stack le (inl (omega (arith, drop_nil k str e)))
  descend-Descended (c ∷ rest) k stack e le =
      let (lt, e', nz) = drop_cons k c str rest text e in
      let narrowed = narrow-sharing str k names text lt sorted all_names in
      elim (List-cases (sharing str (suc k) names)) [
        | inl none_left ↦
            subst (Descended k stack)
              (sym (descend_stop str c rest k _ stack nz (narrowed ∙ none_left)))
              (at_stop k stack le (inr none_left))
        | inr (first, others, some_left) ↦
            let next : List Bytes =
              if char_is_symbol_token (deref rest) then stack else first ∷ stack in
            subst (Descended k stack)
              (sym (descend_next str c rest k _ stack nz first others (narrowed ∙ some_left)))
              (after_round k stack first others (char_is_symbol_token (deref rest)) _ some_left lt (
                subst (λ r. Descended (suc k) next (descend str rest (suc k) r next)) some_left
                  (descend-Descended rest (suc k) next e' lt)))
      ]

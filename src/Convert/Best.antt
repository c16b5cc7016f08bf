-- ===== src/Convert/Best.antt =====
-- odb-compiler/src/ir/semantic/ASTConverter.cpp: the overload that is chosen is the best.
use open_dark_basic.Prelude.{
  ℕ, ◌≡◌, ◌≤◌, ◌↔◌, refl, ap, sym, subst, ◌∙◌, Bool, true, false, inl, inr, Option, none, some,
  List, [], ◌∷◌, ◌==◌, ltb, length, keep, arith, In, In-keep, keep-In, ==_iff, Bool-cases,
}
use open_dark_basic.Commands.Command.{Command}
use open_dark_basic.Ir.Types.{IrType}
use open_dark_basic.Convert.Overload.{
  map_both, map_some, better, keep_or_drop, arguments_not_possible, remove_not_possible,
  score_candidate, best_candidate, best_of, best_of_some, select_overload, find_command,
}

pub map_both-some :
    {A B C : Type 0} (f : A → B → C) (x : Option A) (y : Option B) {c : C}
    → map_both f x y ≡ some c
    → (a : A) × (b : B) × (x ≡ some a) × (y ≡ some b) × (f a b ≡ c)
map_both-some f (some a) (some b) h = (a, b, refl, refl, cc)
map_both-some f none y h = cc
map_both-some f (some a) none h = cc

map_some-some :
    {A B : Type 0} (f : A → B) (x : Option A) {b : B}
    → map_some f x ≡ some b
    → (a : A) × (x ≡ some a) × (f a ≡ b)
map_some-some f (some a) h = (a, refl, cc)
map_some-some f none h = cc

-- The arguments can be converted to the command's parameters.
abbrev pub IsPossible : List IrType → Command → Type 0
IsPossible ts c = arguments_not_possible ts c.args ≡ some false

abbrev LeftOf : List IrType → List Command → List Command → Command → Type 0
LeftOf ts cs ps d = In d ps ↔ (In d cs × IsPossible ts d)

add_or_drop :
    (ts : List IrType) (c d : Command) (b : Bool) (qs cs : List Command)
    → arguments_not_possible ts c.args ≡ some b
    → LeftOf ts cs qs d
    → LeftOf ts (c ∷ cs) (keep_or_drop c b qs) d
add_or_drop ts c d true qs cs p (to, from) = (
  λ i. let (j, q) = to i in (inr j, q),
  λ (i, q). elim i [
    | inl e ↦
        absurd
          (some_differ (sym p ∙ ap (λ x. arguments_not_possible ts (Command.args x)) (sym e) ∙ q))
    | inr j ↦ from (j, q)
  ],
)
  where
    some_differ : some true ≡ some false → ⊥
    some_differ h = cc
add_or_drop ts c d false qs cs p (to, from) = (
  λ i. elim i [
    | inl e ↦ (inl e, ap (λ x. arguments_not_possible ts (Command.args x)) e ∙ p)
    | inr j ↦ let (k, q) = to j in (inr k, q)
  ],
  λ (i, q). elim i [ inl e ↦ inl e | inr j ↦ inr (from (j, q)) ],
)

-- The candidates that are left are those whose parameters the arguments can be converted to.
remove_not_possible_iff :
    (ts : List IrType) (cs ps : List Command) (d : Command)
    → remove_not_possible ts cs ≡ some ps
    → LeftOf ts cs ps d
unfolding remove_not_possible
remove_not_possible_iff ts [] ps d h =
    let none_left : ps ≡ [] = cc in rw none_left ((λ i. absurd i), (λ (i, q). absurd i))
remove_not_possible_iff ts (c ∷ cs) ps d h =
    let (b, qs, p, e, is) =
      map_both-some (keep_or_drop c) (arguments_not_possible ts c.args) (remove_not_possible ts cs)
        h in
    subst (λ left. LeftOf ts (c ∷ cs) left d) is
      (add_or_drop ts c d b qs cs p (remove_not_possible_iff ts cs qs d e))

-- No candidate has a greater score than the best.
record IsBest (ts : List IrType) (cs : List Command) (best : Command × ℕ) : Type 0 where
  member : In best.0 cs
  score : score_candidate ts best.0.args ≡ some best.1
  greatest : (d : Command) (k : ℕ) → In d cs → score_candidate ts d.args ≡ some k → k ≤ best.1

some_inj : (j k : ℕ) → some j ≡ some k → j ≡ k
some_inj j k h = cc

better-IsBest :
    (ts : List IrType) (c : Command) (n : ℕ) (cs : List Command) (best : Command × ℕ)
    → score_candidate ts c.args ≡ some n
    → IsBest ts cs best
    → IsBest ts (c ∷ cs) (better (c, n) best)
better-IsBest ts c n cs best h b = elim (Bool-cases (ltb best.1 n)) [
  | inl t ↦ rw t (record {
    member = inl refl;
    score = h;
    greatest = λ d k i q. elim i [
      | inl e ↦
          omega (arith, some_inj k n (sym q ∙ ap (λ x. score_candidate ts (Command.args x)) e ∙ h))
      | inr j ↦ ground (arith, b.greatest d k j q, t)
    ];
  })
  | inr f ↦ rw f (record {
    member = inr b.member;
    score = b.score;
    greatest = λ d k i q. elim i [
      | inl e ↦
          ground
            (arith, f, some_inj k n (sym q ∙ ap (λ x. score_candidate ts (Command.args x)) e ∙ h))
      | inr j ↦ b.greatest d k j q
    ];
  })
]

best_candidate-IsBest :
    (ts : List IrType) (c : Command) (cs : List Command) (best : Command × ℕ)
    → best_candidate ts c cs ≡ some best
    → IsBest ts (c ∷ cs) best
unfolding best_candidate
best_candidate-IsBest ts c [] best h =
    let (n, e, is) = map_some-some (λ score. (c, score)) (score_candidate ts c.args) h in
    subst (IsBest ts (c ∷ [])) is (record {
      member = inl refl;
      score = e;
      greatest = λ d k i q. elim i [
        | inl same ↦
            omega
              (arith, some_inj k n (sym q ∙ ap (λ x. score_candidate ts (Command.args x)) same ∙ e))
        | inr j ↦ absurd j
      ];
    })
best_candidate-IsBest ts c (d ∷ cs) best h =
    let (n, b, e, eb, is) =
      map_both-some (λ score best'. better (c, score) best') (score_candidate ts c.args)
        (best_candidate ts d cs) h in
    subst (IsBest ts (c ∷ d ∷ cs)) is
      (better-IsBest ts c n (d ∷ cs) b e (best_candidate-IsBest ts d cs b eb))

best_of-IsBest :
    (ts : List IrType) (ps : List Command) (c : Command)
    → best_of ts ps ≡ some c
    → (n : ℕ) × IsBest ts ps (c, n)
best_of-IsBest ts [] c h = cc
best_of-IsBest ts (d ∷ ps) c h =
    let (best, e, is) = map_some-some (λ (b : Command × ℕ). b.0) (best_candidate ts d ps) h in
    let b = best_candidate-IsBest ts d ps best e in
    (best.1, subst (λ x. IsBest ts (d ∷ ps) (x, best.1)) is b)

best_of_some-some :
    (ts : List IrType) (o : Option (List Command)) (c : Command)
    → best_of_some ts o ≡ some c
    → (ps : List Command) × (o ≡ some ps) × (best_of ts ps ≡ some c)
best_of_some-some ts none c h = cc
best_of_some-some ts (some ps) c h = (ps, refl, h)

-- What `select_overload` promises of the command that it chooses.
pub record IsBestOverload (ts : List IrType) (candidates : List Command) (c : Command)
    : Type 0 where
  pub candidate : In c candidates
  pub arity : length c.args ≡ length ts
  pub possible : IsPossible ts c
  pub greatest :
      (d : Command) (j k : ℕ)
      → In d candidates
      → length d.args ≡ length ts
      → IsPossible ts d
      → score_candidate ts c.args ≡ some j
      → score_candidate ts d.args ≡ some k
      → k ≤ j

-- The overload chosen for a call is a candidate with as many parameters as there are arguments,
-- to which they can be converted, and no other such candidate has a greater score.
select_overload-IsBestOverload :
    (ts : List IrType) (candidates : List Command) (c : Command)
    → select_overload ts candidates ≡ some c
    → IsBestOverload ts candidates c
unfolding select_overload
select_overload-IsBestOverload ts candidates c h =
    let fits : Command → Bool = λ d. length d.args == length ts in
    let (ps, e, chosen) =
      best_of_some-some ts (remove_not_possible ts (keep fits candidates)) c h in
    let (n, best) = best_of-IsBest ts ps c chosen in
    let (kept, possible) =
      (remove_not_possible_iff ts (keep fits candidates) ps c e).0 best.member in
    let (candidate, same) = keep-In fits c candidates kept in
    record {
      candidate = candidate;
      arity = (==_iff (length c.args) (length ts)).0 same;
      possible = possible;
      greatest = λ d j k i len q hc hd.
          let left =
            (remove_not_possible_iff ts (keep fits candidates) ps d e).1
              (In-keep fits d candidates i ((==_iff (length d.args) (length ts)).1 len), q) in
          omega (arith, best.greatest d k left hd, some_inj j n (sym hc ∙ best.score));
    }

-- What `find_command` promises: without arguments the first candidate, whatever its parameters are, and
-- with arguments the best overload.
abbrev pub IsCalled : List IrType → List Command → Command → Type 0
IsCalled [] candidates c = (others : List Command) × (candidates ≡ c ∷ others)
IsCalled (t ∷ ts) candidates c = IsBestOverload (t ∷ ts) candidates c

-- The command that a call means is, for a call without arguments, the first candidate; for one with
-- arguments, a candidate with as many parameters, to which the arguments can be converted, and no other
-- such candidate has a greater score.
pub find_command-IsCalled :
    (ts : List IrType) (candidates : List Command) (c : Command)
    → find_command ts candidates ≡ some c
    → IsCalled ts candidates c
unfolding find_command
find_command-IsCalled [] [] c h = cc
find_command-IsCalled [] (d ∷ cs) c h = (cs, cc)
find_command-IsCalled (t ∷ ts) [] c h = cc
find_command-IsCalled (t ∷ ts) (d ∷ cs) c h = select_overload-IsBestOverload (t ∷ ts) (d ∷ cs) c h

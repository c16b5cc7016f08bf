-- ===== src/Convert/Monad.antt =====
-- odb-compiler/src/ir/semantic/ASTConverter.cpp: what holds of a conversion that reports no error.
use open_dark_basic.Prelude.{◌≡◌, refl, ◌∙◌, false, Option, none, some}
use open_dark_basic.Convert.{State, M, or_fatal}

-- From state `s`, the conversion leaves the functions as they are, takes no error back, and where it
-- ends without one its result has the property.
abbrev pub Ensures : {A : Type 0} → State → (A → Type 0) → Option (A × State) → Type 0
Ensures s P none = Unit
Ensures s P (some (a, s')) =
    (s'.function_map ≡ s.function_map)
    × (s'.error_occurred ≡ false → (s.error_occurred ≡ false) × P a)

join :
    {A B : Type 0} (P : A → Type 0) (Q : B → Type 0) (s : State) (a : A) (s' : State)
    (o : Option (B × State))
    → s'.function_map ≡ s.function_map
    → (s'.error_occurred ≡ false → (s.error_occurred ≡ false) × P a)
    → Ensures s' (λ b. P a → Q b) o
    → Ensures s Q o
join P Q s a s' none same h r = tt
join P Q s a s' (some (b, s'')) same h (same', k) =
    (same' ∙ same, λ e. let (e', q) = k e in let (e0, p) = h e' in (e0, q p))

-- One step behind another.
pub Ensures-then :
    {A B : Type 0} (P : A → Type 0) (Q : B → Type 0) (s : State) (o : Option (A × State))
    (f : A → M B)
    → Ensures s P o
    → ((a : A) (s' : State)
        → s'.function_map ≡ s.function_map
        → Ensures s' (λ b. P a → Q b) (f a s'))
    → Ensures s Q (elim o [ none ↦ none | some (a, s') ↦ f a s' ])
Ensures-then P Q s none f h next = tt
Ensures-then P Q s (some (a, s')) f (same, h) next =
    join P Q s a s' (f a s') same h (next a s' same)

pub Ensures-or_fatal :
    {A : Type 0} (s : State) (o : Option A) → Ensures s (λ a. o ≡ some a) (or_fatal o s)
Ensures-or_fatal s none = tt
Ensures-or_fatal s (some a) = (refl, λ e. (e, refl))

pub weaken :
    {A : Type 0} (P Q : A → Type 0) (s : State) (o : Option (A × State))
    → ((a : A) → P a → Q a)
    → Ensures s P o
    → Ensures s Q o
weaken P Q s none f h = tt
weaken P Q s (some (a, s')) f (same, h) = (same, λ e. let (e0, p) = h e in (e0, f a p))

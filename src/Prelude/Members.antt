-- ===== src/Prelude/Members.antt =====
-- A predicate that holds of every element of a list, by recursion, and membership as data.
use mathlib.Core.Path.{◌≡◌, refl, sym, subst, ap, ◌∙◌}
use mathlib.Core.Bool.{Bool, true}
use open_dark_basic.Prelude.Tests.{Bool-cases}
use open_dark_basic.Prelude.Lists.{keep}
use mathlib.Core.Logic.{◌⊎◌, ◌↔◌, inl, inr}
use mathlib.Core.List.{List, [], ◌∷◌, ◌++◌}

module _ {ℓ κ} {A : Type ℓ} (P : A → Type κ) where
  abbrev pub All : List A → Type κ
  All [] = Unit
  All (x ∷ xs) = P x × All xs

  pub All-append : (xs ys : List A) → All xs → All ys → All (xs ++ ys)
  All-append [] ys hx hy = hy
  All-append (x ∷ xs) ys hx hy = (hx.0, All-append xs ys hx.1 hy)

module _ {A : Type 0} where
  -- `a` is an element; the data says at which place.
  abbrev pub In : A → List A → Type 0
  In a [] = ⊥
  In a (x ∷ xs) = (a ≡ x) ⊎ In a xs

pub All-map {ℓ κ} :
    {A : Type ℓ} (P Q : A → Type κ) → ((a : A) → P a → Q a) → (xs : List A) → All P xs → All Q xs
All-map P Q f [] h = tt
All-map P Q f (x ∷ xs) h = (f x h.0, All-map P Q f xs h.1)

pub All-In {κ} : {A : Type 0} (P : A → Type κ) (a : A) (xs : List A) → All P xs → In a xs → P a
All-In P a [] h i = absurd i
All-In P a (x ∷ xs) h (inl e) = subst P (sym e) h.0
All-In P a (x ∷ xs) h (inr i) = All-In P a xs h.1 i

-- What a test keeps of a list.
module _ {A : Type 0} where
  pub In-keep : (p : A → Bool) (a : A) (as' : List A) → In a as' → p a ≡ true → In a (keep p as')
  In-keep p a [] i h = absurd i
  In-keep p a (b ∷ as') (inl e) h = let hit : p b ≡ true = rw (← e) h in rw hit (inl e)
  In-keep p a (b ∷ as') (inr i) h = elim (Bool-cases (p b)) [
    | inl t ↦ rw t (inr (In-keep p a as' i h))
    | inr n ↦ rw n (In-keep p a as' i h)
  ]

  head_or_tail :
      (p : A → Bool) (a b : A) (as' bs : List A)
      → p b ≡ true
      → (In a bs → In a as' × (p a ≡ true))
      → In a (b ∷ bs)
      → In a (b ∷ as') × (p a ≡ true)
  head_or_tail p a b as' bs t f (inl e) = (inl e, ap p e ∙ t)
  head_or_tail p a b as' bs t f (inr i) = let (j, h) = f i in (inr j, h)

  pub keep-In : (p : A → Bool) (a : A) (as' : List A) → In a (keep p as') → In a as' × (p a ≡ true)
  keep-In p a [] i = absurd i
  keep-In p a (b ∷ as') i = elim (Bool-cases (p b)) [
    | inl t ↦ head_or_tail p a b as' (keep p as') t (keep-In p a as') (rw t at i)
    | inr n ↦ let (j, e) = keep-In p a as' (rw n at i) in (inr j, e)
  ]

pub In-append : {A : Type 0} (a : A) (xs ys : List A) → In a (xs ++ ys) ↔ (In a xs ⊎ In a ys)
In-append a [] ys = (inr, λ h. elim h [ inl i ↦ absurd i | inr i ↦ i ])
In-append a (x ∷ xs) ys =
    let (to, from) = In-append a xs ys in
    (
      λ i. elim i [
        | inl e ↦ inl (inl e)
        | inr i' ↦ elim (to i') [ inl j ↦ inl (inr j) | inr j ↦ inr j ]
      ],
      λ h. elim h [
        | inl i ↦ elim i [ inl e ↦ inl e | inr j ↦ inr (from (inl j)) ]
        | inr j ↦ inr (from (inr j))
      ],
    )

pub All-of_In {κ} :
    {A : Type 0} (P : A → Type κ) (xs : List A) → ((a : A) → In a xs → P a) → All P xs
All-of_In P [] h = tt
All-of_In P (x ∷ xs) h = (h x (inl refl), All-of_In P xs (λ a i. h a (inr i)))

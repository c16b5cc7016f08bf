-- ===== src/Convert/Labels.antt =====
-- odb-compiler/src/ir/semantic/ASTConverter.cpp: jumps and the labels they wait for.
use open_dark_basic.Prelude.{
  ℕ, ◌≡◌, ◌≢◌, ◌↔◌, refl, ap, sym, ◌∙◌, true, false, inl, inr, some, List, [], ◌∷◌, ◌++◌, Bytes,
  arith, In, Bool-cases, Option-cases,
}
use open_dark_basic.Commands.Index.{text_eq}
use open_dark_basic.Commands.Index.Conflicts.{text_eq_iff, text_eq_self}
use open_dark_basic.Convert.{State}
use open_dark_basic.Convert.Statements.{
  define_label, point_to, erase_name, find_label, emplace_label,
}

In-append_left : {A : Type 0} (a : A) (xs ys : List A) → In a xs → In a (xs ++ ys)
In-append_left a [] ys i = absurd i
In-append_left a (x ∷ xs) ys (inl e) = inl e
In-append_left a (x ∷ xs) ys (inr i) = inr (In-append_left a xs ys i)

In-append_right : {A : Type 0} (a : A) (xs ys : List A) → In a ys → In a (xs ++ ys)
In-append_right a [] ys i = i
In-append_right a (x ∷ xs) ys i = inr (In-append_right a xs ys i)

points :
    (l j : ℕ) (name : Bytes) (pending : List (Bytes × ℕ))
    → In (name, j) pending
    → In (j, l) (point_to l name pending)
unfolding point_to
points l j name [] i = absurd i
points l j name ((n, k) ∷ pending) (inl e) =
    let same_name : name ≡ n = ap (λ (p : Bytes × ℕ). p.0) e in
    let hit : text_eq n name ≡ true = (text_eq_iff n name).1 (sym same_name) in
    rw hit (inl (ap (λ (p : Bytes × ℕ). (p.1, l)) e))
points l j name ((n, k) ∷ pending) (inr i) = elim (Bool-cases (text_eq n name)) [
  | inl t ↦ rw t (inr (points l j name pending i))
  | inr f ↦ rw f (points l j name pending i)
]

erased :
    (name : Bytes) (p : Bytes × ℕ) (pending : List (Bytes × ℕ))
    → In p (erase_name name pending) ↔ (In p pending × (p.0 ≢ name))
unfolding erase_name
erased name p [] = (λ i. absurd i, λ (i, d). absurd i)
erased name p ((n, k) ∷ pending) =
    let (to, from) = erased name p pending in
    elim (Bool-cases (text_eq n name)) [
      | inl t ↦
          let same = (text_eq_iff n name).0 t in
          rw t (
            λ i. let (j, d) = to i in (inr j, d),
            λ (i, d). elim i [
              | inl e ↦ absurd (d (ap (λ (q : Bytes × ℕ). q.0) e ∙ same))
              | inr j ↦ from (j, d)
            ],
          )
      | inr f ↦ rw f (
        λ i. elim i [
          | inl e ↦ (inl e, λ h. differs n name f (sym (ap (λ (q : Bytes × ℕ). q.0) e) ∙ h))
          | inr j ↦ let (j', d) = to j in (inr j', d)
        ],
        λ (i, d). elim i [ inl e ↦ inl e | inr j ↦ inr (from (j, d)) ],
      )
    ]
  where
    differs : (n name : Bytes) → text_eq n name ≡ false → n ≢ name
    differs n name f e = ground (arith, f, (text_eq_iff n name).1 e)

emplaced :
    (name : Bytes) (l : ℕ) (labels : List (Bytes × ℕ))
    → (m : ℕ) × (find_label name (emplace_label name l (find_label name labels) labels) ≡ some m)
unfolding find_label
emplaced name l labels = elim (Option-cases (find_label name labels)) [
  | inl e ↦ (l, rw (e, text_eq_self name) refl)
  | inr (m, e) ↦ (m, rw e e)
]

-- What a label does to the jumps: those that wait for its name point to it and wait no longer, those
-- that wait for other names still wait, and a later jump to the name finds a label.
pub define_label-resolves :
    (name : Bytes) (l : ℕ) (s : State)
    → (s' : State) × (define_label name l s ≡ some (tt, s'))
      × ((j : ℕ) → In (name, j) s.pending_goto_statements → In (j, l) s'.targets)
      × ((j : ℕ) → In (name, j) s.pending_gosub_statements → In (j, l) s'.targets)
      × ((p : Bytes × ℕ)
          → In p s'.pending_goto_statements ↔ (In p s.pending_goto_statements × (p.0 ≢ name)))
      × ((p : Bytes × ℕ)
          → In p s'.pending_gosub_statements ↔ (In p s.pending_gosub_statements × (p.0 ≢ name)))
      × ((m : ℕ) × (find_label name s'.labels ≡ some m))
unfolding define_label
define_label-resolves name l s =
    let gotos = s.pending_goto_statements in
    let gosubs = s.pending_gosub_statements in
    (
      _,
      refl,
      λ j i. In-append_left (j, l) (point_to l name gotos) _ (points l j name gotos i),
      λ j i.
          In-append_right (j, l) (point_to l name gotos) _
            (In-append_left (j, l) (point_to l name gosubs) s.targets (points l j name gosubs i)),
      λ p. erased name p gotos,
      λ p. erased name p gosubs,
      emplaced name l s.labels,
    )

-- ===== src/Tree/Runs.antt =====
-- odb-compiler/src/ast/: runs of methods, step by step.
use open_dark_basic.Prelude.{◌≡◌, Option, some, none, refl, inl, inr, Option-cases}
use open_dark_basic.Tree.{Ref, Object, Heap, M, ◌>>=◌, load, or_fault}

-- A step that ends, and the rest behind it.
pub then_run :
    {A B : Type 0} (m : M A) (f : A → M B) (h h' : Heap) (a : A) {r : Option (B × Heap)}
    → m h ≡ some (a, h')
    → f a h' ≡ r
    → (m >>= f) h ≡ r
then_run m f h h' a e k = rw (e, ◌>>=◌) k

pub load_run : (h : Heap) (p : Ref) (o : Object) → h.object p ≡ some o → load p h ≡ some (o, h)
load_run h p o e = rw (e, load) refl

pub or_fault_run :
    {A : Type 0} (h : Heap) (o : Option A) (a : A) → o ≡ some a → or_fault o h ≡ some (a, h)
or_fault_run h o a e = rw e refl

pub nothing : {A : Type 0} (x : A) → none ≡ some x → ⊥
nothing x e = cc

-- What a run of two steps was.
pub runs_then :
    {A B : Type 0} (m : M A) (f : A → M B) (h h' : Heap) (b : B)
    → (m >>= f) h ≡ some (b, h')
    → (a : A) × (h1 : Heap) × (m h ≡ some (a, h1)) × (f a h1 ≡ some (b, h'))
runs_then m f h h' b e = elim (Option-cases (m h)) [
  | inl n ↦ absurd (nothing (b, h') (rw (n, ◌>>=◌) at e))
  | inr ((a, h1), s) ↦ (a, h1, s, rw (s, ◌>>=◌) at e)
]

-- Two steps that come to nothing, the first or the second.
pub then_nothing :
    {A B : Type 0} (m : M A) (f : A → M B) (h : Heap)
    → ((a : A) (h' : Heap) → m h ≡ some (a, h') → f a h' ≡ none)
    → (m >>= f) h ≡ none
then_nothing m f h next = elim (Option-cases (m h)) [
  | inl e ↦ rw (e, ◌>>=◌) refl
  | inr ((a, h'), e) ↦ rw (e, ◌>>=◌) (next a h' e)
]

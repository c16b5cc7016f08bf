-- ===== src/Tree/Missing.antt =====
-- odb-compiler/src/ast/: what has no duplicate.
use open_dark_basic.Prelude.{
  ℕ, zero, suc, ◌≡◌, refl, sym, arith, ap, ◌∙◌, subst, Option, some, none, List, [], ◌∷◌, length,
}
use open_dark_basic.Tree.{
  Ref, Class, Fields, Use, always, if_present, Copy, copied, shared, Object, Heap, M, pure, ◌>>=◌,
  ◌>>◌, load, allocate, set_parent,
}
use open_dark_basic.Tree.Runs.{then_run, load_run, runs_then, then_nothing, nothing}
use open_dark_basic.Tree.Methods.{methods, methods_of, adopt, construct, copy_fields, duplicate}

-- A field is null that the constructor uses without a test.
pub data Lacks : List Copy → List Use → Fields → Type 0 where
  here :
      (k : Use) (copies : List Copy) (uses : List Use) (fs : Fields)
      → Lacks (copied k ∷ copies) (always ∷ uses) (none ∷ fs)
  later :
      (k : Copy) (u : Use) (f : Option Ref) (copies : List Copy) (uses : List Use) (fs : Fields)
      → Lacks copies uses fs
      → Lacks (k ∷ copies) (u ∷ uses) (f ∷ fs)

adopt-Lacks :
    {copies : List Copy} {uses : List Use} {fs : Fields} (p : Ref) (h : Heap)
    → Lacks copies uses fs
    → adopt uses fs p h ≡ none
unfolding adopt
adopt-Lacks p h (here k copies uses fs) = refl
adopt-Lacks p h (later k always none copies uses fs l) = refl
adopt-Lacks p h (later k if_present none copies uses fs l) = adopt-Lacks p h l
adopt-Lacks p h (later k always (some q) copies uses fs l) =
    then_nothing (set_parent q p) _ h (λ a h' e. adopt-Lacks p h' l)
adopt-Lacks p h (later k if_present (some q) copies uses fs l) =
    then_nothing (set_parent q p) _ h (λ a h' e. adopt-Lacks p h' l)

-- A field in front of the fields of a copy.
after_one :
    {copies : List Copy} {uses : List Use} (k : Copy) (u : Use) (f : Option Ref) (m : M Fields)
    (h h' : Heap) (gs : Fields)
    → (m >>= λ fs. pure (f ∷ fs)) h ≡ some (gs, h')
    → ((fs : Fields) (h1 : Heap) → m h ≡ some (fs, h1) → Lacks copies uses fs)
    → Lacks (k ∷ copies) (u ∷ uses) gs
after_one {copies} {uses} k u f m h h' gs e next =
    let (fs, h1, run, end) = runs_then m _ h h' gs e in
    let same : f ∷ fs ≡ gs = cc in
    subst (λ x. Lacks (k ∷ copies) (u ∷ uses) x) same (later k u f copies uses fs (next fs h1 run))

copy_fields-Lacks :
    {copies : List Copy} {uses : List Use} {fs : Fields} (dup : Ref → M Ref) (gs : Fields)
    (h h' : Heap)
    → Lacks copies uses fs
    → copy_fields dup copies fs h ≡ some (gs, h')
    → Lacks copies uses gs
unfolding copy_fields
copy_fields-Lacks dup gs h h' (here always copies uses fs) e = cc
copy_fields-Lacks dup gs h h' (here if_present copies uses fs) e =
    let (fs', h1, run, end) =
      runs_then (copy_fields dup copies fs) (λ fs'. pure (none ∷ fs')) h h' gs e in
    let same : none ∷ fs' ≡ gs = cc in
    subst (λ x. Lacks (copied if_present ∷ copies) (always ∷ uses) x) same
      (here if_present copies uses fs')
copy_fields-Lacks dup gs h h' (later (copied k) u (some q) copies uses fs l) e =
    let (q', h1, run, end) = runs_then (dup q) _ h h' gs e in
    after_one (copied k) u (some q') (copy_fields dup copies fs) h1 h' gs end
      (λ fs' h2 r. copy_fields-Lacks dup fs' h1 h2 l r)
copy_fields-Lacks dup gs h h' (later (copied always) u none copies uses fs l) e = cc
copy_fields-Lacks dup gs h h' (later (copied if_present) u none copies uses fs l) e =
    after_one (copied if_present) u none (copy_fields dup copies fs) h h' gs e
      (λ fs' h2 r. copy_fields-Lacks dup fs' h h2 l r)
copy_fields-Lacks dup gs h h' (later shared u f copies uses fs l) e =
    after_one shared u f (copy_fields dup copies fs) h h' gs e
      (λ fs' h2 r. copy_fields-Lacks dup fs' h h2 l r)

one_longer :
    (f : Option Ref) (m : M Fields) (h h' : Heap) (gs fs : Fields)
    → (m >>= λ gs'. pure (f ∷ gs')) h ≡ some (gs, h')
    → ((gs' : Fields) (h1 : Heap) → m h ≡ some (gs', h1) → length gs' ≡ length fs)
    → length gs ≡ suc (length fs)
one_longer f m h h' gs fs e next =
    let (gs', h1, run, end) = runs_then m _ h h' gs e in
    let same : f ∷ gs' ≡ gs = cc in
    let shorter = next gs' h1 run in sym (ap length same) ∙ ap suc shorter

copy_fields-length :
    (dup : Ref → M Ref) (copies : List Copy) (fs gs : Fields) (h h' : Heap)
    → length copies ≡ length fs
    → copy_fields dup copies fs h ≡ some (gs, h')
    → length gs ≡ length fs
unfolding copy_fields
copy_fields-length dup [] [] gs h h' long e = let same : [] ≡ gs = cc in sym (ap length same)
copy_fields-length dup [] (f ∷ fs) gs h h' long e = cc
copy_fields-length dup (k ∷ copies) [] gs h h' long e = cc
copy_fields-length dup (copied k ∷ copies) (some q ∷ fs) gs h h' long e =
    let (q', h1, run, end) = runs_then (dup q) _ h h' gs e in
    one_longer (some q') (copy_fields dup copies fs) h1 h' gs fs end
      (λ gs' h2 r. copy_fields-length dup copies fs gs' h1 h2 (omega arith) r)
copy_fields-length dup (copied always ∷ copies) (none ∷ fs) gs h h' long e = cc
copy_fields-length dup (copied if_present ∷ copies) (none ∷ fs) gs h h' long e =
    one_longer none (copy_fields dup copies fs) h h' gs fs e
      (λ gs' h2 r. copy_fields-length dup copies fs gs' h h2 (omega arith) r)
copy_fields-length dup (shared ∷ copies) (f ∷ fs) gs h h' long e =
    one_longer f (copy_fields dup copies fs) h h' gs fs e
      (λ gs' h2 r. copy_fields-length dup copies fs gs' h h2 (omega arith) r)

construct-Lacks :
    (c : Class) (copies : List Copy) (fs : Fields) (h : Heap)
    → Lacks copies (methods c (length fs)).adopts fs
    → construct c fs h ≡ none
unfolding construct
construct-Lacks c copies fs h l =
    then_nothing (allocate c fs) (λ this. adopt (methods c (length fs)).adopts fs this >> pure this)
      h
      (λ this h1 e.
        then_nothing (adopt _ fs this) (λ _. pure this) h1
          (λ a h2 r. absurd (nothing (a, h2) (sym (adopt-Lacks this h1 l) ∙ r))))

-- A node that lacks a child which the constructor of its class uses without a test, such as a loop
-- without a body or a call of a command without arguments, has no duplicate, whatever the rest of the
-- tree is and however much fuel there is: duplicateImpl passes the null pointer to that constructor.
pub duplicate-Lacks :
    (fuel : ℕ) (r : Ref) (h : Heap) (o : Object)
    → h.object r ≡ some o
    → length (methods_of o).copies ≡ length o.fields
    → Lacks (methods_of o).copies (methods_of o).adopts o.fields
    → duplicate fuel r h ≡ none
unfolding duplicate
duplicate-Lacks zero r h o at long l = refl
duplicate-Lacks (suc fuel) r h o at long l = then_run (load r) _ h h o (load_run h r o at) (
    then_nothing (copy_fields (duplicate fuel) (methods_of o).copies o.fields) (construct o.class_)
      h (λ gs h1 run. construct-Lacks o.class_ (methods_of o).copies gs h1 (lacks gs h1 run)))
  where
    lacks :
        (gs : Fields) (h1 : Heap)
        → copy_fields (duplicate fuel) (methods_of o).copies o.fields h ≡ some (gs, h1)
        → Lacks (methods_of o).copies (methods o.class_ (length gs)).adopts gs
    lacks gs h1 run =
        rw (copy_fields-length (duplicate fuel) (methods_of o).copies o.fields gs h h1 long run)
          (copy_fields-Lacks (duplicate fuel) gs h h1 l run)

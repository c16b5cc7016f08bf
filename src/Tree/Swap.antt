-- ===== src/Tree/Swap.antt =====
-- odb-compiler/src/ast/: what `swapChild` does to a node whose child is swapped.
use open_dark_basic.Prelude.{
  ℕ, ◌≡◌, ◌≢◌, refl, sym, ap, ◌∙◌, Bool, true, false, not, if◌then◌else◌, length, get_elem?, Option,
  some, none, List, [], ◌∷◌, ◌++◌, All, Bool-cases, ==_self, ==_ne, inl, inr, arith,
}
use open_dark_basic.Tree.{
  Ref, Class, Base, Fields, Object, Heap, pure, ◌>>◌, load, store, or_fault, overwrite, set_parent,
}
use open_dark_basic.Tree.Runs.{then_run, load_run, or_fault_run}
use open_dark_basic.Tree.Methods.{methods, methods_of, swap_fields, swap_child, has_base, points_to}

-- The classes whose swapChild leaves the new child's parent as it is.
abbrev pub forgets_parent : Class → Bool
forgets_parent Class.udt_field_outer = true
forgets_parent Class.udt_field_inner = true
forgets_parent (Class.udt_decl_body n) = true
forgets_parent Class.udt_decl = true
forgets_parent Class.udt_var_decl = true
forgets_parent Class.udt_array_decl = true
forgets_parent Class.goto = true
forgets_parent _ = false

adopts_new_lem : (c : Class) (n : ℕ) → (methods c n).adopts_new ≡ not (forgets_parent c)
unfolding methods
adopts_new_lem Class.udt_field_outer n = refl
adopts_new_lem _ n = refl

-- No field points to the node.
abbrev pub NotIn : Ref → Fields → Type 0
NotIn q fs = All (λ f. points_to f q ≡ false) fs

swap_fields_lem :
    (casts : List (Option Base)) (before after : Fields) (old new : Ref) (bases : List Base)
    (b : Base)
    → NotIn old before
    → get_elem? casts (length before) ≡ some (some b)
    → has_base b bases ≡ true
    → swap_fields casts (before ++ some old ∷ after) old new bases
      ≡ some (before ++ some new ∷ after)
unfolding swap_fields
swap_fields_lem [] before after old new bases b away at fits = cc
swap_fields_lem (none ∷ casts) [] after old new bases b away at fits = cc
swap_fields_lem (some c ∷ casts) [] after old new bases b away at fits =
    let e : c ≡ b = cc in rw (==_self old) (rw e (rw fits refl))
swap_fields_lem (none ∷ casts) (f ∷ before) after old new bases b away at fits =
    rw (swap_fields_lem casts before after old new bases b away.1 at fits) refl
swap_fields_lem (some c ∷ casts) (f ∷ before) after old new bases b away at fits =
    rw away.0 (rw (swap_fields_lem casts before after old new bases b away.1 at fits) refl)

-- The end of swapChild: the node is stored, and the new child's parent is set or not.
store_then :
    (h : Heap) (this new : Ref) (o n : Object) (adopts : Bool)
    → h.object new ≡ some n
    → this ≢ new
    → (h' : Heap) × ((store this o >> (if adopts then set_parent new this else pure tt)) h
        ≡ some (tt, h'))
      × (h'.object this ≡ some o)
      × (h'.object new ≡ some (if adopts then record n { parent = some this } else n))
      × ((q : Ref) → q ≢ this → q ≢ new → h'.object q ≡ h.object q)
unfolding set_parent
store_then h this new o n true at_new apart = (
  record h { object = overwrite (overwrite h.object this o) new (record n { parent = some this }) },
  ground (arith, ==_ne this new apart),
  ground (arith, ==_ne new this (λ e. apart (sym e)), ==_self this),
  ground (arith, ==_self new),
  λ q a b. ground (arith, ==_ne this q (λ e. a (sym e)), ==_ne new q (λ e. b (sym e))),
)
store_then h this new o n false at_new apart = (
  record h { object = overwrite h.object this o },
  refl,
  ground (arith, ==_self this),
  ground (arith, ==_ne this new apart),
  λ q a b. ground (arith, ==_ne this q (λ e. a (sym e))),
)

flip :
    (o n : Object) (this : Ref)
    → (if (methods_of o).adopts_new then record n { parent = some this } else n)
      ≡ (if forgets_parent o.class_ then n else record n { parent = some this })
flip o n this = elim (Bool-cases (forgets_parent o.class_)) [
  | inl e ↦ rw (adopts_new_lem o.class_ (length o.fields)) (rw e refl)
  | inr e ↦ rw (adopts_new_lem o.class_ (length o.fields)) (rw e refl)
]

pub swap_child-replaces :
    (h : Heap) (this old new : Ref) (o n : Object) (before after : Fields) (b : Base)
    → h.object this ≡ some o
    → h.object new ≡ some n
    → this ≢ new
    → o.fields ≡ before ++ some old ∷ after
    → NotIn old before
    → get_elem? (methods_of o).casts (length before) ≡ some (some b)
    → has_base b (methods_of n).bases ≡ true
    → (h' : Heap) × (swap_child this old new h ≡ some (tt, h'))
      × (h'.object this ≡ some (record o { fields = before ++ some new ∷ after }))
      × (h'.object new
          ≡ some (if forgets_parent o.class_ then n else record n { parent = some this }))
      × ((q : Ref) → q ≢ this → q ≢ new → h'.object q ≡ h.object q)
unfolding swap_child
swap_child-replaces h this old new o n before after b at_this at_new apart shape away compared
      fits =
    let swapped : swap_fields (methods_of o).casts o.fields old new (methods_of n).bases
        ≡ some (before ++ some new ∷ after) =
      ap (λ fs. swap_fields (methods_of o).casts fs old new (methods_of n).bases) shape
      ∙ swap_fields_lem (methods_of o).casts before after old new (methods_of n).bases b away
          compared fits in
    let (h', run, a, c, rest) =
      store_then h this new (record o { fields = before ++ some new ∷ after }) n
        (methods_of o).adopts_new at_new apart in
    (
      h',
      then_run (load this) _ h h o (load_run h this o at_this) (
          then_run (load new) _ h h n (load_run h new n at_new)
            (then_run (or_fault _) _ h h _ (or_fault_run h _ _ swapped) run)),
      a,
      c ∙ ap some (flip o n this),
      rest,
    )

-- ===== src/Passes/Rewrite.antt =====
-- odb-compiler/src/astpost/EliminateBitwiseNotRHS.cpp: what one round of the pass does to the tree.
use open_dark_basic.Prelude.{
  ℕ, suc, ◌<◌, ◌≡◌, ◌≢◌, refl, sym, ap, ◌∙◌, true, false, if◌then◌else◌, length, get_elem?, some,
  none, List, [], ◌∷◌, ◌++◌, ==_self, ==_ne, arith,
}
use open_dark_basic.Ir.{UnaryOp}
use open_dark_basic.Tree.{
  Ref, Class, Base, Fields, always, Object, Heap, pure, ◌>>◌, or_fault, load, store, overwrite,
  allocate, set_parent,
}
use open_dark_basic.Tree.Methods.{
  methods, methods_of, accept, adopt, construct, swap_child, has_base,
}
use open_dark_basic.Tree.Runs.{then_run, load_run, or_fault_run}
use open_dark_basic.Tree.Swap.{forgets_parent, NotIn, swap_child-replaces}
use open_dark_basic.Passes.Bitwise.{
  any_side_effects, finds_side_effects, child_at, replace_operator, eliminate_one,
}

-- The new operator over the left operand.
abbrev pub unary : Ref → Object
unary lhs = record {
  parent = none;
  class_ = Class.unary_op UnaryOp.bitwise_not;
  fields = some lhs ∷ [];
}

abbrev with_operator : Heap → Ref → Object → Heap
with_operator h lhs l = record {
  next = suc h.next;
  object =
      overwrite (overwrite h.object h.next (unary lhs)) lhs (record l { parent = some h.next });
}

-- The heap with the new operator before its operand has a new parent.
abbrev with_unary : Heap → Ref → Heap
with_unary h lhs = record { next = suc h.next; object = overwrite h.object h.next (unary lhs) }

construct_unary :
    (h : Heap) (lhs : Ref) (l : Object)
    → h.object lhs ≡ some l
    → h.next ≢ lhs
    → construct (Class.unary_op UnaryOp.bitwise_not) (some lhs ∷ []) h
      ≡ some (h.next, with_operator h lhs l)
unfolding construct allocate adopt set_parent methods
construct_unary h lhs l at d =
    let h1 = with_unary h lhs in
    let h2 = with_operator h lhs l in
    let at1 : h1.object lhs ≡ some l = rw (==_ne h.next lhs d) at in
    then_run (allocate (Class.unary_op UnaryOp.bitwise_not) (some lhs ∷ []))
      (λ this. adopt (always ∷ []) (some lhs ∷ []) this >> pure this) h h1 h.next refl
      (then_run (adopt (always ∷ []) (some lhs ∷ []) h.next) (λ _. pure h.next) h1 h2 tt
        (then_run (set_parent lhs h.next) (λ _. pure tt) h1 h2 tt
          (then_run (load lhs) (λ x. store lhs (record x { parent = some h.next })) h1 h1 l
            (load_run h1 lhs l at1) refl)
          refl)
        refl)

unary_is_expression : (lhs : Ref) → has_base Base.expression (methods_of (unary lhs)).bases ≡ true
unfolding methods
unary_is_expression lhs = refl

finds_nothing :
    (fuel : ℕ) (h : Heap) (rhs : Ref) (visited : List Ref)
    → accept fuel h rhs ≡ some visited
    → any_side_effects h visited ≡ false
    → finds_side_effects fuel rhs h ≡ some (false, h)
unfolding finds_side_effects
finds_nothing fuel h rhs visited walk nothing = rw (walk, finds_side_effects) (rw nothing refl)

replace_operator_run :
    (h h' : Heap) (op p lhs rhs : Ref) (o l : Object)
    → h.object op ≡ some o
    → o.fields ≡ some lhs ∷ some rhs ∷ []
    → o.parent ≡ some p
    → h.object lhs ≡ some l
    → h.next ≢ lhs
    → swap_child p op h.next (with_operator h lhs l) ≡ some (tt, h')
    → replace_operator op h ≡ some (true, h')
unfolding replace_operator
replace_operator_run h h' op p lhs rhs o l at_op operands above at_l d run =
    let h1 = with_operator h lhs l in
    then_run (load op) _ h h o (load_run h op o at_op) (
      then_run (or_fault _) _ h h lhs (or_fault_run h _ lhs (ap (child_at 0) operands)) (
        then_run (construct (Class.unary_op UnaryOp.bitwise_not) (some lhs ∷ [])) _ h h1 h.next
          (construct_unary h lhs l at_l d)
          (then_run (or_fault _) _ h1 h1 p (or_fault_run h1 _ p above)
            (then_run (swap_child p op h.next) _ h1 h' tt run refl))))

-- One round of the pass at an operator `~` with two operands, below a parent that compares the field
-- and casts it to an expression, where no node of the right operand has side effects: the parent has
-- in its place a new unary operator over the left operand, whose parent is the new operator. The
-- parent of the new operator is set but for the classes of `forgets_parent`, and all other nodes,
-- the old operator among them, are as they were.
pub eliminate_one-rewrites :
    (fuel : ℕ) (h : Heap) (op p lhs rhs : Ref) (o po l : Object) (visited : List Ref)
    (before after : Fields)
    → h.object op ≡ some o
    → o.fields ≡ some lhs ∷ some rhs ∷ []
    → o.parent ≡ some p
    → h.object p ≡ some po
    → po.fields ≡ before ++ some op ∷ after
    → NotIn op before
    → get_elem? (methods_of po).casts (length before) ≡ some (some Base.expression)
    → h.object lhs ≡ some l
    → p ≢ lhs
    → p < h.next
    → lhs < h.next
    → accept fuel h rhs ≡ some visited
    → any_side_effects h visited ≡ false
    → (h' : Heap) × (eliminate_one fuel op h ≡ some (true, h'))
      × (h'.object p ≡ some (record po { fields = before ++ some h.next ∷ after }))
      × (h'.object h.next
          ≡ some (
              if forgets_parent po.class_
              then unary lhs
              else record (unary lhs) { parent = some p }))
      × (h'.object lhs ≡ some (record l { parent = some h.next }))
      × ((q : Ref) → q ≢ p → q ≢ h.next → q ≢ lhs → h'.object q ≡ h.object q)
unfolding eliminate_one
eliminate_one-rewrites fuel h op p lhs rhs o po l visited before after at_op operands above at_p
      shape away compared at_l apart p_lt l_lt walk pure_ =
    let h1 = with_operator h lhs l in
    let at_p1 : h1.object p ≡ some po =
      rw (==_ne lhs p (λ e. apart (sym e))) (rw (==_ne h.next p (λ e. omega arith)) at_p) in
    let at_u : h1.object h.next ≡ some (unary lhs) =
      rw (==_ne lhs h.next (λ e. omega arith)) (rw (==_self h.next) refl) in
    let (h', run, p', u', rest) =
      swap_child-replaces h1 p op h.next po (unary lhs) before after Base.expression at_p1 at_u
        (λ e. omega arith) shape away compared (unary_is_expression lhs) in
    (
      h',
      then_run (load op) _ h h o (load_run h op o at_op) (
          then_run (or_fault _) _ h h rhs (or_fault_run h _ rhs (ap (child_at 1) operands)) (
            then_run (finds_side_effects fuel rhs) _ h h false
              (finds_nothing fuel h rhs visited walk pure_)
              (replace_operator_run h h' op p lhs rhs o l at_op operands above at_l
                (λ e. omega arith) run))),
      p',
      u',
      rest lhs (λ e. apart (sym e)) (λ e. omega arith) ∙ rw (==_self lhs) refl,
      λ q a b c.
          rest q a b
          ∙ rw (==_ne lhs q (λ e. c (sym e))) (rw (==_ne h.next q (λ e. b (sym e))) refl),
    )

-- ===== src/Passes/Bitwise.antt =====
-- odb-compiler/src/astpost/EliminateBitwiseNotRHS.cpp and Process.cpp: the pass that makes a unary
-- operator of every binary bitwise-not, and the group that runs passes one after the other.
use open_dark_basic.Prelude.{
  ℕ, Bool, true, false, if◌then◌else◌, get_elem?, Option, some, none, List, [], ◌∷◌,
}
use open_dark_basic.Ir.{UnaryOp, BinaryOp}
use open_dark_basic.Tree.{Ref, Class, Fields, Heap, M, pure, ◌>>=◌, ◌>>◌, or_fault, load}
use open_dark_basic.Tree.Methods.{accept, construct, swap_child}

abbrev pub is_bitwise_not : Class → Bool
is_bitwise_not (Class.binary_op BinaryOp.bitwise_not) = true
is_bitwise_not _ = false

-- `Visitor`: the operators that are gathered, in the order of the visit.
unfoldable pub gather : Heap → List Ref → List Ref
gather h [] = []
gather h (r ∷ rs) = elim (h.object r) [
  | none ↦ gather h rs
  | some o ↦ if is_bitwise_not o.class_ then r ∷ gather h rs else gather h rs
]

-- `SideEffectFinder`: every class but those that `NO_SIDE_EFFECTS` names and the literals.
unfoldable pub has_side_effects : Class → Bool
has_side_effects (Class.annotated_symbol a name) = false
has_side_effects Class.array_ref = false
has_side_effects (Class.binary_op op) = false
has_side_effects Class.conditional = false
has_side_effects Class.arg_list = false
has_side_effects (Class.scoped_annotated_symbol s a name) = false
has_side_effects (Class.symbol name) = false
has_side_effects (Class.udt_ref name) = false
has_side_effects (Class.unary_op op) = false
has_side_effects Class.var_ref = false
has_side_effects (Class.literal t v) = false
has_side_effects _ = true

abbrev pub node_has_side_effects : Heap → Ref → Bool
node_has_side_effects h r = elim (h.object r) [ none ↦ false | some o ↦ has_side_effects o.class_ ]

abbrev pub any_side_effects : Heap → List Ref → Bool
any_side_effects h [] = false
any_side_effects h (r ∷ rs) = if node_has_side_effects h r then true else any_side_effects h rs

unfoldable pub finds_side_effects : ℕ → Ref → M Bool
finds_side_effects fuel r h = elim (accept fuel h r) [
  | none ↦ none
  | some rs ↦ some (any_side_effects h rs, h)
]

-- `lhs()` and `rhs()`.
abbrev pub child_at : ℕ → Fields → Option Ref
child_at i fs = elim (get_elem? fs i) [ none ↦ none | some f ↦ f ]

-- The new operator takes the place of the old one.
unfoldable pub replace_operator : Ref → M Bool
replace_operator op = do
  o ← load op
  lhs ← or_fault (child_at 0 o.fields)
  u ← construct (Class.unary_op UnaryOp.bitwise_not) (some lhs ∷ [])
  p ← or_fault o.parent
  swap_child p op u
  pure true

-- One round of the loop in `execute`; `false` is the early return.
unfoldable pub eliminate_one : ℕ → Ref → M Bool
eliminate_one fuel op = do
  o ← load op
  rhs ← or_fault (child_at 1 o.fields)
  found ← finds_side_effects fuel rhs
  if found then pure false else replace_operator op

unfoldable pub eliminate_all : ℕ → List Ref → M Bool
eliminate_all fuel [] = pure true
eliminate_all fuel (op ∷ ops) = do
  done ← eliminate_one fuel op
  if done then eliminate_all fuel ops else pure false

-- `EliminateBitwiseNotRHS::execute`.
unfoldable pub eliminate_bitwise_not_rhs : ℕ → Ref → M Bool
eliminate_bitwise_not_rhs fuel root h = elim (accept fuel h root) [
  | none ↦ none
  | some rs ↦ eliminate_all fuel (gather h rs) h
]

-- `ProcessGroup::execute`.
unfoldable pub process_group : List (Ref → M Bool) → Ref → M Bool
process_group [] root = pure true
process_group (process ∷ processes) root = do
  done ← process root
  if done then process_group processes root else pure false

-- ===== src/Passes/RewriteTests.antt =====
-- odb-compiler/src/astpost/EliminateBitwiseNotRHS.cpp: runs of the pass, and the theorem at one.
use open_dark_basic.Prelude.{
  ◌≡◌, ◌≢◌, refl, true, false, if◌then◌else◌, Option, some, none, List, [], ◌∷◌, arith,
}
use open_dark_basic.Ir.{BinaryOp, UnaryOp}
use open_dark_basic.Ir.Types.{integer}
use open_dark_basic.Tree.{Ref, Class, Heap, M, ◌>>=◌, allocate, set_parent}
use open_dark_basic.Tree.Methods.{
  methods, swap_fields, swap_child, adopt, construct, accept_fields, accept,
}
use open_dark_basic.Tree.Tests.{heap_of, node}
use open_dark_basic.Tree.Swap.{forgets_parent}
use open_dark_basic.Passes.Bitwise.{
  gather, has_side_effects, finds_side_effects, replace_operator, eliminate_one, eliminate_all,
  eliminate_bitwise_not_rhs, process_group,
}
use open_dark_basic.Passes.Rewrite.{unary, eliminate_one-rewrites}

-- `-(1 ~ 2)`: the operators at 3 and 2.
abbrev not_heap : Heap
not_heap = heap_of (
    node (some 2) (Class.literal integer 1) []
    ∷ node (some 2) (Class.literal integer 2) []
    ∷ node (some 3) (Class.binary_op BinaryOp.bitwise_not) (some 0 ∷ some 1 ∷ [])
    ∷ node none (Class.unary_op UnaryOp.negate) (some 2 ∷ [])
    ∷ [])

-- `-(1 ~ command)`.
abbrev command_heap : Heap
command_heap = heap_of (
    node (some 2) (Class.literal integer 1) []
    ∷ node (some 2) (Class.command_expr []) (none ∷ [])
    ∷ node (some 3) (Class.binary_op BinaryOp.bitwise_not) (some 0 ∷ some 1 ∷ [])
    ∷ node none (Class.unary_op UnaryOp.negate) (some 2 ∷ [])
    ∷ [])

abbrev answer : {A : Type 0} → Option (A × Heap) → Option A
answer none = none
answer (some (a, h)) = some a

-- The classes that are visited when the pass is done.
abbrev left_over : M (List Ref)
left_over = eliminate_bitwise_not_rhs 4 3 >>= λ _ h. elim (accept 4 h 3) [
  | none ↦ none
  | some rs ↦ some (rs, h)
]

pass_run : answer (left_over not_heap) ≡ some (3 ∷ 4 ∷ 0 ∷ [])
unfolding eliminate_bitwise_not_rhs eliminate_all eliminate_one replace_operator finds_side_effects
    has_side_effects gather accept accept_fields methods construct adopt allocate set_parent
    swap_child swap_fields
pass_run = refl

rejected_run : answer (process_group (eliminate_bitwise_not_rhs 4 ∷ []) 3 command_heap) ≡ some false
unfolding process_group eliminate_bitwise_not_rhs eliminate_all eliminate_one finds_side_effects
    has_side_effects gather accept accept_fields methods
rejected_run = refl

eliminate_one-rewrites_example :
    (h' : Heap) × (eliminate_one 1 2 not_heap ≡ some (true, h'))
    × (h'.object 3 ≡ some (node none (Class.unary_op UnaryOp.negate) (some 4 ∷ [])))
    × (h'.object 4
        ≡ some (
            if forgets_parent (Class.unary_op UnaryOp.negate)
            then unary 0
            else record (unary 0) { parent = some 3 }))
    × (h'.object 0 ≡ some (node (some 4) (Class.literal integer 1) []))
    × ((q : Ref) → q ≢ 3 → q ≢ 4 → q ≢ 0 → h'.object q ≡ not_heap.object q)
unfolding accept accept_fields methods has_side_effects
eliminate_one-rewrites_example =
    eliminate_one-rewrites 1 not_heap 2 3 0 1
      (node (some 3) (Class.binary_op BinaryOp.bitwise_not) (some 0 ∷ some 1 ∷ []))
      (node none (Class.unary_op UnaryOp.negate) (some 2 ∷ []))
      (node (some 2) (Class.literal integer 1) []) (1 ∷ []) [] [] refl refl refl refl refl tt refl
      refl (omega arith) (omega arith) (omega arith) refl refl

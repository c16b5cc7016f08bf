-- ===== src/Tree/Tests.antt =====
-- odb-compiler/src/ast/: runs of the methods, and the theorems at concrete trees.
use open_dark_basic.Prelude.{◌≡◌, refl, length, get_elem?, Option, some, none, List, [], ◌∷◌, arith}
use open_dark_basic.Ir.{BinaryOp}
use open_dark_basic.Ir.Types.{integer}
use open_dark_basic.Tree.{Ref, Class, Fields, always, if_present, Object, Heap}
use open_dark_basic.Tree.Methods.{
  methods, swap_fields, swap_child, duplicate, accept_fields, accept,
}
use open_dark_basic.Tree.Shape.{SyntaxTree, tree, end, child, Shows, complete, no_more, present}
use open_dark_basic.Tree.Visit as Visit
use open_dark_basic.Tree.Visit.{preorder, HaveClasses, visitable, accept-preorder}
use open_dark_basic.Tree.Duplicate.{IsCopyOf, duplicate-IsCopyOf}
use open_dark_basic.Tree.Missing.{here, duplicate-Lacks}

abbrev pub heap_of : List Object → Heap
heap_of os = record { next = length os; object = get_elem? os }

abbrev pub node : Option Ref → Class → Fields → Object
node p c fs = record { parent = p; class_ = c; fields = fs }

-- `7 + 8` at address 2, and the literal 9 apart from it.
abbrev sum_heap : Heap
sum_heap = heap_of (
    node (some 2) (Class.literal integer 7) []
    ∷ node (some 2) (Class.literal integer 8) []
    ∷ node none (Class.binary_op BinaryOp.add) (some 0 ∷ some 1 ∷ [])
    ∷ node none (Class.literal integer 9) []
    ∷ [])

-- `do : loop` without a body at 0, and a function of an argument at 4.
abbrev loop_heap : Heap
loop_heap = heap_of (
    node none Class.infinite_loop (none ∷ [])
    ∷ node (some 4) (Class.symbol []) []
    ∷ node (some 4) Class.arg_list []
    ∷ node none Class.arg_list []
    ∷ node none Class.func_decl (some 1 ∷ some 2 ∷ none ∷ none ∷ [])
    ∷ [])

accept_run : accept 3 sum_heap 2 ≡ some (2 ∷ 0 ∷ 1 ∷ [])
unfolding accept accept_fields methods
accept_run = refl

-- The arguments of a function cannot be swapped.
func_decl_run : swap_child 4 2 3 loop_heap ≡ none
unfolding swap_child swap_fields methods
func_decl_run = refl

abbrev sum_tree : SyntaxTree
sum_tree =
    tree (Class.binary_op BinaryOp.add)
      (child (tree (Class.literal integer 7) end) (child (tree (Class.literal integer 8) end) end))

sum_heap-Shows : Shows sum_heap 2 sum_tree
sum_heap-Shows = (
  omega arith,
  _,
  refl,
  refl,
  ((omega arith, _, refl, refl, tt), ((omega arith, _, refl, refl, tt), tt)),
)

duplicate-IsCopyOf_example : IsCopyOf 3 2 sum_tree sum_heap
unfolding methods
duplicate-IsCopyOf_example =
    duplicate-IsCopyOf 3 2 sum_tree sum_heap sum_heap-Shows
      (complete (Class.binary_op BinaryOp.add) _ (
        present always always _ (complete (Class.literal integer 7) end no_more)
          (present always always _ (complete (Class.literal integer 8) end no_more) no_more)))
      (omega arith)

duplicate-Lacks_example : duplicate 5 0 loop_heap ≡ none
unfolding methods
duplicate-Lacks_example =
    duplicate-Lacks 5 0 loop_heap (node none Class.infinite_loop (none ∷ [])) refl refl
      (here if_present [] [] [])

accept-preorder_example :
    (rs : List Ref) × (accept 3 sum_heap 2 ≡ some rs) × HaveClasses sum_heap rs (preorder sum_tree)
unfolding methods
accept-preorder_example =
    accept-preorder 3 sum_heap 2 sum_tree sum_heap-Shows
      (visitable (Class.binary_op BinaryOp.add) _ (
        Visit.present always _ _ _ (visitable (Class.literal integer 7) end Visit.no_more) (
          Visit.present always _ _ _ (visitable (Class.literal integer 8) end Visit.no_more)
            Visit.no_more)))
      (omega arith)

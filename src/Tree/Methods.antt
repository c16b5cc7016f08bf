-- ===== src/Tree/Methods.antt =====
-- odb-compiler/src/ast/: the virtual methods of a node, run by what the classes say of their fields.
use open_dark_basic.Prelude.{
  ℕ, zero, suc, Bool, false, ◌||◌, ◌==◌, if◌then◌else◌, length, Option, some, none, List, [], ◌∷◌,
  ◌++◌,
}
use open_dark_basic.Tree.{
  Ref, Class, Base, Fields, Use, always, if_present, Copy, copied, shared, ClassMethods, Object,
  Heap, M, pure, ◌>>=◌, ◌>>◌, fault, or_fault, load, store, allocate, set_parent,
}
use open_dark_basic.Tree.Symbols.{
  symbol_methods, annotated_symbol_methods, scoped_annotated_symbol_methods, udt_ref_methods,
}
use open_dark_basic.Tree.Expressions.{
  literal_methods, unary_op_methods, binary_op_methods, command_expr_methods,
  func_call_expr_methods, func_call_expr_or_array_ref_methods, var_ref_methods, array_ref_methods,
  udt_field_outer_methods, udt_field_inner_methods,
}
use open_dark_basic.Tree.Lists.{
  arg_list_methods, initializer_list_methods, block_methods, udt_decl_body_methods,
  case_list_methods,
}
use open_dark_basic.Tree.Declarations.{
  const_decl_expr_methods, const_decl_methods, var_decl_methods, udt_var_decl_methods,
  array_decl_methods, udt_array_decl_methods, udt_decl_methods, func_decl_methods,
}
use open_dark_basic.Tree.Statements.{
  var_assignment_methods, array_assignment_methods, udt_field_assignment_methods,
  command_stmnt_methods, func_call_stmnt_methods, func_exit_methods, exit_methods, goto_methods,
  label_methods, sub_call_methods, sub_return_methods,
}
use open_dark_basic.Tree.Branches.{
  conditional_methods, select_methods, case__methods, default_case_methods,
}
use open_dark_basic.Tree.Loops.{
  infinite_loop_methods, while_loop_methods, until_loop_methods, for_loop_methods,
}

-- The methods of a class, for a node with this number of fields.
unfoldable pub methods : Class → ℕ → ClassMethods
methods (Class.symbol _) all = symbol_methods
methods (Class.annotated_symbol _ _) all = annotated_symbol_methods
methods (Class.scoped_annotated_symbol _ _ _) all = scoped_annotated_symbol_methods
methods (Class.udt_ref _) all = udt_ref_methods
methods (Class.literal _ _) all = literal_methods
methods (Class.unary_op _) all = unary_op_methods
methods (Class.binary_op _) all = binary_op_methods
methods (Class.command_expr _) all = command_expr_methods
methods Class.func_call_expr all = func_call_expr_methods
methods Class.func_call_expr_or_array_ref all = func_call_expr_or_array_ref_methods
methods Class.var_ref all = var_ref_methods
methods Class.array_ref all = array_ref_methods
methods Class.udt_field_outer all = udt_field_outer_methods
methods Class.udt_field_inner all = udt_field_inner_methods
methods Class.arg_list all = arg_list_methods all
methods Class.initializer_list all = initializer_list_methods all
methods Class.block all = block_methods all
methods (Class.udt_decl_body n) all = udt_decl_body_methods n all
methods (Class.case_list n) all = case_list_methods n all
methods Class.const_decl_expr all = const_decl_expr_methods
methods Class.const_decl all = const_decl_methods
methods (Class.var_decl _) all = var_decl_methods
methods Class.udt_var_decl all = udt_var_decl_methods
methods (Class.array_decl _) all = array_decl_methods
methods Class.udt_array_decl all = udt_array_decl_methods
methods Class.udt_decl all = udt_decl_methods
methods Class.func_decl all = func_decl_methods
methods Class.var_assignment all = var_assignment_methods
methods Class.array_assignment all = array_assignment_methods
methods Class.udt_field_assignment all = udt_field_assignment_methods
methods (Class.command_stmnt _) all = command_stmnt_methods
methods Class.func_call_stmnt all = func_call_stmnt_methods
methods Class.func_exit all = func_exit_methods
methods Class.exit all = exit_methods
methods Class.goto all = goto_methods
methods Class.label all = label_methods
methods Class.sub_call all = sub_call_methods
methods Class.sub_return all = sub_return_methods
methods Class.conditional all = conditional_methods
methods Class.select all = select_methods
methods Class.case_ all = case__methods
methods Class.default_case all = default_case_methods
methods Class.infinite_loop all = infinite_loop_methods
methods Class.while_loop all = while_loop_methods
methods Class.until_loop all = until_loop_methods
methods Class.for_loop all = for_loop_methods

-- The number of a class that is cast to.
abbrev pub base_number : Base → ℕ
base_number Base.symbol = 0
base_number Base.annotated_symbol = 1
base_number Base.scoped_annotated_symbol = 2
base_number Base.udt_ref = 3
base_number Base.arg_list = 4
base_number Base.initializer_list = 5
base_number Base.block = 6
base_number Base.udt_decl_body = 7
base_number Base.case_list = 8
base_number Base.case_ = 9
base_number Base.default_case = 10
base_number Base.expression = 11
base_number Base.statement = 12
base_number Base.lvalue = 13
base_number Base.var_ref = 14
base_number Base.array_ref = 15
base_number Base.udt_field_outer = 16
base_number Base.assignment = 17
base_number Base.literal = 18
base_number Base.var_decl = 19
base_number Base.array_decl = 20

abbrev pub has_base : Base → List Base → Bool
has_base b [] = false
has_base b (c ∷ cs) = base_number b == base_number c || has_base b cs

-- `dynamic_cast`: null where the node is of another class.
abbrev pub cast : Base → List Base → Ref → Option Ref
cast b bases q = if has_base b bases then some q else none

abbrev pub points_to : Option Ref → Ref → Bool
points_to none q = false
points_to (some p) q = p == q

-- The chain of comparisons in swapChild; no result is the assertion at its end.
unfoldable pub swap_fields : List (Option Base) → Fields → Ref → Ref → List Base → Option Fields
swap_fields (some b ∷ casts) (f ∷ fs) old new bases =
    if points_to f old
    then some (cast b bases new ∷ fs)
    else elim (swap_fields casts fs old new bases) [ none ↦ none | some gs ↦ some (f ∷ gs) ]
swap_fields (none ∷ casts) (f ∷ fs) old new bases = elim (swap_fields casts fs old new bases) [
  | none ↦ none
  | some gs ↦ some (f ∷ gs)
]
swap_fields _ _ old new bases = none

abbrev pub methods_of : Object → ClassMethods
methods_of o = methods o.class_ (length o.fields)

-- `swapChild`.
unfoldable pub swap_child : Ref → Ref → Ref → M (Unit {0})
swap_child this old new = do
  o ← load this
  n ← load new
  fs ← or_fault (swap_fields (methods_of o).casts o.fields old new (methods_of n).bases)
  store this (record o { fields = fs })
  if (methods_of o).adopts_new then set_parent new this else pure tt

-- The calls of setParent in a constructor.
unfoldable pub adopt : List Use → Fields → Ref → M (Unit {0})
adopt (always ∷ uses) (none ∷ fs) this = fault
adopt (if_present ∷ uses) (none ∷ fs) this = adopt uses fs this
adopt (_ ∷ uses) (some q ∷ fs) this = set_parent q this >> adopt uses fs this
adopt _ _ this = pure tt

-- The constructor that takes all fields. That of a list of nodes appends them one by one, to the same
-- effect.
unfoldable pub construct : Class → Fields → M Ref
construct c fs = do this ← allocate c fs; adopt (methods c (length fs)).adopts fs this; pure this

-- The arguments of the constructor in duplicateImpl, from left to right.
unfoldable pub copy_fields : (Ref → M Ref) → List Copy → Fields → M Fields
copy_fields dup (copied _ ∷ copies) (some q ∷ fs) = do
  q' ← dup q
  fs' ← copy_fields dup copies fs
  pure (some q' ∷ fs')
copy_fields dup (copied always ∷ copies) (none ∷ fs) = fault
copy_fields dup (copied if_present ∷ copies) (none ∷ fs) = do
  fs' ← copy_fields dup copies fs
  pure (none ∷ fs')
copy_fields dup (shared ∷ copies) (f ∷ fs) = do fs' ← copy_fields dup copies fs; pure (f ∷ fs')
copy_fields dup _ _ = pure []

-- `duplicate`; the fuel is for the depth of the tree.
unfoldable pub duplicate : ℕ → Ref → M Ref
duplicate zero r = fault
duplicate (suc fuel) r = do
  o ← load r
  fs ← copy_fields (duplicate fuel) (methods_of o).copies o.fields
  construct o.class_ fs

-- `accept`: the nodes that are visited, in order.
unfoldable pub accept_fields : (Ref → Option (List Ref)) → List Use → Fields → Option (List Ref)
accept_fields visit (_ ∷ uses) (some q ∷ fs) = elim (visit q) [
  | none ↦ none
  | some rs ↦ elim (accept_fields visit uses fs) [ none ↦ none | some ss ↦ some (rs ++ ss) ]
]
accept_fields visit (always ∷ uses) (none ∷ fs) = none
accept_fields visit (if_present ∷ uses) (none ∷ fs) = accept_fields visit uses fs
accept_fields visit _ _ = some []

unfoldable pub accept : ℕ → Heap → Ref → Option (List Ref)
accept zero h r = none
accept (suc fuel) h r = elim (h.object r) [
  | none ↦ none
  | some o ↦ elim (accept_fields (accept fuel h) (methods_of o).visits o.fields) [
    | none ↦ none
    | some rs ↦ some (r ∷ rs)
  ]
]

-- ===== src/Passes.antt =====
-- odb-compiler/src/astpost/ValidateUDTFieldNames.cpp and EnforceSingleDefaultCase.cpp: passes that
-- visit the whole syntax tree and reject it, or let it through. No result is a null pointer that is
-- read.
mod Bitwise
mod Rewrite
mod Visits
mod Fields
mod Tests
mod RewriteTests
use open_dark_basic.Prelude.{
  ℕ, Bool, true, false, ◌||◌, ◌==◌, if◌then◌else◌, Option, none, some, List, [], ◌∷◌, Bytes,
}
use open_dark_basic.Ast.{Annotation, AnnotatedSymbol}

-- A node as the two visitors see it: the classes that they ask for, and all others.
pub data NodeKind : Type 0 where
  var_ref array_ref func_call_expr func_call_stmnt : AnnotatedSymbol → NodeKind
  func_call_expr_or_array_ref : AnnotatedSymbol → NodeKind
  command_expr command_stmnt : Bytes → NodeKind
  udt_field_outer udt_field_inner : NodeKind
  -- the number of default cases, or no list of cases
  select : Option ℕ → NodeKind
  other_node : NodeKind

-- A sequence of nodes, each with its children in the order of its `accept`.
pub data Nodes : Type 0 where
  nil : Nodes
  node : NodeKind → Nodes → Nodes → Nodes

-- A visitor's method: the node and its children, and `success` before and after.
abbrev pub Visitor : Type 0
Visitor = NodeKind → Nodes → Bool → Option Bool

abbrev pub and_then : Option Bool → (Bool → Option Bool) → Option Bool
and_then none f = none
and_then (some s) f = f s

-- `accept`: a node is visited before its children.
unfoldable pub accept : Visitor → Nodes → Bool → Option Bool
accept v nil success = some success
accept v (node k children rest) success =
    and_then (v k children success) (λ s. and_then (accept v children s) (accept v rest))

-- `isAnnotation`: & % ! # $.
unfoldable pub is_annotation_char : ℕ → Bool
is_annotation_char c = (c == 38) || (c == 37) || (c == 33) || (c == 35) || (c == 36)

-- `command().back()`, on a name that is not empty.
unfoldable pub back : ℕ → Bytes → ℕ
back c [] = c
back c (d ∷ name) = back d name

-- `checkAnnotation`.
unfoldable pub check_annotation : Annotation → Bool → Bool
check_annotation Annotation.unannotated success = success
check_annotation _ success = false

-- `check` of a command; the lexer gives no empty name, and the model passes one.
unfoldable pub check_command : Bytes → Bool → Bool
check_command [] success = success
check_command (c ∷ name) success = if is_annotation_char (back c name) then false else success

-- `checkExpr`.
unfoldable pub check_expr : NodeKind → Bool → Bool
check_expr (var_ref a) success = check_annotation a.annotation success
check_expr (array_ref a) success = check_annotation a.annotation success
check_expr (func_call_expr a) success = check_annotation a.annotation success
check_expr (func_call_stmnt a) success = check_annotation a.annotation success
check_expr (func_call_expr_or_array_ref a) success = check_annotation a.annotation success
check_expr (command_expr name) success = check_command name success
check_expr (command_stmnt name) success = check_command name success
check_expr _ success = success

-- `left()` is the first child; a field always has one.
unfoldable pub check_left : Nodes → Bool → Option Bool
check_left nil success = none
check_left (node k children rest) success = some (check_expr k success)

unfoldable pub visit_udt_fields : Visitor
visit_udt_fields udt_field_outer children success = check_left children success
visit_udt_fields udt_field_inner children success = check_left children success
visit_udt_fields _ children success = some success

unfoldable pub validate_udt_field_names : Nodes → Option Bool
validate_udt_field_names root = accept visit_udt_fields root true

-- `visitSelect`.
unfoldable pub visit_select : Visitor
visit_select (select none) children success = none
visit_select (select (some n)) children success = some (if n == 1 then success else false)
visit_select _ children success = some success

unfoldable pub enforce_single_default_case : Nodes → Option Bool
enforce_single_default_case root = accept visit_select root true

-- ===== src/Passes/Tests.antt =====
-- odb-compiler/src/astpost/: runs of the passes, and the theorems at concrete trees.
use open_dark_basic.Prelude.{◌≡◌, ◌↔◌, refl, false, true, some, none, codes}
use open_dark_basic.Ast.{Annotation}
use open_dark_basic.Passes.{
  NodeKind, Nodes, accept, check_annotation, check_command, check_expr, check_left,
  visit_udt_fields, validate_udt_field_names, visit_select, enforce_single_default_case,
  is_annotation_char, back,
}
use open_dark_basic.Passes.Visits.{EveryNode, HasOneDefault, enforce_single_default_case_iff}
use open_dark_basic.Passes.Fields.{IsPlainField, validate_udt_field_names_iff}

-- A field whose left side is a variable with the annotation, inside some other node.
abbrev field_of : Annotation → Nodes
field_of a =
    Nodes.node NodeKind.other_node
      (Nodes.node NodeKind.udt_field_outer
        (Nodes.node (NodeKind.var_ref (record { name = codes "pos"; annotation = a })) Nodes.nil (
          Nodes.node (NodeKind.var_ref (record { name = codes "x"; annotation = Annotation.float }))
            Nodes.nil Nodes.nil))
        Nodes.nil)
      Nodes.nil

plain_field_run : validate_udt_field_names (field_of Annotation.unannotated) ≡ some true
unfolding validate_udt_field_names accept visit_udt_fields check_left check_expr check_annotation
plain_field_run = refl

annotated_field_run : validate_udt_field_names (field_of Annotation.string) ≡ some false
unfolding validate_udt_field_names accept visit_udt_fields check_left check_expr check_annotation
annotated_field_run = refl

-- A command whose name ends in `$`.
command_field_run :
    validate_udt_field_names (
      Nodes.node NodeKind.udt_field_inner
        (Nodes.node (NodeKind.command_expr (codes "mid$")) Nodes.nil Nodes.nil)
        Nodes.nil)
    ≡ some false
unfolding validate_udt_field_names accept visit_udt_fields check_left check_expr check_command
    is_annotation_char back
command_field_run = refl

-- A select with one default case, whose case holds a select without one.
abbrev nested_select : Nodes
nested_select =
    Nodes.node (NodeKind.select (some 1))
      (Nodes.node (NodeKind.select (some 0)) Nodes.nil Nodes.nil) Nodes.nil

nested_select_run : enforce_single_default_case nested_select ≡ some false
unfolding enforce_single_default_case accept visit_select
nested_select_run = refl

-- A select without a list of cases.
empty_select_run :
    enforce_single_default_case (Nodes.node (NodeKind.select none) Nodes.nil Nodes.nil) ≡ none
unfolding enforce_single_default_case accept visit_select
empty_select_run = refl

validate_udt_field_names_iff_example :
    (validate_udt_field_names (field_of Annotation.string) ≡ some true)
    ↔ EveryNode IsPlainField (field_of Annotation.string)
validate_udt_field_names_iff_example = validate_udt_field_names_iff (field_of Annotation.string)

enforce_single_default_case_iff_example :
    (enforce_single_default_case nested_select ≡ some true) ↔ EveryNode HasOneDefault nested_select
enforce_single_default_case_iff_example = enforce_single_default_case_iff nested_select

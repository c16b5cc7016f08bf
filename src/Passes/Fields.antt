-- ===== src/Passes/Fields.antt =====
-- odb-compiler/src/astpost/ValidateUDTFieldNames.cpp: which trees the pass lets through.
use open_dark_basic.Prelude.{
  ℕ, ◌≡◌, ◌↔◌, refl, ap, ◌∙◌, Bool, true, false, inl, inr, some, [], ◌∷◌, ◌++◌, Bytes, Bool-cases,
}
use open_dark_basic.Ast.{Annotation}
use open_dark_basic.Passes.{
  NodeKind, Nodes, check_annotation, check_command, check_expr, check_left, visit_udt_fields,
  validate_udt_field_names, is_annotation_char, back,
}
use open_dark_basic.Passes.Visits.{EveryNode, Passes, always, accept_iff}

-- The last byte of a name is not the sign of an annotation.
abbrev pub EndsPlain : Bytes → Type 0
EndsPlain name = (init : Bytes) (c : ℕ) → name ≡ init ++ (c ∷ []) → is_annotation_char c ≡ false

-- What stands left in a field has no annotation.
abbrev pub IsPlain : NodeKind → Type 0
IsPlain (NodeKind.var_ref a) = a.annotation ≡ Annotation.unannotated
IsPlain (NodeKind.array_ref a) = a.annotation ≡ Annotation.unannotated
IsPlain (NodeKind.func_call_expr a) = a.annotation ≡ Annotation.unannotated
IsPlain (NodeKind.func_call_stmnt a) = a.annotation ≡ Annotation.unannotated
IsPlain (NodeKind.func_call_expr_or_array_ref a) = a.annotation ≡ Annotation.unannotated
IsPlain (NodeKind.command_expr name) = EndsPlain name
IsPlain (NodeKind.command_stmnt name) = EndsPlain name
IsPlain _ = Unit

abbrev pub LeftIsPlain : Nodes → Type 0
LeftIsPlain Nodes.nil = ⊥
LeftIsPlain (Nodes.node k children rest) = IsPlain k

-- A field has something left of it, and that has no annotation.
abbrev pub IsPlainField : NodeKind → Nodes → Type 0
IsPlainField NodeKind.udt_field_outer cs = LeftIsPlain cs
IsPlainField NodeKind.udt_field_inner cs = LeftIsPlain cs
IsPlainField _ cs = Unit

abbrev Keeps : (Bool → Bool) → Type 0 → Type 0
Keeps f P = Passes (λ s. some (f s)) P

check_annotation-Keeps : (a : Annotation) → Keeps (check_annotation a) (a ≡ Annotation.unannotated)
unfolding check_annotation
check_annotation-Keeps Annotation.unannotated s = (λ h. (cc, refl), λ h. ap some h.0)
check_annotation-Keeps Annotation.double_integer s = (λ h. cc, λ h. cc)
check_annotation-Keeps Annotation.word s = (λ h. cc, λ h. cc)
check_annotation-Keeps Annotation.double_float s = (λ h. cc, λ h. cc)
check_annotation-Keeps Annotation.float s = (λ h. cc, λ h. cc)
check_annotation-Keeps Annotation.string s = (λ h. cc, λ h. cc)

-- `back` is the last byte.
back_lem : (c : ℕ) (name : Bytes) → (init : Bytes) × (c ∷ name ≡ init ++ (back c name ∷ []))
unfolding back
back_lem c [] = ([], refl)
back_lem c (d ∷ name) = let (init, e) = back_lem d name in (c ∷ init, ap (λ x. c ∷ x) e)

back_unique : (c : ℕ) (name init : Bytes) (d : ℕ) → c ∷ name ≡ init ++ (d ∷ []) → d ≡ back c name
unfolding back
back_unique c [] [] d e = cc
back_unique c [] (x ∷ []) d e = cc
back_unique c [] (x ∷ y ∷ init) d e = cc
back_unique c (n ∷ name) [] d e = cc
back_unique c (n ∷ name) (x ∷ init) d e = back_unique n name init d cc

check_command-Keeps : (name : Bytes) → Keeps (check_command name) (EndsPlain name)
unfolding check_command
check_command-Keeps [] s = (λ h. (cc, none_last), λ h. ap some h.0)
  where
    none_last : EndsPlain []
    none_last [] c e = cc
    none_last (x ∷ init) c e = cc
check_command-Keeps (c ∷ name) s = elim (Bool-cases (is_annotation_char (back c name))) [
  | inl t ↦
      rw t (λ h. cc, λ h. let e = h.1 (back_lem c name).0 (back c name) (back_lem c name).1 in cc)
  | inr n ↦ rw n (
    λ h. (cc, λ init d e. ap is_annotation_char (back_unique c name init d e) ∙ n),
    λ h. ap some h.0,
  )
]

check_expr-Keeps : (k : NodeKind) → Keeps (check_expr k) (IsPlain k)
unfolding check_expr
check_expr-Keeps (NodeKind.var_ref a) = check_annotation-Keeps a.annotation
check_expr-Keeps (NodeKind.array_ref a) = check_annotation-Keeps a.annotation
check_expr-Keeps (NodeKind.func_call_expr a) = check_annotation-Keeps a.annotation
check_expr-Keeps (NodeKind.func_call_stmnt a) = check_annotation-Keeps a.annotation
check_expr-Keeps (NodeKind.func_call_expr_or_array_ref a) = check_annotation-Keeps a.annotation
check_expr-Keeps (NodeKind.command_expr name) = check_command-Keeps name
check_expr-Keeps (NodeKind.command_stmnt name) = check_command-Keeps name
check_expr-Keeps NodeKind.udt_field_outer = always
check_expr-Keeps NodeKind.udt_field_inner = always
check_expr-Keeps (NodeKind.select n) = always
check_expr-Keeps NodeKind.other_node = always

check_left-Passes : (cs : Nodes) → Passes (check_left cs) (LeftIsPlain cs)
unfolding check_left
check_left-Passes Nodes.nil s = (λ h. cc, λ h. absurd h.1)
check_left-Passes (Nodes.node k children rest) s = check_expr-Keeps k s

visit_udt_fields-Passes :
    (k : NodeKind) (cs : Nodes) → Passes (visit_udt_fields k cs) (IsPlainField k cs)
unfolding visit_udt_fields
visit_udt_fields-Passes NodeKind.udt_field_outer cs = check_left-Passes cs
visit_udt_fields-Passes NodeKind.udt_field_inner cs = check_left-Passes cs
visit_udt_fields-Passes (NodeKind.var_ref a) cs = always
visit_udt_fields-Passes (NodeKind.array_ref a) cs = always
visit_udt_fields-Passes (NodeKind.func_call_expr a) cs = always
visit_udt_fields-Passes (NodeKind.func_call_stmnt a) cs = always
visit_udt_fields-Passes (NodeKind.func_call_expr_or_array_ref a) cs = always
visit_udt_fields-Passes (NodeKind.command_expr a) cs = always
visit_udt_fields-Passes (NodeKind.command_stmnt a) cs = always
visit_udt_fields-Passes (NodeKind.select n) cs = always
visit_udt_fields-Passes NodeKind.other_node cs = always

-- ValidateUDTFieldNames lets a tree through exactly when what stands left in every field in it has
-- no annotation: neither the symbol of a variable, array or function, nor a command's last byte.
pub validate_udt_field_names_iff :
    (root : Nodes) → (validate_udt_field_names root ≡ some true) ↔ EveryNode IsPlainField root
unfolding validate_udt_field_names
validate_udt_field_names_iff = accept_iff visit_udt_fields IsPlainField visit_udt_fields-Passes

-- ===== src/Tree/Expressions.antt =====
-- odb-compiler/src/ast/: Literal.cpp, UnaryOp.cpp, BinaryOp.cpp, CommandExpr.cpp, FuncCall.cpp, VarRef.cpp,
-- ArrayRef.cpp and UDTField.cpp.
use open_dark_basic.Prelude.{true, false, some, List, [], ◌∷◌}
use open_dark_basic.Tree.{Base, Use, always, if_present, copied, ClassMethods}

-- `Literal`.
abbrev pub literal_methods : ClassMethods
literal_methods = record {
  bases = Base.literal ∷ Base.expression ∷ [];
  adopts = [];
  visits = [];
  casts = [];
  adopts_new = true;
  copies = [];
}

-- The constructor of `UnaryOp` that takes all fields.
abbrev pub unary_op_adopts : List Use
unary_op_adopts = always ∷ []

-- `UnaryOp`.
abbrev pub unary_op_methods : ClassMethods
unary_op_methods = record {
  bases = Base.expression ∷ [];
  adopts = unary_op_adopts;
  visits = always ∷ [];
  casts = some Base.expression ∷ [];
  adopts_new = true;
  copies = copied always ∷ [];
}

-- The constructor of `BinaryOp` that takes all fields.
abbrev pub binary_op_adopts : List Use
binary_op_adopts = always ∷ always ∷ []

-- `BinaryOp`.
abbrev pub binary_op_methods : ClassMethods
binary_op_methods = record {
  bases = Base.expression ∷ [];
  adopts = binary_op_adopts;
  visits = always ∷ always ∷ [];
  casts = some Base.expression ∷ some Base.expression ∷ [];
  adopts_new = true;
  copies = copied always ∷ copied always ∷ [];
}

-- The constructor of `CommandExpr` that takes all fields.
abbrev pub command_expr_adopts : List Use
command_expr_adopts = always ∷ []

-- `CommandExpr`.
abbrev pub command_expr_methods : ClassMethods
command_expr_methods = record {
  bases = Base.expression ∷ [];
  adopts = command_expr_adopts;
  visits = if_present ∷ [];
  casts = some Base.arg_list ∷ [];
  adopts_new = true;
  copies = copied if_present ∷ [];
}

-- The constructor of `FuncCallExpr` that takes all fields.
abbrev pub func_call_expr_adopts : List Use
func_call_expr_adopts = always ∷ always ∷ []

-- `FuncCallExpr`.
abbrev pub func_call_expr_methods : ClassMethods
func_call_expr_methods = record {
  bases = Base.expression ∷ [];
  adopts = func_call_expr_adopts;
  visits = always ∷ if_present ∷ [];
  casts = some Base.annotated_symbol ∷ some Base.arg_list ∷ [];
  adopts_new = true;
  copies = copied always ∷ copied if_present ∷ [];
}

-- The constructor of `FuncCallExprOrArrayRef` that takes all fields.
abbrev pub func_call_expr_or_array_ref_adopts : List Use
func_call_expr_or_array_ref_adopts = always ∷ always ∷ []

-- `FuncCallExprOrArrayRef`.
abbrev pub func_call_expr_or_array_ref_methods : ClassMethods
func_call_expr_or_array_ref_methods = record {
  bases = Base.expression ∷ [];
  adopts = func_call_expr_or_array_ref_adopts;
  visits = always ∷ if_present ∷ [];
  casts = some Base.annotated_symbol ∷ some Base.arg_list ∷ [];
  adopts_new = true;
  copies = copied always ∷ copied if_present ∷ [];
}

-- The constructor of `VarRef` that takes all fields.
abbrev pub var_ref_adopts : List Use
var_ref_adopts = always ∷ []

-- `VarRef`.
abbrev pub var_ref_methods : ClassMethods
var_ref_methods = record {
  bases = Base.var_ref ∷ Base.lvalue ∷ Base.expression ∷ [];
  adopts = var_ref_adopts;
  visits = always ∷ [];
  casts = some Base.annotated_symbol ∷ [];
  adopts_new = true;
  copies = copied always ∷ [];
}

-- The constructor of `ArrayRef` that takes all fields.
abbrev pub array_ref_adopts : List Use
array_ref_adopts = always ∷ always ∷ []

-- `ArrayRef`.
abbrev pub array_ref_methods : ClassMethods
array_ref_methods = record {
  bases = Base.array_ref ∷ Base.lvalue ∷ Base.expression ∷ [];
  adopts = array_ref_adopts;
  visits = always ∷ always ∷ [];
  casts = some Base.annotated_symbol ∷ some Base.arg_list ∷ [];
  adopts_new = true;
  copies = copied always ∷ copied always ∷ [];
}

-- The constructor of `UDTFieldOuter` that takes all fields.
abbrev pub udt_field_outer_adopts : List Use
udt_field_outer_adopts = always ∷ always ∷ []

-- `UDTFieldOuter`.
-- A comma behind the assertion makes setParent a part of the branch that fails.
abbrev pub udt_field_outer_methods : ClassMethods
udt_field_outer_methods = record {
  bases = Base.udt_field_outer ∷ Base.lvalue ∷ Base.expression ∷ [];
  adopts = udt_field_outer_adopts;
  visits = always ∷ always ∷ [];
  casts = some Base.expression ∷ some Base.lvalue ∷ [];
  adopts_new = false;
  copies = copied always ∷ copied always ∷ [];
}

-- The constructor of `UDTFieldInner` that takes all fields.
abbrev pub udt_field_inner_adopts : List Use
udt_field_inner_adopts = always ∷ always ∷ []

-- `UDTFieldInner`.
-- A comma behind the assertion makes setParent a part of the branch that fails.
abbrev pub udt_field_inner_methods : ClassMethods
udt_field_inner_methods = record {
  bases = Base.lvalue ∷ Base.expression ∷ [];
  adopts = udt_field_inner_adopts;
  visits = always ∷ always ∷ [];
  casts = some Base.lvalue ∷ some Base.lvalue ∷ [];
  adopts_new = false;
  copies = copied always ∷ copied always ∷ [];
}

-- ===== src/Tree/Declarations.antt =====
-- odb-compiler/src/ast/: ConstDecl.cpp, VarDecl.cpp, ArrayDecl.cpp, UDTDecl.cpp and FuncDecl.cpp.
use open_dark_basic.Prelude.{true, false, some, none, List, [], ◌∷◌}
use open_dark_basic.Tree.{Base, Use, always, if_present, copied, ClassMethods}

-- The constructor of `ConstDeclExpr` that takes all fields.
abbrev pub const_decl_expr_adopts : List Use
const_decl_expr_adopts = always ∷ always ∷ []

-- `ConstDeclExpr`.
abbrev pub const_decl_expr_methods : ClassMethods
const_decl_expr_methods = record {
  bases = Base.statement ∷ [];
  adopts = const_decl_expr_adopts;
  visits = always ∷ always ∷ [];
  casts = some Base.annotated_symbol ∷ some Base.expression ∷ [];
  adopts_new = true;
  copies = copied always ∷ copied always ∷ [];
}

-- The constructor of `ConstDecl` that takes all fields.
abbrev pub const_decl_adopts : List Use
const_decl_adopts = always ∷ always ∷ []

-- `ConstDecl`.
abbrev pub const_decl_methods : ClassMethods
const_decl_methods = record {
  bases = Base.statement ∷ [];
  adopts = const_decl_adopts;
  visits = always ∷ always ∷ [];
  casts = some Base.annotated_symbol ∷ some Base.literal ∷ [];
  adopts_new = true;
  copies = copied always ∷ copied always ∷ [];
}

-- The constructor of `VarDecl` that takes all fields.
abbrev pub var_decl_adopts : List Use
var_decl_adopts = always ∷ always ∷ []

-- `VarDecl`.
abbrev pub var_decl_methods : ClassMethods
var_decl_methods = record {
  bases = Base.var_decl ∷ Base.statement ∷ [];
  adopts = var_decl_adopts;
  visits = always ∷ always ∷ [];
  casts = some Base.scoped_annotated_symbol ∷ some Base.initializer_list ∷ [];
  adopts_new = true;
  copies = copied always ∷ copied always ∷ [];
}

-- The constructor of `UDTVarDecl` that takes all fields.
abbrev pub udt_var_decl_adopts : List Use
udt_var_decl_adopts = always ∷ always ∷ always ∷ []

-- `UDTVarDecl`.
-- The test of the initializer is not an `else`: behind a swap of the symbol or of the type the
-- assertion fails, so these two cannot be swapped.
abbrev pub udt_var_decl_methods : ClassMethods
udt_var_decl_methods = record {
  bases = Base.var_decl ∷ Base.statement ∷ [];
  adopts = udt_var_decl_adopts;
  visits = always ∷ always ∷ if_present ∷ [];
  casts = none ∷ none ∷ some Base.initializer_list ∷ [];
  adopts_new = false;
  copies = copied always ∷ copied always ∷ copied if_present ∷ [];
}

-- The constructor of `ArrayDecl` that takes all fields.
abbrev pub array_decl_adopts : List Use
array_decl_adopts = always ∷ always ∷ []

-- `ArrayDecl`.
abbrev pub array_decl_methods : ClassMethods
array_decl_methods = record {
  bases = Base.array_decl ∷ Base.statement ∷ [];
  adopts = array_decl_adopts;
  visits = always ∷ always ∷ [];
  casts = some Base.scoped_annotated_symbol ∷ some Base.arg_list ∷ [];
  adopts_new = true;
  copies = copied always ∷ copied always ∷ [];
}

-- The constructor of `UDTArrayDecl` that takes all fields.
abbrev pub udt_array_decl_adopts : List Use
udt_array_decl_adopts = always ∷ always ∷ always ∷ []

-- `UDTArrayDecl`.
-- swapChild does not set the parent.
abbrev pub udt_array_decl_methods : ClassMethods
udt_array_decl_methods = record {
  bases = Base.array_decl ∷ Base.statement ∷ [];
  adopts = udt_array_decl_adopts;
  visits = always ∷ always ∷ always ∷ [];
  casts = some Base.scoped_annotated_symbol ∷ some Base.arg_list ∷ some Base.udt_ref ∷ [];
  adopts_new = false;
  copies = copied always ∷ copied always ∷ copied always ∷ [];
}

-- The constructor of `UDTDecl` that takes all fields.
abbrev pub udt_decl_adopts : List Use
udt_decl_adopts = always ∷ always ∷ []

-- `UDTDecl`.
-- swapChild does not set the parent.
abbrev pub udt_decl_methods : ClassMethods
udt_decl_methods = record {
  bases = Base.statement ∷ [];
  adopts = udt_decl_adopts;
  visits = always ∷ always ∷ [];
  casts = some Base.symbol ∷ some Base.udt_decl_body ∷ [];
  adopts_new = false;
  copies = copied always ∷ copied always ∷ [];
}

-- The constructor of `FuncDecl` that takes all fields.
abbrev pub func_decl_adopts : List Use
func_decl_adopts = always ∷ always ∷ always ∷ always ∷ []

-- `FuncDecl`.
-- swapChild does not compare the arguments.
abbrev pub func_decl_methods : ClassMethods
func_decl_methods = record {
  bases = Base.statement ∷ [];
  adopts = func_decl_adopts;
  visits = always ∷ if_present ∷ if_present ∷ if_present ∷ [];
  casts = some Base.annotated_symbol ∷ none ∷ some Base.block ∷ some Base.expression ∷ [];
  adopts_new = true;
  copies = copied always ∷ copied if_present ∷ copied if_present ∷ copied if_present ∷ [];
}

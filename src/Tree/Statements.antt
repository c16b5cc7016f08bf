-- ===== src/Tree/Statements.antt =====
-- odb-compiler/src/ast/: Assignment.cpp, CommandStmnt.cpp, FuncCall.cpp, FuncDecl.cpp, Exit.cpp, Goto.cpp,
-- Label.cpp and Subroutine.cpp.
use open_dark_basic.Prelude.{true, false, some, List, [], ◌∷◌}
use open_dark_basic.Tree.{Base, Use, always, if_present, copied, ClassMethods}

-- The constructor of `VarAssignment` that takes all fields.
abbrev pub var_assignment_adopts : List Use
var_assignment_adopts = always ∷ always ∷ []

-- `VarAssignment`.
abbrev pub var_assignment_methods : ClassMethods
var_assignment_methods = record {
  bases = Base.assignment ∷ Base.statement ∷ [];
  adopts = var_assignment_adopts;
  visits = always ∷ always ∷ [];
  casts = some Base.var_ref ∷ some Base.expression ∷ [];
  adopts_new = true;
  copies = copied always ∷ copied always ∷ [];
}

-- The constructor of `ArrayAssignment` that takes all fields.
abbrev pub array_assignment_adopts : List Use
array_assignment_adopts = always ∷ always ∷ []

-- `ArrayAssignment`.
abbrev pub array_assignment_methods : ClassMethods
array_assignment_methods = record {
  bases = Base.assignment ∷ Base.statement ∷ [];
  adopts = array_assignment_adopts;
  visits = always ∷ always ∷ [];
  casts = some Base.array_ref ∷ some Base.expression ∷ [];
  adopts_new = true;
  copies = copied always ∷ copied always ∷ [];
}

-- The constructor of `UDTFieldAssignment` that takes all fields.
abbrev pub udt_field_assignment_adopts : List Use
udt_field_assignment_adopts = always ∷ always ∷ []

-- `UDTFieldAssignment`.
abbrev pub udt_field_assignment_methods : ClassMethods
udt_field_assignment_methods = record {
  bases = Base.assignment ∷ Base.statement ∷ [];
  adopts = udt_field_assignment_adopts;
  visits = always ∷ always ∷ [];
  casts = some Base.udt_field_outer ∷ some Base.expression ∷ [];
  adopts_new = true;
  copies = copied always ∷ copied always ∷ [];
}

-- The constructor of `CommandStmnt` that takes all fields.
abbrev pub command_stmnt_adopts : List Use
command_stmnt_adopts = always ∷ []

-- `CommandStmnt`.
abbrev pub command_stmnt_methods : ClassMethods
command_stmnt_methods = record {
  bases = Base.statement ∷ [];
  adopts = command_stmnt_adopts;
  visits = if_present ∷ [];
  casts = some Base.arg_list ∷ [];
  adopts_new = true;
  copies = copied if_present ∷ [];
}

-- The constructor of `FuncCallStmnt` that takes all fields.
abbrev pub func_call_stmnt_adopts : List Use
func_call_stmnt_adopts = always ∷ always ∷ []

-- `FuncCallStmnt`.
abbrev pub func_call_stmnt_methods : ClassMethods
func_call_stmnt_methods = record {
  bases = Base.statement ∷ [];
  adopts = func_call_stmnt_adopts;
  visits = always ∷ if_present ∷ [];
  casts = some Base.annotated_symbol ∷ some Base.arg_list ∷ [];
  adopts_new = true;
  copies = copied always ∷ copied if_present ∷ [];
}

-- The constructor of `FuncExit` that takes all fields.
abbrev pub func_exit_adopts : List Use
func_exit_adopts = always ∷ []

-- `FuncExit`.
abbrev pub func_exit_methods : ClassMethods
func_exit_methods = record {
  bases = Base.statement ∷ [];
  adopts = func_exit_adopts;
  visits = if_present ∷ [];
  casts = some Base.expression ∷ [];
  adopts_new = true;
  copies = copied if_present ∷ [];
}

-- `Exit`.
abbrev pub exit_methods : ClassMethods
exit_methods = record {
  bases = Base.statement ∷ [];
  adopts = [];
  visits = [];
  casts = [];
  adopts_new = true;
  copies = [];
}

-- The constructor of `Goto` that takes all fields.
abbrev pub goto_adopts : List Use
goto_adopts = always ∷ []

-- `Goto`.
-- swapChild does not set the parent.
abbrev pub goto_methods : ClassMethods
goto_methods = record {
  bases = Base.statement ∷ [];
  adopts = goto_adopts;
  visits = always ∷ [];
  casts = some Base.symbol ∷ [];
  adopts_new = false;
  copies = copied always ∷ [];
}

-- The constructor of `Label` that takes all fields.
abbrev pub label_adopts : List Use
label_adopts = always ∷ []

-- `Label`.
abbrev pub label_methods : ClassMethods
label_methods = record {
  bases = Base.statement ∷ [];
  adopts = label_adopts;
  visits = always ∷ [];
  casts = some Base.symbol ∷ [];
  adopts_new = true;
  copies = copied always ∷ [];
}

-- The constructor of `SubCall` that takes all fields.
abbrev pub sub_call_adopts : List Use
sub_call_adopts = always ∷ []

-- `SubCall`.
abbrev pub sub_call_methods : ClassMethods
sub_call_methods = record {
  bases = Base.statement ∷ [];
  adopts = sub_call_adopts;
  visits = always ∷ [];
  casts = some Base.symbol ∷ [];
  adopts_new = true;
  copies = copied always ∷ [];
}

-- `SubReturn`.
abbrev pub sub_return_methods : ClassMethods
sub_return_methods = record {
  bases = Base.statement ∷ [];
  adopts = [];
  visits = [];
  casts = [];
  adopts_new = true;
  copies = [];
}

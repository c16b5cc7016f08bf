-- ===== src/Ir/Statements.antt =====
-- odb-compiler/include/odb-compiler/ir/Node.hpp: statements and functions of the intermediate
-- representation. Loops, labels and jumps are known by numbers, since other statements point to them.
use open_dark_basic.Prelude.{ℕ, Bytes}
use open_dark_basic.Ir.{Expression, Variable}

mutual
  pub data Statement : Type 0 where
    var_assignment : Variable → Expression → Statement
    conditional : Expression → Statements → Statements → Statement
    sub_return : Statement
    exit_function : Expression → Statement
    for_loop : ℕ → Variable → Expression → Expression → Expression → Statements → Statement
    while_loop : ℕ → Expression → Statements → Statement
    until_loop : ℕ → Expression → Statements → Statement
    infinite_loop : ℕ → Statements → Statement
    exit : ℕ → Statement
    label : ℕ → Bytes → Statement
    goto : ℕ → Statement
    gosub : ℕ → Statement
    function_call : Expression → Statement
    -- A null pointer, where the conversion reported an error.
    no_statement : Statement

  pub data Statements : Type 0 where
    nil : Statements
    cons : Statement → Statements → Statements

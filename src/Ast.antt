-- ===== src/Ast.antt =====
-- odb-compiler/include/odb-compiler/ast/: the parts of the syntax tree that the converter reads. An
-- argument list that is not there is an empty one.
use open_dark_basic.Prelude.{ℕ, Option, Bytes}
use open_dark_basic.Ir.{UnaryOp, BinaryOp}
use open_dark_basic.Ir.Types.{BuiltinType}

-- `ast::Annotation`.
pub data Annotation : Type 0 where
  unannotated double_integer word double_float float string : Annotation

-- `AnnotatedSymbol`.
pub record AnnotatedSymbol : Type 0 where
  pub name : Bytes
  pub annotation : Annotation

-- An expression; `other_expression` is one that the converter does not know.
mutual
  pub data AstExpression : Type 0 where
    unary_op : UnaryOp → AstExpression → AstExpression
    binary_op : BinaryOp → AstExpression → AstExpression → AstExpression
    var_ref : AnnotatedSymbol → AstExpression
    literal : BuiltinType → ℕ → AstExpression
    command_expr : Bytes → ArgList → AstExpression
    func_call_expr : AnnotatedSymbol → ArgList → AstExpression
    other_expression : AstExpression

  pub data ArgList : Type 0 where
    nil : ArgList
    cons : AstExpression → ArgList → ArgList

-- A statement; `other_statement` is one that the converter does not know, among them `ConstDecl`.
mutual
  pub data AstStatement : Type 0 where
    var_decl : AnnotatedSymbol → BuiltinType → AstExpression → AstStatement
    var_assignment : AnnotatedSymbol → AstExpression → AstStatement
    conditional : AstExpression → Block → Block → AstStatement
    sub_return : AstStatement
    func_exit : AstExpression → AstStatement
    for_loop :
        AnnotatedSymbol
        → AstExpression
        → AstExpression
        → Option AstExpression
        → Block
        → AstStatement
    while_loop : AstExpression → Block → AstStatement
    until_loop : AstExpression → Block → AstStatement
    infinite_loop : Block → AstStatement
    exit : AstStatement
    label : Bytes → AstStatement
    func_call_stmnt : AnnotatedSymbol → ArgList → AstStatement
    goto : Bytes → AstStatement
    sub_call : Bytes → AstStatement
    command_stmnt : Bytes → ArgList → AstStatement
    other_statement : AstStatement

  pub data Block : Type 0 where
    nil : Block
    cons : AstStatement → Block → Block

-- ===== src/Lib.antt =====
-- OpenDarkBASIC: a model of the compiler, from the text helpers of the SDK over the syntax tree and its
-- conversion into the intermediate representation to the expressions that are handed to LLVM.
--
-- The parts and how they work together. The loader (odb-compiler/src/commands/ODBCommandLoader.cpp)
-- fills an index of commands (CommandIndex.cpp) from plugins. The matcher (CommandMatcher.cpp) takes the
-- index's names in order. The parser's driver (odb-compiler/src/parsers/db/Driver.cpp) reads tokens
-- ahead and asks the matcher whether they spell a command, so that the parser gets one token for
-- `make object cube`. The converter (odb-compiler/src/ir/semantic/ASTConverter.cpp) looks the command up
-- in the index again, chooses an overload and types the program. The code generator
-- (odb-compiler/src/ir/codegen/CodeGenerator.cpp) makes LLVM values of the typed expressions.
--
-- Which file models which part:
--   Prelude        shared names: tests on numbers, lists, membership, integers
--   Str            odb-sdk/src/Str.cpp: a text is the list of its bytes
--   Commands       Command (Command.hpp), Index (CommandIndex.cpp), Matcher (CommandMatcher.cpp),
--                  Loader (ODBCommandLoader.cpp), Dbp (DBPCommandLoader.cpp)
--   Driver         Driver.cpp: the queue of tokens in doParse; Literals: newIntLikeLiteral
--   Location       odb-compiler/src/ast/SourceLocation.cpp: a section and unionize
--   Tree           odb-compiler/src/ast/: the node classes as objects on a heap; Methods runs accept,
--                  swapChild and duplicate by what each class says of its children
--   Passes         odb-compiler/src/astpost/: the checks, EliminateBitwiseNotRHS (Bitwise) on a heap
--   Ast, Ir        the parts of the syntax tree that are read, and odb-compiler/src/ir/Node.cpp
--   Convert        ASTConverter.cpp: types, Overload, Expressions, Statements, Program
--   Codegen        CodeGenerator.cpp: types and symbol tables; Emit: generateExpression; Storage: the
--                  variables of a function
-- A function of the source has its name in snake case; `findLongestCommandMatching` is
-- `find_longest_command_matching`. State is a record that is passed on: the index, the matcher, the
-- queue, and the converter's state in a monad in which no result is the end of the process. Pointers
-- to loops, labels and jumps are numbers, and a table says to which label a jump points. The node
-- classes differ only in what their methods do with each child, so a class is a record of lists, one
-- entry for each child, and one function runs the method of all classes.
--
-- Bounds and fuel. Loops that are not over a list run on fuel: `split` needs one round more than the
-- text has bytes, which it is given; `replace_all`, `justify_wrap` and `do_parse` take their fuel as an
-- argument, and theorems say how much is enough or that none is. Bytes are numbers below 256; lengths
-- and lines are unbounded where the source has `int`. The casts to integers of 8 to 64 bits are
-- written out. A walk over the syntax tree on the heap has as its fuel the depth that it goes;
-- the number of nodes is enough. Theorems about the matcher are for ASCII text without NUL.
--
-- Parameters. The lexer, the push parser and the table of keywords are generated by the build. The
-- lexer is the list of tokens that it gives, the other two are arguments of the definitions. The loader
-- takes the directories, the libraries in them and the symbols and texts of a library as
-- parameters. The builder of LLVM is the record Builder; Documented says which types its values
-- have where operands and arguments have the types asked for, and TypedThunks that the engine interface
-- makes functions of the type that it is given. In the code generator a fatal error is logged and a null
-- pointer returned; the model has no result there, as where a null pointer is read.
--
-- Not modelled: the grammar, the locations in the syntax tree and its texts, the directories of DBP
-- plugins, code generation for statements, the engine interfaces (calls of LLVM throughout), exporters,
-- logging, files, the command line, and the reference counts, a copy of another project's. The order in
-- which a hash table is read, the order among overloads with one score, and the order in which the
-- arguments of one call are evaluated, such as the branches of a conditional in the converter, are open
-- in C++; the model takes one of them. Messages that are logged are left out, the flag that they set is
-- kept.
pub mod Prelude
pub mod Str
pub mod Commands
pub mod Driver
pub mod Location
pub mod Passes
pub mod Tree
pub mod Ast
pub mod Ir
pub mod Convert
pub mod Codegen

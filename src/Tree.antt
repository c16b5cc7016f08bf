-- ===== src/Tree.antt =====
-- odb-compiler/src/ast/ and odb-compiler/include/odb-compiler/ast/Node.hpp: the nodes of the syntax
-- tree as objects on a heap. The children below say what the methods of each class do with the
-- fields; `Methods` runs them.
mod Symbols
mod Expressions
mod Lists
mod Declarations
mod Statements
mod Branches
mod Loops
pub mod Methods
mod Shape
mod Visit
pub mod Tests
mod Frame
mod Adopt
mod Duplicate
mod Missing
pub mod Runs
pub mod Swap
use open_dark_basic.Prelude.{ℕ, suc, Bool, ◌==◌, if◌then◌else◌, Option, some, none, List, Bytes}
use open_dark_basic.Ast.{Annotation}
use open_dark_basic.Ir.{UnaryOp, BinaryOp}
use open_dark_basic.Ir.Types.{BuiltinType}

-- `Scope`.
pub data Scope : Type 0 where
  local global : Scope

-- The class of a node, with the fields of it that are not nodes. The classes that the source makes
-- from one macro for each data type are one constructor. A body of a type of the user says how many
-- of its fields are variables, a list of cases how many are not the default.
pub data Class : Type 0 where
  symbol udt_ref command_expr command_stmnt : Bytes → Class
  annotated_symbol : Annotation → Bytes → Class
  scoped_annotated_symbol : Scope → Annotation → Bytes → Class
  literal : BuiltinType → ℕ → Class
  unary_op : UnaryOp → Class
  binary_op : BinaryOp → Class
  func_call_expr func_call_expr_or_array_ref var_ref array_ref udt_field_outer : Class
  udt_field_inner arg_list initializer_list block const_decl_expr const_decl udt_var_decl : Class
  udt_array_decl udt_decl func_decl var_assignment array_assignment udt_field_assignment : Class
  func_call_stmnt func_exit exit goto label sub_call sub_return conditional select case_ : Class
  default_case infinite_loop while_loop until_loop for_loop : Class
  udt_decl_body case_list : ℕ → Class
  var_decl array_decl : BuiltinType → Class

-- The classes to which the source casts a node.
pub data Base : Type 0 where
  symbol annotated_symbol scoped_annotated_symbol udt_ref arg_list initializer_list block : Base
  udt_decl_body case_list case_ default_case expression statement lvalue var_ref array_ref : Base
  udt_field_outer assignment literal var_decl array_decl : Base

abbrev pub Ref : Type 0
Ref = ℕ

-- The fields of a node that are nodes, in the order in which `accept` visits them; `none` is a
-- null pointer.
abbrev pub Fields : Type 0
Fields = List (Option Ref)

-- How a method uses a field: without a test, or when it is not null.
pub data Use : Type 0 where
  always if_present : Use

-- What becomes of a field in a duplicate: its own duplicate, or the same node.
pub data Copy : Type 0 where
  copied : Use → Copy
  shared : Copy

-- What the methods of a class do with the fields, one entry for each field. `adopts` are the calls of
-- setParent in the constructor that takes all fields, `visits` the calls of `accept`. `casts` are the
-- branches of swapChild: to what the new child is cast, or nothing where the field is not compared;
-- `adopts_new` says whether swapChild sets the new child's parent. `copies` is duplicateImpl, and
-- `bases` are the class and the classes that it extends.
pub record ClassMethods : Type 0 where
  pub bases : List Base
  pub adopts : List Use
  pub visits : List Use
  pub casts : List (Option Base)
  pub adopts_new : Bool
  pub copies : List Copy

-- A node. The constructor of `Node` leaves `parent_` as it is: `none` is a parent that is not set.
pub record Object : Type 0 where
  pub parent : Option Ref
  pub class_ : Class
  pub fields : Fields

pub record Heap : Type 0 where
  pub next : Ref
  pub object : Ref → Option Object

-- A step on the heap. No result is a failed assertion or a null pointer that is used.
abbrev pub M : Type 0 → Type 0
M A = Heap → Option (A × Heap)

abbrev pub fault : {A : Type 0} → M A
fault heap = none

abbrev pub pure : {A : Type 0} → A → M A
pure value heap = some (value, heap)

abbrev pub or_fault : {A : Type 0} → Option A → M A
or_fault none = fault
or_fault (some value) = pure value

infixl 5 ◌>>=◌
abbrev pub ◌>>=◌ : {A B : Type 0} → M A → (A → M B) → M B
◌>>=◌ step next heap = elim (step heap) [ none ↦ none | some (value, heap') ↦ next value heap' ]

infixl 5 ◌>>◌
abbrev pub ◌>>◌ : {B : Type 0} → M (Unit {0}) → M B → M B
◌>>◌ step next = step >>= λ _. next

abbrev pub overwrite : (Ref → Option Object) → Ref → Object → Ref → Option Object
overwrite objects p o q = if p == q then some o else objects q

abbrev pub load : Ref → M Object
load p heap = elim (heap.object p) [ none ↦ none | some o ↦ some (o, heap) ]

abbrev pub store : Ref → Object → M (Unit {0})
store p o heap = some (tt, record heap { object = overwrite heap.object p o })

unfoldable pub allocate : Class → Fields → M Ref
allocate c fs h = some (
  h.next,
  record {
    next = suc h.next;
    object = overwrite h.object h.next (record { parent = none; class_ = c; fields = fs });
  },
)

-- `Node::setParent`.
unfoldable pub set_parent : Ref → Ref → M (Unit {0})
set_parent child p = do o ← load child; store child (record o { parent = some p })

-- ===== src/Tree/Loops.antt =====
-- odb-compiler/src/ast/: Loop.cpp.
use open_dark_basic.Prelude.{true, some, List, [], ◌∷◌}
use open_dark_basic.Tree.{Base, Use, always, if_present, copied, ClassMethods}

-- The constructor of `InfiniteLoop` that takes all fields.
abbrev pub infinite_loop_adopts : List Use
infinite_loop_adopts = always ∷ []

-- `InfiniteLoop`.
abbrev pub infinite_loop_methods : ClassMethods
infinite_loop_methods = record {
  bases = Base.statement ∷ [];
  adopts = infinite_loop_adopts;
  visits = if_present ∷ [];
  casts = some Base.block ∷ [];
  adopts_new = true;
  copies = copied if_present ∷ [];
}

-- The constructor of `WhileLoop` that takes all fields.
abbrev pub while_loop_adopts : List Use
while_loop_adopts = always ∷ always ∷ []

-- `WhileLoop`.
abbrev pub while_loop_methods : ClassMethods
while_loop_methods = record {
  bases = Base.statement ∷ [];
  adopts = while_loop_adopts;
  visits = always ∷ if_present ∷ [];
  casts = some Base.expression ∷ some Base.block ∷ [];
  adopts_new = true;
  copies = copied always ∷ copied if_present ∷ [];
}

-- The constructor of `UntilLoop` that takes all fields.
abbrev pub until_loop_adopts : List Use
until_loop_adopts = always ∷ always ∷ []

-- `UntilLoop`.
abbrev pub until_loop_methods : ClassMethods
until_loop_methods = record {
  bases = Base.statement ∷ [];
  adopts = until_loop_adopts;
  visits = always ∷ if_present ∷ [];
  casts = some Base.expression ∷ some Base.block ∷ [];
  adopts_new = true;
  copies = copied always ∷ copied if_present ∷ [];
}

-- The constructor of `ForLoop` that takes all fields.
abbrev pub for_loop_adopts : List Use
for_loop_adopts = always ∷ always ∷ always ∷ always ∷ always ∷ []

-- `ForLoop`.
abbrev pub for_loop_methods : ClassMethods
for_loop_methods = record {
  bases = Base.statement ∷ [];
  adopts = for_loop_adopts;
  visits = always ∷ always ∷ if_present ∷ if_present ∷ if_present ∷ [];
  casts =
      some Base.assignment
      ∷ some Base.expression
      ∷ some Base.expression
      ∷ some Base.annotated_symbol
      ∷ some Base.block
      ∷ [];
  adopts_new = true;
  copies =
      copied always
      ∷ copied always
      ∷ copied if_present
      ∷ copied if_present
      ∷ copied if_present
      ∷ [];
}

-- ===== src/Tree/Branches.antt =====
-- odb-compiler/src/ast/: Conditional.cpp and SelectCase.cpp.
use open_dark_basic.Prelude.{true, some, List, [], ◌∷◌}
use open_dark_basic.Tree.{Base, Use, always, if_present, copied, ClassMethods}

-- The constructor of `Conditional` that takes all fields.
abbrev pub conditional_adopts : List Use
conditional_adopts = always ∷ if_present ∷ if_present ∷ []

-- `Conditional`.
abbrev pub conditional_methods : ClassMethods
conditional_methods = record {
  bases = Base.statement ∷ [];
  adopts = conditional_adopts;
  visits = always ∷ if_present ∷ if_present ∷ [];
  casts = some Base.expression ∷ some Base.block ∷ some Base.block ∷ [];
  adopts_new = true;
  copies = copied always ∷ copied if_present ∷ copied if_present ∷ [];
}

-- The constructor of `Select` that takes all fields.
abbrev pub select_adopts : List Use
select_adopts = always ∷ always ∷ []

-- `Select`.
abbrev pub select_methods : ClassMethods
select_methods = record {
  bases = Base.statement ∷ [];
  adopts = select_adopts;
  visits = always ∷ if_present ∷ [];
  casts = some Base.expression ∷ some Base.case_list ∷ [];
  adopts_new = true;
  copies = copied always ∷ copied if_present ∷ [];
}

-- The constructor of `Case` that takes all fields.
abbrev pub case__adopts : List Use
case__adopts = always ∷ always ∷ []

-- `Case`.
abbrev pub case__methods : ClassMethods
case__methods = record {
  bases = Base.case_ ∷ [];
  adopts = case__adopts;
  visits = always ∷ if_present ∷ [];
  casts = some Base.expression ∷ some Base.block ∷ [];
  adopts_new = true;
  copies = copied always ∷ copied if_present ∷ [];
}

-- The constructor of `DefaultCase` that takes all fields.
abbrev pub default_case_adopts : List Use
default_case_adopts = always ∷ []

-- `DefaultCase`.
abbrev pub default_case_methods : ClassMethods
default_case_methods = record {
  bases = Base.default_case ∷ [];
  adopts = default_case_adopts;
  visits = if_present ∷ [];
  casts = some Base.block ∷ [];
  adopts_new = true;
  copies = copied if_present ∷ [];
}

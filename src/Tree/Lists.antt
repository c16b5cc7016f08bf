-- ===== src/Tree/Lists.antt =====
-- odb-compiler/src/ast/: ArgList.cpp, InitializerList.cpp, Block.cpp, UDTDecl.cpp and SelectCase.cpp: nodes
-- with any number of children, which are appended one by one.
use open_dark_basic.Prelude.{ℕ, ◌-◌, true, false, some, [], ◌∷◌, ◌++◌, replicate}
use open_dark_basic.Tree.{Base, always, copied, shared, ClassMethods}

-- `ArgList`.
abbrev pub arg_list_methods : ℕ → ClassMethods
arg_list_methods all = record {
  bases = Base.arg_list ∷ [];
  adopts = replicate all always;
  visits = replicate all always;
  casts = replicate all (some Base.expression);
  adopts_new = true;
  copies = replicate all (copied always);
}

-- `InitializerList`.
abbrev pub initializer_list_methods : ℕ → ClassMethods
initializer_list_methods all = record {
  bases = Base.initializer_list ∷ Base.expression ∷ [];
  adopts = replicate all always;
  visits = replicate all always;
  casts = replicate all (some Base.expression);
  adopts_new = true;
  copies = replicate all (copied always);
}

-- `Block`.
abbrev pub block_methods : ℕ → ClassMethods
block_methods all = record {
  bases = Base.block ∷ [];
  adopts = replicate all always;
  visits = replicate all always;
  casts = replicate all (some Base.statement);
  adopts_new = true;
  copies = replicate all (copied always);
}

-- `UDTDeclBody`.
-- The variables come first, then the arrays; the first argument is the
-- number of variables. swapChild does not set the parent.
abbrev pub udt_decl_body_methods : ℕ → ℕ → ClassMethods
udt_decl_body_methods n all = record {
  bases = Base.udt_decl_body ∷ [];
  adopts = replicate all always;
  visits = replicate all always;
  casts = replicate n (some Base.var_decl) ++ replicate (all - n) (some Base.array_decl);
  adopts_new = false;
  copies = replicate all (copied always);
}

-- `CaseList`.
-- The cases, then the default cases, which a duplicate shares.
abbrev pub case_list_methods : ℕ → ℕ → ClassMethods
case_list_methods n all = record {
  bases = Base.case_list ∷ [];
  adopts = replicate all always;
  visits = replicate all always;
  casts = replicate n (some Base.case_) ++ replicate (all - n) (some Base.default_case);
  adopts_new = true;
  copies = replicate n (copied always) ++ replicate (all - n) shared;
}

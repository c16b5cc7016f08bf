-- ===== src/Tree/Symbols.antt =====
-- odb-compiler/src/ast/: Symbol.cpp, AnnotatedSymbol.cpp, ScopedAnnotatedSymbol.cpp and UDTRef.cpp.
use open_dark_basic.Prelude.{true, [], ◌∷◌}
use open_dark_basic.Tree.{Base, ClassMethods}

-- `Symbol`.
abbrev pub symbol_methods : ClassMethods
symbol_methods = record {
  bases = Base.symbol ∷ [];
  adopts = [];
  visits = [];
  casts = [];
  adopts_new = true;
  copies = [];
}

-- `AnnotatedSymbol`.
abbrev pub annotated_symbol_methods : ClassMethods
annotated_symbol_methods = record {
  bases = Base.annotated_symbol ∷ Base.symbol ∷ [];
  adopts = [];
  visits = [];
  casts = [];
  adopts_new = true;
  copies = [];
}

-- `ScopedAnnotatedSymbol`.
abbrev pub scoped_annotated_symbol_methods : ClassMethods
scoped_annotated_symbol_methods = record {
  bases = Base.scoped_annotated_symbol ∷ Base.symbol ∷ [];
  adopts = [];
  visits = [];
  casts = [];
  adopts_new = true;
  copies = [];
}

-- `UDTRef`.
abbrev pub udt_ref_methods : ClassMethods
udt_ref_methods = record {
  bases = Base.udt_ref ∷ Base.symbol ∷ [];
  adopts = [];
  visits = [];
  casts = [];
  adopts_new = true;
  copies = [];
}

-- ===== src/Location.antt =====
-- odb-compiler/src/ast/SourceLocation.cpp: a section of a source text, and the union of two.
mod Tests
use open_dark_basic.Prelude.{
  ℕ, ◌≡◌, ◌≤◌, ◌<◌, ◌⊎◌, refl, Bool, true, false, ltb, ◌==◌, if◌then◌else◌, arith,
}

-- The lines and columns of a `SourceLocation`, which its constructor takes.
pub record SourceLocation : Type 0 where
  pub first_line : ℕ
  pub last_line : ℕ
  pub first_column : ℕ
  pub last_column : ℕ

-- `unionize`: the columns are set first, by the lines as they are before.
unfoldable pub unionize : SourceLocation → SourceLocation → SourceLocation
unionize a b = record {
  first_line = if ltb b.first_line a.first_line then b.first_line else a.first_line;
  last_line = if ltb a.last_line b.last_line then b.last_line else a.last_line;
  first_column =
      if ltb b.first_line a.first_line
      then b.first_column
      else if a.first_line == b.first_line
      then if ltb b.first_column a.first_column then b.first_column else a.first_column
      else a.first_column;
  last_column =
      if ltb a.last_line b.last_line
      then b.last_column
      else if a.last_line == b.last_line
      then if ltb a.last_column b.last_column then b.last_column else a.last_column
      else a.last_column;
}

-- A place (line, column) comes before another or is it.
abbrev pub NotAfter : ℕ → ℕ → ℕ → ℕ → Type 0
NotAfter l c l' c' = (l < l') ⊎ ((l ≡ l') × (c ≤ c'))

-- The section `a` lies within the section `b`.
pub record Within (a b : SourceLocation) : Type 0 where
  pub begins : NotAfter b.first_line b.first_column a.first_line a.first_column
  pub ends : NotAfter a.last_line a.last_column b.last_line b.last_column

-- Both sections lie within their union.
unionize-Within : (a b : SourceLocation) → Within a (unionize a b) × Within b (unionize a b)
unfolding unionize
unionize-Within a b = (
  record { begins = ground arith; ends = ground arith },
  record { begins = ground arith; ends = ground arith },
)

-- And it is the least that they lie within: every section with both in it has the union in it.
unionize-least : (a b c : SourceLocation) → Within a c → Within b c → Within (unionize a b) c
unfolding unionize
unionize-least a b c h k = record {
  begins = ground (arith, h.begins, k.begins);
  ends = ground (arith, h.ends, k.ends);
}

-- The union does not depend on the order in which sections are joined, nor on how often.
unionize_laws :
    (a b c : SourceLocation)
    → (unionize a b ≡ unionize b a)
      × (unionize (unionize a b) c ≡ unionize a (unionize b c))
      × (unionize a a ≡ a)
unfolding unionize
unionize_laws a b c = (ground arith, ground arith, ground arith)

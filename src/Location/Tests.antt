-- ===== src/Location/Tests.antt =====
-- odb-compiler/src/ast/SourceLocation.cpp: `unionize` at concrete sections.
use open_dark_basic.Prelude.{arith, ◌≡◌, refl}
use open_dark_basic.Location.{SourceLocation, unionize, Within}

abbrev first : SourceLocation
first = record { first_line = 2; last_line = 3; first_column = 5; last_column = 1 }

abbrev second : SourceLocation
second = record { first_line = 2; last_line = 2; first_column = 1; last_column = 9 }

abbrev whole : SourceLocation
whole = record { first_line = 1; last_line = 9; first_column = 1; last_column = 1 }

first-Within : Within first whole
first-Within = record { begins = ground arith; ends = ground arith }

second-Within : Within second whole
second-Within = record { begins = ground arith; ends = ground arith }

union_joins :
    unionize first second
    ≡ record { first_line = 2; last_line = 3; first_column = 1; last_column = 1 }
unfolding unionize
union_joins = refl

-- ===== src/Commands.antt =====
-- odb-compiler/src/commands: the commands that plugins add to the language, the index that collects
-- them, and the matcher by which the parser finds them in a text.
pub mod Command
pub mod Index
pub mod Matcher
pub mod Loader
pub mod Dbp
mod Tests

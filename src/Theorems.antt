-- ===== src/Theorems.antt =====
-- What holds of the executor (path/exec), by the part that each module is about.
pub mod Fuel
pub mod Frame
pub mod Answers
pub mod Kleene
pub mod Pairs
pub mod Slices
pub mod Subscripts
pub mod Integers
pub mod Arithmetic
pub mod Ordering
pub mod Identifiers
pub mod KeyValue
pub mod Zones
pub mod Unwrap
pub mod Texts
pub mod Walk
pub mod Syntax
pub mod Flags
pub mod Division
pub mod Context
pub mod Reading
pub mod Parsing
pub mod Quoting
pub mod Signs
pub mod Paths
pub mod Clocks
pub mod Encoding
mod Tests

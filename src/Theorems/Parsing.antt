-- ===== src/Theorems/Parsing.antt =====
-- The generated parser (path/parser/grammar.go) ends on every path: each round takes down a number made
-- of the characters that are left, the length of the stack, and the weight of the state.
pub mod Tables
pub mod Result
pub mod Reductions
pub mod Rounds
pub mod Ends

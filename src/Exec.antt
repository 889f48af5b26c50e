-- ===== src/Exec.antt =====
-- The executor of paths (path/exec), one module for each of its parts.
pub mod Error
pub mod Env
pub mod State
pub mod Next
pub mod AnyItem
pub mod Literal
pub mod Const
pub mod Util
pub mod Array
pub mod KeyValue
pub mod Math
pub mod Datetime
pub mod Compare
pub mod Predicate
pub mod Boolean
pub mod Method
pub mod Dispatch
pub mod Query
pub mod Sample

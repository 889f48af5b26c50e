-- ===== src/Ast.antt =====
-- The syntax tree of a path (path/ast/ast.go): the nodes, their operators and the accessors.
pub mod Size
pub mod Build
pub mod Validate
pub mod Regex
pub mod Number
pub mod Printer
use sqljson.Prelude.{ℕ, Bool, Str, not as negation}
use sqljson.Prelude.Int.{ℤ}
use sqljson.Golang.{Float64}

pub data Constant : Type 0 where
  root current last any_array any_key true false null : Constant

pub data BinaryOperator : Type 0 where
  and or equal not_equal less greater less_or_equal greater_or_equal starts_with : BinaryOperator
  add sub mul div mod_of subscript decimal : BinaryOperator

pub data UnaryOperator : Type 0 where
  exists not is_unknown plus minus filter date_time date time time_tz : UnaryOperator
  timestamp timestamp_tz : UnaryOperator

pub data MethodName : Type 0 where
  abs size type floor ceiling double key_value big_int boolean integer number string : MethodName

-- A `Ref` is a `Node` interface value of Go, which may be nil: the next item of an accessor list or
-- an operand. Numbers carry their literal and the value that `parsed` spells.
mutual
  pub data Node : Type 0 where
    const_node : Constant → Ref → Node
    method_node : MethodName → Ref → Node
    string_node : Str → Ref → Node
    variable_node : Str → Ref → Node
    key_node : Str → Ref → Node
    numeric_node : Str → Float64 → Ref → Node
    integer_node : Str → ℤ → Ref → Node
    any_node : ℕ → ℕ → Ref → Node
    binary_node : BinaryOperator → Ref → Ref → Ref → Node
    unary_node : UnaryOperator → Ref → Ref → Node
    regex_node : Ref → Str → ℕ → Ref → Node
    array_index_node : Nodes → Ref → Node

  pub data Ref : Type 0 where
    nil : Ref
    to : Node → Ref

  pub data Nodes : Type 0 where
    end : Nodes
    more : Ref → Nodes → Nodes

-- n.Next()
unfoldable pub next_of : Node → Ref
next_of (const_node _ n) = n
next_of (method_node _ n) = n
next_of (string_node _ n) = n
next_of (variable_node _ n) = n
next_of (key_node _ n) = n
next_of (numeric_node _ _ n) = n
next_of (integer_node _ _ n) = n
next_of (any_node _ _ n) = n
next_of (binary_node _ _ _ n) = n
next_of (unary_node _ _ n) = n
next_of (regex_node _ _ _ n) = n
next_of (array_index_node _ n) = n

abbrev pub is_nil : Ref → Bool
is_nil nil = Bool.true
is_nil (to _) = Bool.false

-- A parsed path: its root node, its mode, and whether it is a predicate check.
pub record Ast : Type 0 where
  pub root : Ref
  pub lax : Bool
  pub pred : Bool

abbrev pub is_strict : Ast → Bool
is_strict a = negation a.lax

-- ===== src/Json.antt =====
-- The values that paths run on: the Go types which the executor tells apart in an `any`.
use sqljson.Prelude.{ℕ, Bool, Str, List, [], ◌∷◌, Option, none, some, str_eq, if◌then◌else◌}
use sqljson.Prelude.Int.{ℤ}
use sqljson.Golang.{Float64}

-- A time.Time as an instant in nanoseconds and an offset from UTC in seconds.
pub record Time : Type 0 where
  pub instant : ℤ
  pub zone : ℤ

-- The types of path/types, by their names in SQL.
pub data DateTime : Type 0 where
  date time time_tz timestamp timestamp_tz : Time → DateTime

-- A container carries its address, which `.keyvalue()` reads. The fields of a map are listed in the
-- order in which Go iterates over it. `other` is a value of any other Go type.
mutual
  pub data Value : Type 0 where
    null : Value
    bool : Bool → Value
    int : ℤ → Value
    float : Float64 → Value
    number : Str → Value
    string : Str → Value
    datetime : DateTime → Value
    array : ℕ → Items → Value
    object : ℕ → Fields → Value
    other : ℕ → Value

  pub data Items : Type 0 where
    nil : Items
    cons : Value → Items → Items

  pub data Fields : Type 0 where
    end : Fields
    field : Str → Value → Fields → Fields

-- value[key]
unfoldable pub get_field : Str → Fields → Option Value
get_field key end = none
get_field key (field k v fs) = if str_eq k key then some v else get_field key fs

-- maps.Keys(obj)
unfoldable pub keys : Fields → List Str
keys end = []
keys (field k v fs) = k ∷ keys fs

unfoldable pub items_list : Items → List Value
items_list nil = []
items_list (cons v vs) = v ∷ items_list vs

unfoldable pub values : Fields → List Value
values end = []
values (field k v fs) = v ∷ values fs

-- ===== src/Theorems/Tests/Items.antt =====
-- The theorems on items and their types, at concrete inputs.
use sqljson.Prelude.{
  Str, ◌+◌, false, ◌≡◌, refl, none, List, [], bytes, arith, if◌then◌else◌, ◌⊎◌, ◌↔◌,
}
use sqljson.Prelude.Int.{pos_part, ℤ, ◌*ℤ◌, ◌+ℤ◌, quot, rem, pos, negsuc, IsInt64}
use sqljson.Json.{object, Fields, field, end, keys, int, string, Time, DateTime, datetime}
use sqljson.Ast.{Constant, const_node, nil, next_of, BinaryOperator, UnaryOperator}
use sqljson.Exec.Error.{Result, Pred, unknown}
use sqljson.Exec.State.{ran, pure}
use sqljson.Exec.Boolean.{both, either}
use sqljson.Exec.Compare.{compare_items}
use sqljson.Exec.Math.{execute_integer_math}
use sqljson.Exec.KeyValue.{pair_id, offset_of}
use sqljson.Exec.Method.Number.{int_abs, big_int_of, integer_of}
use sqljson.Exec.Method.Text.{string_of}
use sqljson.Exec.Datetime.{cast}
use sqljson.Exec.Datetime.Compare.{compare_datetime}
use sqljson.Exec.Sample.{floats, times}
use sqljson.Theorems.Kleene.{both_kleene, both-negated, negated, lower, is_pred_false}
use sqljson.Theorems.Subscripts.{IsValueIn, with_found}
use sqljson.Theorems.Arithmetic.{integer_math-IsWrapped, int_abs_lem, IsWrapped, exact, least}
use sqljson.Theorems.Ordering.{mirrored}
use sqljson.Theorems.Ordering.Scalars.{compare_items-mirrored}
use sqljson.Theorems.Identifiers.{pair_id_iff}
use sqljson.Theorems.KeyValue.{execute_key_value_method-IsSorted, IsSorted, count, keyed_run}
use sqljson.Exec.KeyValue.{execute_key_value_method}
use sqljson.Exec.Dispatch.{exec}
use sqljson.Theorems.Integers.{get_json_int32_iff, integer_of_iff, IsInt32, IsInt32Value}
use sqljson.Exec.Util.{get_json_int32}
use sqljson.Theorems.Zones.{cast-IsCast, compare_datetime-IsRefused, IsCast, IsRefused}
use sqljson.Theorems.Texts.{big_int_of-string_of, then_method}
use sqljson.Theorems.Division.{integer_division}
use sqljson.Theorems.Tests.{lax_env, start}

both_kleene_example :
    both (pure (unknown, none)) (pure (Pred.false, none)) start
    ≡ ran (lower unknown Pred.false, none) (if is_pred_false unknown then start else start)
unfolding pure
both_kleene_example =
    both_kleene (pure (unknown, none)) (pure (Pred.false, none)) unknown Pred.false start start
      start refl refl

both-negated_example :
    negated (both (pure (unknown, none)) (pure (Pred.false, none))) start
    ≡ either (negated (pure (unknown, none))) (negated (pure (Pred.false, none))) start
unfolding pure
both-negated_example =
    both-negated (pure (unknown, none)) (pure (Pred.false, none)) (λ s. tt) (λ s. tt) start

integer_math-IsWrapped_example :
    IsValueIn
      (IsWrapped (exact BinaryOperator.add (pos 9223372036854775807) (pos 1)))
      (execute_integer_math (pos 9223372036854775807) (pos 1) BinaryOperator.add)
integer_math-IsWrapped_example =
    integer_math-IsWrapped (pos 9223372036854775807) (pos 1) BinaryOperator.add

int_abs_lem_example :
    ((negsuc 4 ≡ least) × (int_abs (negsuc 4) ≡ least))
    ⊎ (IsInt64 (int_abs (negsuc 4)) × (int_abs (negsuc 4) ≡ pos (0 + 5)))
int_abs_lem_example = int_abs_lem (negsuc 4) (omega arith)

compare_items-mirrored_example :
    compare_items lax_env
      (mirrored BinaryOperator.less)
      (string (bytes "b"))
      (string (bytes "a"))
      start
    ≡ compare_items lax_env BinaryOperator.less (string (bytes "a")) (string (bytes "b")) start
compare_items-mirrored_example =
    compare_items-mirrored lax_env BinaryOperator.less (string (bytes "a")) (string (bytes "b"))
      start tt tt

abbrev noon : Time
noon = record { instant = pos 43200; zone = pos 0 }

cast-IsCast_example :
    IsValueIn
      (IsCast false UnaryOperator.date (DateTime.timestamp noon))
      (cast times false UnaryOperator.date (DateTime.timestamp noon))
cast-IsCast_example = cast-IsCast times false UnaryOperator.date (DateTime.timestamp noon)

compare_datetime-IsRefused_example :
    IsRefused (compare_datetime times false (DateTime.time noon) (datetime (DateTime.time_tz noon)))
compare_datetime-IsRefused_example =
    compare_datetime-IsRefused times (DateTime.time noon) (DateTime.time_tz noon) (λ e. cc)

big_int_of-string_of_example :
    then_method (big_int_of floats) (string_of floats times (int (negsuc 41)))
    ≡ Result.value (int (negsuc 41))
big_int_of-string_of_example = big_int_of-string_of floats times (negsuc 41) (omega arith)

integer_division_example :
    (q : ℤ) × (m : ℤ) × (execute_integer_math (negsuc 6) (pos 2) BinaryOperator.div
      ≡ Result.value q)
    × (execute_integer_math (negsuc 6) (pos 2) BinaryOperator.mod_of ≡ Result.value m)
    × (q *ℤ pos 2 +ℤ m ≡ negsuc 6)
unfolding quot rem
integer_division_example = integer_division (negsuc 6) (pos 2) refl (omega arith) (omega arith)

pair_id_iff_example :
    (pair_id 100 2 150 ≡ pair_id 100 2 50)
    ↔ ((pos_part (pos 2) ≡ 2) × (offset_of 100 150 ≡ offset_of 100 50))
unfolding offset_of
pair_id_iff_example =
    pair_id_iff 100 2 150 100 2 50 (omega arith) (omega arith) (omega arith) (omega arith)

abbrev two_fields : Fields
two_fields = field (bytes "b") (int (pos 1)) (field (bytes "a") (int (pos 2)) end)

execute_key_value_method-IsSorted_example :
    (ks : List Str) × IsSorted ks
    × ((k : Str) → count k ks ≡ count k (keys two_fields))
    × (execute_key_value_method lax_env
          (exec lax_env 9)
          (const_node Constant.null nil)
          (object 7 two_fields)
          false
          (with_found start [])
        ≡ keyed_run lax_env two_fields 7 start [] ks)
unfolding next_of
execute_key_value_method-IsSorted_example =
    execute_key_value_method-IsSorted lax_env (exec lax_env 9) (const_node Constant.null nil) 7
      two_fields false refl start []

get_json_int32_iff_example :
    IsValueIn IsInt32 (get_json_int32 floats (int (negsuc 8)))
    × ((get_json_int32 floats (int (pos 2147483648)) ≡ Result.value (pos 2147483648))
        ↔ IsInt32 (pos 2147483648))
get_json_int32_iff_example = get_json_int32_iff floats (int (negsuc 8)) (pos 2147483648)

integer_of_iff_example :
    IsValueIn IsInt32Value (integer_of floats (string (bytes "12")))
    × ((integer_of floats (int (negsuc 8)) ≡ Result.value (int (negsuc 8))) ↔ IsInt32 (negsuc 8))
integer_of_iff_example = integer_of_iff floats (string (bytes "12")) (negsuc 8)

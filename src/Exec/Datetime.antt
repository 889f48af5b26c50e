-- ===== src/Exec/Datetime.antt =====
-- path/exec/datetime.go: .datetime() and the methods for one type of date or time.
pub mod Compare
use sqljson.Prelude.{Bool, Option, none, some, Str, if◌then◌else◌}
use sqljson.Prelude.Int.{ℤ, pos, negsuc, ltb_ℤ}
use sqljson.Json.{Value, string, datetime, DateTime}
use sqljson.Ast.{Ref, nil, to, Node, next_of, is_nil, UnaryOperator}
use sqljson.Exec.Error.{
  verbose, execution, invalid, Out, Result, value, error, tz_required, datetime_not_string,
  template_unsupported, time_precision, not_recognized, datetime_method,
}
use sqljson.Exec.Env.{Env, Times}
use sqljson.Exec.State.{M, return_verbose_error, return_error, unless_existence}
use sqljson.Exec.Next.{Run, execute_next_item}
use sqljson.Exec.Util.{get_node_int32}

abbrev then_value : {A B : Type 0} → Result A → (A → Result B) → Result B
then_value (value a) k = k a
then_value (error e) k = error e

module _ (T : Times) where
  module _ (use_tz : Bool) where
    abbrev if_tz : DateTime → Result DateTime
    if_tz t = if use_tz then value t else error (execution tz_required)

    abbrev unrecognized : Result DateTime
    unrecognized = error (verbose not_recognized)

    unfoldable pub cast_date : DateTime → Result DateTime
    cast_date (DateTime.date t) = value (DateTime.date t)
    cast_date (DateTime.timestamp t) = value (DateTime.date (T.to_date t))
    cast_date (DateTime.timestamp_tz t) = if_tz (DateTime.date (T.tz_to_date t))
    cast_date _ = unrecognized

    unfoldable pub cast_time : DateTime → Result DateTime
    cast_time (DateTime.date t) = unrecognized
    cast_time (DateTime.time t) = value (DateTime.time t)
    cast_time (DateTime.time_tz t) = if_tz (DateTime.time (T.to_time t))
    cast_time (DateTime.timestamp t) = value (DateTime.time (T.to_time t))
    cast_time (DateTime.timestamp_tz t) = if_tz (DateTime.time (T.tz_to_time t))

    unfoldable pub cast_time_tz : DateTime → Result DateTime
    cast_time_tz (DateTime.time t) = if_tz (DateTime.time_tz (T.time_to_time_tz t))
    cast_time_tz (DateTime.time_tz t) = value (DateTime.time_tz t)
    cast_time_tz (DateTime.timestamp_tz t) = value (DateTime.time_tz (T.to_time_tz t))
    cast_time_tz _ = unrecognized

    unfoldable pub cast_timestamp : DateTime → Result DateTime
    cast_timestamp (DateTime.date t) = value (DateTime.timestamp (T.date_to_timestamp t))
    cast_timestamp (DateTime.timestamp t) = value (DateTime.timestamp t)
    cast_timestamp (DateTime.timestamp_tz t) = if_tz (DateTime.timestamp (T.to_timestamp t))
    cast_timestamp _ = unrecognized

    unfoldable pub cast_timestamp_tz : DateTime → Result DateTime
    cast_timestamp_tz (DateTime.date t) = if_tz (DateTime.timestamp_tz (T.date_to_timestamp_tz t))
    cast_timestamp_tz (DateTime.timestamp t) = if_tz (DateTime.timestamp_tz (T.to_timestamp_tz t))
    cast_timestamp_tz (DateTime.timestamp_tz t) = value (DateTime.timestamp_tz t)
    cast_timestamp_tz _ = unrecognized

    -- the switch that converts the parsed value to the type of the method
    unfoldable pub cast : UnaryOperator → DateTime → Result DateTime
    unfolding cast_date cast_time cast_time_tz cast_timestamp cast_timestamp_tz
    cast UnaryOperator.date_time t = value t
    cast UnaryOperator.date t = cast_date t
    cast UnaryOperator.time t = cast_time t
    cast UnaryOperator.time_tz t = cast_time_tz t
    cast UnaryOperator.timestamp t = cast_timestamp t
    cast UnaryOperator.timestamp_tz t = cast_timestamp_tz t
    cast _ t = error (invalid datetime_method)

  parsed : Option DateTime → Result DateTime
  parsed none = error (verbose not_recognized)
  parsed (some t) = value t

  -- the precision of an argument: at most 6
  precision_of : Result ℤ → Result ℤ
  precision_of (error e) = error e
  precision_of (value p) =
      if ltb_ℤ p (pos 0)
      then error (verbose time_precision)
      else value (if ltb_ℤ (pos 6) p then pos 6 else p)

  precision : UnaryOperator → Ref → Result ℤ
  unfolding precision_of get_node_int32
  precision op nil = value (negsuc 0)
  precision UnaryOperator.date_time arg = value (negsuc 0)
  precision UnaryOperator.date arg = value (negsuc 0)
  precision op arg = precision_of (get_node_int32 arg)

  unfoldable pub parse_date_time : UnaryOperator → Str → Ref → Result DateTime
  unfolding precision parsed
  parse_date_time op text arg = then_value (precision op arg) (λ p. parsed (T.parse text p))

  -- the parsed value; a template of .datetime() is not supported
  parse_value : UnaryOperator → Str → Ref → Result DateTime
  unfolding parse_date_time
  parse_value UnaryOperator.date_time text (to _) = error (execution template_unsupported)
  parse_value op text arg = parse_date_time op text arg

module _ (E : Env) (run : Run) where
  unfoldable pub date_time_result : Node → Result DateTime → M Out
  unfolding return_error unless_existence execute_next_item
  date_time_result n (error e) = return_error e
  date_time_result n (value t) =
      unless_existence (is_nil (next_of n))
        (execute_next_item E run (to n) (next_of n) (datetime t))

  unfoldable pub execute_date_time_method : Node → UnaryOperator → Ref → Value → M Out
  unfolding date_time_result parse_value cast return_verbose_error
  execute_date_time_method n op arg (string text) =
      date_time_result n (then_value (parse_value E.times op text arg) (cast E.times E.use_tz op))
  execute_date_time_method n op arg _ = return_verbose_error (verbose datetime_not_string)

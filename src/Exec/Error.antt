-- ===== src/Exec/Error.antt =====
-- The outcomes of path/exec: statuses, predicate outcomes, and the errors that it returns.
use sqljson.Prelude.{Bool, Option}

-- resultStatus
pub data Status : Type 0 where
  ok not_found failed : Status

-- predOutcome
pub data Pred : Type 0 where
  false true unknown : Pred

-- The texts of the errors, less the values formatted into them.
pub data Message : Type 0 where
  interrupted unknown_node_type unknown_const unknown_method : Message
  no_variable no_key not_an_object wildcard_not_an_object not_an_array wildcard_not_an_array :
      Message
  last_outside subscript_outside subscript_not_numeric subscript_out_of_bounds : Message
  out_of_integer_range nan_or_infinity field_type field_out_of_range : Message
  operand_not_numeric left_operand right_operand division_by_zero not_math_operator : Message
  boolean_has_next invalid_boolean_type invalid_boolean_operator : Message
  compare_node compare_operator compare_type unsupported_type : Message
  method_argument invalid_double invalid_integer invalid_big_int invalid_boolean : Message
  invalid_numeric precision_range scale_range : Message
  tz_required unknown_datetime datetime_not_string template_unsupported time_precision : Message
  not_recognized cast_unsupported datetime_method single_boolean invalid_array : Message

-- ErrVerbose, ErrExecution and ErrInvalid. A verbose error is an execution error too.
pub data Err : Type 0 where
  verbose execution invalid : Message → Err

-- errors.Is(err, ErrVerbose)
abbrev pub is_verbose : Err → Bool
is_verbose (verbose _) = Bool.true
is_verbose _ = Bool.false

-- What an execution function returns: `(resultStatus, error)`, `(predOutcome, error)`.
abbrev pub Out : Type 0
Out = Status × Option Err

abbrev pub PredOut : Type 0
PredOut = Pred × Option Err

-- A value or an error.
pub data Result (A : Type 0) : Type 0 where
  value : A → Result A
  error : Err → Result A

-- (s resultStatus) failed()
abbrev pub is_failed : Status → Bool
is_failed failed = Bool.true
is_failed _ = Bool.false

abbrev pub is_ok : Status → Bool
is_ok ok = Bool.true
is_ok _ = Bool.false

-- predFrom
abbrev pub pred_from : Bool → Pred
pred_from Bool.true = true
pred_from Bool.false = false

-- ===== src/Attributes/Arguments.antt =====
-- The arguments of the methods that add a value.
use xm.Base.{ℕ, Bool, Bytes}
use xm.Metadata.Values.{ModelArg, Enum, TimeValue}
use xm.Trace.{Trace}

-- The argument of a call of one of the methods.
pub data Argument : Type 0 where
  any_argument : ModelArg → Argument
  bool_argument : Bool → Argument
  enum_argument : Enum → Argument
  float64_argument : ℕ → Argument
  int64_argument : ℕ → Argument
  link_argument : Trace → Argument
  string_argument : Bytes → Argument
  time_argument : TimeValue → Argument

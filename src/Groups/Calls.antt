-- ===== src/Groups/Calls.antt =====
-- xopbase/base.go: the calls that a line, a prefilled part and a span take. A function is the number by which
-- it is known, and an integer is its bit pattern.
use xm.Base.{ℕ, Bool, Bytes}
use xm.Metadata.Values.{ModelArg, Enum, TimeValue}
use xm.Trace.{Trace}
use xm.Settings.{DataType}
use xm.Attributes.Arguments.{Argument}

-- A key and its value, for a line and for a prefilled part.
pub data Attribute : Type 0 where
  enum_attribute : Bytes → Enum → Attribute
  any_attribute : Bytes → ModelArg → Attribute
  bool_attribute : Bytes → Bool → Attribute
  duration_attribute : Bytes → ℕ → Attribute
  time_attribute : Bytes → TimeValue → Attribute
  float64_attribute : Bytes → ℕ → DataType → Attribute
  int64_attribute : Bytes → ℕ → DataType → Attribute
  string_attribute : Bytes → Bytes → DataType → Attribute
  uint64_attribute : Bytes → ℕ → DataType → Attribute

pub data LineCall : Type 0 where
  attribute_call : Attribute → LineCall
  msg_call : Bytes → LineCall
  template_call : Bytes → LineCall
  link_call : Bytes → Trace → LineCall
  model_call : Bytes → ModelArg → LineCall

pub data SpanCall : Type 0 where
  done_call : TimeValue → Bool → SpanCall
  boring_call : Bool → SpanCall
  metadata_call : Bytes → Argument → SpanCall

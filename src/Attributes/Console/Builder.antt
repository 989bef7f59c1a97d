-- ===== src/Attributes/Console/Builder.antt =====
-- xopconsole/builder.go: the values of attributes as the console format writes them.
use xm.Base.{ℕ, Bool, [], ◌∷◌, Bytes, codes, length, if◌then◌else◌}
use xm.JBuilder.{JBuilder, append_bytes, add_string, add_safe_string}
use xm.JBuilder.Numbers.{add_int64, add_float64}
use xm.JBuilder.ConsoleStrings.{add_console_string}
use xm.Metadata.Values.{ModelArg, Enum, TimeValue}
use xm.Trace.{Trace, string}

-- What strconv, time and generated code format: floats, times after RFC 3339, durations, quoted strings
-- and the names of encodings; and the method Encode of a model.
pub record Formats : Type 0 where
  pub float64 : ℕ → Bytes
  pub time : TimeValue → Bytes
  pub duration : ℕ → Bytes
  pub quote : Bytes → Bytes
  pub encoding : ℕ → Bytes
  pub encode : ModelArg → ModelArg

module _ (f : Formats) where
  unfoldable pub any_common : ModelArg → JBuilder → JBuilder
  unfolding append_bytes add_int64 add_string
  any_common v j =
      let e = f.encode v in
      add_string e.model_type (
        append_bytes (b'/' ∷ []) (
          append_bytes (f.encoding e.encoding) (
            append_bytes e.encoded (
              append_bytes (b')' ∷ [])
                (add_int64 (length e.encoded) (append_bytes (b'(' ∷ []) j))))))

  unfoldable pub attribute_any : ModelArg → JBuilder → JBuilder
  unfolding any_common
  attribute_any v j = any_common v j

  unfoldable pub attribute_enum : Enum → JBuilder → JBuilder
  unfolding append_bytes add_int64 add_console_string
  attribute_enum v j =
      add_console_string f.quote v.name (append_bytes (b'/' ∷ []) (add_int64 v.number j))

  unfoldable pub attribute_time : TimeValue → JBuilder → JBuilder
  unfolding append_bytes
  attribute_time t j =
      append_bytes (b'"' ∷ []) (append_bytes (f.time t) (append_bytes (b'"' ∷ []) j))

  unfoldable pub attribute_float64 : ℕ → JBuilder → JBuilder
  unfolding add_float64
  attribute_float64 v j = add_float64 f.float64 v j

  unfoldable pub attribute_duration : ℕ → JBuilder → JBuilder
  unfolding append_bytes
  attribute_duration v j = append_bytes (f.duration v) j

unfoldable pub attribute_bool : Bool → JBuilder → JBuilder
unfolding append_bytes
attribute_bool v j = append_bytes (if v then codes "t" else codes "f") j

unfoldable pub attribute_int64 : ℕ → JBuilder → JBuilder
unfolding add_int64
attribute_int64 v j = add_int64 v j

unfoldable pub attribute_string : Bytes → JBuilder → JBuilder
unfolding add_string
attribute_string v j = add_string v j

unfoldable pub attribute_link : Trace → JBuilder → JBuilder
unfolding add_safe_string string
attribute_link v j = add_safe_string (string v) j

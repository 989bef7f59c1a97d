-- ===== src/Attributes/Json/Builder.antt =====
-- xopjson/xopjsonutil/builder.go: the values of attributes as JSON.
use xm.Base.{ℕ, Bool, [], ◌∷◌, Bytes, codes, if◌then◌else◌, ◌==◌}
use xm.JBuilder.{JBuilder, append_bytes, add_string, add_safe_string}
use xm.JBuilder.Numbers.{add_int64, add_float64, add_bool}
use xm.Metadata.Values.{ModelArg, Enum, TimeValue}
use xm.Trace.{Trace, string}

-- What strconv, time and generated code format: floats, times after RFC 3339 and the names of encodings;
-- and the method Encode of a model.
pub record Formats : Type 0 where
  pub float64 : ℕ → Bytes
  pub time : TimeValue → Bytes
  pub encoding : ℕ → Bytes
  pub encode : ModelArg → ModelArg

-- xopproto.Encoding_JSON
abbrev pub encoding_json : ℕ
encoding_json = 1

module _ (f : Formats) where
  unfoldable pub any_common : ModelArg → JBuilder → JBuilder
  unfolding append_bytes add_string add_safe_string
  any_common v j =
      let e = f.encode v in
      let encoded =
        if e.encoding == encoding_json
        then append_bytes e.encoded j
        else add_safe_string (f.encoding e.encoding)
            (append_bytes (codes ",\"encoding\":") (add_string e.encoded j)) in
      add_string e.model_type (append_bytes (codes ",\"modelType\":") encoded)

  unfoldable pub attribute_any : ModelArg → JBuilder → JBuilder
  unfolding append_bytes any_common
  attribute_any v j = append_bytes (b'}' ∷ []) (any_common v (append_bytes (codes "{\"v\":") j))

  unfoldable pub attribute_time : TimeValue → JBuilder → JBuilder
  unfolding append_bytes
  attribute_time t j =
      append_bytes (b'"' ∷ []) (append_bytes (f.time t) (append_bytes (b'"' ∷ []) j))

  unfoldable pub attribute_float64 : ℕ → JBuilder → JBuilder
  unfolding add_float64
  attribute_float64 v j = add_float64 f.float64 v j

unfoldable pub attribute_enum : Enum → JBuilder → JBuilder
unfolding append_bytes add_int64 add_string
attribute_enum v j = append_bytes (b'}' ∷ []) (
    add_int64 v.number
      (append_bytes (codes ",\"i\":") (add_string v.name (append_bytes (codes "{\"s\":") j))))

unfoldable pub attribute_bool : Bool → JBuilder → JBuilder
unfolding add_bool
attribute_bool v j = add_bool v j

unfoldable pub attribute_int64 : ℕ → JBuilder → JBuilder
unfolding add_int64
attribute_int64 v j = add_int64 v j

unfoldable pub attribute_string : Bytes → JBuilder → JBuilder
unfolding add_string
attribute_string v j = add_string v j

unfoldable pub attribute_link : Trace → JBuilder → JBuilder
unfolding add_safe_string string
attribute_link v j = add_safe_string (string v) j

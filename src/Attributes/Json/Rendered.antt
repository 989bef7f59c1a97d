-- ===== src/Attributes/Json/Rendered.antt =====
-- The text that each method of xopjsonutil's builder appends, and that it never ends in a bracket or colon
-- that opens.
use xm.Base.{
  ℕ, ◌≤◌, ◌<◌, ◌≡◌, refl, true, false, [], ◌∷◌, ◌++◌, Bytes, codes, if◌then◌else◌, ◌==◌, Bool-cases,
  inl, inr, arith,
}
use xm.JBuilder.{JBuilder, append_bytes, opens, add_string, add_safe_string}
use xm.JBuilder.Numbers.{format_int, add_int64}
use xm.Metadata.Values.{ModelArg, Enum}
use xm.Metadata.{
  DataType, any_type, bool_type, enum_type, float64_type, int64_type, link_type, string_type,
  time_type,
}
use xm.Trace.{string}
use xm.Attributes.Values.{PlainEnd}
use xm.Attributes.Arguments.{
  Argument, any_argument, bool_argument, enum_argument, float64_argument, int64_argument,
  link_argument, string_argument, time_argument,
}
use xm.Attributes.Texts.{
  Appends, Appends-then, string_text, add_string-Appends, add_safe_string-Appends,
  add_int64-Appends, quoted-PlainEnd, string_text-PlainEnd, format_int-PlainEnd,
}
use xm.Attributes.Json.Builder.{
  Formats, encoding_json, any_common, attribute_any, attribute_bool, attribute_enum,
  attribute_float64, attribute_int64, attribute_link, attribute_string, attribute_time,
}

-- What strconv documents: a number ends in a digit or a letter.
pub record Documented (f : Formats) : Type 0 where
  pub float64_end : (v : ℕ) → PlainEnd opens (f.float64 v)

abbrev pub safe_text : Bytes → Bytes
safe_text s = b'"' ∷ (s ++ b'"' ∷ [])

abbrev pub encoded_text : Formats → ModelArg → Bytes
encoded_text f e =
    if e.encoding == encoding_json
    then e.encoded
    else (string_text e.encoded ++ codes ",\"encoding\":") ++ safe_text (f.encoding e.encoding)

abbrev pub common_text : Formats → ModelArg → Bytes
common_text f v =
    let e = f.encode v in (encoded_text f e ++ codes ",\"modelType\":") ++ string_text e.model_type

abbrev pub enum_text : Enum → Bytes
enum_text v = ((codes "{\"s\":" ++ string_text v.name) ++ codes ",\"i\":") ++ format_int v.number

-- The type and the text of an argument.
unfoldable pub rendered : Formats → Argument → DataType × Bytes
rendered f (any_argument v) = (any_type, (codes "{\"v\":" ++ common_text f v) ++ b'}' ∷ [])
rendered f (bool_argument v) = (bool_type, if v then codes "true" else codes "false")
rendered f (enum_argument v) = (enum_type, enum_text v ++ b'}' ∷ [])
rendered f (float64_argument v) = (float64_type, f.float64 v)
rendered f (int64_argument v) = (int64_type, format_int v)
rendered f (link_argument v) = (link_type, safe_text (string v))
rendered f (string_argument v) = (string_type, string_text v)
rendered f (time_argument v) = (time_type, safe_text (f.time v))

plain : (u : Bytes) → Appends (append_bytes u) u
plain u j = refl

encoded-Appends :
    (f : Formats) (e : ModelArg)
    → Appends
        (λ j.
          if e.encoding == encoding_json
          then append_bytes e.encoded j
          else add_safe_string
              (f.encoding e.encoding)
              (append_bytes (codes ",\"encoding\":") (add_string e.encoded j)))
        (encoded_text f e)
encoded-Appends f e j = elim (Bool-cases (e.encoding == encoding_json)) [
  | inl y ↦ simp y refl
  | inr n ↦ simp n (
      Appends-then _ (add_safe_string (f.encoding e.encoding)) _ _
        (Appends-then (add_string e.encoded) (append_bytes (codes ",\"encoding\":")) _ _
          (add_string-Appends e.encoded) (plain (codes ",\"encoding\":")))
        (add_safe_string-Appends (f.encoding e.encoding)) j)
]

any_common-Appends : (f : Formats) (v : ModelArg) → Appends (any_common f v) (common_text f v)
unfolding any_common
any_common-Appends f v =
    let e = f.encode v in
    Appends-then _ (add_string e.model_type) _ _
      (Appends-then _ (append_bytes (codes ",\"modelType\":")) _ _ (encoded-Appends f e)
        (plain (codes ",\"modelType\":")))
      (add_string-Appends e.model_type)

attribute_any-Appends :
    (f : Formats) (v : ModelArg)
    → Appends (attribute_any f v) ((codes "{\"v\":" ++ common_text f v) ++ b'}' ∷ [])
unfolding attribute_any
attribute_any-Appends f v =
    Appends-then _ (append_bytes (b'}' ∷ [])) _ _
      (Appends-then (append_bytes (codes "{\"v\":")) (any_common f v) _ _ (plain (codes "{\"v\":"))
        (any_common-Appends f v))
      (plain (b'}' ∷ []))

attribute_enum-Appends : (v : Enum) → Appends (attribute_enum v) (enum_text v ++ b'}' ∷ [])
unfolding attribute_enum
attribute_enum-Appends v =
    Appends-then _ (append_bytes (b'}' ∷ [])) _ _
      (Appends-then _ (add_int64 v.number) _ _
        (Appends-then _ (append_bytes (codes ",\"i\":")) _ _
          (Appends-then (append_bytes (codes "{\"s\":")) (add_string v.name) _ _
            (plain (codes "{\"s\":")) (add_string-Appends v.name))
          (plain (codes ",\"i\":")))
        (add_int64-Appends v.number))
      (plain (b'}' ∷ []))

-- Every method appends its text.
unfoldable pub add_argument : Formats → Argument → JBuilder → JBuilder
add_argument f (any_argument v) = attribute_any f v
add_argument f (bool_argument v) = attribute_bool v
add_argument f (enum_argument v) = attribute_enum v
add_argument f (float64_argument v) = attribute_float64 f v
add_argument f (int64_argument v) = attribute_int64 v
add_argument f (link_argument v) = attribute_link v
add_argument f (string_argument v) = attribute_string v
add_argument f (time_argument v) = attribute_time f v

pub add_argument-Appends :
    (f : Formats) (v : Argument) → Appends (add_argument f v) (rendered f v).1
unfolding add_argument rendered attribute_bool attribute_float64 attribute_int64 attribute_link
    attribute_string attribute_time add_int64 xm.JBuilder.Numbers.add_float64
    xm.JBuilder.Numbers.add_bool
add_argument-Appends f (any_argument v) = attribute_any-Appends f v
add_argument-Appends f (bool_argument v) = λ j. refl
add_argument-Appends f (enum_argument v) = attribute_enum-Appends v
add_argument-Appends f (float64_argument v) = λ j. refl
add_argument-Appends f (int64_argument v) = λ j. refl
add_argument-Appends f (link_argument v) = add_safe_string-Appends (string v)
add_argument-Appends f (string_argument v) = add_string-Appends v
add_argument-Appends f (time_argument v) =
    Appends-then _ (append_bytes (b'"' ∷ [])) _ _
      (Appends-then (append_bytes (b'"' ∷ [])) (append_bytes (f.time v)) _ _ (plain (b'"' ∷ []))
        (plain (f.time v)))
      (plain (b'"' ∷ []))

digit_not_open : (c : ℕ) → 48 ≤ c → c < 58 → opens c ≡ false
unfolding opens
digit_not_open c h g = ground arith

pub rendered-PlainEnd :
    (f : Formats) → Documented f → (v : Argument) → PlainEnd opens (rendered f v).1
unfolding rendered opens
rendered-PlainEnd f h (any_argument v) = (codes "{\"v\":" ++ common_text f v, b'}', refl, refl)
rendered-PlainEnd f h (bool_argument true) = (codes "tru", b'e', refl, refl)
rendered-PlainEnd f h (bool_argument false) = (codes "fals", b'e', refl, refl)
rendered-PlainEnd f h (enum_argument v) = (enum_text v, b'}', refl, refl)
rendered-PlainEnd f h (float64_argument v) = h.float64_end v
rendered-PlainEnd f h (int64_argument v) = format_int-PlainEnd opens digit_not_open v
rendered-PlainEnd f h (link_argument v) = quoted-PlainEnd opens (string v) refl
rendered-PlainEnd f h (string_argument v) = string_text-PlainEnd opens v refl
rendered-PlainEnd f h (time_argument v) = quoted-PlainEnd opens (f.time v) refl

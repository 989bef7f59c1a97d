-- ===== src/Attributes/Json/Methods.antt =====
-- xopjson/xopjsonutil/attributes.go: the eight methods, which are one text at eight types, and a value of any of
-- the types.
use xm.Base.{ℕ, Bool, Option, some, List, [], ◌∷◌, Bytes, ◌>>=◌}
use xm.Metadata.Values.{ModelArg, Enum, TimeValue}
use xm.Metadata.{
  any_type, bool_type, enum_type, float64_type, int64_type, link_type, string_type, time_type,
}
use xm.Trace.{Trace}
use xm.Attributes.Arguments.{
  Argument, any_argument, bool_argument, enum_argument, float64_argument, int64_argument,
  link_argument, string_argument, time_argument,
}
use xm.Attributes.Json.{Attribute, AttributeBuilder, metadata}
use xm.Attributes.Json.Builder.{
  Formats, attribute_any, attribute_bool, attribute_enum, attribute_float64, attribute_int64,
  attribute_link, attribute_string, attribute_time,
}

module _ (f : Formats) (k : Attribute) where
  unfoldable pub metadata_any : ModelArg → AttributeBuilder → Option AttributeBuilder
  metadata_any v = metadata k any_type (attribute_any f v)

  unfoldable pub metadata_bool : Bool → AttributeBuilder → Option AttributeBuilder
  metadata_bool v = metadata k bool_type (attribute_bool v)

  unfoldable pub metadata_enum : Enum → AttributeBuilder → Option AttributeBuilder
  metadata_enum v = metadata k enum_type (attribute_enum v)

  unfoldable pub metadata_float64 : ℕ → AttributeBuilder → Option AttributeBuilder
  metadata_float64 v = metadata k float64_type (attribute_float64 f v)

  unfoldable pub metadata_int64 : ℕ → AttributeBuilder → Option AttributeBuilder
  metadata_int64 v = metadata k int64_type (attribute_int64 v)

  unfoldable pub metadata_link : Trace → AttributeBuilder → Option AttributeBuilder
  metadata_link v = metadata k link_type (attribute_link v)

  unfoldable pub metadata_string : Bytes → AttributeBuilder → Option AttributeBuilder
  metadata_string v = metadata k string_type (attribute_string v)

  unfoldable pub metadata_time : TimeValue → AttributeBuilder → Option AttributeBuilder
  metadata_time v = metadata k time_type (attribute_time f v)

unfoldable pub perform : Formats → Attribute → Argument → AttributeBuilder → Option AttributeBuilder
perform f k (any_argument v) = metadata_any f k v
perform f k (bool_argument v) = metadata_bool f k v
perform f k (enum_argument v) = metadata_enum f k v
perform f k (float64_argument v) = metadata_float64 f k v
perform f k (int64_argument v) = metadata_int64 f k v
perform f k (link_argument v) = metadata_link f k v
perform f k (string_argument v) = metadata_string f k v
perform f k (time_argument v) = metadata_time f k v

unfoldable pub perform_all :
    Formats → Attribute → List Argument → AttributeBuilder → Option AttributeBuilder
perform_all f k [] c = some c
perform_all f k (v ∷ vs) c = perform f k v c >>= perform_all f k vs

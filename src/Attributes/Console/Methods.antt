-- ===== src/Attributes/Console/Methods.antt =====
-- xopconsole/attributes.go: the eight methods, which are one text at eight types, and a value of any of
-- the types.
use xm.Base.{ℕ, Bool, Option, some, List, [], ◌∷◌, Bytes, if◌then◌else◌, ◌>>=◌}
use xm.Metadata.Values.{ModelArg, Enum, TimeValue}
use xm.Metadata.{
  any_type, bool_type, enum_type, float64_type, int64_type, link_type, string_type, time_type,
}
use xm.Trace.{Trace}
use xm.Attributes.Arguments.{
  Argument, any_argument, bool_argument, enum_argument, float64_argument, int64_argument,
  link_argument, string_argument, time_argument,
}
use xm.Attributes.Console.{Attribute, ConsoleBuilder, metadata}
use xm.Attributes.Console.Builder.{
  Formats, attribute_any, attribute_bool, attribute_enum, attribute_float64, attribute_int64,
  attribute_duration, attribute_link, attribute_string, attribute_time,
}

module _ (f : Formats) (fails : Bytes → Bool) (k : Attribute) where
  unfoldable pub metadata_any : ModelArg → ConsoleBuilder → Option ConsoleBuilder
  metadata_any v = metadata fails k any_type (attribute_any f v)

  unfoldable pub metadata_bool : Bool → ConsoleBuilder → Option ConsoleBuilder
  metadata_bool v = metadata fails k bool_type (attribute_bool v)

  unfoldable pub metadata_enum : Enum → ConsoleBuilder → Option ConsoleBuilder
  metadata_enum v = metadata fails k enum_type (attribute_enum f v)

  unfoldable pub metadata_float64 : ℕ → ConsoleBuilder → Option ConsoleBuilder
  metadata_float64 v = metadata fails k float64_type (attribute_float64 f v)

  unfoldable pub metadata_int64 : ℕ → ConsoleBuilder → Option ConsoleBuilder
  metadata_int64 v =
      metadata fails k int64_type
        (λ j. if k.is_duration then attribute_duration f v j else attribute_int64 v j)

  unfoldable pub metadata_link : Trace → ConsoleBuilder → Option ConsoleBuilder
  metadata_link v = metadata fails k link_type (attribute_link v)

  unfoldable pub metadata_string : Bytes → ConsoleBuilder → Option ConsoleBuilder
  metadata_string v = metadata fails k string_type (attribute_string v)

  unfoldable pub metadata_time : TimeValue → ConsoleBuilder → Option ConsoleBuilder
  metadata_time v = metadata fails k time_type (attribute_time f v)

unfoldable pub perform :
    Formats → (Bytes → Bool) → Attribute → Argument → ConsoleBuilder → Option ConsoleBuilder
perform f fails k (any_argument v) = metadata_any f fails k v
perform f fails k (bool_argument v) = metadata_bool f fails k v
perform f fails k (enum_argument v) = metadata_enum f fails k v
perform f fails k (float64_argument v) = metadata_float64 f fails k v
perform f fails k (int64_argument v) = metadata_int64 f fails k v
perform f fails k (link_argument v) = metadata_link f fails k v
perform f fails k (string_argument v) = metadata_string f fails k v
perform f fails k (time_argument v) = metadata_time f fails k v

unfoldable pub perform_all :
    Formats → (Bytes → Bool) → Attribute → List Argument → ConsoleBuilder → Option ConsoleBuilder
perform_all f fails k [] c = some c
perform_all f fails k (v ∷ vs) c = perform f fails k v c >>= perform_all f fails k vs

-- ===== src/Metadata.antt =====
-- xopbase/xopbaseutil/metadata.go: the key/value attributes of a span. The eight methods of the file
-- are one text at eight types; `record_value` is that text, and `none` is the panic of a failed type
-- assertion. Each call holds the tracker's lock from the first look to the last write, so calls on
-- one key are one after the other.
pub mod Values
pub mod Spec
pub mod Store
pub mod Refine
mod Tests
use xm.Base.{
  ℕ, Bool, true, false, Option, none, some, List, [], ◌∷◌, ◌++◌, Bytes, bytes_eq, ◌>>=◌,
  if◌then◌else◌, not,
}
use Values.{
  Scalar, any_value, bool_value, enum_value, float64_value, int64_value, link_value, string_value,
  time_value, Key, key_eq, KeyKind, kind_eq, string_keys, bool_keys, float64_keys, int64_keys,
  link_keys, time_keys, string_key, bool_key, float64_key, int64_key, link_key, time_key, ModelArg,
  Enum, TimeValue,
}
use xm.Trace.{Trace}

-- What the methods read of a xopat attribute.
pub record Attribute : Type 0 where
  pub key : Bytes
  pub multiple : Bool
  pub distinct : Bool
  pub locked : Bool

pub data DataType : Type 0 where
  any_type any_array_type bool_type bool_array_type enum_type enum_array_type : DataType
  float64_type float64_array_type int64_type int64_array_type link_type link_array_type : DataType
  string_type string_array_type time_type time_array_type : DataType

-- The `any` of a tracker's Value: one value, or the slice `[]any`.
pub data Value : Type 0 where
  one : Scalar → Value
  many : List Scalar → Value

-- The `any` of a tracker's Seen: a map whose keys are of one type.
pub record Seen : Type 0 where
  pub kind : KeyKind
  pub keys : List Key

pub record MetadataTracker : Type 0 where
  pub value : Value
  pub data_type : DataType
  pub attribute : Attribute
  pub seen : Option Seen

-- The map from keys to trackers.
abbrev pub SpanMetadata : Type 0
SpanMetadata = List (Bytes × MetadataTracker)

unfoldable pub load : Bytes → SpanMetadata → Option MetadataTracker
load k [] = none
load k ((j, t) ∷ m) = if bytes_eq j k then some t else load k m

unfoldable pub store : Bytes → MetadataTracker → SpanMetadata → SpanMetadata
store k t [] = (k, t) ∷ []
store k t ((j, u) ∷ m) = if bytes_eq j k then (k, t) ∷ m else (j, u) ∷ store k t m

-- SpanMetadata.GetValue
unfoldable pub get_value : Bytes → SpanMetadata → Option Value
get_value k m = do t ← load k m; some t.value

-- What a method is at its type: the type of the keys of Seen, the types that it records, the key and
-- the value of its argument.
pub record Datum : Type 0 where
  pub kind : KeyKind
  pub single_type : DataType
  pub array_type : DataType
  pub key : Key
  pub scalar : Scalar

unfoldable pub is_seen : Key → List Key → Bool
is_seen k [] = false
is_seen k (j ∷ js) = if key_eq j k then true else is_seen k js

-- `append(tracker.Value.([]any), value)`
abbrev append_value : Value → Scalar → Option Value
append_value (one w) v = none
append_value (many vs) v = some (many (vs ++ v ∷ []))

-- The first call on a key.
unfoldable pub first_tracker : Attribute → Datum → MetadataTracker
first_tracker a d =
    if a.multiple
    then record {
      value = many (d.scalar ∷ []);
      data_type = d.array_type;
      attribute = a;
      seen = if a.distinct then some (record { kind = d.kind; keys = d.key ∷ [] }) else none;
    }
    else record { value = one d.scalar; data_type = d.single_type; attribute = a; seen = none }

-- `tracker.Seen.(map[K]struct{})`
abbrev assert_seen : KeyKind → Option Seen → Option Seen
assert_seen k none = none
assert_seen k (some s) = if kind_eq s.kind k then some s else none

unfoldable pub append_tracker : Datum → MetadataTracker → Option MetadataTracker
append_tracker d t = do v ← append_value t.value d.scalar; some (record t { value = v })

unfoldable pub append_distinct : Datum → MetadataTracker → Seen → Option MetadataTracker
append_distinct d t s =
    if is_seen d.key s.keys
    then some t
    else append_tracker d (record t { seen = some (record s { keys = s.keys ++ d.key ∷ [] }) })

-- A later call on a key; the tracker keeps the attribute of the first.
unfoldable pub next_tracker : Datum → MetadataTracker → Option MetadataTracker
next_tracker d t =
    if t.attribute.multiple
    then (if t.attribute.distinct
        then assert_seen d.kind t.seen >>= append_distinct d t
        else append_tracker d t)
    else if t.attribute.locked
    then some t
    else some (record t { value = one d.scalar })

unfoldable pub record_value : Attribute → Datum → SpanMetadata → Option SpanMetadata
record_value a d m = elim (load a.key m) [
  | none ↦ some (store a.key (first_tracker a d) m)
  | some t ↦ (do u ← next_tracker d t; some (store a.key u m))
]

-- `encode` is the method Encode of the argument, which fills in its encoded form.
unfoldable pub metadata_any :
    (ModelArg → ModelArg) → Attribute → ModelArg → SpanMetadata → Option SpanMetadata
metadata_any encode a v = record_value a (record {
  kind = string_keys;
  single_type = any_type;
  array_type = any_array_type;
  key = string_key (encode v).encoded;
  scalar = any_value (encode v);
})

unfoldable pub metadata_bool : Attribute → Bool → SpanMetadata → Option SpanMetadata
metadata_bool a v = record_value a (record {
  kind = bool_keys;
  single_type = bool_type;
  array_type = bool_array_type;
  key = bool_key v;
  scalar = bool_value v;
})

unfoldable pub metadata_enum : Attribute → Enum → SpanMetadata → Option SpanMetadata
metadata_enum a v = record_value a (record {
  kind = string_keys;
  single_type = enum_type;
  array_type = enum_array_type;
  key = string_key v.name;
  scalar = enum_value v;
})

unfoldable pub metadata_float64 : Attribute → ℕ → SpanMetadata → Option SpanMetadata
metadata_float64 a v = record_value a (record {
  kind = float64_keys;
  single_type = float64_type;
  array_type = float64_array_type;
  key = float64_key v;
  scalar = float64_value v;
})

unfoldable pub metadata_int64 : Attribute → ℕ → SpanMetadata → Option SpanMetadata
metadata_int64 a v = record_value a (record {
  kind = int64_keys;
  single_type = int64_type;
  array_type = int64_array_type;
  key = int64_key v;
  scalar = int64_value v;
})

unfoldable pub metadata_link : Attribute → Trace → SpanMetadata → Option SpanMetadata
metadata_link a v = record_value a (record {
  kind = link_keys;
  single_type = link_type;
  array_type = link_array_type;
  key = link_key v;
  scalar = link_value v;
})

unfoldable pub metadata_string : Attribute → Bytes → SpanMetadata → Option SpanMetadata
metadata_string a v = record_value a (record {
  kind = string_keys;
  single_type = string_type;
  array_type = string_array_type;
  key = string_key v;
  scalar = string_value v;
})

unfoldable pub metadata_time : Attribute → TimeValue → SpanMetadata → Option SpanMetadata
metadata_time a v = record_value a (record {
  kind = time_keys;
  single_type = time_type;
  array_type = time_array_type;
  key = time_key v;
  scalar = time_value v;
})

-- ===== src/Metadata/Tests.antt =====
-- xopbase/xopbaseutil: the theorem about the attributes of a span at a concrete input.
use xm.Base.{◌≡◌, refl, true, false, some, List, [], ◌∷◌, Bytes, bytes_eq, codes}
use xm.Metadata.Values.{string_keys, string_key, string_value}
use xm.Metadata.{
  Attribute, Datum, SpanMetadata, Value, many, string_type, string_array_type, load, get_value,
}
use xm.Metadata.Spec.{record_all, expected, dedup}
use xm.Metadata.Refine.{record_all-expected}

-- An attribute that keeps each value once.
abbrev colors : Attribute
colors = record { key = codes "colors"; multiple = true; distinct = true; locked = false }

abbrev color : Bytes → Datum
color s = record {
  kind = string_keys;
  single_type = string_type;
  array_type = string_array_type;
  key = string_key s;
  scalar = string_value s;
}

abbrev later : List Datum
later = color (codes "blue") ∷ color (codes "red") ∷ []

-- The second red is not kept.
twice_red :
    expected colors (color (codes "red")) later
    ≡ many (string_value (codes "red") ∷ string_value (codes "blue") ∷ [])
unfolding expected dedup xm.Metadata.is_seen xm.Metadata.Values.key_eq bytes_eq
twice_red = refl

record_all-expected_example :
    (m : SpanMetadata) × (record_all colors (color (codes "red") ∷ later) [] ≡ some m)
    × (get_value (codes "colors") m ≡ some (expected colors (color (codes "red")) later))
    × ((j : Bytes) → bytes_eq (codes "colors") j ≡ false → load j m ≡ load j [])
record_all-expected_example =
    record_all-expected colors (color (codes "red")) later [] (unfold load in refl)
      (refl, (refl, tt))

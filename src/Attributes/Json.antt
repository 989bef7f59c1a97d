-- ===== src/Attributes/Json.antt =====
-- xopjson/xopjsonutil/attributes.go: the methods that add a value, and Append.
pub mod Builder
pub mod Methods
pub mod Rendered
pub mod Adds
pub mod Refine
pub mod Performed
pub mod Flushed
use xm.Base.{
  Bool, true, Option, some, List, [], ◌∷◌, ◌++◌, Bytes, codes, length, if◌then◌else◌, ◌>>=◌, Map,
  insert,
}
use xm.JBuilder.{JBuilder, append_bytes, comma}
use xm.Metadata.{DataType}
use xm.Attributes.{
  MultiAttribute, SingleAttribute, AttributeBuilder, add_multi, add_single, keep_distinct,
  single_value, append_entries, clear, nothing_to_append,
}

-- What the methods read of a xopat attribute; the JSON key has its quotes and its colon.
pub record Attribute : Type 0 where
  pub key : Bytes
  pub json_key : Bytes
  pub multiple : Bool
  pub distinct : Bool
  pub locked : Bool

-- `m.init`, and the comma of addMulti.
unfoldable pub add_multi_json : Attribute → AttributeBuilder → MultiAttribute
unfolding add_multi comma
add_multi_json k a =
    let m = (add_multi (k.json_key ++ b'[' ∷ []) k.key a).0 in
    record m { builder = comma m.builder }

unfoldable pub multi_value :
    Attribute → DataType → (JBuilder → JBuilder) → MultiAttribute → Option MultiAttribute
unfolding keep_distinct
multi_value k dt add m =
    let before = length m.builder.b in
    let m' = record m { data_type = some dt; builder = add m.builder } in
    if k.distinct then keep_distinct before before m' else some m'

unfoldable pub metadata :
    Attribute → DataType → (JBuilder → JBuilder) → AttributeBuilder → Option AttributeBuilder
unfolding add_multi_json add_single single_value multi_value
metadata k dt add a0 =
    let a = record a0 { any_changed = true } in
    if k.multiple
    then (multi_value k dt add (add_multi_json k a) >>= λ m.
        some (record a { multi_map = insert k.key m a.multi_map }))
    else (let (s, pre_existing) = add_single k.json_key k.key a in
        some (record a {
          single_map = insert k.key (single_value k.locked dt add pre_existing s) a.single_map;
        }))

unfoldable pub write_multi : MultiAttribute → JBuilder → JBuilder
unfolding append_bytes comma
write_multi m j = append_bytes (b']' ∷ []) (append_bytes m.builder.b (comma j))

unfoldable pub write_single : SingleAttribute → JBuilder → JBuilder
unfolding append_bytes comma
write_single s j = append_bytes s.key_value (comma j)

unfoldable pub open_attributes : Bool → JBuilder → JBuilder
unfolding append_bytes comma
open_attributes attributes_object j =
    if attributes_object then append_bytes (codes "\"attributes\":{") (comma j) else j

unfoldable pub close_attributes : Bool → JBuilder → JBuilder
unfolding append_bytes
close_attributes attributes_object j = if attributes_object then append_bytes (b'}' ∷ []) j else j

-- Append, given the orders of the two loops.
unfoldable pub append :
    Map MultiAttribute
    → Map SingleAttribute
    → Bool
    → Bool
    → AttributeBuilder
    → JBuilder
    → JBuilder × AttributeBuilder
unfolding append_entries clear nothing_to_append write_multi write_single open_attributes
    close_attributes
append ms ss only_changed attributes_object a j =
    if nothing_to_append only_changed a then (j, a) else (
      close_attributes attributes_object (
          append_entries (λ s. s.changed) write_single only_changed ss
            (append_entries (λ m. m.changed) write_multi only_changed ms
              (open_attributes attributes_object j))),
      clear only_changed a,
    )

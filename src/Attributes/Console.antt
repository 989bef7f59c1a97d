-- ===== src/Attributes/Console.antt =====
-- xopconsole/attributes.go: the methods that add a value, and Append. The request that the builder
-- points to is here for the lines that define keys: the writes to its logger's `out`, the count of
-- the errors that it reported, and its start time as text.
pub mod Builder
pub mod Methods
pub mod Rendered
pub mod Adds
pub mod Refine
pub mod Performed
pub mod Flushed
pub mod Grown
use xm.Base.{
  ℕ, ◌+◌, Bool, true, false, Option, none, some, List, [], ◌∷◌, ◌++◌, Bytes, codes, length, map,
  if◌then◌else◌, ◌&&◌, ◌||◌, not, ◌>>=◌, Map, insert,
}
use xm.JBuilder.{JBuilder, append_bytes}
use xm.Metadata.{DataType}
use xm.Attributes.{
  MultiAttribute, SingleAttribute, AttributeBuilder, add_multi, add_single, keep_distinct,
  single_value, append_entries, clear, nothing_to_append,
}

-- What the methods read of a xopat attribute; `is_duration` is the test of SubType.
pub record Attribute : Type 0 where
  pub key : Bytes
  pub console_key : Bytes
  pub definition : Bytes
  pub multiple : Bool
  pub distinct : Bool
  pub locked : Bool
  pub is_duration : Bool

pub record Request : Type 0 where
  pub start_time : Bytes
  pub out : List Bytes
  pub errors : ℕ

pub record ConsoleBuilder : Type 0 where
  pub attributes : AttributeBuilder
  pub request : Request

-- `fails` tells the writes that return an error.
unfoldable pub define_key : (Bytes → Bool) → Attribute → Request → Request
define_key fails k r =
    let b = codes "xop Def " ++ (r.start_time ++ (b' ' ∷ (k.definition ++ 10 ∷ []))) in
    record r { out = r.out ++ b ∷ []; errors = if fails b then r.errors + 1 else r.errors }

unfoldable pub multi_value :
    Attribute → DataType → (JBuilder → JBuilder) → Bool → MultiAttribute → Option MultiAttribute
unfolding append_bytes keep_distinct
multi_value k dt add pre_existing m =
    let b0 = if pre_existing then m.builder else append_bytes k.console_key m.builder in
    let b1 = if pre_existing then append_bytes (b',' ∷ []) b0 else b0 in
    let m' = record m { data_type = some dt; builder = add b1 } in
    if k.distinct then keep_distinct (length b0.b) (length b1.b) m' else some m'

unfoldable pub metadata :
    (Bytes → Bool)
    → Attribute
    → DataType
    → (JBuilder → JBuilder)
    → ConsoleBuilder
    → Option ConsoleBuilder
unfolding add_multi add_single single_value multi_value define_key
metadata fails k dt add c =
    let a = record c.attributes { any_changed = true } in
    if k.multiple
    then (let (m, pre_existing) = add_multi [] k.key a in
        multi_value k dt add pre_existing m >>= λ m'. some (record {
          attributes = record a { multi_map = insert k.key m' a.multi_map };
          request = if pre_existing then c.request else define_key fails k c.request;
        }))
    else (let (s, pre_existing) = add_single k.console_key k.key a in
        some (record {
          attributes = record a {
            single_map = insert k.key (single_value k.locked dt add pre_existing s) a.single_map;
          };
          request = if pre_existing then c.request else define_key fails k c.request;
        }))

unfoldable pub write_multi : MultiAttribute → JBuilder → JBuilder
unfolding append_bytes
write_multi m j = append_bytes m.builder.b (append_bytes (b' ' ∷ []) j)

unfoldable pub write_single : SingleAttribute → JBuilder → JBuilder
unfolding append_bytes
write_single s j = append_bytes s.key_value (append_bytes (b' ' ∷ []) j)

-- Append, given the orders of the two loops.
unfoldable pub append :
    Map MultiAttribute
    → Map SingleAttribute
    → Bool
    → AttributeBuilder
    → JBuilder
    → JBuilder × AttributeBuilder
unfolding append_entries clear nothing_to_append write_multi write_single
append ms ss only_changed a j = if nothing_to_append only_changed a then (j, a) else (
  append_entries (λ s. s.changed) write_single only_changed ss
      (append_entries (λ m. m.changed) write_multi only_changed ms j),
  clear only_changed a,
)

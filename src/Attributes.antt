-- ===== src/Attributes.antt =====
-- xopconsole/attributes.go and xopjson/xopjsonutil/attributes.go: the attributes of a span, kept as text
-- that is ready to be written. Both files have the types and the functions here; the addresses into the
-- preallocated arrays are the entries of the maps.
pub mod Arguments
pub mod Flush
pub mod History
pub mod Touched
pub mod Values
pub mod Texts
pub mod Sequence
pub mod Console
pub mod Json
mod Tests
use xm.Base.{
  ℕ, ◌-◌, Bool, true, false, Option, none, some, List, [], ◌∷◌, ◌++◌, Bytes, length, take, drop,
  get_elem?, if◌then◌else◌, ◌==◌, ◌&&◌, ◌||◌, not, ◌>>=◌, Map, lookup, is_member,
}
use xm.JBuilder.{JBuilder}
use xm.Metadata.{DataType}

-- The type is `none` until a value is added.
pub record SingleAttribute : Type 0 where
  pub changed : Bool
  pub data_type : Option DataType
  pub key_value : Bytes
  pub key_len : ℕ

pub record MultiAttribute : Type 0 where
  pub changed : Bool
  pub data_type : Option DataType
  pub distinct : Option (List Bytes)
  pub builder : JBuilder

pub record AttributeBuilder : Type 0 where
  pub single_map : Map SingleAttribute
  pub multi_map : Map MultiAttribute
  pub any_changed : Bool

unfoldable pub init : AttributeBuilder
init = record { single_map = []; multi_map = []; any_changed = false }

-- addMulti, with the text that `init` of a new entry leaves; it also tells whether there was an entry.
unfoldable pub add_multi : Bytes → Bytes → AttributeBuilder → MultiAttribute × Bool
add_multi first key a = elim (lookup key a.multi_map) [
  | none ↦ (
    record {
      changed = true;
      data_type = none;
      distinct = none;
      builder = record { b = first; fast_keys = false };
    },
    false,
  )
  | some m ↦ (record m { changed = true }, true)
]

unfoldable pub add_single : Bytes → Bytes → AttributeBuilder → SingleAttribute × Bool
add_single first key a = elim (lookup key a.single_map) [
  | none ↦ (record { changed = true; data_type = none; key_value = first; key_len = 0 }, false)
  | some s ↦ (record s { changed = true }, true)
]

-- A comma at the end is dropped; `none` is the panic on an empty buffer.
unfoldable pub drop_comma : Bytes → Option Bytes
drop_comma b = elim (get_elem? b (length b - 1)) [
  | none ↦ none
  | some c ↦ some (if c == b',' then take (length b - 1) b else b)
]

abbrev pub set_builder : Bytes → MultiAttribute → MultiAttribute
set_builder b m = record m { builder = record m.builder { b = b } }

-- The value that starts at `before` is taken back, down to `kept`, when it was there already.
unfoldable pub keep_distinct : ℕ → ℕ → MultiAttribute → Option MultiAttribute
unfolding drop_comma
keep_distinct kept before m =
    let sk = drop before m.builder.b in
    elim m.distinct [
      | none ↦ some (record m { distinct = some (sk ∷ []) })
      | some seen ↦
          if is_member sk seen
          then (drop_comma (take kept m.builder.b) >>= λ b. some (set_builder b m))
          else some (record m { distinct = some (seen ++ sk ∷ []) })
    ]

-- The part of a method for a single attribute, behind addSingle: `add` appends the value.
unfoldable pub single_value :
    Bool → DataType → (JBuilder → JBuilder) → Bool → SingleAttribute → SingleAttribute
single_value locked dt add pre_existing s =
    if pre_existing && locked
    then s
    else (let kept = if pre_existing then take s.key_len s.key_value else s.key_value in
        record s {
          data_type = some dt;
          key_len = if pre_existing then s.key_len else length s.key_value;
          key_value = (add (record { b = kept; fast_keys = false })).b;
        })

-- One of the loops of Append, over the entries in the order in which `range` visits them: each that
-- changed, or each, is written.
unfoldable pub append_entries {ℓ} :
    {A : Type ℓ} → (A → Bool) → (A → JBuilder → JBuilder) → Bool → Map A → JBuilder → JBuilder
append_entries changed write only_changed [] j = j
append_entries changed write only_changed ((key, e) ∷ es) j =
    append_entries changed write only_changed es
      (if changed e || not only_changed then write e j else j)

-- What the loops leave in the maps.
unfoldable pub clear_multi : Bool → Map MultiAttribute → Map MultiAttribute
clear_multi only_changed [] = []
clear_multi only_changed ((key, m) ∷ ms) =
    (key, if m.changed || not only_changed then record m { changed = false } else m)
    ∷ clear_multi only_changed ms

unfoldable pub clear_single : Bool → Map SingleAttribute → Map SingleAttribute
clear_single only_changed [] = []
clear_single only_changed ((key, s) ∷ ss) =
    (key, if s.changed || not only_changed then record s { changed = false } else s)
    ∷ clear_single only_changed ss

-- The first test of Append.
unfoldable pub nothing_to_append : Bool → AttributeBuilder → Bool
nothing_to_append only_changed a =
    (not a.any_changed && only_changed) || ((length a.multi_map == 0) && (length a.single_map == 0))

unfoldable pub clear : Bool → AttributeBuilder → AttributeBuilder
unfolding clear_multi clear_single
clear only_changed a = record {
  single_map = clear_single only_changed a.single_map;
  multi_map = clear_multi only_changed a.multi_map;
  any_changed = false;
}

-- ===== src/Groups/Lines.antt =====
-- basegroup.go: the methods of a group of prefilled parts and of a group of lines.
use xm.Base.{ℕ, ◌≡◌, refl, Bool, List, map, Bytes}
use xm.Metadata.Values.{ModelArg, Enum, TimeValue}
use xm.Trace.{Trace}
use xm.Settings.{DataType}
use xm.Groups.Calls.{
  Attribute, enum_attribute, any_attribute, bool_attribute, duration_attribute, time_attribute,
  float64_attribute, int64_attribute, string_attribute, uint64_attribute, LineCall, attribute_call,
  msg_call, template_call, link_call, model_call,
}

module _ {N : Type 0} (line : LineCall → N → N) where
  unfoldable pub lines_enum : Bytes → Enum → List N → List N
  lines_enum k v l = map (line (attribute_call (enum_attribute k v))) l

  unfoldable pub lines_any : Bytes → ModelArg → List N → List N
  lines_any k v l = map (line (attribute_call (any_attribute k v))) l

  unfoldable pub lines_bool : Bytes → Bool → List N → List N
  lines_bool k v l = map (line (attribute_call (bool_attribute k v))) l

  unfoldable pub lines_duration : Bytes → ℕ → List N → List N
  lines_duration k v l = map (line (attribute_call (duration_attribute k v))) l

  unfoldable pub lines_time : Bytes → TimeValue → List N → List N
  lines_time k v l = map (line (attribute_call (time_attribute k v))) l

  unfoldable pub lines_float64 : Bytes → ℕ → DataType → List N → List N
  lines_float64 k v dt l = map (line (attribute_call (float64_attribute k v dt))) l

  unfoldable pub lines_int64 : Bytes → ℕ → DataType → List N → List N
  lines_int64 k v dt l = map (line (attribute_call (int64_attribute k v dt))) l

  unfoldable pub lines_string : Bytes → Bytes → DataType → List N → List N
  lines_string k v dt l = map (line (attribute_call (string_attribute k v dt))) l

  unfoldable pub lines_uint64 : Bytes → ℕ → DataType → List N → List N
  lines_uint64 k v dt l = map (line (attribute_call (uint64_attribute k v dt))) l

  unfoldable pub lines_msg : Bytes → List N → List N
  lines_msg m l = map (line (msg_call m)) l

  unfoldable pub lines_template : Bytes → List N → List N
  lines_template m l = map (line (template_call m)) l

  unfoldable pub lines_link : Bytes → Trace → List N → List N
  lines_link k v l = map (line (link_call k v)) l

  unfoldable pub lines_model : Bytes → ModelArg → List N → List N
  lines_model k v l = map (line (model_call k v)) l

  -- The method of a call.
  unfoldable pub lines_call : LineCall → List N → List N
  lines_call (attribute_call (enum_attribute k v)) = lines_enum k v
  lines_call (attribute_call (any_attribute k v)) = lines_any k v
  lines_call (attribute_call (bool_attribute k v)) = lines_bool k v
  lines_call (attribute_call (duration_attribute k v)) = lines_duration k v
  lines_call (attribute_call (time_attribute k v)) = lines_time k v
  lines_call (attribute_call (float64_attribute k v dt)) = lines_float64 k v dt
  lines_call (attribute_call (int64_attribute k v dt)) = lines_int64 k v dt
  lines_call (attribute_call (string_attribute k v dt)) = lines_string k v dt
  lines_call (attribute_call (uint64_attribute k v dt)) = lines_uint64 k v dt
  lines_call (msg_call m) = lines_msg m
  lines_call (template_call m) = lines_template m
  lines_call (link_call k v) = lines_link k v
  lines_call (model_call k v) = lines_model k v

  pub lines_call-map : (c : LineCall) (l : List N) → lines_call c l ≡ map (line c) l
  unfolding lines_call lines_enum lines_any lines_bool lines_duration lines_time lines_float64
      lines_int64 lines_string lines_uint64 lines_msg lines_template lines_link lines_model
  lines_call-map (attribute_call (enum_attribute k v)) l = refl
  lines_call-map (attribute_call (any_attribute k v)) l = refl
  lines_call-map (attribute_call (bool_attribute k v)) l = refl
  lines_call-map (attribute_call (duration_attribute k v)) l = refl
  lines_call-map (attribute_call (time_attribute k v)) l = refl
  lines_call-map (attribute_call (float64_attribute k v dt)) l = refl
  lines_call-map (attribute_call (int64_attribute k v dt)) l = refl
  lines_call-map (attribute_call (string_attribute k v dt)) l = refl
  lines_call-map (attribute_call (uint64_attribute k v dt)) l = refl
  lines_call-map (msg_call m) l = refl
  lines_call-map (template_call m) l = refl
  lines_call-map (link_call k v) l = refl
  lines_call-map (model_call k v) l = refl

module _ {P : Type 0} (prefill : Attribute → P → P) where
  unfoldable pub prefillings_enum : Bytes → Enum → List P → List P
  prefillings_enum k v p = map (prefill (enum_attribute k v)) p

  unfoldable pub prefillings_any : Bytes → ModelArg → List P → List P
  prefillings_any k v p = map (prefill (any_attribute k v)) p

  unfoldable pub prefillings_bool : Bytes → Bool → List P → List P
  prefillings_bool k v p = map (prefill (bool_attribute k v)) p

  unfoldable pub prefillings_duration : Bytes → ℕ → List P → List P
  prefillings_duration k v p = map (prefill (duration_attribute k v)) p

  unfoldable pub prefillings_time : Bytes → TimeValue → List P → List P
  prefillings_time k v p = map (prefill (time_attribute k v)) p

  unfoldable pub prefillings_float64 : Bytes → ℕ → DataType → List P → List P
  prefillings_float64 k v dt p = map (prefill (float64_attribute k v dt)) p

  unfoldable pub prefillings_int64 : Bytes → ℕ → DataType → List P → List P
  prefillings_int64 k v dt p = map (prefill (int64_attribute k v dt)) p

  unfoldable pub prefillings_string : Bytes → Bytes → DataType → List P → List P
  prefillings_string k v dt p = map (prefill (string_attribute k v dt)) p

  unfoldable pub prefillings_uint64 : Bytes → ℕ → DataType → List P → List P
  prefillings_uint64 k v dt p = map (prefill (uint64_attribute k v dt)) p

  unfoldable pub prefillings_call : Attribute → List P → List P
  prefillings_call (enum_attribute k v) = prefillings_enum k v
  prefillings_call (any_attribute k v) = prefillings_any k v
  prefillings_call (bool_attribute k v) = prefillings_bool k v
  prefillings_call (duration_attribute k v) = prefillings_duration k v
  prefillings_call (time_attribute k v) = prefillings_time k v
  prefillings_call (float64_attribute k v dt) = prefillings_float64 k v dt
  prefillings_call (int64_attribute k v dt) = prefillings_int64 k v dt
  prefillings_call (string_attribute k v dt) = prefillings_string k v dt
  prefillings_call (uint64_attribute k v dt) = prefillings_uint64 k v dt

  pub prefillings_call-map : (c : Attribute) (p : List P) → prefillings_call c p ≡ map (prefill c) p
  unfolding prefillings_call prefillings_enum prefillings_any prefillings_bool prefillings_duration
      prefillings_time prefillings_float64 prefillings_int64 prefillings_string prefillings_uint64
  prefillings_call-map (enum_attribute k v) p = refl
  prefillings_call-map (any_attribute k v) p = refl
  prefillings_call-map (bool_attribute k v) p = refl
  prefillings_call-map (duration_attribute k v) p = refl
  prefillings_call-map (time_attribute k v) p = refl
  prefillings_call-map (float64_attribute k v dt) p = refl
  prefillings_call-map (int64_attribute k v dt) p = refl
  prefillings_call-map (string_attribute k v dt) p = refl
  prefillings_call-map (uint64_attribute k v dt) p = refl

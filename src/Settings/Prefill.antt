-- ===== src/Settings/Prefill.antt =====
-- sub.go: the attributes that every line of a logger starts with.
use xm.Base.{ℕ, Bool, Bytes}
use xm.Metadata.Values.{Enum, TimeValue}
use xm.Settings.{
  LogSettings, enum_call, string_call, any_call, float64_call, bool_call, duration_call, time_call,
  int64_call, uint64_call, error_type, string_type, float32_type, float64_type, int_type, int8_type,
  int16_type, int32_type, int64_type, uint_type, uint8_type, uint16_type, uint32_type, uint64_type,
  uintptr_type, append_prefill, sign_extend,
}

unfoldable pub prefill_embedded_enum : Bytes → Enum → LogSettings → LogSettings
prefill_embedded_enum k v = append_prefill (enum_call k v)

unfoldable pub prefill_enum : Bytes → Enum → LogSettings → LogSettings
prefill_enum k v = append_prefill (enum_call k v)

-- `message` is what the method Error of the value returns.
unfoldable pub prefill_error : Bytes → Bytes → LogSettings → LogSettings
prefill_error k message = append_prefill (string_call k message error_type)

unfoldable pub prefill_any : Bytes → ℕ → LogSettings → LogSettings
prefill_any k v = append_prefill (any_call k v)

-- `widen` is Go's conversion from float32 to float64.
unfoldable pub prefill_float32 : (ℕ → ℕ) → Bytes → ℕ → LogSettings → LogSettings
prefill_float32 widen k v = append_prefill (float64_call k (widen v) float32_type)

unfoldable pub prefill_bool : Bytes → Bool → LogSettings → LogSettings
prefill_bool k v = append_prefill (bool_call k v)

unfoldable pub prefill_duration : Bytes → ℕ → LogSettings → LogSettings
prefill_duration k v = append_prefill (duration_call k v)

unfoldable pub prefill_time : Bytes → TimeValue → LogSettings → LogSettings
prefill_time k v = append_prefill (time_call k v)

unfoldable pub prefill_float64 : Bytes → ℕ → LogSettings → LogSettings
prefill_float64 k v = append_prefill (float64_call k v float64_type)

unfoldable pub prefill_int64 : Bytes → ℕ → LogSettings → LogSettings
prefill_int64 k v = append_prefill (int64_call k v int64_type)

unfoldable pub prefill_string : Bytes → Bytes → LogSettings → LogSettings
prefill_string k v = append_prefill (string_call k v string_type)

unfoldable pub prefill_uint64 : Bytes → ℕ → LogSettings → LogSettings
prefill_uint64 k v = append_prefill (uint64_call k v uint64_type)

unfoldable pub prefill_int : Bytes → ℕ → LogSettings → LogSettings
prefill_int k v = append_prefill (int64_call k (sign_extend 64 v) int_type)

unfoldable pub prefill_int16 : Bytes → ℕ → LogSettings → LogSettings
prefill_int16 k v = append_prefill (int64_call k (sign_extend 16 v) int16_type)

unfoldable pub prefill_int32 : Bytes → ℕ → LogSettings → LogSettings
prefill_int32 k v = append_prefill (int64_call k (sign_extend 32 v) int32_type)

unfoldable pub prefill_int8 : Bytes → ℕ → LogSettings → LogSettings
prefill_int8 k v = append_prefill (int64_call k (sign_extend 8 v) int8_type)

-- An unsigned integer keeps its bit pattern when it is widened.
unfoldable pub prefill_uint : Bytes → ℕ → LogSettings → LogSettings
prefill_uint k v = append_prefill (uint64_call k v uint_type)

unfoldable pub prefill_uint16 : Bytes → ℕ → LogSettings → LogSettings
prefill_uint16 k v = append_prefill (uint64_call k v uint16_type)

unfoldable pub prefill_uint32 : Bytes → ℕ → LogSettings → LogSettings
prefill_uint32 k v = append_prefill (uint64_call k v uint32_type)

unfoldable pub prefill_uint8 : Bytes → ℕ → LogSettings → LogSettings
prefill_uint8 k v = append_prefill (uint64_call k v uint8_type)

unfoldable pub prefill_uintptr : Bytes → ℕ → LogSettings → LogSettings
prefill_uintptr k v = append_prefill (uint64_call k v uintptr_type)

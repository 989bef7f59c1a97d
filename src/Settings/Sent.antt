-- ===== src/Settings/Sent.antt =====
-- sub.go: what sendPrefill sends, and the integers that the setters widen.
use xm.Base.{
  ℕ, ◌-◌, ◌^◌, ◌%◌, ◌<◌, ◌≡◌, refl, ap, sym, ◌∙◌, Bool, true, false, none, some, List, [], ◌∷◌,
  ◌++◌, Bytes, bytes_eq, bytes_eq_sound, if◌then◌else◌, ltb, append_assoc, append-nil, arith, ◌↔◌,
}
use xm.Settings.{
  LogSettings, PrefillCall, string_call, string_type, append_prefill, sign_extend, send_prefill,
  no_prefill, is_none, int64_call, DataType, int_type, int8_type, int16_type, int32_type,
  int64_type,
}
use xm.Settings.Prefill.{prefill_int, prefill_int8, prefill_int16, prefill_int32, prefill_int64}

-- The setters of sub.go that add an attribute, one call after the other.
abbrev pub append_all : List PrefillCall → LogSettings → LogSettings
append_all [] s = s
append_all (c ∷ cs) s = append_all cs (append_prefill c s)

-- What is sent of the data: the span sequence comes last.
abbrev pub with_sequence : Bytes → Bytes → Bool → List PrefillCall → List PrefillCall
with_sequence key code tag cs = if tag then cs ++ string_call key code string_type ∷ [] else cs

append_all-data :
    (cs : List PrefillCall) (s : LogSettings)
    → append_all cs s ≡ record s { prefill_data = s.prefill_data ++ cs }
append_all-data [] s = ap (λ ds. record s { prefill_data = ds }) (sym (append-nil s.prefill_data))
append_all-data (c ∷ cs) s =
    append_all-data cs (append_prefill c s)
    ∙ ap (λ ds. record s { prefill_data = ds }) (append_assoc s.prefill_data (c ∷ []) cs)

-- NoPrefill forgets the text and the attributes set before it; the attributes set after it, one at
-- least, are sent in the order of the calls, followed by the span sequence if lines are tagged with it.
pub send_prefill-append_all :
    (key code : Bytes) (c : PrefillCall) (cs : List PrefillCall) (s : LogSettings)
    → send_prefill key code (append_all (c ∷ cs) (no_prefill s))
      ≡ some (with_sequence key code s.tag_lines_with_span_sequence (c ∷ cs), [])
unfolding send_prefill no_prefill
send_prefill-append_all key code c cs s =
    ap (send_prefill key code) (append_all-data (c ∷ cs) (no_prefill s))

is_none-nil : (cs : List PrefillCall) → is_none cs ≡ true → cs ≡ []
is_none-nil [] h = refl
is_none-nil (c ∷ cs) h = cc

-- The base span is asked for NoPrefill exactly if there is no attribute, no text and no span sequence.
pub send_prefill-none :
    (key code : Bytes) (s : LogSettings)
    → (send_prefill key code s ≡ none)
      ↔ ((s.prefill_data ≡ []) × (s.prefill_msg ≡ []) × (s.tag_lines_with_span_sequence ≡ false))
unfolding send_prefill bytes_eq
send_prefill-none key code s =
    ground (arith, is_none-nil s.prefill_data, bytes_eq_sound s.prefill_msg [])

-- The setters that take a signed integer.
pub data SignedSetter : Type 0 where
  by_int by_int8 by_int16 by_int32 by_int64 : SignedSetter

abbrev pub bits : SignedSetter → ℕ
bits by_int = 64
bits by_int8 = 8
bits by_int16 = 16
bits by_int32 = 32
bits by_int64 = 64

abbrev pub signed_type : SignedSetter → DataType
signed_type by_int = int_type
signed_type by_int8 = int8_type
signed_type by_int16 = int16_type
signed_type by_int32 = int32_type
signed_type by_int64 = int64_type

unfoldable pub prefill_signed : SignedSetter → Bytes → ℕ → LogSettings → LogSettings
prefill_signed by_int = prefill_int
prefill_signed by_int8 = prefill_int8
prefill_signed by_int16 = prefill_int16
prefill_signed by_int32 = prefill_int32
prefill_signed by_int64 = prefill_int64

-- The 64-bit pattern of a number with its low bits and its sign.
pub record Widens (w v x : ℕ) : Type 0 where
  pub fits : x < 2 ^ 64
  pub low_bits : x % 2 ^ w ≡ v
  pub sign : ltb x (2 ^ 63) ≡ ltb v (2 ^ (w - 1))

-- Each of PrefillInt, PrefillInt8, PrefillInt16, PrefillInt32 and PrefillInt64 adds one call behind the others and
-- changes nothing else: a call with the key, the type that the setter is named for, and the 64-bit number
-- that has the low bits and the sign of the given one.
pub prefill_signed-Widens :
    (d : SignedSetter) (k : Bytes) (v : ℕ) (s : LogSettings)
    → v < 2 ^ bits d
    → (x : ℕ) × Widens (bits d) v x
      × (prefill_signed d k v s
          ≡ record s { prefill_data = s.prefill_data ++ int64_call k x (signed_type d) ∷ [] })
unfolding prefill_signed prefill_int prefill_int8 prefill_int16 prefill_int32 prefill_int64
    sign_extend
prefill_signed-Widens by_int k v s h = (
  sign_extend 64 v,
  record { fits = ground arith; low_bits = ground arith; sign = ground arith },
  refl,
)
prefill_signed-Widens by_int8 k v s h = (
  sign_extend 8 v,
  record { fits = ground arith; low_bits = ground arith; sign = ground arith },
  refl,
)
prefill_signed-Widens by_int16 k v s h = (
  sign_extend 16 v,
  record { fits = ground arith; low_bits = ground arith; sign = ground arith },
  refl,
)
prefill_signed-Widens by_int32 k v s h = (
  sign_extend 32 v,
  record { fits = ground arith; low_bits = ground arith; sign = ground arith },
  refl,
)
prefill_signed-Widens by_int64 k v s h =
    (v, record { fits = h; low_bits = omega arith; sign = refl }, refl)

-- ===== src/Settings.antt =====
-- sub.go: the settings of a logger. Counts of stack frames are not negative; a function is the number
-- by which it is known, and so is a value of an interface type; an integer is its bit pattern.
pub mod Frames
pub mod Prefill
pub mod Sent
mod Tests
use xm.Base.{
  ℕ, ◌+◌, ◌-◌, ◌^◌, Bool, true, false, Option, none, some, List, [], ◌∷◌, ◌++◌, Bytes, codes,
  bytes_eq, if◌then◌else◌, ltb, leb, ◌==◌, ◌&&◌, not,
}
use xm.Metadata.Values.{Enum, TimeValue}

-- The calls of xopbase.Prefilling, with the names of the data types that they carry.
pub data DataType : Type 0 where
  error_type string_type float32_type float64_type : DataType
  int_type int8_type int16_type int32_type int64_type : DataType
  uint_type uint8_type uint16_type uint32_type uint64_type uintptr_type : DataType

pub data PrefillCall : Type 0 where
  enum_call : Bytes → Enum → PrefillCall
  string_call : Bytes → Bytes → DataType → PrefillCall
  any_call : Bytes → ℕ → PrefillCall
  float64_call : Bytes → ℕ → DataType → PrefillCall
  bool_call : Bytes → Bool → PrefillCall
  duration_call : Bytes → ℕ → PrefillCall
  time_call : Bytes → TimeValue → PrefillCall
  int64_call : Bytes → ℕ → DataType → PrefillCall
  uint64_call : Bytes → ℕ → DataType → PrefillCall

pub record LogSettings : Type 0 where
  pub prefill_msg : Bytes
  pub prefill_data : List PrefillCall
  pub minimum_log_level : ℕ
  pub stack_frames_wanted : ℕ → ℕ
  pub tag_lines_with_span_sequence : Bool
  pub synchronous_flush_when_done : Bool
  pub redact_any : Option ℕ
  pub redact_string : Option ℕ
  pub redact_error : Option ℕ
  pub stack_filename_rewrite : ℕ

-- TraceLevel to AlertLevel.
abbrev pub level_values : List ℕ
level_values = 2 ∷ 7 ∷ 9 ∷ 11 ∷ 13 ∷ 17 ∷ 20 ∷ []

abbrev pub set_frames : ℕ → ℕ → (ℕ → ℕ) → ℕ → ℕ
set_frames l count wanted = λ m. if m == l then count else wanted m

-- `identity` is the rewriting that changes nothing.
unfoldable pub default_settings : ℕ → LogSettings
default_settings identity = record {
  prefill_msg = [];
  prefill_data = [];
  minimum_log_level = 7;
  stack_frames_wanted = set_frames 17 10 (set_frames 20 20 (λ _. 0));
  tag_lines_with_span_sequence = false;
  synchronous_flush_when_done = true;
  redact_any = none;
  redact_string = none;
  redact_error = none;
  stack_filename_rewrite = identity;
}

-- One round of the loop of StackFrames, at the level `l`.
unfoldable pub adjust_frames : ℕ → ℕ → ℕ → (ℕ → ℕ) → ℕ → ℕ
adjust_frames level frame_count l wanted =
    let current = wanted l in
    let lowered =
      if leb l level && ltb frame_count current then set_frames l frame_count wanted else wanted in
    if leb level l && ltb current frame_count then set_frames l frame_count lowered else lowered

unfoldable pub adjust_all : ℕ → ℕ → List ℕ → (ℕ → ℕ) → ℕ → ℕ
adjust_all level frame_count [] wanted = wanted
adjust_all level frame_count (l ∷ ls) wanted =
    adjust_all level frame_count ls (adjust_frames level frame_count l wanted)

unfoldable pub stack_frames : ℕ → ℕ → LogSettings → LogSettings
stack_frames level frame_count s = record s {
  stack_frames_wanted = adjust_all level frame_count level_values s.stack_frames_wanted;
}

unfoldable pub set_stack_filename_rewrite : ℕ → LogSettings → LogSettings
set_stack_filename_rewrite f s = record s { stack_filename_rewrite = f }

unfoldable pub synchronous_flush : Bool → LogSettings → LogSettings
synchronous_flush b s = record s { synchronous_flush_when_done = b }

unfoldable pub min_level : ℕ → LogSettings → LogSettings
min_level level s = record s { minimum_log_level = level }

unfoldable pub set_tag_lines_with_span_sequence : Bool → LogSettings → LogSettings
set_tag_lines_with_span_sequence b s = record s { tag_lines_with_span_sequence = b }

unfoldable pub prefill_text : Bytes → LogSettings → LogSettings
prefill_text m s = record s { prefill_msg = m }

unfoldable pub no_prefill : LogSettings → LogSettings
no_prefill s = record s { prefill_data = []; prefill_msg = [] }

unfoldable pub set_redact_any_func : ℕ → LogSettings → LogSettings
set_redact_any_func f s = record s { redact_any = some f }

unfoldable pub set_redact_error_func : ℕ → LogSettings → LogSettings
set_redact_error_func f s = record s { redact_error = some f }

unfoldable pub set_redact_string_func : ℕ → LogSettings → LogSettings
set_redact_string_func f s = record s { redact_string = some f }

-- `append(settings.prefillData, …)`
abbrev pub append_prefill : PrefillCall → LogSettings → LogSettings
append_prefill c s = record s { prefill_data = s.prefill_data ++ c ∷ [] }

-- `int64(v)` of a `w`-bit integer.
unfoldable pub sign_extend : ℕ → ℕ → ℕ
sign_extend w v = if ltb v (2 ^ (w - 1)) then v else v + (2 ^ 64 - 2 ^ w)

-- sendPrefill: `none` when the base span is asked for NoPrefill, else the calls on what StartPrefill
-- gives, and the text of PrefillComplete. `span_sequence_key` is the key of xopconst.SpanSequenceCode.
abbrev pub is_none : List PrefillCall → Bool
is_none [] = true
is_none (c ∷ cs) = false

unfoldable pub send_prefill : Bytes → Bytes → LogSettings → Option (List PrefillCall × Bytes)
send_prefill span_sequence_key span_sequence_code s =
    if is_none s.prefill_data && bytes_eq s.prefill_msg [] && not s.tag_lines_with_span_sequence
    then none
    else some (
      if s.tag_lines_with_span_sequence
          then s.prefill_data ++ string_call span_sequence_key span_sequence_code string_type ∷ []
          else s.prefill_data,
      s.prefill_msg,
    )

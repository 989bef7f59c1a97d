-- ===== src/ConsoleReplay/Metadata.antt =====
-- xopconsole/replay.go: the attributes of a span, read back. An error is `none`; the texts of errors are
-- left out.
use xm.Base.{
  ℕ, zero, suc, Bool, true, false, Option, none, some, List, [], ◌∷◌, ◌++◌, Bytes, codes, bytes_eq,
  length, take, drop, if◌then◌else◌, ◌==◌, leb, not, ◌>>=◌, ◌^◌,
}
use xm.Metadata.Values.{ModelArg, Enum, TimeValue}
use xm.Trace.{Trace, trace_from_string}
use xm.Attributes.Arguments.{
  Argument, any_argument, bool_argument, enum_argument, float64_argument, int64_argument,
  link_argument, string_argument, time_argument,
}
use xm.ConsoleReplay.Numbers.{parse_int, parse_uint}
use xm.ConsoleReplay.{one_word, one_word_terminal, one_string_and_sep, one_word_maybe_quoted}

-- The types of attributes that a definition may name; the sizes of integers are read alike.
pub data AttributeType : Type 0 where
  any_attribute bool_attribute duration_attribute enum_attribute float64_attribute : AttributeType
  int_attribute link_attribute string_attribute time_attribute other_attribute : AttributeType

-- What strconv, time, the registry of attributes and generated code do: what quoted strings, floats,
-- durations and times stand for, the number of an encoding, and whether an attribute of the type can be constructed.
pub record Parsers : Type 0 where
  pub unquote : Bytes → Option Bytes
  pub parse_float : Bytes → Option ℕ
  pub parse_duration : Bytes → Option ℕ
  pub parse_time : Bytes → Option TimeValue
  pub encoding_value : Bytes → Option ℕ
  pub constructs : Bytes → AttributeType → Bool

-- A value, the byte behind it, and what is left.
abbrev pub Read : Type 0 → Type 0
Read A = A × ℕ × Bytes

abbrev pub argued : {A : Type 0} → (A → Argument) → Option (Read A) → Option (Read Argument)
argued make none = none
argued make (some (a, sep, t)) = some (make a, sep, t)

-- A call on the span: the key of the attribute and the value.
abbrev pub SpanCall : Type 0
SpanCall = Bytes × Argument

module _ (p : Parsers) where
  -- Behind the size. `none` is an error, and in the first test a panic: `int(size)` is negative there, so that the
  -- test of the length lets the size pass and the slice is out of range.
  unfoldable pub read_model : ℕ → Bytes → Option (Read ModelArg)
  unfolding one_word one_word_maybe_quoted
  read_model size t =
      if leb (2 ^ 63) size
      then none
      else if leb (length t) size
      then none
      else (let (name, _, t1) = one_word (b'/' ∷ []) (drop size t) in
          do
            encoding ← p.encoding_value name
            let (model, sep, t2) = one_word_maybe_quoted p.unquote (b' ' ∷ b',' ∷ []) t1
            some (
              record { encoding = encoding; encoded = take size t; model_type = model },
              sep,
              t2,
            ))

  unfoldable pub read_attribute_any : Bytes → Option (Read ModelArg)
  unfolding one_word read_model parse_uint
  read_attribute_any [] = none
  read_attribute_any (c ∷ t) =
      if not (c == b'(')
      then none
      else (let (digits, _, t1) = one_word (b')' ∷ []) t in
          do size ← parse_uint digits; read_model size t1)

  -- A string that `parse` understands.
  unfoldable pub read_string : {A : Type 0} → (Bytes → Option A) → Bytes → Option (Read A)
  unfolding one_string_and_sep
  read_string parse t =
      let (value, sep, t1) = one_string_and_sep p.unquote t in do v ← parse value; some (v, sep, t1)

  unfoldable pub read_enum : Bytes → Option (Read Enum)
  unfolding one_word one_word_terminal parse_int
  read_enum t =
      let (value, sep, t1) = one_word (b'/' ∷ []) t in
      if not (sep == b'/') then none else (do
        i ← parse_int value
        let (name, sep1, t2) = one_word_terminal (b' ' ∷ b',' ∷ []) t1
        if bytes_eq name [] then none else some (record { number = i; name = name }, sep1, t2))

  unfoldable pub parse_link : Bytes → Option Trace
  parse_link value =
      let (t, accepted) = trace_from_string value in if accepted then some t else none

  -- The bool is true when its text is `t`.
  unfoldable pub one_metadata_value : AttributeType → Bytes → Option (Read Argument)
  unfolding parse_int read_attribute_any read_string read_enum parse_link
  one_metadata_value any_attribute t = argued any_argument (read_attribute_any t)
  one_metadata_value bool_attribute t =
      argued bool_argument (read_string (λ v. some (bytes_eq v (codes "t"))) t)
  one_metadata_value duration_attribute t = argued int64_argument (read_string p.parse_duration t)
  one_metadata_value enum_attribute t = argued enum_argument (read_enum t)
  one_metadata_value float64_attribute t = argued float64_argument (read_string p.parse_float t)
  one_metadata_value int_attribute t = argued int64_argument (read_string parse_int t)
  one_metadata_value link_attribute t = argued link_argument (read_string parse_link t)
  one_metadata_value string_attribute t = argued string_argument (read_string (λ v. some v) t)
  one_metadata_value time_attribute t = argued time_argument (read_string p.parse_time t)
  one_metadata_value other_attribute t = none

  -- collectMetadata from a key on, or from a value of `key` on; the calls made so far, and whether it ends
  -- without an error or the panic of read_model. `none` stands for too little fuel.
  unfoldable pub collect_metadata :
      ℕ
      → (Bytes → Option AttributeType)
      → Option (Bytes × AttributeType)
      → Bytes
      → List SpanCall
      → Option (List SpanCall × Bool)
  unfolding one_word one_metadata_value
  collect_metadata zero lookup now t calls = none
  collect_metadata (suc fuel) lookup none t calls =
      let (key, sep, t1) = one_word (b'=' ∷ []) t in
      elim (sep == 0) [
        | true ↦ some (calls, true)
        | false ↦ elim (lookup key) [
          | none ↦ some (calls, false)
          | some a ↦ collect_metadata fuel lookup (some (key, a)) t1 calls
        ]
      ]
  collect_metadata (suc fuel) lookup (some (key, a)) t calls = elim (p.constructs key a) [
    | false ↦ some (calls, false)
    | true ↦ elim (one_metadata_value a t) [
      | none ↦ some (calls, false)
      | some (v, sep, t1) ↦
          collect_metadata fuel lookup (if sep == b',' then some (key, a) else none) t1
            (calls ++ (key, v) ∷ [])
    ]
  ]

-- ===== src/ConsoleReplay/Values.antt =====
-- A value that xopconsole's builder wrote is read back.
use xm.Base.{
  ℕ, ◌^◌, ◌<◌, ◌≡◌, refl, Bool, true, false, Option, some, [], ◌∷◌, ◌++◌, Bytes, length,
  if◌then◌else◌, ◌==◌, leb, arith, All, ◌&&◌, not,
}
use xm.JBuilder.ConsoleStrings.{is_one_of, is_safe}
use xm.Trace.{string, trace_from_string}
use xm.Attributes.Arguments.{
  Argument, any_argument, bool_argument, enum_argument, float64_argument, int64_argument,
  link_argument, string_argument, time_argument,
}
use xm.Attributes.Texts.{string_text}
use xm.Attributes.Console.{Attribute}
use xm.Attributes.Console.Builder.{Formats}
use xm.Attributes.Console.Rendered.{is_plain}
use xm.ConsoleReplay.{one_string_and_sep}
use xm.ConsoleReplay.Metadata.{
  AttributeType, any_attribute, bool_attribute, duration_attribute, enum_attribute,
  float64_attribute, int_attribute, link_attribute, string_attribute, time_attribute, Parsers,
  read_string,
}
use xm.ConsoleReplay.Words.{Within, sep_of, behind, Safe, Closed, nothing, plain, scan-append}
use xm.ConsoleReplay.Strings.{Word, quoted-append}

-- Bytes that stand for themselves between quotes.
abbrev pub is_simple : ℕ → Bool
is_simple c = (leb 32 c && leb c 126) && (not (c == b'"') && not (c == b'\\'))

abbrev pub Simple : Bytes → Type 0
Simple = All (λ c. is_simple c ≡ true)

-- What strconv documents: bytes that stand for themselves between quotes are what is quoted.
pub record Inverse (p : Parsers) : Type 0 where
  pub simple_back : (s : Bytes) → Simple s → p.unquote (b'"' ∷ (s ++ b'"' ∷ [])) ≡ some s

-- The type that the definition of the attribute has.
unfoldable pub type_of : Attribute → Argument → AttributeType
type_of k (any_argument v) = any_attribute
type_of k (bool_argument v) = bool_attribute
type_of k (enum_argument v) = enum_attribute
type_of k (float64_argument v) = float64_attribute
type_of k (int64_argument v) = if k.is_duration then duration_attribute else int_attribute
type_of k (link_argument v) = link_attribute
type_of k (string_argument v) = string_attribute
type_of k (time_argument v) = time_attribute

-- The values whose texts can be read back: strings that strconv understands when they are escaped for JSON,
-- names of enums that need no quotes, floats and durations that need none and times in ASCII, where
-- strconv and time read what they write.
abbrev pub Readable : Formats → Parsers → Attribute → Argument → Type 0
Readable f p k (any_argument v) =
    (length (f.encode v).encoded < 2 ^ 63)
    × Within (b'/' ∷ []) (f.encoding (f.encode v).encoding)
    × (p.encoding_value (f.encoding (f.encode v).encoding) ≡ some (f.encode v).encoding)
    × (p.unquote (string_text (f.encode v).model_type) ≡ some (f.encode v).model_type)
Readable f p k (bool_argument v) = Unit
Readable f p k (enum_argument v) = (v.number < 2 ^ 64) × (is_plain v.name ≡ true)
Readable f p k (float64_argument v) = Word (f.float64 v) × (p.parse_float (f.float64 v) ≡ some v)
Readable f p k (int64_argument v) =
    (v < 2 ^ 64)
    × (k.is_duration ≡ true → Word (f.duration v) × (p.parse_duration (f.duration v) ≡ some v))
Readable f p k (link_argument v) = Simple (string v) × ((trace_from_string (string v)).1 ≡ true)
Readable f p k (string_argument v) = p.unquote (string_text v) ≡ some v
Readable f p k (time_argument v) = Simple (f.time v) × (p.parse_time (f.time v) ≡ some v)

-- What is read: a model is encoded, and a link is the trace of its text.
unfoldable pub read_back : Formats → Argument → Argument
read_back f (any_argument v) = any_argument (f.encode v)
read_back f (link_argument v) = link_argument (trace_from_string (string v)).0
read_back f v = v

Simple-Closed : (s : Bytes) → Simple s → Closed s
Simple-Closed [] h = nothing
Simple-Closed (c ∷ s) (e, h) = plain c s (ground arith) (ground arith) (Simple-Closed s h)

pub Simple-append :
    (p : Parsers)
    → Inverse p
    → (s rest : Bytes) → Simple s
    → one_string_and_sep p.unquote ((b'"' ∷ (s ++ b'"' ∷ [])) ++ rest)
      ≡ (s, sep_of rest, behind rest)
Simple-append p i s rest h =
    quoted-append p.unquote s s rest (scan-append s rest (Simple-Closed s h)) (i.simple_back s h)

pub read_string-some :
    {A : Type 0} (p : Parsers) (parse : Bytes → Option A) (t s rest : Bytes) (a : A)
    → one_string_and_sep p.unquote t ≡ (s, sep_of rest, behind rest)
    → parse s ≡ some a
    → read_string p parse t ≡ some (a, sep_of rest, behind rest)
unfolding read_string
read_string-some p parse t s rest a e q = rw (e, read_string, q) refl

pub Safe-Within :
    (boundary w : Bytes)
    → ((c : ℕ) → is_safe c ≡ true → is_one_of boundary c ≡ false)
    → Safe w
    → Within boundary w
Safe-Within boundary [] f h = tt
Safe-Within boundary (c ∷ w) f (e, h) = (f c e, Safe-Within boundary w f h)

pub Word-Safe : (w : Bytes) → Word w → Safe w
Word-Safe w (c, s, e, h) = rw e h

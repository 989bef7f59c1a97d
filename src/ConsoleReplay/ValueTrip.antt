-- ===== src/ConsoleReplay/ValueTrip.antt =====
-- Each value that xopconsole's builder wrote is read back, with the byte behind it.
use xm.Base.{
  ℕ, ◌^◌, ◌≤◌, ◌<◌, ◌≡◌, refl, ap, ◌∙◌, Bool, true, false, some, [], ◌∷◌, ◌++◌, Bytes, codes,
  bytes_eq, length, length-append, take-append_left, drop-append_left, if◌then◌else◌, ◌==◌, leb,
  append_assoc, Bool-cases, Option-cases, inl, inr, arith, get_elem?, ◌&&◌, ◌||◌, ◌>>=◌,
}
use xm.JBuilder.Numbers.{format_int}
use xm.JBuilder.ConsoleStrings.{is_one_of, is_safe, is_word, safe_re, all_inner}
use xm.Metadata.Values.{ModelArg, Enum}
use xm.Trace.{string}
use xm.Attributes.Arguments.{
  Argument, any_argument, bool_argument, enum_argument, float64_argument, int64_argument,
  link_argument, string_argument, time_argument,
}
use xm.Attributes.Texts.{string_text, body_text}
use xm.Attributes.Console.{Attribute}
use xm.Attributes.Console.Builder.{Formats}
use xm.Attributes.Console.Rendered.{is_plain, console_text, any_text, rendered}
use xm.ConsoleReplay.Metadata.{
  Parsers, argued, read_model, read_attribute_any, read_enum, parse_link, one_metadata_value,
}
use xm.ConsoleReplay.Words.{
  Within, ends, Bounded, sep_of, behind, one_word-append, one_word_terminal-append,
}
use xm.ConsoleReplay.Quoted.{scan-body_text}
use xm.ConsoleReplay.Strings.{
  Word, Word-append, quoted-append, maybe_quoted-append, format_int-Word, format_int-All,
}
use xm.ConsoleReplay.Numbers.{parse_int, parse_int-format_int, parse_uint-format_int}
use xm.ConsoleReplay.Values.{
  Inverse, Readable, type_of, read_back, Simple-append, read_string-some, Safe-Within, Word-Safe,
}

safe_not_slash : (c : ℕ) → is_safe c ≡ true → is_one_of (b')' ∷ []) c ≡ false
unfolding is_safe is_one_of is_word
safe_not_slash c h = ground arith

digits-Within : (v : ℕ) → Within (b')' ∷ []) (format_int v)
digits-Within v = Safe-Within _ _ safe_not_slash (Word-Safe _ (format_int-Word v))

-- A model.
read_model-append :
    (f : Formats) (p : Parsers) (v : ModelArg) (rest : Bytes)
    → length v.encoded < 2 ^ 63
    → Within (b'/' ∷ []) (f.encoding v.encoding)
    → p.encoding_value (f.encoding v.encoding) ≡ some v.encoding
    → p.unquote (string_text v.model_type) ≡ some v.model_type
    → read_model p
        (length v.encoded)
        (v.encoded ++ (f.encoding v.encoding ++ b'/' ∷ (string_text v.model_type ++ rest)))
      ≡ some (v, sep_of rest, behind rest)
unfolding read_model string_text is_one_of
read_model-append f p v rest n w e u =
    let small : leb (2 ^ 63) (length v.encoded) ≡ false = ground arith in
    let t = f.encoding v.encoding ++ b'/' ∷ (string_text v.model_type ++ rest) in
    let long : leb (length (v.encoded ++ t)) (length v.encoded) ≡ false = ground (
      arith,
      length-append v.encoded t,
      length-append (f.encoding v.encoding) (b'/' ∷ (string_text v.model_type ++ rest)),
    ) in
    rw
      (
        small,
        read_model,
        long,
        drop-append_left (length v.encoded) v.encoded t refl,
        take-append_left (length v.encoded) v.encoded t refl,
        one_word-append (b'/' ∷ []) (f.encoding v.encoding) b'/' (string_text v.model_type ++ rest)
            w refl,
        e,
        maybe_quoted-append p.unquote ends (body_text v.model_type) v.model_type rest
            (scan-body_text v.model_type rest) u,
      )
      refl

any_tail :
    (f : Formats) (v : ModelArg) (rest : Bytes)
    → any_text f v ++ rest
      ≡ b'('
        ∷ (format_int (length (f.encode v).encoded)
            ++ b')'
              ∷ ((f.encode v).encoded
                  ++ (f.encoding (f.encode v).encoding
                      ++ b'/' ∷ (string_text (f.encode v).model_type ++ rest))))
unfolding any_text
any_tail f v rest = simp append_assoc refl

read_attribute_any-append :
    (f : Formats) (p : Parsers) (k : Attribute) (v : ModelArg) (rest : Bytes)
    → Inverse p
    → Readable f p k (any_argument v)
    → read_attribute_any p (any_text f v ++ rest) ≡ some (f.encode v, sep_of rest, behind rest)
unfolding read_attribute_any is_one_of
read_attribute_any-append f p k v rest i (n, w, e, u) =
    let m = f.encode v in
    ap (read_attribute_any p) (any_tail f v rest)
    ∙ rw
        (
          one_word-append (b')' ∷ []) (format_int (length m.encoded)) b')'
              (m.encoded ++ (f.encoding m.encoding ++ b'/' ∷ (string_text m.model_type ++ rest)))
              (digits-Within (length m.encoded)) refl,
          read_attribute_any,
          parse_uint-format_int (length m.encoded) n,
          ◌>>=◌,
        )
        (read_model-append f p m rest n w e u)

-- An enum.
inner_not_end : (c : ℕ) → (is_safe c || (c == b':')) ≡ true → is_one_of ends c ≡ false
unfolding is_safe is_one_of is_word
inner_not_end c h = ground arith

all_inner-Within : (s : Bytes) → all_inner s ≡ true → Within ends s
unfolding all_inner
all_inner-Within [] h = tt
all_inner-Within (c ∷ s) h = (inner_not_end c (ground arith), all_inner-Within s (ground arith))

outer_two : (a b c : Bool) → (a && (b && c)) ≡ true → (a && c) ≡ true
outer_two a b c h = ground arith

safe_re-inner : (c : ℕ) (s : Bytes) → safe_re (c ∷ s) ≡ true → (is_safe c && all_inner s) ≡ true
unfolding safe_re
safe_re-inner c s h = elim (Option-cases (get_elem? (c ∷ s) (length s))) [
  | inl n ↦ absurd (let q = rw (n, safe_re) at h in cc)
  | inr (d, e) ↦ outer_two (is_safe c) (is_safe d) (all_inner s) (rw (e, safe_re) at h)
]

safe_re-Within : (s : Bytes) → safe_re s ≡ true → Within ends s
unfolding safe_re
safe_re-Within [] h = cc
safe_re-Within (c ∷ s) h =
    let q = safe_re-inner c s h in
    (inner_not_end c (ground arith), all_inner-Within s (ground arith))

safe_re_not_empty : (s : Bytes) → safe_re s ≡ true → bytes_eq s [] ≡ false
unfolding safe_re bytes_eq
safe_re_not_empty [] h = cc
safe_re_not_empty (c ∷ s) h = refl

digit_not_slash : (c : ℕ) → 48 ≤ c → c < 58 → is_one_of (b'/' ∷ []) c ≡ false
unfolding is_one_of
digit_not_slash c h g = ground arith

number_not_slash : (v : ℕ) → Within (b'/' ∷ []) (format_int v)
unfolding is_one_of
number_not_slash v = format_int-All (λ c. is_one_of (b'/' ∷ []) c ≡ false) digit_not_slash refl v

pub read_enum_word :
    (p : Parsers) (n : ℕ) (name rest : Bytes)
    → n < 2 ^ 64
    → bytes_eq name [] ≡ false
    → Within ends name
    → Bounded rest
    → read_enum p (format_int n ++ b'/' ∷ (name ++ rest))
      ≡ some (record { number = n; name = name }, sep_of rest, behind rest)
unfolding read_enum is_one_of
read_enum_word p n name rest h e w b =
    rw
      (
        one_word-append (b'/' ∷ []) (format_int n) b'/' (name ++ rest) (number_not_slash n) refl,
        read_enum,
        parse_int-format_int n h,
        ◌>>=◌,
        one_word_terminal-append name rest w b,
        e,
      )
      refl

enum_tail :
    (f : Formats) (v : Enum) (rest : Bytes)
    → is_plain v.name ≡ true
    → (format_int v.number ++ b'/' ∷ console_text f.quote v.name) ++ rest
      ≡ format_int v.number ++ b'/' ∷ (v.name ++ rest)
unfolding console_text
enum_tail f v rest h = rw h (append_assoc (format_int v.number) (b'/' ∷ v.name) rest)

plain-safe_re : (s : Bytes) → is_plain s ≡ true → safe_re s ≡ true
plain-safe_re s h = ground arith

-- Every value.
safe_letter : (c : ℕ) → is_word c ≡ true → is_safe c ≡ true
unfolding is_safe
safe_letter c h = ground arith

flag-Word : (v : Bool) → Word (if v then codes "t" else codes "f")
unfolding is_word
flag-Word true = (b't', [], refl, (safe_letter b't' refl, tt))
flag-Word false = (b'f', [], refl, (safe_letter b'f' refl, tt))

flag_back : (v : Bool) → bytes_eq (if v then codes "t" else codes "f") (codes "t") ≡ v
unfolding bytes_eq
flag_back true = refl
flag_back false = refl

-- A value that the methods of xopconsole's builder append and that can be read, followed by nothing, a comma
-- or a space, is what replay reads there, together with the byte behind it.
pub one_metadata_value-rendered :
    (f : Formats) (p : Parsers) (k : Attribute) (v : Argument) (rest : Bytes)
    → Inverse p
    → Readable f p k v
    → Bounded rest
    → one_metadata_value p (type_of k v) ((rendered f k v).1 ++ rest)
      ≡ some (read_back f v, sep_of rest, behind rest)
unfolding one_metadata_value type_of rendered read_back parse_link string_text
one_metadata_value-rendered f p k (any_argument v) rest i h b =
    ap (argued any_argument) (read_attribute_any-append f p k v rest i h)
one_metadata_value-rendered f p k (bool_argument v) rest i h b = ap (argued bool_argument) (
    read_string-some p (λ v. some (bytes_eq v (codes "t")))
      ((if v then codes "t" else codes "f") ++ rest) _ rest v
      (Word-append p.unquote _ rest (flag-Word v) b) (ap some (flag_back v)))
one_metadata_value-rendered f p k (enum_argument v) rest i (n, h) b = ap (argued enum_argument) (
    ap (read_enum p) (enum_tail f v rest h)
    ∙ read_enum_word p v.number v.name rest n (safe_re_not_empty v.name (plain-safe_re v.name h))
        (safe_re-Within v.name (plain-safe_re v.name h)) b)
one_metadata_value-rendered f p k (float64_argument v) rest i (w, h) b =
    ap (argued float64_argument) (
      read_string-some p p.parse_float (f.float64 v ++ rest) _ rest v
        (Word-append p.unquote _ rest w b) h)
one_metadata_value-rendered f p k (int64_argument v) rest i (n, w) b =
    elim (Bool-cases k.is_duration) [
      | inl e ↦ rw e (
          ap (argued int64_argument) (
            read_string-some p p.parse_duration (f.duration v ++ rest) _ rest v
              (Word-append p.unquote _ rest (w e).0 b) (w e).1))
      | inr e ↦ rw e (
          ap (argued int64_argument) (
            read_string-some p parse_int (format_int v ++ rest) _ rest v
              (Word-append p.unquote _ rest (format_int-Word v) b) (parse_int-format_int v n)))
    ]
one_metadata_value-rendered f p k (link_argument v) rest i (s, h) b = ap (argued link_argument) (
    read_string-some p (parse_link p) ((b'"' ∷ (string v ++ b'"' ∷ [])) ++ rest) _ rest _
      (Simple-append p i (string v) rest s) (rw h refl))
one_metadata_value-rendered f p k (string_argument v) rest i h b = ap (argued string_argument) (
    read_string-some p (λ v. some v) (string_text v ++ rest) _ rest v
      (quoted-append p.unquote (body_text v) v rest (scan-body_text v rest) h) refl)
one_metadata_value-rendered f p k (time_argument v) rest i (h, q) b = ap (argued time_argument) (
    read_string-some p p.parse_time ((b'"' ∷ (f.time v ++ b'"' ∷ [])) ++ rest) _ rest v
      (Simple-append p i (f.time v) rest h) q)

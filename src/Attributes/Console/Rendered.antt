-- ===== src/Attributes/Console/Rendered.antt =====
-- The text that each method of xopconsole's builder appends, and that it never ends in a comma.
use xm.Base.{
  ℕ, ◌≤◌, ◌<◌, ◌≡◌, refl, ap, ◌∙◌, Bool, true, false, some, [], ◌∷◌, ◌++◌, Bytes, codes, length,
  bytes_eq, get_elem?, if◌then◌else◌, ◌&&◌, not, Bool-cases, inl, inr, arith, append_assoc,
}
use xm.JBuilder.{JBuilder, append_bytes}
use xm.JBuilder.Numbers.{format_int}
use xm.JBuilder.ConsoleStrings.{safe_re, is_safe, is_word, is_one_of, all_inner, add_console_string}
use xm.Metadata.Values.{ModelArg}
use xm.Metadata.{
  DataType, any_type, bool_type, enum_type, float64_type, int64_type, link_type, string_type,
  time_type,
}
use xm.Trace.{string}
use xm.Attributes.Values.{PlainEnd, is_comma, append-PlainEnd}
use xm.Attributes.Texts.{
  Appends, string_text, add_string-Appends, add_safe_string-Appends, quoted-PlainEnd,
  string_text-PlainEnd, format_int-PlainEnd,
}
use xm.Attributes.Console.{Attribute}
use xm.Attributes.Console.Builder.{
  Formats, any_common, attribute_any, attribute_bool, attribute_enum, attribute_float64,
  attribute_int64, attribute_duration, attribute_link, attribute_string, attribute_time,
}
use xm.Attributes.Arguments.{
  Argument, any_argument, bool_argument, enum_argument, float64_argument, int64_argument,
  link_argument, string_argument, time_argument,
}

-- What strconv and time document: numbers end in a digit or a letter, durations in their unit and
-- quoted strings in their quote, and none is empty.
pub record Documented (f : Formats) : Type 0 where
  pub float64_end : (v : ℕ) → PlainEnd is_comma (f.float64 v)
  pub duration_end : (v : ℕ) → PlainEnd is_comma (f.duration v)
  pub quote_end : (s : Bytes) → PlainEnd is_comma (f.quote s)

abbrev pub is_plain : Bytes → Bool
is_plain s = safe_re s && (not (bytes_eq s (codes "t")) && not (bytes_eq s (codes "f")))

unfoldable pub console_text : (Bytes → Bytes) → Bytes → Bytes
console_text quote s = if is_plain s then s else quote s

unfoldable pub any_text : Formats → ModelArg → Bytes
any_text f v =
    let e = f.encode v in
    b'('
    ∷ (format_int (length e.encoded)
        ++ (b')' ∷ (e.encoded ++ (f.encoding e.encoding ++ (b'/' ∷ string_text e.model_type)))))

-- The type and the text of an argument.
unfoldable pub rendered : Formats → Attribute → Argument → DataType × Bytes
rendered f k (any_argument v) = (any_type, any_text f v)
rendered f k (bool_argument v) = (bool_type, if v then codes "t" else codes "f")
rendered f k (enum_argument v) =
    (enum_type, format_int v.number ++ (b'/' ∷ console_text f.quote v.name))
rendered f k (float64_argument v) = (float64_type, f.float64 v)
rendered f k (int64_argument v) = (int64_type, if k.is_duration then f.duration v else format_int v)
rendered f k (link_argument v) = (link_type, b'"' ∷ (string v ++ b'"' ∷ []))
rendered f k (string_argument v) = (string_type, string_text v)
rendered f k (time_argument v) = (time_type, b'"' ∷ (f.time v ++ b'"' ∷ []))

pub add_console_string-Appends :
    (quote : Bytes → Bytes) (s : Bytes)
    → Appends (add_console_string quote s) (console_text quote s)
unfolding add_console_string console_text
add_console_string-Appends quote s j = elim (Bool-cases (is_plain s)) [
  | inl e ↦ rw (e, add_console_string) refl
  | inr n ↦ rw (n, add_console_string) refl
]

is_safe_not_comma : (c : ℕ) → is_safe c ≡ true → is_comma c ≡ false
unfolding is_safe is_word is_one_of
is_safe_not_comma c h = ground arith

last_split :
    (c : ℕ) (t : Bytes)
    → (front : Bytes) × (d : ℕ) × (c ∷ t ≡ front ++ d ∷ [])
      × (get_elem? (c ∷ t) (length t) ≡ some d)
last_split c [] = ([], c, refl, refl)
last_split c (e ∷ t) = let (front, d, p, q) = last_split e t in (c ∷ front, d, ap (◌∷◌ c) p, q)

safe_re-PlainEnd : (s : Bytes) → safe_re s ≡ true → PlainEnd is_comma s
unfolding safe_re
safe_re-PlainEnd [] h = cc
safe_re-PlainEnd (c ∷ t) h =
    let (front, d, p, q) = last_split c t in
    (front, d, p, is_safe_not_comma d (second d (rw (q, safe_re) at h)))
  where
    second : (d : ℕ) → (is_safe c && (is_safe d && all_inner t)) ≡ true → is_safe d ≡ true
    second d e = ground arith

console_text-PlainEnd :
    (quote : Bytes → Bytes) (s : Bytes)
    → PlainEnd is_comma (quote s)
    → PlainEnd is_comma (console_text quote s)
unfolding console_text
console_text-PlainEnd quote s p = elim (Bool-cases (is_plain s)) [
  | inl e ↦ rw (e, console_text) (safe_re-PlainEnd s (ground arith))
  | inr n ↦ rw (n, console_text) p
]

any_common-Appends : (f : Formats) (v : ModelArg) → Appends (any_common f v) (any_text f v)
unfolding any_common any_text append_bytes xm.JBuilder.Numbers.add_int64
any_common-Appends f v j =
    add_string-Appends _ _ ∙ ap (λ (b : Bytes). record j { b = b }) (simp append_assoc refl)

digit_not_comma : (c : ℕ) → 48 ≤ c → c < 58 → is_comma c ≡ false
digit_not_comma c h g = ground arith

-- Every method appends its text.
unfoldable pub add_argument : Formats → Attribute → Argument → JBuilder → JBuilder
add_argument f k (any_argument v) = attribute_any f v
add_argument f k (bool_argument v) = attribute_bool v
add_argument f k (enum_argument v) = attribute_enum f v
add_argument f k (float64_argument v) = attribute_float64 f v
add_argument f k (int64_argument v) =
    λ j. if k.is_duration then attribute_duration f v j else attribute_int64 v j
add_argument f k (link_argument v) = attribute_link v
add_argument f k (string_argument v) = attribute_string v
add_argument f k (time_argument v) = attribute_time f v

pub add_argument-Appends :
    (f : Formats) (k : Attribute) (v : Argument) → Appends (add_argument f k v) (rendered f k v).1
unfolding add_argument rendered attribute_any attribute_bool attribute_enum attribute_float64
    attribute_int64 attribute_duration attribute_link attribute_string attribute_time append_bytes
    xm.JBuilder.Numbers.add_int64 xm.JBuilder.Numbers.add_float64
add_argument-Appends f k (any_argument v) j = any_common-Appends f v j
add_argument-Appends f k (bool_argument v) j = refl
add_argument-Appends f k (enum_argument v) j =
    add_console_string-Appends f.quote v.name _
    ∙ ap (λ (b : Bytes). record j { b = b }) (simp append_assoc refl)
add_argument-Appends f k (float64_argument v) j = refl
add_argument-Appends f k (int64_argument v) j = elim (Bool-cases k.is_duration) [
  | inl e ↦ simp e refl
  | inr e ↦ simp e refl
]
add_argument-Appends f k (link_argument v) j = add_safe_string-Appends (string v) j
add_argument-Appends f k (string_argument v) j = add_string-Appends v j
add_argument-Appends f k (time_argument v) j =
    ap (λ (b : Bytes). record j { b = b }) (simp append_assoc refl)

pub rendered-PlainEnd :
    (f : Formats)
    → Documented f
    → (k : Attribute) (v : Argument) → PlainEnd is_comma (rendered f k v).1
unfolding rendered any_text
rendered-PlainEnd f h k (any_argument v) =
    let e = f.encode v in
    let last : PlainEnd is_comma (b'/' ∷ string_text e.model_type) =
      append-PlainEnd is_comma (b'/' ∷ []) _ (string_text-PlainEnd is_comma e.model_type refl) in
    append-PlainEnd is_comma (b'(' ∷ format_int (length e.encoded)) _ (
      append-PlainEnd is_comma (b')' ∷ e.encoded) _
        (append-PlainEnd is_comma (f.encoding e.encoding) _ last))
rendered-PlainEnd f h k (bool_argument true) = ([], b't', refl, refl)
rendered-PlainEnd f h k (bool_argument false) = ([], b'f', refl, refl)
rendered-PlainEnd f h k (enum_argument v) = append-PlainEnd is_comma (format_int v.number) _ (
    append-PlainEnd is_comma (b'/' ∷ []) _
      (console_text-PlainEnd f.quote v.name (h.quote_end v.name)))
rendered-PlainEnd f h k (float64_argument v) = h.float64_end v
rendered-PlainEnd f h k (int64_argument v) = elim (Bool-cases k.is_duration) [
  | inl e ↦ simp e (h.duration_end v)
  | inr e ↦ simp e (format_int-PlainEnd is_comma digit_not_comma v)
]
rendered-PlainEnd f h k (link_argument v) = quoted-PlainEnd is_comma (string v) refl
rendered-PlainEnd f h k (string_argument v) = string_text-PlainEnd is_comma v refl
rendered-PlainEnd f h k (time_argument v) = quoted-PlainEnd is_comma (f.time v) refl

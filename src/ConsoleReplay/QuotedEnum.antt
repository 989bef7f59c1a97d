-- ===== src/ConsoleReplay/QuotedEnum.antt =====
-- xopconsole: enums whose names need quotes do not come back from replay.
use xm.Base.{
  ◌^◌, ◌≤◌, ◌<◌, ◌≡◌, ◌≢◌, refl, ap, sym, ◌∙◌, false, some, [], ◌∷◌, ◌++◌, Bytes, bytes_eq, length,
  length-append, append_assoc, arith,
}
use xm.JBuilder.{JBuilder, append_bytes}
use xm.JBuilder.Numbers.{format_int, add_int64}
use xm.Metadata.Values.{Enum}
use xm.Attributes.Arguments.{enum_argument}
use xm.Attributes.Console.Builder.{Formats, attribute_enum}
use xm.Attributes.Console.Rendered.{is_plain, console_text, add_console_string-Appends}
use xm.ConsoleReplay.Metadata.{enum_attribute, Parsers, argued, read_enum, one_metadata_value}
use xm.ConsoleReplay.Words.{Within, ends, Bounded, sep_of, behind}
use xm.ConsoleReplay.ValueTrip.{read_enum_word}

-- What attribute_enum appends.
attribute_enum_quotes :
    (f : Formats) (v : Enum) (j : JBuilder)
    → is_plain v.name ≡ false
    → (attribute_enum f v j).b ≡ j.b ++ (format_int v.number ++ b'/' ∷ f.quote v.name)
unfolding attribute_enum append_bytes add_int64 console_text
attribute_enum_quotes f v j h =
    ap (λ (x : JBuilder). x.b) (add_console_string-Appends f.quote v.name _)
    ∙ rw h (simp append_assoc refl)

-- AttributeEnum writes the name of an enum that needs quotes with them, and replay takes the quotes for a part
-- of the name: the enum that is read has the quoted text for its name, which is not the name. Strconv
-- puts quotes around a text that is no shorter, and no space or comma stands in it.
pub quoted_enum_keeps_quotes :
    (f : Formats) (p : Parsers) (v : Enum) (body rest : Bytes) (j : JBuilder)
    → v.number < 2 ^ 64
    → is_plain v.name ≡ false
    → f.quote v.name ≡ b'"' ∷ (body ++ b'"' ∷ [])
    → length v.name ≤ length body
    → Within ends (f.quote v.name)
    → Bounded rest
    → (w : Bytes) × ((attribute_enum f v j).b ≡ j.b ++ w)
      × (one_metadata_value p enum_attribute (w ++ rest)
          ≡ some (
            enum_argument (record { number = v.number; name = f.quote v.name }),
            sep_of rest,
            behind rest,
          ))
      × (f.quote v.name ≢ v.name)
unfolding one_metadata_value bytes_eq
quoted_enum_keeps_quotes f p v body rest j n h q l w b = (
  format_int v.number ++ b'/' ∷ f.quote v.name,
  attribute_enum_quotes f v j h,
  ap (argued enum_argument) (
      ap (read_enum p) (append_assoc (format_int v.number) (b'/' ∷ f.quote v.name) rest)
      ∙ read_enum_word p v.number (f.quote v.name) rest n (ap (λ (s : Bytes). bytes_eq s []) q) w
          b),
  λ e.
      let same : length (b'"' ∷ (body ++ b'"' ∷ [])) ≡ length v.name = ap length (sym q ∙ e) in
      absurd (omega (arith, length-append body (b'"' ∷ []))),
)

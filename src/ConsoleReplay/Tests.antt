-- ===== src/ConsoleReplay/Tests.antt =====
-- xopconsole's replay: the theorems at concrete inputs.
use Prim.Native.String.{String}
use xm.Base.{
  ◌-◌, ◌≡◌, ◌≢◌, refl, ap, true, false, Option, none, some, List, inl, inr, [], ◌∷◌, ◌++◌, Bytes,
  codes, bytes_eq, length, take, length-append, take-append_left, if◌then◌else◌, arith,
}
use xm.JBuilder.ConsoleStrings.{is_safe, is_word, is_one_of, safe_re, all_inner}
use xm.JBuilder.Escape.{needs_escape, in_table}
use xm.Attributes.Texts.{string_text}
use xm.Attributes.Arguments.{Argument, enum_argument, int64_argument, string_argument}
use mathlib.Core.List.{Permᴰ}
use mathlib.Core.List
use xm.Attributes.{init}
use xm.Attributes.Console.{Attribute, Request, ConsoleBuilder, append}
use xm.JBuilder.{JBuilder}
use xm.Attributes.Console.Builder.{Formats, attribute_enum}
use xm.Attributes.Console.Rendered.{rendered, Documented}
use xm.ConsoleReplay.Metadata.{
  AttributeType, enum_attribute, int_attribute, string_attribute, Parsers, one_metadata_value,
  collect_metadata,
}
use xm.ConsoleReplay.Words.{behind}
use xm.ConsoleReplay.Values.{Inverse, type_of, read_back}
use xm.ConsoleReplay.ValueTrip.{one_metadata_value-rendered}
use xm.ConsoleReplay.RoundTrip.{Entry, calls_of, IsEntry, rounds}
use xm.ConsoleReplay.Made.{perform_entries, Apart}
use xm.ConsoleReplay.Trip.{collect_metadata-append}
use xm.ConsoleReplay.QuotedEnum.{quoted_enum_keeps_quotes}

-- Formats and parsers that stand in for strconv and time.
abbrev formats : Formats
formats = record {
  float64 = λ _. codes "0.5";
  time = λ _. codes "2022-09-01T10:00:00Z";
  duration = λ _. codes "1s";
  quote = λ s. b'"' ∷ (s ++ b'"' ∷ []);
  encoding = λ _. codes "JSON";
  encode = λ v. v;
}

abbrev empty_line : JBuilder
empty_line = record { b = []; fast_keys = false }

abbrev cut_quotes : Bytes → Option Bytes
cut_quotes [] = none
cut_quotes (c ∷ s) = some (take (length s - 1) s)

abbrev parsers : Parsers
parsers = record {
  unquote = cut_quotes;
  parse_float = λ _. none;
  parse_duration = λ _. some 1000000000;
  parse_time = λ _. none;
  encoding_value = λ _. some 1;
  constructs = λ _ _. true;
}

parsers-Inverse : Inverse parsers
parsers-Inverse = record {
  simple_back = λ s h.
      ap some (take-append_left _ s (b'"' ∷ []) (omega (arith, length-append s (b'"' ∷ []))));
}

abbrev named : String → Attribute
named s = record {
  key = codes s;
  console_key = codes s ++ b'=' ∷ [];
  definition = codes "{}";
  multiple = true;
  distinct = false;
  locked = false;
  is_duration = false;
}

abbrev text : String → Argument
text s = string_argument (codes s)

abbrev colors : Entry
colors = record {
  attribute = named "colors";
  name = codes "colors";
  value = text "red";
  more = text "blue" ∷ [];
}

abbrev size : Entry
size = record { attribute = named "size"; name = codes "size"; value = int64_argument 7; more = [] }

-- The definitions of the two attributes.
abbrev definitions : Bytes → Option AttributeType
definitions k =
    if bytes_eq k (codes "colors")
    then some string_attribute
    else if bytes_eq k (codes "size")
    then some int_attribute
    else none

colors-IsEntry : IsEntry formats parsers definitions colors
unfolding is_one_of bytes_eq string_text needs_escape in_table type_of
colors-IsEntry = record {
  type = string_attribute;
  key_text = refl;
  key_plain = (refl, (refl, (refl, (refl, (refl, (refl, tt))))));
  defined = refl;
  constructed = refl;
  readable = ((refl, refl), ((refl, refl), tt));
}

size-IsEntry : IsEntry formats parsers definitions size
unfolding is_one_of bytes_eq type_of
size-IsEntry = record {
  type = int_attribute;
  key_text = refl;
  key_plain = (refl, (refl, (refl, (refl, tt))));
  defined = refl;
  constructed = refl;
  readable = (((omega arith, λ e. absurd (cc)), refl), tt);
}

formats-Documented : Documented formats
formats-Documented = record {
  float64_end = λ _. (codes "0.", b'5', refl, refl);
  duration_end = λ _. (codes "1", b's', refl, refl);
  quote_end = λ s. (b'"' ∷ s, b'"', refl, refl);
}

abbrev request : Request
request = record { start_time = codes "2022-09-01T10:00:00Z"; out = []; errors = 0 }

collect_metadata-append_example :
    (c : ConsoleBuilder) × (perform_entries formats
        (λ _. false)
        (colors ∷ size ∷ [])
        (record { attributes = init; request = request })
      ≡ some c)
    × ((ds : List Entry) × Permᴰ (colors ∷ size ∷ []) ds
        × ((x : Bytes) × ((append c.attributes.multi_map c.attributes.single_map false c.attributes
                empty_line).0.b
              ≡ [] ++ x)
            × (collect_metadata parsers
                  (rounds formats parsers definitions ds 0)
                  definitions
                  none
                  (behind x)
                  []
                ≡ some (calls_of formats parsers definitions ds, true))))
unfolding Apart bytes_eq
collect_metadata-append_example =
    collect_metadata-append formats parsers definitions (λ _. false) request colors (size ∷ [])
      false (λ m. m) (λ s. s) empty_line [] 0 formats-Documented parsers-Inverse List.Permᴰ.refl
      List.Permᴰ.refl ((refl, tt), (tt, tt)) (inl (refl, refl), (inr refl, tt))
      (colors-IsEntry, (size-IsEntry, tt))

one_metadata_value-rendered_example :
    one_metadata_value parsers int_attribute (codes "7,8")
    ≡ some (int64_argument 7, b',', codes "8")
unfolding type_of rendered read_back xm.JBuilder.Numbers.format_int xm.JBuilder.Numbers.format_uint
    xm.JBuilder.Numbers.digits_loop is_one_of
one_metadata_value-rendered_example =
    one_metadata_value-rendered formats parsers (named "size") (int64_argument 7) (codes ",8")
      parsers-Inverse (omega arith, λ e. absurd (cc)) refl

-- The name `t` is quoted.
quoted_enum_keeps_quotes_example :
    (w : Bytes) × ((attribute_enum formats (record { number = 1; name = codes "t" }) empty_line).b
      ≡ [] ++ w)
    × (one_metadata_value parsers enum_attribute (w ++ [])
        ≡ some (enum_argument (record { number = 1; name = codes "\"t\"" }), 0, []))
    × (codes "\"t\"" ≢ codes "t")
unfolding safe_re is_safe is_word is_one_of all_inner bytes_eq
quoted_enum_keeps_quotes_example =
    quoted_enum_keeps_quotes formats parsers (record { number = 1; name = codes "t" }) (codes "t")
      [] empty_line (omega arith) refl refl (omega arith) (refl, (refl, (refl, tt))) tt

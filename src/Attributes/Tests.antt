-- ===== src/Attributes/Tests.antt =====
-- xopconsole and xopjsonutil: the theorems about the attributes of a span at concrete inputs.
use Prim.Native.String.{String}
use xm.Base.{
  ℕ, ◌≡◌, refl, Bool, true, false, Option, none, some, List, [], ◌∷◌, ◌++◌, Bytes, codes, Map,
  lookup,
}
use mathlib.Core.List.Permᴰ as Perm
use xm.JBuilder.{JBuilder, opens}
use xm.Metadata.{string_type}
use xm.Attributes.{MultiAttribute, AttributeBuilder}
use xm.Attributes.Values.{PlainEnd, is_comma}
use xm.Attributes.Sequence.{expected, SameElsewhere}
use xm.Attributes.Arguments.{Argument, string_argument}
use xm.Attributes.Console
use xm.Attributes.Console.{Request, ConsoleBuilder}
use xm.Attributes.Console.Builder.{Formats}
use xm.Attributes.Console.Methods as ConsoleMethods
use xm.Attributes.Console.Rendered as ConsoleRendered
use xm.Attributes.Console.Performed as ConsolePerformed
use xm.Attributes.Console.Refine as ConsoleRefine
use xm.Attributes.Console.Flushed as ConsoleFlushed
use xm.Attributes.Json
use xm.Attributes.Json.Builder as JsonBuilder
use xm.Attributes.Json.Methods as JsonMethods
use xm.Attributes.Json.Rendered as JsonRendered
use xm.Attributes.Json.Refine as JsonRefine
use xm.Attributes.Json.Performed as JsonPerformed
use xm.Attributes.Json.Flushed as JsonFlushed

-- Formats that stand in for strconv and time.
abbrev formats : Formats
formats = record {
  float64 = λ _. codes "0.5";
  time = λ _. codes "2022-09-01T10:00:00Z";
  duration = λ _. codes "1s";
  quote = λ s. b'"' ∷ (s ++ b'"' ∷ []);
  encoding = λ _. codes "JSON";
  encode = λ v. v;
}

abbrev no_failure : Bytes → Bool
no_failure _ = false

formats-Documented : ConsoleRendered.Documented formats
formats-Documented = record {
  float64_end = λ _. (codes "0.", b'5', refl, refl);
  duration_end = λ _. (codes "1", b's', refl, refl);
  quote_end = λ s. (b'"' ∷ s, b'"', refl, refl);
}

-- An attribute that keeps each value once.
abbrev colors : Console.Attribute
colors = record {
  key = codes "colors";
  console_key = codes "colors=";
  definition = codes "{}";
  multiple = true;
  distinct = true;
  locked = false;
  is_duration = false;
}

abbrev color : String → Argument
color s = string_argument (codes s)

abbrev fresh : ConsoleBuilder
fresh = record {
  attributes = record { single_map = []; multi_map = []; any_changed = false };
  request = record { start_time = codes "2022-09-01T10:00:00Z"; out = []; errors = 0 };
}

-- Red is kept once.
twice_red :
    expected true true false (codes "\"red\"") (codes "\"blue\"" ∷ codes "\"red\"" ∷ [])
    ≡ codes "\"red\",\"blue\""
unfolding expected xm.Attributes.Sequence.kept_texts xm.Attributes.Values.joined
    xm.Attributes.Values.dedup xm.Base.is_member xm.Base.bytes_eq
twice_red = refl

perform_all-expected_example :
    (c : ConsoleBuilder) × (ConsoleMethods.perform_all formats no_failure colors
        (color "red" ∷ color "blue" ∷ color "red" ∷ [])
        fresh
      ≡ some c)
    × (ConsoleRefine.text_of colors c
        ≡ some (
            codes "colors="
            ++ expected true true false
                (ConsoleRendered.rendered formats colors (color "red")).1
                (ConsolePerformed.rendered_texts formats colors (color "blue" ∷ color "red" ∷ []))))
    × SameElsewhere (codes "colors") fresh.attributes c.attributes
    × (c.request ≡ Console.define_key no_failure colors fresh.request)
perform_all-expected_example =
    ConsolePerformed.perform_all-expected formats no_failure colors (color "red")
      (color "blue" ∷ color "red" ∷ []) fresh formats-Documented (unfold lookup in refl)
      (unfold lookup in refl)

-- After one call.
abbrev red_entry : MultiAttribute
red_entry = record {
  changed = true;
  data_type = some string_type;
  distinct = some (codes "\"red\"" ∷ []);
  builder = record { b = codes "colors=\"red\""; fast_keys = false };
}

abbrev red_attributes : AttributeBuilder
red_attributes = record {
  single_map = [];
  multi_map = (codes "colors", red_entry) ∷ [];
  any_changed = true;
}

abbrev after_red : ConsoleBuilder
after_red = record {
  attributes = red_attributes;
  request = record fresh.request {
    out = (codes "xop Def 2022-09-01T10:00:00Z {}" ++ 10 ∷ []) ∷ [];
  };
}

abbrev empty_line : JBuilder
empty_line = record { b = []; fast_keys = false }

-- The same attribute in JSON.
abbrev json_formats : JsonBuilder.Formats
json_formats = record {
  float64 = λ _. codes "0.5";
  time = λ _. codes "2022-09-01T10:00:00Z";
  encoding = λ _. codes "JSON";
  encode = λ v. v;
}

json_formats-Documented : JsonRendered.Documented json_formats
json_formats-Documented = record {
  float64_end = λ _. (codes "0.", b'5', refl, unfold opens in refl);
}

abbrev json_colors : Json.Attribute
json_colors = record {
  key = codes "colors";
  json_key = codes "\"colors\":";
  multiple = true;
  distinct = true;
  locked = false;
}

abbrev no_attributes : AttributeBuilder
no_attributes = record { single_map = []; multi_map = []; any_changed = false }

perform_all-expected_json_example :
    (a : AttributeBuilder) × (JsonMethods.perform_all json_formats json_colors
        (color "red" ∷ color "blue" ∷ color "red" ∷ [])
        no_attributes
      ≡ some a)
    × (JsonRefine.text_of json_colors a
        ≡ some (
            codes "\"colors\":["
            ++ expected true true false (JsonRendered.rendered json_formats (color "red")).1 (
                JsonPerformed.rendered_texts json_formats json_colors
                  (color "blue" ∷ color "red" ∷ []))))
    × SameElsewhere (codes "colors") no_attributes a
perform_all-expected_json_example =
    JsonPerformed.perform_all-expected_json json_formats json_colors (color "red")
      (color "blue" ∷ color "red" ∷ []) no_attributes json_formats-Documented
      (unfold lookup in refl) (unfold lookup in refl)

-- After one call.
abbrev json_red : AttributeBuilder
json_red = record {
  single_map = [];
  multi_map =
      (
        codes "colors",
        record {
          changed = true;
          data_type = some string_type;
          distinct = some (codes "\"red\"" ∷ []);
          builder = record { b = codes "\"colors\":[\"red\""; fast_keys = false };
        },
      )
      ∷ [];
  any_changed = true;
}

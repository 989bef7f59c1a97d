-- ===== src/Attributes/Console/Performed.antt =====
-- The eight methods of xopconsole's builder against the documentation of attributes.
use xm.Base.{
  ◌≡◌, refl, ap, sym, ◌∙◌, Bool, Option, none, some, List, [], ◌∷◌, ◌++◌, Bytes, ◌>>=◌, lookup, All,
  map,
}
use mathlib.Core.Path.{fun_ext}
use xm.Attributes.Values.{PlainEnd, is_comma}
use xm.Attributes.Sequence.{Call, run_all, texts, expected, SameElsewhere}
use xm.Attributes.Console.{Attribute, ConsoleBuilder, define_key, metadata}
use xm.Attributes.Console.Builder.{Formats}
use xm.Attributes.Arguments.{
  Argument, any_argument, bool_argument, enum_argument, float64_argument, int64_argument,
  link_argument, string_argument, time_argument,
}
use xm.Attributes.Console.Methods.{
  metadata_any, metadata_bool, metadata_enum, metadata_float64, metadata_int64, metadata_link,
  metadata_string, metadata_time, perform, perform_all,
}
use xm.Attributes.Console.Rendered.{
  Documented, rendered, add_argument, add_argument-Appends, rendered-PlainEnd,
}
use xm.Attributes.Console.Refine.{text_of, add_text, console-expected}

pub perform-metadata :
    (f : Formats) (fails : Bytes → Bool) (k : Attribute) (v : Argument)
    → perform f fails k v ≡ metadata fails k (rendered f k v).0 (add_argument f k v)
unfolding perform rendered add_argument metadata_any metadata_bool metadata_enum metadata_float64
    metadata_int64 metadata_link metadata_string metadata_time
perform-metadata f fails k (any_argument v) = refl
perform-metadata f fails k (bool_argument v) = refl
perform-metadata f fails k (enum_argument v) = refl
perform-metadata f fails k (float64_argument v) = refl
perform-metadata f fails k (int64_argument v) = refl
perform-metadata f fails k (link_argument v) = refl
perform-metadata f fails k (string_argument v) = refl
perform-metadata f fails k (time_argument v) = refl

perform-add_text :
    (f : Formats) (fails : Bytes → Bool) (k : Attribute) (v : Argument)
    → perform f fails k v ≡ add_text fails k (rendered f k v).0 (rendered f k v).1
perform-add_text f fails k v =
    perform-metadata f fails k v
    ∙ ap (metadata fails k (rendered f k v).0) (fun_ext (add_argument-Appends f k v))

-- The texts of the arguments, in order.
abbrev pub rendered_texts : Formats → Attribute → List Argument → List Bytes
rendered_texts f k = map λ v. (rendered f k v).1

abbrev calls : Formats → Attribute → List Argument → List Call
calls f k = map (rendered f k)

texts-calls :
    (f : Formats) (k : Attribute) (vs : List Argument)
    → texts (calls f k vs) ≡ rendered_texts f k vs
unfolding texts
texts-calls f k [] = refl
texts-calls f k (v ∷ vs) = ap (◌∷◌ (rendered f k v).1) (texts-calls f k vs)

perform_all-run_all :
    (f : Formats) (fails : Bytes → Bool) (k : Attribute) (vs : List Argument) (c : ConsoleBuilder)
    → perform_all f fails k vs c ≡ run_all (add_text fails k) (calls f k vs) c
unfolding perform_all run_all
perform_all-run_all f fails k [] c = refl
perform_all-run_all f fails k (v ∷ vs) c =
    ap (λ (g : ConsoleBuilder → Option ConsoleBuilder). g c >>= perform_all f fails k vs)
      (perform-add_text f fails k v)
    ∙ ap
        (λ (g : ConsoleBuilder → Option ConsoleBuilder).
          add_text fails k (rendered f k v).0 (rendered f k v).1 c >>= g)
        (fun_ext (perform_all-run_all f fails k vs))

plain_texts :
    (f : Formats)
    → Documented f
    → (k : Attribute) (vs : List Argument) → All (PlainEnd is_comma) (texts (calls f k vs))
unfolding texts
plain_texts f h k [] = tt
plain_texts f h k (v ∷ vs) = (rendered-PlainEnd f h k v, plain_texts f h k vs)

-- Any sequence of calls of the eight methods of xopconsole's builder with one attribute that has no entry
-- yet, where strconv and time write no text that is empty or ends in a comma, does not panic. It leaves
-- under the key the attribute's key and the texts of the values that the documentation of attributes
-- promises: all of them, or each once, joined by commas, or the first, or the last. With MetadataAny the
-- flag Distinct keeps equal texts once as it does with the other methods, where the documentation only
-- says that it is not supported. The line that defines the key is written exactly once, and the entries
-- of other keys stay.
pub perform_all-expected :
    (f : Formats) (fails : Bytes → Bool) (k : Attribute) (v : Argument) (vs : List Argument)
    (c : ConsoleBuilder)
    → Documented f
    → lookup k.key c.attributes.multi_map ≡ none
    → lookup k.key c.attributes.single_map ≡ none
    → (c' : ConsoleBuilder) × (perform_all f fails k (v ∷ vs) c ≡ some c')
      × (text_of k c'
          ≡ some (
              k.console_key
              ++ expected k.multiple k.distinct k.locked
                  (rendered f k v).1
                  (rendered_texts f k vs)))
      × SameElsewhere k.key c.attributes c'.attributes
      × (c'.request ≡ define_key fails k c.request)
perform_all-expected f fails k v vs c h em es =
    let (dt, r) = rendered f k v in
    let (c', q, t, same, req) =
      console-expected fails k dt r (calls f k vs) c em es
        (rendered-PlainEnd f h k v, plain_texts f h k vs) in
    (c', perform_all-run_all f fails k (v ∷ vs) c ∙ q, rw (sym (texts-calls f k vs)) t, same, req)

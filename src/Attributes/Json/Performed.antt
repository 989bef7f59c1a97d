-- ===== src/Attributes/Json/Performed.antt =====
-- The eight methods of xopjsonutil's builder against the documentation of attributes.
use xm.Base.{
  ◌≡◌, refl, ap, sym, ◌∙◌, Option, none, some, List, [], ◌∷◌, ◌++◌, Bytes, ◌>>=◌, lookup, All, map,
}
use mathlib.Core.Path.{fun_ext}
use xm.JBuilder.{opens}
use xm.Attributes.Values.{PlainEnd}
use xm.Attributes.Sequence.{Call, run_all, texts, expected, SameElsewhere}
use xm.Attributes.{AttributeBuilder}
use xm.Attributes.Json.{Attribute, metadata}
use xm.Attributes.Json.Builder.{Formats}
use xm.Attributes.Arguments.{
  Argument, any_argument, bool_argument, enum_argument, float64_argument, int64_argument,
  link_argument, string_argument, time_argument,
}
use xm.Attributes.Json.Methods.{
  metadata_any, metadata_bool, metadata_enum, metadata_float64, metadata_int64, metadata_link,
  metadata_string, metadata_time, perform, perform_all,
}
use xm.Attributes.Json.Rendered.{
  Documented, rendered, add_argument, add_argument-Appends, rendered-PlainEnd,
}
use xm.Attributes.Json.Refine.{text_of, prefix_of, add_text, json-expected}

pub perform-metadata :
    (f : Formats) (k : Attribute) (v : Argument)
    → perform f k v ≡ metadata k (rendered f v).0 (add_argument f v)
unfolding perform rendered add_argument metadata_any metadata_bool metadata_enum metadata_float64
    metadata_int64 metadata_link metadata_string metadata_time
perform-metadata f k (any_argument v) = refl
perform-metadata f k (bool_argument v) = refl
perform-metadata f k (enum_argument v) = refl
perform-metadata f k (float64_argument v) = refl
perform-metadata f k (int64_argument v) = refl
perform-metadata f k (link_argument v) = refl
perform-metadata f k (string_argument v) = refl
perform-metadata f k (time_argument v) = refl

perform-add_text :
    (f : Formats) (k : Attribute) (v : Argument)
    → perform f k v ≡ add_text k (rendered f v).0 (rendered f v).1
perform-add_text f k v =
    perform-metadata f k v ∙ ap (metadata k (rendered f v).0) (fun_ext (add_argument-Appends f v))

-- The texts of the arguments, in order.
abbrev pub rendered_texts : Formats → Attribute → List Argument → List Bytes
rendered_texts f k = map λ v. (rendered f v).1

abbrev calls : Formats → Attribute → List Argument → List Call
calls f k = map (rendered f)

texts-calls :
    (f : Formats) (k : Attribute) (vs : List Argument)
    → texts (calls f k vs) ≡ rendered_texts f k vs
unfolding texts
texts-calls f k [] = refl
texts-calls f k (v ∷ vs) = ap (◌∷◌ (rendered f v).1) (texts-calls f k vs)

perform_all-run_all :
    (f : Formats) (k : Attribute) (vs : List Argument) (c : AttributeBuilder)
    → perform_all f k vs c ≡ run_all (add_text k) (calls f k vs) c
unfolding perform_all run_all
perform_all-run_all f k [] c = refl
perform_all-run_all f k (v ∷ vs) c =
    ap (λ (g : AttributeBuilder → Option AttributeBuilder). g c >>= perform_all f k vs)
      (perform-add_text f k v)
    ∙ ap
        (λ (g : AttributeBuilder → Option AttributeBuilder).
          add_text k (rendered f v).0 (rendered f v).1 c >>= g)
        (fun_ext (perform_all-run_all f k vs))

plain_texts :
    (f : Formats)
    → Documented f
    → (k : Attribute) (vs : List Argument) → All (PlainEnd opens) (texts (calls f k vs))
unfolding texts
plain_texts f h k [] = tt
plain_texts f h k (v ∷ vs) = (rendered-PlainEnd f h v, plain_texts f h k vs)

-- Any sequence of calls of the eight methods of xopjsonutil's builder with one attribute that has no entry
-- yet, where strconv writes no float that is empty or ends in a bracket or colon that opens, does not
-- panic. It leaves under the key the attribute's key, with a bracket where there are several values, and
-- the texts of the values that the documentation of attributes promises: all of them, or each once, joined
-- by commas, or the first, or the last. With MetadataAny the flag Distinct keeps equal texts once as it does
-- with the other methods, where the documentation only says that it is not supported. The entries of
-- other keys stay.
pub perform_all-expected_json :
    (f : Formats) (k : Attribute) (v : Argument) (vs : List Argument) (c : AttributeBuilder)
    → Documented f
    → lookup k.key c.multi_map ≡ none
    → lookup k.key c.single_map ≡ none
    → (c' : AttributeBuilder) × (perform_all f k (v ∷ vs) c ≡ some c')
      × (text_of k c'
          ≡ some (
              prefix_of k
              ++ expected k.multiple k.distinct k.locked (rendered f v).1 (rendered_texts f k vs)))
      × SameElsewhere k.key c c'
perform_all-expected_json f k v vs c h em es =
    let (dt, r) = rendered f v in
    let (c', q, t, same) =
      json-expected k dt r (calls f k vs) c em es (rendered-PlainEnd f h v, plain_texts f h k vs) in
    (c', perform_all-run_all f k (v ∷ vs) c ∙ q, rw (sym (texts-calls f k vs)) t, same)

-- ===== src/Attributes/Json/Adds.antt =====
-- One more value of an attribute with several values, in xopjsonutil.
use xm.Base.{
  ◌≡◌, refl, ap, ◌∙◌, some, [], ◌∷◌, ◌++◌, Bytes, length, take, drop, is_member, take-append_left,
  drop-append_left, Bool-cases, inl, inr,
}
use xm.JBuilder.{JBuilder, append_bytes, comma, opens}
use xm.Metadata.{DataType}
use xm.Attributes.{MultiAttribute, drop_comma}
use xm.Attributes.Values.{
  joined, one_more, PlainEnd, append-PlainEnd, Adds, text_more, drop_comma_comma, comma_plain,
  keep_distinct_new, keep_distinct_old,
}
use xm.Attributes.Json.{Attribute, multi_value}

-- What stands in front of the values.
abbrev pub opening : Attribute → Bytes
opening k = k.json_key ++ b'[' ∷ []

-- The buffer behind the comma of addMulti.
abbrev with_comma : MultiAttribute → MultiAttribute
with_comma m = record m { builder = append_bytes (b',' ∷ []) m.builder }

abbrev appended : DataType → Bytes → MultiAttribute → MultiAttribute
appended dt s m = record m {
  data_type = some dt;
  builder = record m.builder { b = (m.builder.b ++ b',' ∷ []) ++ s };
}

after_comma-Adds :
    (k : Attribute)
    → Adds opens (opening k) k.distinct (λ dt s m. multi_value k dt (append_bytes s) (with_comma m))
unfolding multi_value append_bytes one_more
after_comma-Adds k dt r s rs m p h = elim (Bool-cases k.distinct) [
  | inr n ↦ (m', simp n refl, simp n (record { text = text'; seen = λ e. cc; plain = plain' }))
  | inl d ↦ elim (Bool-cases (is_member s (r ∷ rs))) [
    | inl old ↦ (
      record m { data_type = some dt; distinct = some (r ∷ rs) },
      simp d (keep_distinct_old _ _ m' (r ∷ rs) s m.builder.b (h.seen d) dropped old kept),
      simp (d, old) (record { text = h.text; seen = λ _. refl; plain = h.plain }),
    )
    | inr new ↦ (
      record m' { distinct = some (r ∷ (rs ++ s ∷ [])) },
      simp d (keep_distinct_new _ _ m' (r ∷ rs) s (h.seen d) dropped new),
      simp (d, new) (record { text = text'; seen = λ _. refl; plain = plain' }),
    )
  ]
]
  where
    m' : MultiAttribute
    m' = appended dt s m

    text' : m'.builder.b ≡ opening k ++ (r ++ joined (rs ++ s ∷ []))
    text' = text_more (opening k) r s rs m.builder.b h.text

    plain' : PlainEnd opens m'.builder.b
    plain' = append-PlainEnd opens (m.builder.b ++ b',' ∷ []) s p

    dropped : drop (length (m.builder.b ++ b',' ∷ [])) m'.builder.b ≡ s
    dropped = drop-append_left _ (m.builder.b ++ b',' ∷ []) s refl

    kept : drop_comma (take (length (m.builder.b ++ b',' ∷ [])) m'.builder.b) ≡ some m.builder.b
    kept =
        ap drop_comma (take-append_left _ (m.builder.b ++ b',' ∷ []) s refl)
        ∙ drop_comma_comma m.builder.b

pub multi_value-Adds :
    (k : Attribute)
    → Adds opens
        (opening k)
        k.distinct
        (λ dt s m. multi_value k dt (append_bytes s) (record m { builder = comma m.builder }))
multi_value-Adds k dt r s rs m p h =
    let (m', q, h') = after_comma-Adds k dt r s rs m p h in
    (
      m',
      ap (λ (j : JBuilder). multi_value k dt (append_bytes s) (record m { builder = j }))
            (comma_plain m.builder h.plain)
          ∙ q,
      h',
    )

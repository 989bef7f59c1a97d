-- ===== src/Attributes/Console/Adds.antt =====
-- One more value of an attribute with several values, in xopconsole.
use xm.Base.{
  ◌≡◌, refl, ap, ◌∙◌, true, some, [], ◌∷◌, ◌++◌, Bytes, length, take, drop, is_member, append_assoc,
  take-append_left, drop-append_left, Bool-cases, inl, inr,
}
use xm.JBuilder.{append_bytes}
use xm.Metadata.{DataType}
use xm.Attributes.{MultiAttribute, drop_comma}
use xm.Attributes.Values.{
  joined, one_more, PlainEnd, is_comma, append-PlainEnd, Adds, text_more, drop_comma_plain,
  keep_distinct_new, keep_distinct_old,
}
use xm.Attributes.Console.{Attribute, multi_value}

-- A value behind those that stand, before the test for values seen before.
abbrev appended : DataType → Bytes → MultiAttribute → MultiAttribute
appended dt s m = record m {
  data_type = some dt;
  builder = record m.builder { b = (m.builder.b ++ b',' ∷ []) ++ s };
}

pub multi_value-Adds :
    (k : Attribute)
    → Adds is_comma k.console_key k.distinct (λ dt s m. multi_value k dt (append_bytes s) true m)
unfolding multi_value append_bytes one_more
multi_value-Adds k dt r s rs m p h = elim (Bool-cases k.distinct) [
  | inr n ↦ (m', simp n refl, simp n (record { text = text'; seen = λ e. cc; plain = plain' }))
  | inl d ↦ elim (Bool-cases (is_member s (r ∷ rs))) [
    | inl old ↦ (
      record m { data_type = some dt; distinct = some (r ∷ rs) },
      simp d (keep_distinct_old _ _ m' (r ∷ rs) s m.builder.b (h.seen d) dropped old kept),
      simp (d, old) (record { text = h.text; seen = λ _. refl; plain = h.plain }),
    )
    | inr new ↦ (
      record m' { distinct = some (r ∷ (rs ++ s ∷ [])) },
      simp d (keep_distinct_new _ _ m' (r ∷ rs) s (h.seen d) dropped new),
      simp (d, new) (record { text = text'; seen = λ _. refl; plain = plain' }),
    )
  ]
]
  where
    m' : MultiAttribute
    m' = appended dt s m

    text' : m'.builder.b ≡ k.console_key ++ (r ++ joined (rs ++ s ∷ []))
    text' = text_more k.console_key r s rs m.builder.b h.text

    plain' : PlainEnd is_comma m'.builder.b
    plain' = append-PlainEnd is_comma (m.builder.b ++ b',' ∷ []) s p

    dropped : drop (length (m.builder.b ++ b',' ∷ [])) m'.builder.b ≡ s
    dropped = drop-append_left _ (m.builder.b ++ b',' ∷ []) s refl

    kept : drop_comma (take (length m.builder.b) m'.builder.b) ≡ some m.builder.b
    kept =
        ap (λ (x : Bytes). drop_comma (take (length m.builder.b) x))
          (append_assoc m.builder.b (b',' ∷ []) s)
        ∙ ap drop_comma (take-append_left _ m.builder.b (b',' ∷ s) refl)
        ∙ drop_comma_plain m.builder.b h.plain

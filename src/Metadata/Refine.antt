-- ===== src/Metadata/Refine.antt =====
-- The methods of SpanMetadata implement the expected values, key by key.
use xm.Base.{
  ◌≡◌, refl, ap, ◌∙◌, false, none, some, List, [], ◌∷◌, Bytes, bytes_eq, ◌>>=◌, >>=-eq-some,
}
use xm.Metadata.{
  Attribute, Datum, MetadataTracker, SpanMetadata, load, store, first_tracker, next_tracker,
  record_value, get_value,
}
use xm.Metadata.Store.{load-store_self, load-store_ne}
use xm.Metadata.Spec.{record_all, expected, OfKind, next_all, first-expected}

record_value_first :
    (a : Attribute) (d : Datum) (m : SpanMetadata)
    → load a.key m ≡ none
    → record_value a d m ≡ some (store a.key (first_tracker a d) m)
unfolding record_value
record_value_first a d m e = rw (e, record_value)

record_value_next :
    (a : Attribute) (d : Datum) (m : SpanMetadata) (t u : MetadataTracker)
    → load a.key m ≡ some t
    → next_tracker d t ≡ some u
    → record_value a d m ≡ some (store a.key u m)
unfolding record_value
record_value_next a d m t u e h = rw (e, record_value, h)

-- The other keys keep their trackers.
abbrev SameElsewhere : Bytes → SpanMetadata → SpanMetadata → Type 0
SameElsewhere k m m' = (j : Bytes) → bytes_eq k j ≡ false → load j m' ≡ load j m

record_all_next :
    (a : Attribute) (ds : List Datum) (m : SpanMetadata) (t u : MetadataTracker)
    → load a.key m ≡ some t
    → next_all ds t ≡ some u
    → (m' : SpanMetadata) × (record_all a ds m ≡ some m')
      × (load a.key m' ≡ some u)
      × SameElsewhere a.key m m'
unfolding record_all next_all
record_all_next a [] m t u e h = (m, refl, e ∙ h, λ j n. refl)
record_all_next a (d ∷ ds) m t u e h =
    let (t', h1, h2) = >>=-eq-some (next_tracker d t) (next_all ds) h in
    let m1 = store a.key t' m in
    let (m', r, l, s) = record_all_next a ds m1 t' u (load-store_self a.key t' m) h2 in
    (
      m',
      rw (record_value_next a d m t t' e h1, ◌>>=◌) r,
      l,
      λ j n. s j n ∙ load-store_ne a.key j t' m n,
    )

-- A sequence of calls of one method with one attribute, on a span that has nothing under its key, does
-- not panic, leaves under the key the value that the attribute's documentation promises, and changes
-- nothing under other keys. With MetadataAny the flag Distinct keeps equal values once as it does with the
-- other methods, where the documentation only says that it is not supported.
pub record_all-expected :
    (a : Attribute) (d : Datum) (ds : List Datum) (m : SpanMetadata)
    → load a.key m ≡ none
    → OfKind d.kind ds
    → (m' : SpanMetadata) × (record_all a (d ∷ ds) m ≡ some m')
      × (get_value a.key m' ≡ some (expected a d ds))
      × ((j : Bytes) → bytes_eq a.key j ≡ false → load j m' ≡ load j m)
unfolding get_value record_all
record_all-expected a d ds m e h =
    let t = first_tracker a d in
    let (u, r, v) = first-expected a d ds h in
    let (m', r', l, s) = record_all_next a ds (store a.key t m) t u (load-store_self a.key t m) r in
    (
      m',
      rw (record_value_first a d m e, ◌>>=◌) r',
      rw (l, ◌>>=◌) (ap some v),
      λ j n. s j n ∙ load-store_ne a.key j t m n,
    )

-- ===== src/Attributes/Json/Refine.antt =====
-- The methods of xopjsonutil's builder write what the documentation of attributes says, key by key.
use xm.Base.{
  ◌≡◌, refl, ap, sym, ◌∙◌, true, false, Option, none, some, List, [], ◌∷◌, ◌++◌, Bytes, length,
  if◌then◌else◌, ◌>>=◌, lookup, insert, lookup-insert_self, append-nil, drop-append_left, All,
  Bool-cases, inl, inr,
}
use xm.JBuilder.{append_bytes, comma, opens}
use xm.Metadata.{DataType}
use xm.Attributes.{
  SingleAttribute, MultiAttribute, AttributeBuilder, add_multi, add_single, single_value,
}
use xm.Attributes.Values.{joined, PlainEnd, last_of, append-PlainEnd, Holds, keep_distinct_first}
use xm.Attributes.Sequence.{
  Call, run_all, run_all-next, texts, last_text, kept_texts, expected, Adds-run_all,
  single_value_first, next_single, single-run_all, SameElsewhere, same_refl, same_trans, same_multi,
  same_single,
}
use xm.Attributes.Json.{Attribute, add_multi_json, multi_value, metadata}
use xm.Attributes.Json.Adds.{opening, multi_value-Adds}

-- The text under the attribute's key; Append writes the closing bracket.
unfoldable pub text_of : Attribute → AttributeBuilder → Option Bytes
text_of k c =
    if k.multiple
    then lookup k.key c.multi_map >>= (λ m. some m.builder.b)
    else lookup k.key c.single_map >>= (λ s. some s.key_value)

abbrev pub prefix_of : Attribute → Bytes
prefix_of k = if k.multiple then opening k else k.json_key

abbrev pub add_text : Attribute → DataType → Bytes → AttributeBuilder → Option AttributeBuilder
add_text k dt r = metadata k dt (append_bytes r)

abbrev put_multi : Bytes → MultiAttribute → AttributeBuilder → AttributeBuilder
put_multi key m c = record c { any_changed = true; multi_map = insert key m c.multi_map }

abbrev put_single : Bytes → SingleAttribute → AttributeBuilder → AttributeBuilder
put_single key s c = record c { any_changed = true; single_map = insert key s c.single_map }

abbrev next_multi : Attribute → DataType → Bytes → MultiAttribute → Option MultiAttribute
next_multi k dt r m =
    multi_value k dt (append_bytes r) (record m { changed = true; builder = comma m.builder })

abbrev fresh_multi : Attribute → MultiAttribute
fresh_multi k = record {
  changed = true;
  data_type = none;
  distinct = none;
  builder = record { b = opening k; fast_keys = false };
}

-- The bracket stands in for the comma.
comma_opening :
    (b : Bytes)
    → comma (record { b = b ++ b'[' ∷ []; fast_keys = false })
      ≡ record { b = b ++ b'[' ∷ []; fast_keys = false }
unfolding comma
comma_opening b = rw (last_of b b'[', comma) refl

-- The first call with a key.
first_multi :
    (k : Attribute) (dt : DataType) (r : Bytes) (c : AttributeBuilder) (m : MultiAttribute)
    → k.multiple ≡ true
    → lookup k.key c.multi_map ≡ none
    → multi_value k dt (append_bytes r) (fresh_multi k) ≡ some m
    → add_text k dt r c ≡ some (put_multi k.key m c)
unfolding metadata add_multi_json add_multi
first_multi k dt r c m h e q =
    rw (h, metadata, e, add_multi_json, add_multi, comma_opening k.json_key, q) refl

first_single :
    (k : Attribute) (dt : DataType) (r : Bytes) (c : AttributeBuilder)
    → k.multiple ≡ false
    → lookup k.key c.single_map ≡ none
    → (s : SingleAttribute) × (s.key_value ≡ k.json_key)
      × (add_text k dt r c
          ≡ some (put_single k.key (single_value k.locked dt (append_bytes r) false s) c))
unfolding metadata add_single
first_single k dt r c h e = (
  record { changed = true; data_type = none; key_value = k.json_key; key_len = 0 },
  refl,
  rw (h, metadata, e, add_single) refl,
)

-- Later calls change the entry and nothing else.
later_multi :
    (k : Attribute)
    → k.multiple ≡ true
    → (dt : DataType) (r : Bytes) (c : AttributeBuilder) (e e' : MultiAttribute)
    → lookup k.key c.multi_map ≡ some e
    → next_multi k dt r e ≡ some e'
    → (c' : AttributeBuilder) × (add_text k dt r c ≡ some c')
      × (lookup k.key c'.multi_map ≡ some e')
      × SameElsewhere k.key c c'
unfolding metadata add_multi_json add_multi
later_multi k h dt r c e e' g q = (
  put_multi k.key e' c,
  rw (h, metadata, g, add_multi_json, add_multi, q) refl,
  lookup-insert_self k.key e' c.multi_map,
  same_multi k.key e' c,
)

later_single :
    (k : Attribute)
    → k.multiple ≡ false
    → (dt : DataType) (r : Bytes) (c : AttributeBuilder) (e e' : SingleAttribute)
    → lookup k.key c.single_map ≡ some e
    → next_single k.locked dt r e ≡ some e'
    → (c' : AttributeBuilder) × (add_text k dt r c ≡ some c')
      × (lookup k.key c'.single_map ≡ some e')
      × SameElsewhere k.key c c'
unfolding metadata add_single
later_single k h dt r c e e' g q =
    let s = single_value k.locked dt (append_bytes r) true (record e { changed = true }) in
    (
      put_single k.key s c,
      rw (h, metadata, g, add_single) refl,
      lookup-insert_self k.key s c.single_map ∙ q,
      same_single k.key s c,
    )

multi_value_first :
    (k : Attribute) (dt : DataType) (r : Bytes)
    → PlainEnd opens r
    → (m : MultiAttribute) × (multi_value k dt (append_bytes r) (fresh_multi k) ≡ some m)
      × Holds opens (opening k) k.distinct r [] m
unfolding multi_value append_bytes joined
multi_value_first k dt r p = elim (Bool-cases k.distinct) [
  | inr n ↦ (m0, simp n refl, simp n (record { text = text'; seen = λ e. cc; plain = plain' }))
  | inl d ↦ (
    record m0 { distinct = some (r ∷ []) },
    simp d (
        keep_distinct_first (length (opening k)) _ m0 r refl
          (drop-append_left _ (opening k) r refl)),
    simp d (record { text = text'; seen = λ _. refl; plain = plain' }),
  )
]
  where
    m0 : MultiAttribute
    m0 = record (fresh_multi k) {
      data_type = some dt;
      builder = record { b = opening k ++ r; fast_keys = false };
    }

    text' : m0.builder.b ≡ opening k ++ (r ++ joined [])
    text' = ap (◌++◌ (opening k)) (sym (append-nil r))

    plain' : PlainEnd opens m0.builder.b
    plain' = append-PlainEnd opens (opening k) r p

text_of_multi :
    (k : Attribute) (c : AttributeBuilder) (m : MultiAttribute) (r : Bytes) (rs : List Bytes)
    → k.multiple ≡ true
    → lookup k.key c.multi_map ≡ some m
    → m.builder.b ≡ opening k ++ (r ++ joined (kept_texts k.distinct (r ∷ []) rs))
    → text_of k c ≡ some (prefix_of k ++ expected k.multiple k.distinct k.locked r rs)
unfolding text_of expected
text_of_multi k c m r rs mu g e = simp (mu, g, e) refl

text_of_single :
    (k : Attribute) (c : AttributeBuilder) (s : SingleAttribute) (r : Bytes) (rs : List Bytes)
    → k.multiple ≡ false
    → lookup k.key c.single_map ≡ some s
    → s.key_value ≡ k.json_key ++ (if k.locked then r else last_text r rs)
    → text_of k c ≡ some (prefix_of k ++ expected k.multiple k.distinct k.locked r rs)
unfolding text_of expected
text_of_single k c s r rs mu g e = simp (mu, g, e) refl

multi_expected :
    (k : Attribute) (dt : DataType) (r : Bytes) (cs : List Call) (c : AttributeBuilder)
    → k.multiple ≡ true
    → lookup k.key c.multi_map ≡ none
    → All (PlainEnd opens) (r ∷ texts cs)
    → (c' : AttributeBuilder) × (run_all (add_text k) ((dt, r) ∷ cs) c ≡ some c')
      × (text_of k c' ≡ some (prefix_of k ++ expected k.multiple k.distinct k.locked r (texts cs)))
      × SameElsewhere k.key c c'
unfolding run_all
multi_expected k dt r cs c mu e (p, ps) =
    let (m, q, h) = multi_value_first k dt r p in
    let (m', q', h') =
      Adds-run_all opens (opening k) k.distinct (next_multi k)
        (λ dt s t rs n pl g.
          multi_value-Adds k dt s t rs (record n { changed = true }) pl
            (record { text = g.text; seen = g.seen; plain = g.plain }))
        cs r [] m ps h in
    let c1 = put_multi k.key m c in
    let (c', q2, g2, same) =
      run_all-next (add_text k) (λ c. lookup k.key c.multi_map) (next_multi k) (SameElsewhere k.key)
        (same_refl k.key) (same_trans k.key) (later_multi k mu) cs c1 m m'
        (lookup-insert_self k.key m c.multi_map) q' in
    (
      c',
      rw (first_multi k dt r c m mu e q, ◌>>=◌) q2,
      text_of_multi k c' m' r (texts cs) mu g2 h'.text,
      same_trans k.key _ _ _ (same_multi k.key m c) same,
    )

single_expected :
    (k : Attribute) (dt : DataType) (r : Bytes) (cs : List Call) (c : AttributeBuilder)
    → k.multiple ≡ false
    → lookup k.key c.single_map ≡ none
    → (c' : AttributeBuilder) × (run_all (add_text k) ((dt, r) ∷ cs) c ≡ some c')
      × (text_of k c' ≡ some (prefix_of k ++ expected k.multiple k.distinct k.locked r (texts cs)))
      × SameElsewhere k.key c c'
unfolding run_all
single_expected k dt r cs c mu e =
    let (s0, ek, q) = first_single k dt r c mu e in
    let s = single_value k.locked dt (append_bytes r) false s0 in
    let h = single_value_first k.json_key k.locked dt r s0 ek in
    let (s', q', h') = single-run_all k.json_key k.locked cs r s h in
    let c1 = put_single k.key s c in
    let (c', q2, g2, same) =
      run_all-next (add_text k) (λ c. lookup k.key c.single_map) (next_single k.locked)
        (SameElsewhere k.key) (same_refl k.key) (same_trans k.key) (later_single k mu) cs c1 s s'
        (lookup-insert_self k.key s c.single_map) q' in
    (
      c',
      rw (q, ◌>>=◌) q2,
      text_of_single k c' s' r (texts cs) mu g2 h'.text,
      same_trans k.key _ _ _ (same_single k.key s c) same,
    )

pub json-expected :
    (k : Attribute) (dt : DataType) (r : Bytes) (cs : List Call) (c : AttributeBuilder)
    → lookup k.key c.multi_map ≡ none
    → lookup k.key c.single_map ≡ none
    → All (PlainEnd opens) (r ∷ texts cs)
    → (c' : AttributeBuilder) × (run_all (add_text k) ((dt, r) ∷ cs) c ≡ some c')
      × (text_of k c' ≡ some (prefix_of k ++ expected k.multiple k.distinct k.locked r (texts cs)))
      × SameElsewhere k.key c c'
json-expected k dt r cs c em es p = elim (Bool-cases k.multiple) [
  | inl mu ↦ multi_expected k dt r cs c mu em p
  | inr mu ↦ single_expected k dt r cs c mu es
]

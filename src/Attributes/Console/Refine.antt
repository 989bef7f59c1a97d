-- ===== src/Attributes/Console/Refine.antt =====
-- The methods of xopconsole's builder write what the documentation of attributes says, key by key.
use xm.Base.{
  ◌≡◌, refl, ap, sym, ◌∙◌, Bool, true, false, Option, none, some, List, [], ◌∷◌, ◌++◌, Bytes,
  length, if◌then◌else◌, ◌>>=◌, lookup, insert, lookup-insert_self, append-nil, drop-append_left,
  All, Bool-cases, inl, inr,
}
use xm.JBuilder.{append_bytes}
use xm.Metadata.{DataType}
use xm.Attributes.{SingleAttribute, MultiAttribute, add_multi, add_single, single_value}
use xm.Attributes.Values.{joined, PlainEnd, is_comma, append-PlainEnd, Holds, keep_distinct_first}
use xm.Attributes.Sequence.{
  Call, run_all, run_all-next, texts, last_text, kept_texts, expected, Adds-run_all,
  single_value_first, next_single, single-run_all, SameElsewhere, same_refl, same_trans, same_multi,
  same_single,
}
use xm.Attributes.Console.{Attribute, ConsoleBuilder, define_key, multi_value, metadata}
use xm.Attributes.Console.Adds.{multi_value-Adds}

-- The text under the attribute's key.
unfoldable pub text_of : Attribute → ConsoleBuilder → Option Bytes
text_of k c =
    if k.multiple
    then lookup k.key c.attributes.multi_map >>= (λ m. some m.builder.b)
    else lookup k.key c.attributes.single_map >>= (λ s. some s.key_value)

abbrev pub add_text :
    (Bytes → Bool) → Attribute → DataType → Bytes → ConsoleBuilder → Option ConsoleBuilder
add_text fails k dt r = metadata fails k dt (append_bytes r)

abbrev put_multi : Bytes → MultiAttribute → ConsoleBuilder → ConsoleBuilder
put_multi key m c = record c {
  attributes = record c.attributes {
    any_changed = true;
    multi_map = insert key m c.attributes.multi_map;
  };
}

abbrev put_single : Bytes → SingleAttribute → ConsoleBuilder → ConsoleBuilder
put_single key s c = record c {
  attributes = record c.attributes {
    any_changed = true;
    single_map = insert key s c.attributes.single_map;
  };
}

abbrev next_multi : Attribute → DataType → Bytes → MultiAttribute → Option MultiAttribute
next_multi k dt r m = multi_value k dt (append_bytes r) true (record m { changed = true })

abbrev fresh_multi : MultiAttribute
fresh_multi = record {
  changed = true;
  data_type = none;
  distinct = none;
  builder = record { b = []; fast_keys = false };
}

-- The first call with a key defines it.
first_multi :
    (fails : Bytes → Bool) (k : Attribute) (dt : DataType) (r : Bytes) (c : ConsoleBuilder)
    (m : MultiAttribute)
    → k.multiple ≡ true
    → lookup k.key c.attributes.multi_map ≡ none
    → multi_value k dt (append_bytes r) false fresh_multi ≡ some m
    → add_text fails k dt r c
      ≡ some (put_multi k.key m (record c { request = define_key fails k c.request }))
unfolding metadata add_multi
first_multi fails k dt r c m h e q = rw (h, metadata, e, add_multi, q) refl

first_single :
    (fails : Bytes → Bool) (k : Attribute) (dt : DataType) (r : Bytes) (c : ConsoleBuilder)
    → k.multiple ≡ false
    → lookup k.key c.attributes.single_map ≡ none
    → (s : SingleAttribute) × (s.key_value ≡ k.console_key)
      × (add_text fails k dt r c
          ≡ some (
              put_single k.key
                (single_value k.locked dt (append_bytes r) false s)
                (record c { request = define_key fails k c.request })))
unfolding metadata add_single
first_single fails k dt r c h e = (
  record { changed = true; data_type = none; key_value = k.console_key; key_len = 0 },
  refl,
  rw (h, metadata, e, add_single) refl,
)

-- Later calls change the entry and nothing else.
abbrev Same : Bytes → ConsoleBuilder → ConsoleBuilder → Type 0
Same key c d = SameElsewhere key c.attributes d.attributes × (d.request ≡ c.request)

later_multi :
    (fails : Bytes → Bool) (k : Attribute)
    → k.multiple ≡ true
    → (dt : DataType) (r : Bytes) (c : ConsoleBuilder) (e e' : MultiAttribute)
    → lookup k.key c.attributes.multi_map ≡ some e
    → next_multi k dt r e ≡ some e'
    → (c' : ConsoleBuilder) × (add_text fails k dt r c ≡ some c')
      × (lookup k.key c'.attributes.multi_map ≡ some e')
      × Same k.key c c'
unfolding metadata add_multi
later_multi fails k h dt r c e e' g q = (
  put_multi k.key e' c,
  rw (h, metadata, g, add_multi, q) refl,
  lookup-insert_self k.key e' c.attributes.multi_map,
  (same_multi k.key e' c.attributes, refl),
)

later_single :
    (fails : Bytes → Bool) (k : Attribute)
    → k.multiple ≡ false
    → (dt : DataType) (r : Bytes) (c : ConsoleBuilder) (e e' : SingleAttribute)
    → lookup k.key c.attributes.single_map ≡ some e
    → next_single k.locked dt r e ≡ some e'
    → (c' : ConsoleBuilder) × (add_text fails k dt r c ≡ some c')
      × (lookup k.key c'.attributes.single_map ≡ some e')
      × Same k.key c c'
unfolding metadata add_single
later_single fails k h dt r c e e' g q =
    let s = single_value k.locked dt (append_bytes r) true (record e { changed = true }) in
    (
      put_single k.key s c,
      rw (h, metadata, g, add_single) refl,
      lookup-insert_self k.key s c.attributes.single_map ∙ q,
      (same_single k.key s c.attributes, refl),
    )

Same-refl : (key : Bytes) (c : ConsoleBuilder) → Same key c c
Same-refl key c = (same_refl key c.attributes, refl)

Same-trans : (key : Bytes) (a b c : ConsoleBuilder) → Same key a b → Same key b c → Same key a c
Same-trans key a b c (h, e) (g, q) =
    (same_trans key a.attributes b.attributes c.attributes h g, q ∙ e)

multi_value_first :
    (k : Attribute) (dt : DataType) (r : Bytes)
    → PlainEnd is_comma r
    → (m : MultiAttribute) × (multi_value k dt (append_bytes r) false fresh_multi ≡ some m)
      × Holds is_comma k.console_key k.distinct r [] m
unfolding multi_value append_bytes joined
multi_value_first k dt r p = elim (Bool-cases k.distinct) [
  | inr n ↦ (m0, simp n refl, simp n (record { text = text'; seen = λ e. cc; plain = plain' }))
  | inl d ↦ (
    record m0 { distinct = some (r ∷ []) },
    simp d (
        keep_distinct_first (length k.console_key) _ m0 r refl
          (drop-append_left _ k.console_key r refl)),
    simp d (record { text = text'; seen = λ _. refl; plain = plain' }),
  )
]
  where
    m0 : MultiAttribute
    m0 = record fresh_multi {
      data_type = some dt;
      builder = record { b = k.console_key ++ r; fast_keys = false };
    }

    text' : m0.builder.b ≡ k.console_key ++ (r ++ joined [])
    text' = ap (◌++◌ k.console_key) (sym (append-nil r))

    plain' : PlainEnd is_comma m0.builder.b
    plain' = append-PlainEnd is_comma k.console_key r p

text_of_multi :
    (k : Attribute) (c : ConsoleBuilder) (m : MultiAttribute) (r : Bytes) (rs : List Bytes)
    → k.multiple ≡ true
    → lookup k.key c.attributes.multi_map ≡ some m
    → m.builder.b ≡ k.console_key ++ (r ++ joined (kept_texts k.distinct (r ∷ []) rs))
    → text_of k c ≡ some (k.console_key ++ expected k.multiple k.distinct k.locked r rs)
unfolding text_of expected
text_of_multi k c m r rs mu g e = simp (mu, g, e) refl

text_of_single :
    (k : Attribute) (c : ConsoleBuilder) (s : SingleAttribute) (r : Bytes) (rs : List Bytes)
    → k.multiple ≡ false
    → lookup k.key c.attributes.single_map ≡ some s
    → s.key_value ≡ k.console_key ++ (if k.locked then r else last_text r rs)
    → text_of k c ≡ some (k.console_key ++ expected k.multiple k.distinct k.locked r rs)
unfolding text_of expected
text_of_single k c s r rs mu g e = simp (mu, g, e) refl

multi_expected :
    (fails : Bytes → Bool) (k : Attribute) (dt : DataType) (r : Bytes) (cs : List Call)
    (c : ConsoleBuilder)
    → k.multiple ≡ true
    → lookup k.key c.attributes.multi_map ≡ none
    → All (PlainEnd is_comma) (r ∷ texts cs)
    → (c' : ConsoleBuilder) × (run_all (add_text fails k) ((dt, r) ∷ cs) c ≡ some c')
      × (text_of k c'
          ≡ some (k.console_key ++ expected k.multiple k.distinct k.locked r (texts cs)))
      × SameElsewhere k.key c.attributes c'.attributes
      × (c'.request ≡ define_key fails k c.request)
unfolding run_all
multi_expected fails k dt r cs c mu e (p, ps) =
    let (m, q, h) = multi_value_first k dt r p in
    let (m', q', h') =
      Adds-run_all is_comma k.console_key k.distinct (next_multi k)
        (λ dt s t rs n pl g.
          multi_value-Adds k dt s t rs (record n { changed = true }) pl
            (record { text = g.text; seen = g.seen; plain = g.plain }))
        cs r [] m ps h in
    let c1 = put_multi k.key m (record c { request = define_key fails k c.request }) in
    let (c', q2, g2, (same, req)) =
      run_all-next (add_text fails k) (λ c. lookup k.key c.attributes.multi_map) (next_multi k)
        (Same k.key) (Same-refl k.key) (Same-trans k.key) (later_multi fails k mu) cs c1 m m'
        (lookup-insert_self k.key m c.attributes.multi_map) q' in
    (
      c',
      rw (first_multi fails k dt r c m mu e q, ◌>>=◌) q2,
      text_of_multi k c' m' r (texts cs) mu g2 h'.text,
      same_trans k.key _ _ _ (same_multi k.key m c.attributes) same,
      req,
    )

single_expected :
    (fails : Bytes → Bool) (k : Attribute) (dt : DataType) (r : Bytes) (cs : List Call)
    (c : ConsoleBuilder)
    → k.multiple ≡ false
    → lookup k.key c.attributes.single_map ≡ none
    → (c' : ConsoleBuilder) × (run_all (add_text fails k) ((dt, r) ∷ cs) c ≡ some c')
      × (text_of k c'
          ≡ some (k.console_key ++ expected k.multiple k.distinct k.locked r (texts cs)))
      × SameElsewhere k.key c.attributes c'.attributes
      × (c'.request ≡ define_key fails k c.request)
unfolding run_all
single_expected fails k dt r cs c mu e =
    let (s0, ek, q) = first_single fails k dt r c mu e in
    let s = single_value k.locked dt (append_bytes r) false s0 in
    let h = single_value_first k.console_key k.locked dt r s0 ek in
    let (s', q', h') = single-run_all k.console_key k.locked cs r s h in
    let c1 = put_single k.key s (record c { request = define_key fails k c.request }) in
    let (c', q2, g2, (same, req)) =
      run_all-next (add_text fails k) (λ c. lookup k.key c.attributes.single_map)
        (next_single k.locked) (Same k.key) (Same-refl k.key) (Same-trans k.key)
        (later_single fails k mu) cs c1 s s' (lookup-insert_self k.key s c.attributes.single_map)
        q' in
    (
      c',
      rw (q, ◌>>=◌) q2,
      text_of_single k c' s' r (texts cs) mu g2 h'.text,
      same_trans k.key _ _ _ (same_single k.key s c.attributes) same,
      req,
    )

-- A sequence of calls of the methods of xopconsole's builder with one attribute that has no entry yet,
-- each with a text that is not empty and does not end in a comma, does not panic. It leaves under the key the
-- attribute's key and the values that the documentation of attributes promises: all, or each once, joined
-- by commas, or the first, or the last. The line that defines the key is written exactly once, and the
-- entries of other keys stay.
pub console-expected :
    (fails : Bytes → Bool) (k : Attribute) (dt : DataType) (r : Bytes) (cs : List Call)
    (c : ConsoleBuilder)
    → lookup k.key c.attributes.multi_map ≡ none
    → lookup k.key c.attributes.single_map ≡ none
    → All (PlainEnd is_comma) (r ∷ texts cs)
    → (c' : ConsoleBuilder) × (run_all (add_text fails k) ((dt, r) ∷ cs) c ≡ some c')
      × (text_of k c'
          ≡ some (k.console_key ++ expected k.multiple k.distinct k.locked r (texts cs)))
      × SameElsewhere k.key c.attributes c'.attributes
      × (c'.request ≡ define_key fails k c.request)
console-expected fails k dt r cs c em es p = elim (Bool-cases k.multiple) [
  | inl mu ↦ multi_expected fails k dt r cs c mu em p
  | inr mu ↦ single_expected fails k dt r cs c mu es
]

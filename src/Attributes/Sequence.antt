-- ===== src/Attributes/Sequence.antt =====
-- Sequences of calls with one attribute: from what one call does to an entry to what all do.
use xm.Base.{
  ℕ, ◌≡◌, refl, ap, sym, ◌∙◌, subst, Bool, true, false, Option, none, some, List, [], ◌∷◌, ◌++◌,
  Bytes, length, take, if◌then◌else◌, ◌>>=◌, Map, lookup, insert, lookup-insert_ne, bytes_eq,
  is_member, append_assoc, append-nil, take-append_left, All, Bool-cases, inl, inr,
}
use xm.JBuilder.{append_bytes}
use xm.Metadata.{DataType}
use xm.Attributes.{SingleAttribute, MultiAttribute, AttributeBuilder, single_value}
use xm.Attributes.Values.{PlainEnd, dedup, one_more, Holds, Adds}

-- A call: the type of its value, and the value as text.
abbrev pub Call : Type 0
Call = DataType × Bytes

unfoldable pub run_all {ℓ} :
    {S : Type ℓ} → (DataType → Bytes → S → Option S) → List Call → S → Option S
run_all step [] s = some s
run_all step ((dt, r) ∷ cs) s = step dt r s >>= run_all step cs

unfoldable pub texts : List Call → List Bytes
texts [] = []
texts ((dt, r) ∷ cs) = r ∷ texts cs

unfoldable pub last_text : Bytes → List Bytes → Bytes
last_text r [] = r
last_text r (s ∷ ss) = last_text s ss

-- The calls on a state do to the entry of their key what they do to the entry by itself, and leave
-- the rest of the state.
module _ {S E : Type 0} (step : DataType → Bytes → S → Option S) (get : S → Option E)
    (next : DataType → Bytes → E → Option E) (Same : S → S → Type 0)
    (same_refl : (s : S) → Same s s) (same_trans : (s t u : S) → Same s t → Same t u → Same s u)
    (step_next : (dt : DataType) (r : Bytes) (s : S) (e e' : E)
      → get s ≡ some e
      → next dt r e ≡ some e'
      → (s' : S) × (step dt r s ≡ some s') × (get s' ≡ some e') × Same s s') where
  pub run_all-next :
      (cs : List Call) (s : S) (e u : E)
      → get s ≡ some e
      → run_all next cs e ≡ some u
      → (s' : S) × (run_all step cs s ≡ some s') × (get s' ≡ some u) × Same s s'
  unfolding run_all
  run_all-next [] s e u g h = (s, refl, g ∙ h, same_refl s)
  run_all-next ((dt, r) ∷ cs) s e u g h =
      let (e1, h1, h2) = xm.Base.>>=-eq-some (next dt r e) (run_all next cs) h in
      let (s1, q1, g1, m1) = step_next dt r s e e1 g h1 in
      let (s2, q2, g2, m2) = run_all-next cs s1 e1 u g1 h2 in
      (s2, rw (q1, ◌>>=◌) q2, g2, same_trans s s1 s2 m1 m2)

-- The further values after several calls.
unfoldable pub kept_texts : Bool → List Bytes → List Bytes → List Bytes
kept_texts distinct seen ss = if distinct then dedup seen ss else ss

one_more-kept_texts :
    (distinct : Bool) (r s : Bytes) (rs ss : List Bytes)
    → one_more distinct r rs s ++ kept_texts distinct (r ∷ one_more distinct r rs s) ss
      ≡ rs ++ kept_texts distinct (r ∷ rs) (s ∷ ss)
unfolding one_more kept_texts dedup
one_more-kept_texts false r s rs ss = append_assoc rs (s ∷ []) ss
one_more-kept_texts true r s rs ss = elim (Bool-cases (is_member s (r ∷ rs))) [
  | inl old ↦ rw (old, dedup) refl
  | inr new ↦ rw (new, dedup) (append_assoc rs (s ∷ []) (dedup (r ∷ (rs ++ s ∷ [])) ss))
]

pub Adds-run_all :
    (bad : ℕ → Bool) (prefix : Bytes) (distinct : Bool)
    (next : DataType → Bytes → MultiAttribute → Option MultiAttribute)
    → Adds bad prefix distinct next
    → (cs : List Call) (r : Bytes) (rs : List Bytes) (m : MultiAttribute)
    → All (PlainEnd bad) (texts cs)
    → Holds bad prefix distinct r rs m
    → (m' : MultiAttribute) × (run_all next cs m ≡ some m')
      × Holds bad prefix distinct r (rs ++ kept_texts distinct (r ∷ rs) (texts cs)) m'
unfolding run_all texts kept_texts dedup
Adds-run_all bad prefix true next adds [] r rs m p h =
    (m, refl, subst (λ l. Holds bad prefix true r l m) (sym (append-nil rs)) h)
Adds-run_all bad prefix false next adds [] r rs m p h =
    (m, refl, subst (λ l. Holds bad prefix false r l m) (sym (append-nil rs)) h)
Adds-run_all bad prefix distinct next adds ((dt, s) ∷ cs) r rs m (p, ps) h =
    let (m1, q1, h1) = adds dt r s rs m p h in
    let (m2, q2, h2) =
      Adds-run_all bad prefix distinct next adds cs r (one_more distinct r rs s) m1 ps h1 in
    (
      m2,
      rw (q1, ◌>>=◌) q2,
      subst (λ l. Holds bad prefix distinct r l m2) (one_more-kept_texts distinct r s rs (texts cs))
          h2,
    )

-- The entry of an attribute with one value.
pub record HoldsOne (prefix r : Bytes) (s : SingleAttribute) : Type 0 where
  pub text : s.key_value ≡ prefix ++ r
  pub len : s.key_len ≡ length prefix

pub single_value_first :
    (prefix : Bytes) (locked : Bool) (dt : DataType) (r : Bytes) (s : SingleAttribute)
    → s.key_value ≡ prefix
    → HoldsOne prefix r (single_value locked dt (append_bytes r) false s)
unfolding single_value append_bytes
single_value_first prefix locked dt r s e = record {
  text = ap (λ (x : Bytes). x ++ r) e;
  len = ap length e;
}

abbrev pub next_single : Bool → DataType → Bytes → SingleAttribute → Option SingleAttribute
next_single locked dt r s =
    some (single_value locked dt (append_bytes r) true (record s { changed = true }))

single_value_next :
    (prefix : Bytes) (locked : Bool) (dt : DataType) (r v : Bytes) (s : SingleAttribute)
    → HoldsOne prefix v s
    → HoldsOne prefix
        (if locked then v else r)
        (single_value locked dt (append_bytes r) true (record s { changed = true }))
unfolding single_value append_bytes
single_value_next prefix true dt r v s h = record { text = h.text; len = h.len }
single_value_next prefix false dt r v s h = record {
  text =
      ap (λ (x : Bytes). take s.key_len x ++ r) h.text
      ∙ ap (λ (x : Bytes). x ++ r) (take-append_left s.key_len prefix v (sym h.len));
  len = h.len;
}

pub single-run_all :
    (prefix : Bytes) (locked : Bool) (cs : List Call) (v : Bytes) (s : SingleAttribute)
    → HoldsOne prefix v s
    → (s' : SingleAttribute) × (run_all (next_single locked) cs s ≡ some s')
      × HoldsOne prefix (if locked then v else last_text v (texts cs)) s'
unfolding run_all texts last_text
single-run_all prefix true [] v s h = (s, refl, h)
single-run_all prefix false [] v s h = (s, refl, h)
single-run_all prefix true ((dt, r) ∷ cs) v s h =
    single-run_all prefix true cs v _ (single_value_next prefix true dt r v s h)
single-run_all prefix false ((dt, r) ∷ cs) v s h =
    single-run_all prefix false cs r _ (single_value_next prefix false dt r v s h)

-- What the documentation of attributes says of the text behind the key.
unfoldable pub expected : Bool → Bool → Bool → Bytes → List Bytes → Bytes
expected multiple distinct locked r rs =
    if multiple
    then r ++ xm.Attributes.Values.joined (kept_texts distinct (r ∷ []) rs)
    else if locked
    then r
    else last_text r rs

-- The entries of other keys stay.
pub record SameElsewhere (key : Bytes) (a a' : AttributeBuilder) : Type 0 where
  pub singles :
      (j : Bytes) → bytes_eq key j ≡ false → lookup j a'.single_map ≡ lookup j a.single_map
  pub multis : (j : Bytes) → bytes_eq key j ≡ false → lookup j a'.multi_map ≡ lookup j a.multi_map

pub same_refl : (key : Bytes) (a : AttributeBuilder) → SameElsewhere key a a
same_refl key a = record { singles = λ j n. refl; multis = λ j n. refl }

pub same_trans :
    (key : Bytes) (a b c : AttributeBuilder)
    → SameElsewhere key a b
    → SameElsewhere key b c
    → SameElsewhere key a c
same_trans key a b c h g = record {
  singles = λ j n. g.singles j n ∙ h.singles j n;
  multis = λ j n. g.multis j n ∙ h.multis j n;
}

pub same_multi :
    (key : Bytes) (m : MultiAttribute) (a : AttributeBuilder)
    → SameElsewhere key a (record a { any_changed = true; multi_map = insert key m a.multi_map })
same_multi key m a = record {
  singles = λ j n. refl;
  multis = λ j n. lookup-insert_ne key j m a.multi_map n;
}

pub same_single :
    (key : Bytes) (s : SingleAttribute) (a : AttributeBuilder)
    → SameElsewhere key a (record a { any_changed = true; single_map = insert key s a.single_map })
same_single key s a = record {
  singles = λ j n. lookup-insert_ne key j s a.single_map n;
  multis = λ j n. refl;
}

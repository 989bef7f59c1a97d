-- ===== src/Attributes/Touched.antt =====
-- A method marks the entry that it touches, and leaves the others.
use xm.Base.{
  ◌≡◌, refl, ap, sym, Bool, true, some, Bytes, lookup, insert, Bool-cases, Option-cases, inl, inr,
  is_member, drop, take, ℕ, ◌&&◌, >>=-eq-some,
}
use xm.Attributes.{
  SingleAttribute, MultiAttribute, AttributeBuilder, add_multi, add_single, single_value,
  keep_distinct, drop_comma,
}
use xm.JBuilder.{JBuilder}
use xm.Metadata.{DataType}
use xm.Attributes.History.{some_back, insert-IsNoted, History, AllNoted}

-- An entry that a method has touched is marked.
pub add_multi-changed :
    (first key : Bytes) (a : AttributeBuilder) → (add_multi first key a).0.changed ≡ true
unfolding add_multi
add_multi-changed first key a = elim (Option-cases (lookup key a.multi_map)) [
  | inl n ↦ rw (n, add_multi) refl
  | inr (m, e) ↦ rw (e, add_multi) refl
]

pub add_single-changed :
    (first key : Bytes) (a : AttributeBuilder) → (add_single first key a).0.changed ≡ true
unfolding add_single
add_single-changed first key a = elim (Option-cases (lookup key a.single_map)) [
  | inl n ↦ rw (n, add_single) refl
  | inr (m, e) ↦ rw (e, add_single) refl
]

pub single_value-changed :
    (locked : Bool) (dt : DataType) (add : JBuilder → JBuilder) (pre_existing : Bool)
    (s : SingleAttribute)
    → (single_value locked dt add pre_existing s).changed ≡ s.changed
unfolding single_value
single_value-changed locked dt add pre_existing s = elim (Bool-cases (pre_existing && locked)) [
  | inl e ↦ rw (e, single_value) refl
  | inr e ↦ rw (e, single_value) refl
]

pub keep_distinct-changed :
    (kept before : ℕ) (m m' : MultiAttribute)
    → keep_distinct kept before m ≡ some m'
    → m'.changed ≡ m.changed
unfolding keep_distinct
keep_distinct-changed kept before m m' h = elim (Option-cases m.distinct) [
  | inl n ↦ sym (ap (λ (x : MultiAttribute). x.changed) (some_back (rw (n, keep_distinct) at h)))
  | inr (seen, e) ↦ elim (Bool-cases (is_member (drop before m.builder.b) seen)) [
    | inr d ↦
        sym (ap (λ (x : MultiAttribute). x.changed) (some_back (rw (e, keep_distinct, d) at h)))
    | inl o ↦
        let (b, p, q) =
          >>=-eq-some (drop_comma (take kept m.builder.b)) _ (rw (e, keep_distinct, o) at h) in
        sym (ap (λ (x : MultiAttribute). x.changed) (some_back q))
  ]
]

pub put_multi-AllNoted :
    (key : Bytes) (m : MultiAttribute) (a : AttributeBuilder) (h : History)
    → m.changed ≡ true
    → AllNoted a h
    → AllNoted (record a { any_changed = true; multi_map = insert key m a.multi_map }) h
put_multi-AllNoted key m a h c n = record {
  multis = insert-IsNoted _ _ key m a.multi_map h.multis c n.multis;
  singles = n.singles;
}

pub put_single-AllNoted :
    (key : Bytes) (s : SingleAttribute) (a : AttributeBuilder) (h : History)
    → s.changed ≡ true
    → AllNoted a h
    → AllNoted (record a { any_changed = true; single_map = insert key s a.single_map }) h
put_single-AllNoted key s a h c n = record {
  multis = n.multis;
  singles = insert-IsNoted _ _ key s a.single_map h.singles c n.singles;
}

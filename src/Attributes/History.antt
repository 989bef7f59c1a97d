-- ===== src/Attributes/History.antt =====
-- What somebody who reads the attributes that Append writes has last seen of each key.
use xm.Base.{
  ◌≡◌, refl, ap, sym, ◌∙◌, subst, Bool, true, false, Option, none, some, [], ◌∷◌, Bytes, bytes_eq,
  bytes_eq_sound, Map, lookup, insert, lookup-insert_self, lookup-insert_ne, if◌then◌else◌, ◌||◌,
  not, Bool-cases, inl, inr, arith,
}
use xm.Attributes.{
  SingleAttribute, MultiAttribute, AttributeBuilder, clear_multi, clear_single, clear,
  nothing_to_append,
}
use xm.Attributes.Flush.{Unchanged, AllUnchanged, IsTracked, nothing-AllUnchanged, empty_map}

-- The text that stood last under each key.
abbrev pub Seen : Type 0
Seen = Bytes → Option Bytes

pub some_back : {A : Type 0} {a b : A} → some a ≡ some b → a ≡ b
some_back h = cc

module _ {A : Type 0} (changed : A → Bool) (text : A → Bytes) where
  -- The entries are written that changed, or all.
  unfoldable pub note : Bool → Map A → Seen → Seen
  note only_changed es seen k = elim (lookup k es) [
    | none ↦ seen k
    | some e ↦ if changed e || not only_changed then some (text e) else seen k
  ]

  -- The text of every entry is the one that was seen last.
  unfoldable pub IsCurrent : Map A → Seen → Type 0
  IsCurrent es seen = (k : Bytes) (e : A) → lookup k es ≡ some e → seen k ≡ some (text e)

  -- So it is where the entry is not marked as changed.
  unfoldable pub IsNoted : Map A → Seen → Type 0
  IsNoted es seen =
      (k : Bytes) (e : A) → lookup k es ≡ some e → changed e ≡ false → seen k ≡ some (text e)

  pub note-IsCurrent :
      (only_changed : Bool) (es : Map A) (seen : Seen)
      → IsNoted es seen
      → IsCurrent es (note only_changed es seen)
  unfolding note IsCurrent IsNoted
  note-IsCurrent true es seen h k e q = elim (Bool-cases (changed e)) [
    | inl c ↦ rw (q, note, c) refl
    | inr n ↦ rw (q, note, n) (h k e q n)
  ]
  note-IsCurrent false es seen h k e q = elim (Bool-cases (changed e)) [
    | inl c ↦ rw (q, note, c) refl
    | inr n ↦ rw (q, note, n) refl
  ]

  pub insert-IsNoted :
      (key : Bytes) (a : A) (es : Map A) (seen : Seen)
      → changed a ≡ true
      → IsNoted es seen
      → IsNoted (insert key a es) seen
  unfolding IsNoted
  insert-IsNoted key a es seen c h k e q n = elim (Bool-cases (bytes_eq key k)) [
    | inl s ↦
        let p : lookup k (insert key a es) ≡ some a =
          subst (λ (j : Bytes). lookup j (insert key a es) ≡ some a) (bytes_eq_sound key k s)
            (lookup-insert_self key a es) in
        let same : a ≡ e = some_back (sym p ∙ q) in absurd (cc (ap changed same))
    | inr d ↦ h k e (sym (lookup-insert_ne key k a es d) ∙ q) n
  ]

  Unchanged-lookup :
      (es : Map A) (k : Bytes) (e : A)
      → Unchanged changed es
      → lookup k es ≡ some e
      → changed e ≡ false
  unfolding lookup
  Unchanged-lookup [] k e u q = absurd cc
  Unchanged-lookup ((j, a) ∷ es) k e (n, u) q = elim (Bool-cases (bytes_eq j k)) [
    | inl s ↦ ap changed (sym (some_back (rw (s, lookup) at q))) ∙ n
    | inr d ↦ Unchanged-lookup es k e u (rw (d, lookup) at q)
  ]

  pub Unchanged-IsCurrent :
      (es : Map A) (seen : Seen) → Unchanged changed es → IsNoted es seen → IsCurrent es seen
  unfolding IsNoted IsCurrent
  Unchanged-IsCurrent es seen u h k e q = h k e q (Unchanged-lookup es k e u q)

-- Of the attributes with several values, and of the others.
pub record History : Type 0 where
  pub multis : Seen
  pub singles : Seen

abbrev pub nothing_seen : History
nothing_seen = record { multis = λ k. none; singles = λ k. none }

-- What an Append adds to the history.
unfoldable pub written : Bool → AttributeBuilder → History → History
written only_changed a h = if nothing_to_append only_changed a then h else record {
  multis = note (λ m. m.changed) (λ m. m.builder.b) only_changed a.multi_map h.multis;
  singles = note (λ s. s.changed) (λ s. s.key_value) only_changed a.single_map h.singles;
}

-- Every entry is as it was seen last.
pub record AllCurrent (a : AttributeBuilder) (h : History) : Type 0 where
  pub multis : IsCurrent (λ m. m.changed) (λ m. m.builder.b) a.multi_map h.multis
  pub singles : IsCurrent (λ s. s.changed) (λ s. s.key_value) a.single_map h.singles

-- Every entry that is not marked as changed is.
pub record AllNoted (a : AttributeBuilder) (h : History) : Type 0 where
  pub multis : IsNoted (λ m. m.changed) (λ m. m.builder.b) a.multi_map h.multis
  pub singles : IsNoted (λ s. s.changed) (λ s. s.key_value) a.single_map h.singles

pub AllCurrent-AllNoted : (a : AttributeBuilder) (h : History) → AllCurrent a h → AllNoted a h
unfolding IsNoted IsCurrent
AllCurrent-AllNoted a h c = record {
  multis = λ k e q n. c.multis k e q;
  singles = λ k e q n. c.singles k e q;
}

-- Where Append returns at once, every entry is as it was seen last.
pub nothing_left :
    (only_changed : Bool) (a : AttributeBuilder)
    → IsTracked a
    → nothing_to_append only_changed a ≡ true
    → AllUnchanged a
unfolding nothing_to_append
nothing_left true a t e = nothing-AllUnchanged a t e
nothing_left false a t e =
    (empty_map _ a.multi_map (ground arith), empty_map _ a.single_map (ground arith))

pub written-AllCurrent :
    (only_changed : Bool) (a : AttributeBuilder) (h : History)
    → IsTracked a
    → AllNoted a h
    → AllCurrent a (written only_changed a h)
unfolding written
written-AllCurrent only_changed a h t n = elim (Bool-cases (nothing_to_append only_changed a)) [
  | inl e ↦
      let (um, us) = nothing_left only_changed a t e in
      rw (e, written)
        (record {
          multis = Unchanged-IsCurrent _ _ a.multi_map h.multis um n.multis;
          singles = Unchanged-IsCurrent _ _ a.single_map h.singles us n.singles;
        })
  | inr e ↦
      rw (e, written)
        (record {
          multis = note-IsCurrent _ _ only_changed a.multi_map h.multis n.multis;
          singles = note-IsCurrent _ _ only_changed a.single_map h.singles n.singles;
        })
]

-- Append changes no text.
lookup-clear_multi :
    (c : Bool) (es : Map MultiAttribute) (k : Bytes) (e : MultiAttribute)
    → lookup k (clear_multi c es) ≡ some e
    → (d : MultiAttribute) × (lookup k es ≡ some d) × (d.builder.b ≡ e.builder.b)
unfolding lookup clear_multi
lookup-clear_multi c [] k e q = absurd cc
lookup-clear_multi c ((j, m) ∷ es) k e q = elim (Bool-cases (bytes_eq j k)) [
  | inl s ↦ (
    m,
    rw (s, lookup) refl,
    same (m.changed || not c)
        ∙ ap (λ (x : MultiAttribute). x.builder.b) (some_back (rw (s, lookup) at q)),
  )
  | inr d ↦ rw (d, lookup) (lookup-clear_multi c es k e (rw (d, lookup) at q))
]
  where
    same : (b : Bool) → m.builder.b ≡ (if b then record m { changed = false } else m).builder.b
    same true = refl
    same false = refl

lookup-clear_single :
    (c : Bool) (es : Map SingleAttribute) (k : Bytes) (e : SingleAttribute)
    → lookup k (clear_single c es) ≡ some e
    → (d : SingleAttribute) × (lookup k es ≡ some d) × (d.key_value ≡ e.key_value)
unfolding lookup clear_single
lookup-clear_single c [] k e q = absurd cc
lookup-clear_single c ((j, m) ∷ es) k e q = elim (Bool-cases (bytes_eq j k)) [
  | inl s ↦ (
    m,
    rw (s, lookup) refl,
    same (m.changed || not c)
        ∙ ap (λ (x : SingleAttribute). x.key_value) (some_back (rw (s, lookup) at q)),
  )
  | inr d ↦ rw (d, lookup) (lookup-clear_single c es k e (rw (d, lookup) at q))
]
  where
    same : (b : Bool) → m.key_value ≡ (if b then record m { changed = false } else m).key_value
    same true = refl
    same false = refl

pub clear-AllCurrent :
    (c : Bool) (a : AttributeBuilder) (h : History) → AllCurrent a h → AllCurrent (clear c a) h
unfolding clear IsCurrent
clear-AllCurrent c a h u = record {
  multis =
      λ k e q. let (d, p, t) = lookup-clear_multi c a.multi_map k e q in u.multis k d p ∙ ap some t;
  singles = λ k e q.
      let (d, p, t) = lookup-clear_single c a.single_map k e q in u.singles k d p ∙ ap some t;
}

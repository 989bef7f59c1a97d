-- ===== src/Metadata/Spec.antt =====
-- What the attributes of a span hold after a sequence of calls.
use xm.Base.{
  ◌≡◌, refl, ap, sym, ◌∙◌, subst, Bool, true, false, Option, some, List, [], ◌∷◌, ◌++◌, map, All,
  if◌then◌else◌, Bool-cases, inl, inr, arith, append_assoc, append-nil, ◌>>=◌,
}
use xm.Metadata.Values.{Scalar, Key, KeyKind, kind_eq_refl}
use xm.Metadata.{
  Attribute, Datum, Value, one, many, MetadataTracker, SpanMetadata, is_seen, first_tracker,
  next_tracker, append_tracker, append_distinct, record_value,
}

-- The calls of one method with one attribute, in order.
unfoldable pub record_all : Attribute → List Datum → SpanMetadata → Option SpanMetadata
record_all a [] m = some m
record_all a (d ∷ ds) m = record_value a d m >>= record_all a ds

-- The data whose keys are not among those before.
unfoldable pub dedup : List Key → List Datum → List Datum
dedup ks [] = []
dedup ks (d ∷ ds) = elim (is_seen d.key ks) [
  | true ↦ dedup ks ds
  | false ↦ d ∷ dedup (ks ++ d.key ∷ []) ds
]

unfoldable pub last_scalar : Scalar → List Datum → Scalar
last_scalar v [] = v
last_scalar v (d ∷ ds) = last_scalar d.scalar ds

abbrev pub scalars : List Datum → List Scalar
scalars = map λ d. d.scalar

-- What the documentation of attributes says: Multiple keeps all values, Distinct each value once (of Any it says that Distinct is not supported; the code treats it like the others),
-- Locked the first; by default the last value stands.
unfoldable pub expected : Attribute → Datum → List Datum → Value
expected a d ds =
    if a.multiple
    then many (d.scalar ∷ scalars (if a.distinct then dedup (d.key ∷ []) ds else ds))
    else one (if a.locked then d.scalar else last_scalar d.scalar ds)

-- The calls give keys of one type to Seen, as those of one method do.
abbrev pub OfKind : KeyKind → List Datum → Type 0
OfKind k = All (λ d. d.kind ≡ k)

unfoldable pub next_all : List Datum → MetadataTracker → Option MetadataTracker
next_all [] t = some t
next_all (d ∷ ds) t = next_tracker d t >>= next_all ds

-- Each later call, by the attribute's flags.
next_multiple :
    (d : Datum) (t : MetadataTracker) (vs : List Scalar)
    → t.attribute.multiple ≡ true
    → t.attribute.distinct ≡ false
    → t.value ≡ many vs
    → next_tracker d t ≡ some (record t { value = many (vs ++ d.scalar ∷ []) })
unfolding next_tracker append_tracker
next_multiple d t vs m n e = simp (m, n, e)

next_distinct :
    (d : Datum) (t : MetadataTracker) (vs : List Scalar) (k : KeyKind) (ks : List Key)
    → t.attribute.multiple ≡ true
    → t.attribute.distinct ≡ true
    → t.value ≡ many vs
    → t.seen ≡ some (record { kind = k; keys = ks })
    → d.kind ≡ k
    → next_tracker d t ≡ (
        if is_seen d.key ks
        then some t
        else some (record t {
          value = many (vs ++ d.scalar ∷ []);
          seen = some (record { kind = k; keys = ks ++ d.key ∷ [] });
        }))
unfolding next_tracker append_tracker append_distinct
next_distinct d t vs k ks m n e s h = simp (m, n, e, s, h, kind_eq_refl)

next_locked :
    (d : Datum) (t : MetadataTracker)
    → t.attribute.multiple ≡ false
    → t.attribute.locked ≡ true
    → next_tracker d t ≡ some t
unfolding next_tracker
next_locked d t m l = simp (m, l)

next_last :
    (d : Datum) (t : MetadataTracker)
    → t.attribute.multiple ≡ false
    → t.attribute.locked ≡ false
    → next_tracker d t ≡ some (record t { value = one d.scalar })
unfolding next_tracker
next_last d t m l = simp (m, l)

-- The tracker after all later calls, with the value that it holds.
abbrev pub Reaches : List Datum → MetadataTracker → Value → Type 0
Reaches ds t v = (u : MetadataTracker) × (next_all ds t ≡ some u) × (u.value ≡ v)

Reaches-step :
    (d : Datum) (ds : List Datum) (t u : MetadataTracker) (v : Value)
    → next_tracker d t ≡ some u
    → Reaches ds u v
    → Reaches (d ∷ ds) t v
unfolding next_all
Reaches-step d ds t u v e (w, r, h) = (w, rw (e, ◌>>=◌) r, h)

all_multiple :
    (ds : List Datum) (t : MetadataTracker) (vs : List Scalar)
    → t.attribute.multiple ≡ true
    → t.attribute.distinct ≡ false
    → t.value ≡ many vs
    → Reaches ds t (many (vs ++ scalars ds))
unfolding next_all scalars
all_multiple [] t vs m n e = (t, refl, e ∙ ap many (sym (append-nil vs)))
all_multiple (d ∷ ds) t vs m n e =
    let u = record t { value = many (vs ++ d.scalar ∷ []) } in
    let (w, r, h) = all_multiple ds u (vs ++ d.scalar ∷ []) m n refl in
    Reaches-step d ds t u _ (next_multiple d t vs m n e)
      (w, r, h ∙ ap many (append_assoc vs (d.scalar ∷ []) (scalars ds)))

all_distinct :
    (ds : List Datum) (t : MetadataTracker) (vs : List Scalar) (k : KeyKind) (ks : List Key)
    → t.attribute.multiple ≡ true
    → t.attribute.distinct ≡ true
    → t.value ≡ many vs
    → t.seen ≡ some (record { kind = k; keys = ks })
    → OfKind k ds
    → Reaches ds t (many (vs ++ scalars (dedup ks ds)))
unfolding next_all scalars dedup
all_distinct [] t vs k ks m n e s h = (t, refl, e ∙ ap many (sym (append-nil vs)))
all_distinct (d ∷ ds) t vs k ks m n e s (hd, hds) = elim (Bool-cases (is_seen d.key ks)) [
  | inl old ↦
      rw (old, dedup)
        (Reaches-step d ds t t _ (next_distinct d t vs k ks m n e s hd ∙ rw old)
          (all_distinct ds t vs k ks m n e s hds))
  | inr new ↦
      let u = record t {
        value = many (vs ++ d.scalar ∷ []);
        seen = some (record { kind = k; keys = ks ++ d.key ∷ [] });
      } in
      let (w, r, h) =
        all_distinct ds u (vs ++ d.scalar ∷ []) k (ks ++ d.key ∷ []) m n refl refl hds in
      rw (new, dedup)
        (Reaches-step d ds t u _ (next_distinct d t vs k ks m n e s hd ∙ rw new)
          (w, r, h ∙ ap many (append_assoc vs (d.scalar ∷ []) _)))
]

all_locked :
    (ds : List Datum) (t : MetadataTracker)
    → t.attribute.multiple ≡ false
    → t.attribute.locked ≡ true
    → Reaches ds t t.value
unfolding next_all
all_locked [] t m l = (t, refl, refl)
all_locked (d ∷ ds) t m l = Reaches-step d ds t t _ (next_locked d t m l) (all_locked ds t m l)

all_last :
    (ds : List Datum) (t : MetadataTracker) (v : Scalar)
    → t.attribute.multiple ≡ false
    → t.attribute.locked ≡ false
    → t.value ≡ one v
    → Reaches ds t (one (last_scalar v ds))
unfolding next_all last_scalar
all_last [] t v m l e = (t, refl, e)
all_last (d ∷ ds) t v m l e =
    let u = record t { value = one d.scalar } in
    Reaches-step d ds t u _ (next_last d t m l) (all_last ds u d.scalar m l refl)

-- What the first call leaves.
record IsFirst (a : Attribute) (d : Datum) (t : MetadataTracker) : Type 0 where
  same : t.attribute ≡ a
  single : a.multiple ≡ false → t.value ≡ one d.scalar
  slice : a.multiple ≡ true → t.value ≡ many (d.scalar ∷ [])
  seen_keys :
      a.multiple ≡ true
      → a.distinct ≡ true
      → t.seen ≡ some (record { kind = d.kind; keys = d.key ∷ [] })

first_tracker-IsFirst : (a : Attribute) (d : Datum) → IsFirst a d (first_tracker a d)
unfolding first_tracker
first_tracker-IsFirst a d = record {
  same = ground arith;
  single = λ m. simp m;
  slice = λ m. simp m;
  seen_keys = λ m n. simp (m, n);
}

pub first-expected :
    (a : Attribute) (d : Datum) (ds : List Datum)
    → OfKind d.kind ds
    → Reaches ds (first_tracker a d) (expected a d ds)
unfolding expected
first-expected a d ds h = elim (Bool-cases a.multiple) [
  | inl m ↦ elim (Bool-cases a.distinct) [
    | inl n ↦
        simp (m, n)
          (all_distinct ds t (d.scalar ∷ []) d.kind (d.key ∷ []) (flag (λ b. b.multiple) m)
            (flag (λ b. b.distinct) n) (f.slice m) (f.seen_keys m n) h)
    | inr n ↦
        simp (m, n)
          (all_multiple ds t (d.scalar ∷ []) (flag (λ b. b.multiple) m) (flag (λ b. b.distinct) n)
            (f.slice m))
  ]
  | inr m ↦ elim (Bool-cases a.locked) [
    | inl l ↦
        simp (m, l)
          (subst (Reaches ds t) (f.single m)
            (all_locked ds t (flag (λ b. b.multiple) m) (flag (λ b. b.locked) l)))
    | inr l ↦
        simp (m, l)
          (all_last ds t d.scalar (flag (λ b. b.multiple) m) (flag (λ b. b.locked) l) (f.single m))
  ]
]
  where
    t : MetadataTracker
    t = first_tracker a d

    f : IsFirst a d t
    f = first_tracker-IsFirst a d

    flag : (p : Attribute → Bool) {b : Bool} → p a ≡ b → p t.attribute ≡ b
    flag p e = ap p f.same ∙ e

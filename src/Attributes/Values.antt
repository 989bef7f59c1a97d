-- ===== src/Attributes/Values.antt =====
-- The text of an attribute with several values, and what one more value does to it.
use xm.Base.{
  ℕ, ◌-◌, ◌≡◌, refl, ap, sym, ◌∙◌, subst, Bool, true, false, Option, none, some, List, [], ◌∷◌,
  ◌++◌, Bytes, length, take, drop, get_elem?, if◌then◌else◌, ◌==◌, is_member, append_assoc,
  append-nil, length-append, take-append_left, get_elem?-middle, arith,
}
use xm.JBuilder.{JBuilder, append_bytes, comma, opens}
use xm.Metadata.{DataType}
use xm.Attributes.{MultiAttribute, drop_comma, keep_distinct, set_builder}

-- The values behind the first, each behind a comma.
unfoldable pub joined : List Bytes → Bytes
joined [] = []
joined (r ∷ rs) = b',' ∷ (r ++ joined rs)

-- The values that are not among those before.
unfoldable pub dedup : List Bytes → List Bytes → List Bytes
dedup seen [] = []
dedup seen (r ∷ rs) = elim (is_member r seen) [
  | true ↦ dedup seen rs
  | false ↦ r ∷ dedup (seen ++ r ∷ []) rs
]

-- A text that ends in a byte that is not among the bad ones: for the console a comma, for JSON a bracket
-- or colon behind which a comma is left out.
abbrev pub PlainEnd : (ℕ → Bool) → Bytes → Type 0
PlainEnd bad b = (front : Bytes) × (c : ℕ) × (b ≡ front ++ c ∷ []) × (bad c ≡ false)

abbrev pub is_comma : ℕ → Bool
is_comma c = c == b','

pub append-PlainEnd : (bad : ℕ → Bool) (b r : Bytes) → PlainEnd bad r → PlainEnd bad (b ++ r)
append-PlainEnd bad b r (front, c, e, n) =
    (b ++ front, c, ap (◌++◌ b) e ∙ sym (append_assoc b front (c ∷ [])), n)

pub last_of :
    (front : Bytes) (c : ℕ) → get_elem? (front ++ c ∷ []) (length (front ++ c ∷ []) - 1) ≡ some c
last_of front c =
    subst (λ (n : ℕ). get_elem? (front ++ c ∷ []) n ≡ some c)
      (omega (arith, length-append front (c ∷ []))) (get_elem?-middle front c [])

last_PlainEnd :
    (bad : ℕ → Bool) (b : Bytes)
    → PlainEnd bad b
    → (c : ℕ) × (get_elem? b (length b - 1) ≡ some c) × (bad c ≡ false)
last_PlainEnd bad b (front, c, e, n) = (c, rw e (last_of front c), n)

pub drop_comma_plain : (b : Bytes) → PlainEnd is_comma b → drop_comma b ≡ some b
unfolding drop_comma
drop_comma_plain b p = let (c, h, n) = last_PlainEnd is_comma b p in rw (h, drop_comma, n) refl

pub drop_comma_comma : (b : Bytes) → drop_comma (b ++ b',' ∷ []) ≡ some b
unfolding drop_comma
drop_comma_comma b =
    rw (last_of b b',', drop_comma)
      (ap some (take-append_left _ b (b',' ∷ []) (omega (arith, length-append b (b',' ∷ [])))))

pub comma_plain : (j : JBuilder) → PlainEnd opens j.b → comma j ≡ append_bytes (b',' ∷ []) j
unfolding comma append_bytes
comma_plain j p = let (c, h, n) = last_PlainEnd opens j.b p in rw (h, comma, n) refl

joined_append : (rs : List Bytes) (r : Bytes) → joined (rs ++ r ∷ []) ≡ joined rs ++ b',' ∷ r
unfolding joined
joined_append [] r = ap (◌∷◌ b',') (append-nil r)
joined_append (s ∷ rs) r =
    ap (◌∷◌ b',') (ap (◌++◌ s) (joined_append rs r) ∙ sym (append_assoc s (joined rs) (b',' ∷ r)))

-- The three ways of a value through the test for values seen before.
pub keep_distinct_first :
    (kept before : ℕ) (m : MultiAttribute) (r : Bytes)
    → m.distinct ≡ none
    → drop before m.builder.b ≡ r
    → keep_distinct kept before m ≡ some (record m { distinct = some (r ∷ []) })
unfolding keep_distinct
keep_distinct_first kept before m r e d = rw (e, keep_distinct, d) refl

pub keep_distinct_new :
    (kept before : ℕ) (m : MultiAttribute) (seen : List Bytes) (r : Bytes)
    → m.distinct ≡ some seen
    → drop before m.builder.b ≡ r
    → is_member r seen ≡ false
    → keep_distinct kept before m ≡ some (record m { distinct = some (seen ++ r ∷ []) })
unfolding keep_distinct
keep_distinct_new kept before m seen r e d n = rw (e, keep_distinct, d, n) refl

pub keep_distinct_old :
    (kept before : ℕ) (m : MultiAttribute) (seen : List Bytes) (r b : Bytes)
    → m.distinct ≡ some seen
    → drop before m.builder.b ≡ r
    → is_member r seen ≡ true
    → drop_comma (take kept m.builder.b) ≡ some b
    → keep_distinct kept before m ≡ some (set_builder b (record m { distinct = some seen }))
unfolding keep_distinct
keep_distinct_old kept before m seen r b e d o h =
    rw (e, keep_distinct, d, o, h) (ap (λ o. some (set_builder b (record m { distinct = o }))) e)

-- The entry of an attribute that has the first value `r` and the further values `rs`.
pub record Holds (bad : ℕ → Bool) (prefix : Bytes) (distinct : Bool) (r : Bytes) (rs : List Bytes)
    (m : MultiAttribute) : Type 0 where
  pub text : m.builder.b ≡ prefix ++ (r ++ joined rs)
  pub seen : distinct ≡ true → m.distinct ≡ some (r ∷ rs)
  pub plain : PlainEnd bad m.builder.b

-- The further values after one more.
unfoldable pub one_more : Bool → Bytes → List Bytes → Bytes → List Bytes
one_more distinct r rs s =
    if distinct then (if is_member s (r ∷ rs) then rs else rs ++ s ∷ []) else rs ++ s ∷ []

-- What a method must do to an entry that stands.
abbrev pub Adds :
    (ℕ → Bool) → Bytes → Bool → (DataType → Bytes → MultiAttribute → Option MultiAttribute) → Type 0
Adds bad prefix distinct next =
    (dt : DataType) (r s : Bytes) (rs : List Bytes) (m : MultiAttribute)
    → PlainEnd bad s
    → Holds bad prefix distinct r rs m
    → (m' : MultiAttribute) × (next dt s m ≡ some m')
      × Holds bad prefix distinct r (one_more distinct r rs s) m'

pub text_more :
    (prefix r s : Bytes) (rs : List Bytes) (b : Bytes)
    → b ≡ prefix ++ (r ++ joined rs)
    → (b ++ b',' ∷ []) ++ s ≡ prefix ++ (r ++ joined (rs ++ s ∷ []))
text_more prefix r s rs b e =
    ap (λ (x : Bytes). (x ++ b',' ∷ []) ++ s) e ∙ simp (joined_append, append_assoc) refl

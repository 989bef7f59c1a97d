-- ===== src/ConsoleReplay/RoundTrip.antt =====
-- The attributes of a span, as Append of xopconsole's builder writes them, are read back by replay.
use xm.Base.{
  ℕ, suc, ◌≡◌, refl, ap, sym, ◌∙◌, true, false, Option, none, some, List, [], ◌∷◌, ◌++◌, Bytes, map,
  All, append_assoc, append-nil, if◌then◌else◌, ◌==◌,
}
use xm.JBuilder.ConsoleStrings.{is_one_of}
use xm.Attributes.Arguments.{Argument}
use xm.Attributes.Values.{joined}
use xm.Attributes.Console.{Attribute}
use xm.Attributes.Console.Builder.{Formats}
use xm.Attributes.Console.Rendered.{rendered}
use xm.Attributes.Console.Performed.{rendered_texts}
use xm.ConsoleReplay.Metadata.{
  AttributeType, Parsers, SpanCall, one_metadata_value, collect_metadata,
}
use xm.ConsoleReplay.Words.{Within, Bounded, sep_of, behind, one_word-append}
use xm.ConsoleReplay.Values.{Inverse, Readable, type_of, read_back}
use xm.ConsoleReplay.ValueTrip.{one_metadata_value-rendered}

-- An attribute with the values that its entry holds: the first and the others.
pub record Entry : Type 0 where
  pub attribute : Attribute
  pub name : Bytes
  pub value : Argument
  pub more : List Argument

module _ (f : Formats) (p : Parsers) (lookup : Bytes → Option AttributeType) where
  -- What Append writes, each entry behind a space.
  unfoldable pub tail_text : List Entry → Bytes
  tail_text [] = []
  tail_text (e ∷ es) =
      b' '
      ∷ (e.name
          ++ b'='
            ∷ ((rendered f e.attribute e.value).1
                ++ (joined (rendered_texts f e.attribute e.more) ++ tail_text es)))

  -- The calls on the span that give it these values.
  unfoldable pub calls_of : List Entry → List SpanCall
  calls_of [] = []
  calls_of (e ∷ es) =
      (e.name, read_back f e.value) ∷ (map (λ v. (e.name, read_back f v)) e.more ++ calls_of es)

  -- A value of the attribute that can be read, of the type that the definition names.
  abbrev pub IsValueOf : Attribute → AttributeType → Argument → Type 0
  IsValueOf k a v = Readable f p k v × (type_of k v ≡ a)

  -- The key ends at its equals sign and has a definition; every value can be read.
  pub record IsEntry (e : Entry) : Type 0 where
    pub type : AttributeType
    pub key_text : e.attribute.console_key ≡ e.name ++ b'=' ∷ []
    pub key_plain : Within (b'=' ∷ []) e.name
    pub defined : lookup e.name ≡ some type
    pub constructed : p.constructs e.name type ≡ true
    pub readable : All (IsValueOf e.attribute type) (e.value ∷ e.more)

  -- The rounds of the loops, and `n` more.
  unfoldable pub value_rounds : List Argument → ℕ → ℕ
  value_rounds [] n = suc n
  value_rounds (v ∷ vs) n = suc (value_rounds vs n)

  unfoldable pub rounds : List Entry → ℕ → ℕ
  rounds [] n = suc n
  rounds (e ∷ es) n = suc (value_rounds e.more (rounds es n))

  joined-Bounded : (ws : List Bytes) (rest : Bytes) → Bounded rest → Bounded (joined ws ++ rest)
  unfolding joined is_one_of
  joined-Bounded [] rest b = b
  joined-Bounded (w ∷ ws) rest b = refl

  tail_text-Bounded : (es : List Entry) → Bounded (tail_text es)
  unfolding tail_text is_one_of
  tail_text-Bounded [] = tt
  tail_text-Bounded (e ∷ es) = refl

  -- Behind the last value comes no comma.
  abbrev NoComma : Bytes → Type 0
  NoComma rest = (sep_of rest == b',') ≡ false

  tail_text-NoComma : (es : List Entry) → NoComma (tail_text es)
  unfolding tail_text
  tail_text-NoComma [] = refl
  tail_text-NoComma (e ∷ es) = refl

  one_value :
      (n : ℕ) (name : Bytes) (k : Attribute) (a : AttributeType) (v : Argument) (rest : Bytes)
      (calls : List SpanCall)
      → Inverse p
      → p.constructs name a ≡ true
      → IsValueOf k a v
      → Bounded rest
      → collect_metadata p (suc n) lookup (some (name, a)) ((rendered f k v).1 ++ rest) calls
        ≡ collect_metadata p n lookup
            (if sep_of rest == b',' then some (name, a) else none)
            (behind rest)
            (calls ++ (name, read_back f v) ∷ [])
  unfolding collect_metadata
  one_value n name k a v rest calls i c (h, t) b =
      let r : one_metadata_value p a ((rendered f k v).1 ++ rest)
          ≡ some (read_back f v, sep_of rest, behind rest) =
        ap (λ (x : AttributeType). one_metadata_value p x ((rendered f k v).1 ++ rest)) (sym t)
        ∙ one_metadata_value-rendered f p k v rest i h b in
      rw (c, collect_metadata, r) refl

  values_read :
      (n : ℕ) (name : Bytes) (k : Attribute) (a : AttributeType) (v : Argument) (vs : List Argument)
      (rest : Bytes) (calls : List SpanCall)
      → Inverse p
      → p.constructs name a ≡ true
      → All (IsValueOf k a) (v ∷ vs)
      → Bounded rest
      → NoComma rest
      → collect_metadata p
          (value_rounds vs n)
          lookup
          (some (name, a))
          ((rendered f k v).1 ++ (joined (rendered_texts f k vs) ++ rest))
          calls
        ≡ collect_metadata p n lookup none
            (behind rest)
            (calls ++ (name, read_back f v) ∷ map (λ v. (name, read_back f v)) vs)
  unfolding value_rounds joined
  values_read n name k a v [] rest calls i c (h, hs) b m =
      one_value n name k a v rest calls i c h b ∙ rw m refl
  values_read n name k a v (w ∷ ws) rest calls i c (h, hs) b m =
      one_value (value_rounds ws n) name k a v (joined (rendered_texts f k (w ∷ ws)) ++ rest) calls
        i c h (joined-Bounded (rendered_texts f k (w ∷ ws)) rest b)
      ∙ (ap
            (λ (t : Bytes).
              collect_metadata p (value_rounds ws n) lookup (some (name, a)) t
                (calls ++ (name, read_back f v) ∷ []))
            (append_assoc (rendered f k w).1 (joined (rendered_texts f k ws)) rest)
          ∙ (values_read n name k a w ws rest (calls ++ (name, read_back f v) ∷ []) i c hs b m
              ∙ ap (collect_metadata p n lookup none (behind rest))
                  (append_assoc calls ((name, read_back f v) ∷ []) _)))

  key_read :
      (n : ℕ) (name : Bytes) (a : AttributeType) (t : Bytes) (calls : List SpanCall)
      → Within (b'=' ∷ []) name
      → lookup name ≡ some a
      → collect_metadata p (suc n) lookup none (name ++ b'=' ∷ t) calls
        ≡ collect_metadata p n lookup (some (name, a)) t calls
  unfolding collect_metadata is_one_of
  key_read n name a t calls w d =
      let q = one_word-append (b'=' ∷ []) name b'=' t w refl in
      rw (q, collect_metadata, q, d)
        (ap (λ (w : Bytes × ℕ × Bytes). collect_metadata p n lookup (some (w.0, a)) w.2 calls) q)

  -- The entries that Append of xopconsole's builder writes behind the id of a span, less the first space, are
  -- read by collectMetadata without an error, in as many rounds as there are keys and values and one for the
  -- end, and make exactly the calls on the span that give it the values of the entries, in order. Each key
  -- must be a text without an equals sign that a definition is found for, whose attribute can be
  -- constructed, and strconv and time must read what they write; each value must be one that can be read:
  -- names of enums that need no quotes, finite floats, durations that need none, times in ASCII, links with
  -- an accepted header, and strings that strconv understands when they are escaped for JSON.
  pub collect_metadata-tail_text :
      (n : ℕ) (es : List Entry) (calls : List SpanCall)
      → Inverse p
      → All IsEntry es
      → collect_metadata p (rounds es n) lookup none (behind (tail_text es)) calls
        ≡ some (calls ++ calls_of es, true)
  unfolding rounds tail_text calls_of
  collect_metadata-tail_text n [] calls i h =
      unfold collect_metadata in
      ap (λ (cs : List SpanCall). some (cs, true)) (sym (append-nil calls))
  collect_metadata-tail_text n (e ∷ es) calls i (h, hs) =
      key_read _ e.name h.type _ calls h.key_plain h.defined
      ∙ (values_read (rounds es n) e.name e.attribute h.type e.value e.more (tail_text es) calls i
            h.constructed h.readable (tail_text-Bounded es) (tail_text-NoComma es)
          ∙ (collect_metadata-tail_text n es _ i hs
              ∙ ap (λ (cs : List SpanCall). some (cs, true)) (append_assoc calls _ (calls_of es))))

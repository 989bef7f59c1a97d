-- ===== src/ConsoleReplay/Made.antt =====
-- The maps of xopconsole's builder after calls with several attributes, and the text that Append makes of them.
use xm.Base.{
  ◌≡◌, refl, ap, sym, ◌∙◌, Bool, true, false, Option, some, List, [], ◌∷◌, ◌++◌, Bytes, bytes_eq,
  ◌>>=◌, Map, Bool-cases, inl, inr, if◌then◌else◌, ◌⊎◌, All, append_assoc, append-nil,
}
use Prim.{Unit, tt}
use mathlib.Core.List.{Permᴰ}
use mathlib.Core.List
use xm.JBuilder.{JBuilder}
use xm.Attributes.{AttributeBuilder}
use xm.Attributes.Flush.{only_those, those, write_all}
use xm.Attributes.Values.{joined}
use xm.Attributes.Sequence.{expected, kept_texts, last_text}
use xm.Attributes.Console.{ConsoleBuilder}
use xm.Attributes.Console.Builder.{Formats}
use xm.Attributes.Console.Rendered.{rendered}
use xm.Attributes.Console.Performed.{rendered_texts}
use xm.Attributes.Console.Methods.{perform_all}
use xm.ConsoleReplay.RoundTrip.{Entry}

-- The calls of the methods with the attributes of the entries, one after the other.
unfoldable pub perform_entries :
    Formats → (Bytes → Bool) → List Entry → ConsoleBuilder → Option ConsoleBuilder
perform_entries f fails [] c = some c
perform_entries f fails (e ∷ es) c =
    perform_all f fails e.attribute (e.value ∷ e.more) c >>= perform_entries f fails es

-- The entries whose attributes have several values, and the others.
unfoldable pub multis : List Entry → List Entry
multis [] = []
multis (e ∷ es) = let rest = multis es in if e.attribute.multiple then e ∷ rest else rest

unfoldable pub singles : List Entry → List Entry
singles [] = []
singles (e ∷ es) = let rest = singles es in if e.attribute.multiple then rest else e ∷ rest

pub multis-singles : (es : List Entry) → Permᴰ es (multis es ++ singles es)
unfolding multis singles
multis-singles [] = List.Permᴰ.nil
multis-singles (e ∷ es) = elim (Bool-cases e.attribute.multiple) [
  | inl m ↦ simp m (List.Permᴰ.cons refl (multis-singles es))
  | inr n ↦ simp n (
      List.Permᴰ.trans (List.Permᴰ.cons refl (multis-singles es))
        (List.Permᴰ.symm (List.Permᴰ.middle e (multis es) (singles es))))
]

-- No two of the attributes have the same key.
unfoldable pub Apart : List Entry → Type 0
Apart [] = Unit
Apart (e ∷ es) = All (λ (x : Entry). bytes_eq e.attribute.key x.attribute.key ≡ false) es × Apart es

-- All the values are kept: the attribute keeps every value, or there is one.
abbrev pub KeepsAll : Entry → Type 0
KeepsAll e = ((e.attribute.multiple ≡ true) × (e.attribute.distinct ≡ false)) ⊎ (e.more ≡ [])

module _ (f : Formats) where
  unfoldable pub entry_text : Entry → Bytes
  entry_text e =
      e.attribute.console_key
      ++ ((rendered f e.attribute e.value).1 ++ joined (rendered_texts f e.attribute e.more))

  one_expected : (m d l : Bool) (r : Bytes) → expected m d l r [] ≡ r ++ joined []
  unfolding expected kept_texts joined xm.Attributes.Values.dedup last_text
  one_expected true true l r = refl
  one_expected true false l r = refl
  one_expected false d true r = sym (append-nil r)
  one_expected false d false r = sym (append-nil r)

  pub expected_whole :
      (e : Entry)
      → KeepsAll e
      → expected e.attribute.multiple e.attribute.distinct e.attribute.locked
          (rendered f e.attribute e.value).1
          (rendered_texts f e.attribute e.more)
        ≡ (rendered f e.attribute e.value).1 ++ joined (rendered_texts f e.attribute e.more)
  unfolding expected kept_texts
  expected_whole e (inl (m, d)) = rw (m, expected, d) refl
  expected_whole e (inr n) = rw n (
      one_expected e.attribute.multiple e.attribute.distinct e.attribute.locked
        (rendered f e.attribute e.value).1)

  -- The map has the texts of the entries, all marked xs changed.
  module _ {A : Type 0} (changed : A → Bool) (text : A → Bytes) where
    unfoldable pub Made : Map A → List Entry → Type 0
    Made [] [] = Unit
    Made [] (e ∷ es) = ⊥
    Made (a ∷ xs) [] = ⊥
    Made (a ∷ xs) (e ∷ es) = (changed a.1 ≡ true) × (text a.1 ≡ entry_text e) × Made xs es

    pub Made-append :
        (xs ys : Map A) (es ds : List Entry) → Made xs es → Made ys ds → Made (xs ++ ys) (es ++ ds)
    unfolding Made
    Made-append [] ys [] ds h g = g
    Made-append [] ys (e ∷ es) ds h g = absurd h
    Made-append (a ∷ xs) ys [] ds h g = absurd h
    Made-append (a ∷ xs) ys (e ∷ es) ds (c, t, h) g = (c, t, Made-append xs ys es ds h g)

    pub Made-Permᴰ :
        (xs ys : Map A) (es : List Entry)
        → Permᴰ xs ys
        → Made xs es
        → (ds : List Entry) × Permᴰ es ds × Made ys ds
    unfolding Made
    Made-Permᴰ xs ys [] List.Permᴰ.nil h = ([], List.Permᴰ.nil, tt)
    Made-Permᴰ xs ys (e ∷ es) List.Permᴰ.nil h = absurd h
    Made-Permᴰ xs ys [] (List.Permᴰ.cons q p) h = absurd h
    Made-Permᴰ xs ys (e ∷ es) (List.Permᴰ.cons {l₁ = xs1} {l₂ = ys1} q p) (c, t, h) =
        let (ds, r, g) = Made-Permᴰ xs1 ys1 es p h in
        (
          e ∷ ds,
          List.Permᴰ.cons refl r,
          (
            ap (λ (x : Bytes × A). changed x.1) (sym q) ∙ c,
            ap (λ (x : Bytes × A). text x.1) (sym q) ∙ t,
            g,
          ),
        )
    Made-Permᴰ xs ys [] (List.Permᴰ.swap q p) h = absurd h
    Made-Permᴰ xs ys (e ∷ []) (List.Permᴰ.swap q p) (c, t, h) = absurd h
    Made-Permᴰ xs ys (e ∷ d ∷ es) (List.Permᴰ.swap q p) (c, t, (c', t', h)) = (
      d ∷ e ∷ es,
      List.Permᴰ.swap refl refl,
      (
        ap (λ (x : Bytes × A). changed x.1) (sym p) ∙ c',
        ap (λ (x : Bytes × A). text x.1) (sym p) ∙ t',
        (
          ap (λ (x : Bytes × A). changed x.1) (sym q) ∙ c,
          ap (λ (x : Bytes × A). text x.1) (sym q) ∙ t,
          h,
        ),
      ),
    )
    Made-Permᴰ xs ys es (List.Permᴰ.trans {l₂ = cs} p q) h =
        let (ds, r, g) = Made-Permᴰ xs cs es p h in
        let (ds', r', g') = Made-Permᴰ cs ys ds q g in (ds', List.Permᴰ.trans r r', g')

    Made-only_those : (xs : Map A) (es : List Entry) → Made xs es → only_those changed xs ≡ xs
    unfolding only_those Made
    Made-only_those [] es h = refl
    Made-only_those (a ∷ xs) [] h = absurd h
    Made-only_those (a ∷ xs) (e ∷ es) (c, t, h) =
        rw (c, only_those) (ap (◌∷◌ a) (Made-only_those xs es h))

    pub Made-those :
        (only_changed : Bool) (xs : Map A) (es : List Entry)
        → Made xs es
        → those changed only_changed xs ≡ xs
    unfolding those
    Made-those true xs es h = Made-only_those xs es h
    Made-those false xs es h = refl

  -- What Append writes, each entry behind a space.
  unfoldable pub entries_text : List Entry → Bytes
  entries_text [] = []
  entries_text (e ∷ es) = b' ' ∷ (entry_text e ++ entries_text es)

  pub entries_text-append :
      (es ds : List Entry) → entries_text (es ++ ds) ≡ entries_text es ++ entries_text ds
  unfolding entries_text
  entries_text-append [] ds = refl
  entries_text-append (e ∷ es) ds =
      ap (λ (x : Bytes). b' ' ∷ (entry_text e ++ x)) (entries_text-append es ds)
      ∙ ap (◌∷◌ b' ') (sym (append_assoc (entry_text e) (entries_text es) (entries_text ds)))

  pub write_all-entries_text :
      {A : Type 0} (changed : A → Bool) (text : A → Bytes) (write : A → JBuilder → JBuilder)
      → ((a : A) (j : JBuilder) → (write a j).b ≡ j.b ++ b' ' ∷ text a)
      → (xs : Map A) (es : List Entry) (j : JBuilder) → Made changed text xs es
      → (write_all changed write xs j).b ≡ j.b ++ entries_text es
  unfolding write_all entries_text Made
  write_all-entries_text changed text write w [] [] j h = sym (append-nil j.b)
  write_all-entries_text changed text write w [] (e ∷ es) j h = absurd h
  write_all-entries_text changed text write w (a ∷ xs) [] j h = absurd h
  write_all-entries_text changed text write w ((k, a) ∷ xs) (e ∷ es) j (c, t, h) =
      write_all-entries_text changed text write w xs es (write a j) h
      ∙ (ap (λ (x : Bytes). x ++ entries_text es) (w a j ∙ ap (λ (x : Bytes). j.b ++ b' ' ∷ x) t)
          ∙ append_assoc j.b (b' ' ∷ entry_text e) (entries_text es))

-- ===== src/ConsoleReplay/Appended.antt =====
-- What the maps of the builder hold after calls with several attributes.
use xm.Base.{
  ◌≡◌, refl, ap, sym, ◌∙◌, subst, Bool, true, false, Option, none, some, List, [], ◌∷◌, ◌++◌, Bytes,
  bytes_eq, ◌>>=◌, Map, lookup, lookup-last, Bool-cases, inl, inr, All, append_assoc, append-nil,
}
use Prim.{tt}
use xm.Attributes.{SingleAttribute, MultiAttribute, AttributeBuilder, init, nothing_to_append}
use xm.Attributes.History.{some_back}
use xm.Attributes.Sequence.{SameElsewhere}
use xm.Attributes.Console.{Request, ConsoleBuilder, append, write_multi, write_single}
use xm.Attributes.Console.Builder.{Formats}
use xm.Attributes.Console.Rendered.{Documented}
use xm.Attributes.Console.Refine.{text_of}
use xm.Attributes.Console.Performed.{perform_all-expected}
use xm.Attributes.Console.Methods.{perform_all}
use xm.Attributes.Console.Grown.{Grown, perform_all-Grown}
use xm.ConsoleReplay.RoundTrip.{Entry}
use xm.ConsoleReplay.Made.{
  perform_entries, multis, singles, Apart, KeepsAll, entry_text, expected_whole, Made, Made-append,
}

-- The builder has nothing under the keys.
abbrev pub Absent : AttributeBuilder → List Entry → Type 0
Absent a = All λ (e : Entry).
    (lookup e.attribute.key a.multi_map ≡ none) × (lookup e.attribute.key a.single_map ≡ none)

still-Absent :
    (key : Bytes) (a b : AttributeBuilder) (es : List Entry)
    → SameElsewhere key a b
    → All (λ (x : Entry). bytes_eq key x.attribute.key ≡ false) es
    → Absent a es
    → Absent b es
still-Absent key a b [] s d h = tt
still-Absent key a b (e ∷ es) s (n, d) ((hm, hs), h) = (
  (s.multis e.attribute.key n ∙ hm, s.singles e.attribute.key n ∙ hs),
  still-Absent key a b es s d h,
)

-- What a builder has after calls.
pub record Has (f : Formats) (c : ConsoleBuilder) (ms ss : List Entry) : Type 0 where
  pub made_multis : Made f (λ m. m.changed) (λ m. m.builder.b) c.attributes.multi_map ms
  pub made_singles : Made f (λ s. s.changed) (λ s. s.key_value) c.attributes.single_map ss

module _ (f : Formats) (e : Entry) (c d : ConsoleBuilder) (dm ds : List Entry) (h : Has f c dm ds)
    (hm : lookup e.attribute.key c.attributes.multi_map ≡ none)
    (hs : lookup e.attribute.key c.attributes.single_map ≡ none)
    (g : Grown e.attribute c.attributes d.attributes)
    (t : text_of e.attribute d ≡ some (entry_text f e)) where
  multi-Has : e.attribute.multiple ≡ true → Has f d (dm ++ multis (e ∷ [])) (ds ++ singles (e ∷ []))
  unfolding multis singles text_of Made entry_text xm.Attributes.Console.Rendered.rendered
  multi-Has m =
      let (l, same) = g.multi m in
      let found : lookup e.attribute.key d.attributes.multi_map ≡ some l.entry =
        ap (lookup e.attribute.key) l.longer
        ∙ lookup-last e.attribute.key l.entry c.attributes.multi_map hm in
      let text : l.entry.builder.b ≡ entry_text f e = some_back (
        sym (ap (λ (o : Option MultiAttribute). o >>= λ x. some x.builder.b) found)
        ∙ (rw (m, text_of) at t)) in
      simp m (record {
        made_multis =
            subst
              (λ (x : Map MultiAttribute).
                Made f (λ m. m.changed) (λ m. m.builder.b) x (dm ++ e ∷ []))
              (sym l.longer)
              (Made-append f (λ m. m.changed) (λ m. m.builder.b) c.attributes.multi_map
                ((e.attribute.key, l.entry) ∷ []) dm (e ∷ []) h.made_multis (l.marked, text, tt));
        made_singles =
            subst
              (λ (x : List Entry).
                Made f (λ s. s.changed) (λ s. s.key_value) d.attributes.single_map x)
              (sym (append-nil ds))
              (subst (λ (x : Map SingleAttribute). Made f (λ s. s.changed) (λ s. s.key_value) x ds)
                (sym same) h.made_singles);
      })

  single-Has :
      e.attribute.multiple ≡ false → Has f d (dm ++ multis (e ∷ [])) (ds ++ singles (e ∷ []))
  unfolding multis singles text_of Made entry_text xm.Attributes.Console.Rendered.rendered
  single-Has m =
      let (l, same) = g.single m in
      let found : lookup e.attribute.key d.attributes.single_map ≡ some l.entry =
        ap (lookup e.attribute.key) l.longer
        ∙ lookup-last e.attribute.key l.entry c.attributes.single_map hs in
      let text : l.entry.key_value ≡ entry_text f e = some_back (
        sym (ap (λ (o : Option SingleAttribute). o >>= λ x. some x.key_value) found)
        ∙ (rw (m, text_of) at t)) in
      simp m (record {
        made_multis =
            subst
              (λ (x : List Entry).
                Made f (λ m. m.changed) (λ m. m.builder.b) d.attributes.multi_map x)
              (sym (append-nil dm))
              (subst (λ (x : Map MultiAttribute). Made f (λ m. m.changed) (λ m. m.builder.b) x dm)
                (sym same) h.made_multis);
        made_singles =
            subst
              (λ (x : Map SingleAttribute).
                Made f (λ s. s.changed) (λ s. s.key_value) x (ds ++ e ∷ []))
              (sym l.longer)
              (Made-append f (λ s. s.changed) (λ s. s.key_value) c.attributes.single_map
                ((e.attribute.key, l.entry) ∷ []) ds (e ∷ []) h.made_singles (l.marked, text, tt));
      })

-- Calls with one attribute at least set the flag of the builder.
unfoldable pub AnyAfter : List Entry → ConsoleBuilder → ConsoleBuilder → Type 0
AnyAfter [] c d = c.attributes.any_changed ≡ true → d.attributes.any_changed ≡ true
AnyAfter (e ∷ es) c d = d.attributes.any_changed ≡ true

any_step :
    (es : List Entry) (c d : ConsoleBuilder)
    → c.attributes.any_changed ≡ true
    → AnyAfter es c d
    → d.attributes.any_changed ≡ true
unfolding AnyAfter
any_step [] c d h t = t h
any_step (e ∷ es) c d h t = t

module _ (f : Formats) (fails : Bytes → Bool) (doc : Documented f) where
  entry-Has :
      (e : Entry) (c : ConsoleBuilder) (dm ds : List Entry)
      → Has f c dm ds
      → lookup e.attribute.key c.attributes.multi_map ≡ none
      → lookup e.attribute.key c.attributes.single_map ≡ none
      → KeepsAll e
      → (d : ConsoleBuilder) × (perform_all f fails e.attribute (e.value ∷ e.more) c ≡ some d)
        × Has f d (dm ++ multis (e ∷ [])) (ds ++ singles (e ∷ []))
        × SameElsewhere e.attribute.key c.attributes d.attributes
        × (d.attributes.any_changed ≡ true)
  unfolding entry_text
  entry-Has e c dm ds h hm hs w =
      let k = e.attribute in
      let (d, q, t, same, req) = perform_all-expected f fails k e.value e.more c doc hm hs in
      let g : Grown k c.attributes d.attributes =
        perform_all-Grown f fails k e.value e.more c d hm hs q in
      let t' : text_of k d ≡ some (entry_text f e) =
        t ∙ ap (λ (x : Bytes). some (k.console_key ++ x)) (expected_whole f e w) in
      let has : Has f d (dm ++ multis (e ∷ [])) (ds ++ singles (e ∷ [])) =
        elim (Bool-cases k.multiple) [
          | inl m ↦ multi-Has f e c d dm ds h hm hs g t' m
          | inr n ↦ single-Has f e c d dm ds h hm hs g t' n
        ] in
      (d, q, has, same, g.any)

  multis-cons :
      (e : Entry) (es dm : List Entry)
      → (dm ++ multis (e ∷ [])) ++ multis es ≡ dm ++ multis (e ∷ es)
  unfolding multis
  multis-cons e es dm = elim (Bool-cases e.attribute.multiple) [
    | inl m ↦ simp m (append_assoc dm (e ∷ []) (multis es))
    | inr n ↦ simp n (ap (λ (x : List Entry). x ++ multis es) (append-nil dm))
  ]

  singles-cons :
      (e : Entry) (es ds : List Entry)
      → (ds ++ singles (e ∷ [])) ++ singles es ≡ ds ++ singles (e ∷ es)
  unfolding singles
  singles-cons e es ds = elim (Bool-cases e.attribute.multiple) [
    | inl m ↦ simp m (ap (λ (x : List Entry). x ++ singles es) (append-nil ds))
    | inr n ↦ simp n (append_assoc ds (e ∷ []) (singles es))
  ]

  pub entries-Has :
      (es : List Entry) (c : ConsoleBuilder) (dm ds : List Entry)
      → Has f c dm ds
      → Absent c.attributes es
      → Apart es
      → All KeepsAll es
      → (d : ConsoleBuilder) × (perform_entries f fails es c ≡ some d)
        × Has f d (dm ++ multis es) (ds ++ singles es)
        × AnyAfter es c d
  unfolding perform_entries multis singles Apart AnyAfter
  entries-Has [] c dm ds h n a w = (
    c,
    refl,
    subst (λ (x : List Entry). Has f c x (ds ++ [])) (sym (append-nil dm))
        (subst (λ (x : List Entry). Has f c dm x) (sym (append-nil ds)) h),
    λ t. t,
  )
  entries-Has (e ∷ es) c dm ds h ((hm, hs), n) (a, as1) (w, ws) =
      let (c1, q, h1, same, any) = entry-Has e c dm ds h hm hs w in
      let (d, q1, h2, any1) =
        entries-Has es c1 (dm ++ multis (e ∷ [])) (ds ++ singles (e ∷ [])) h1
          (still-Absent e.attribute.key c.attributes c1.attributes es same a n) as1 ws in
      (
        d,
        rw (q, ◌>>=◌) q1,
        subst (λ (x : List Entry). Has f d x (ds ++ singles (e ∷ es))) (multis-cons e es dm)
            (subst (λ (x : List Entry). Has f d ((dm ++ multis (e ∷ [])) ++ multis es) x)
              (singles-cons e es ds) h2),
        any_step es c1 d any any1,
      )

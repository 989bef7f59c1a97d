-- ===== src/Attributes/Console/Grown.antt =====
-- Where a sequence of calls with one attribute puts its entry: behind the others.
use xm.Base.{
  ◌≡◌, ap, sym, ◌∙◌, subst, Bool, true, false, none, some, List, [], ◌∷◌, ◌++◌, Bytes, >>=-eq-some,
  Map, lookup, insert, insert-absent, insert-last, Bool-cases, inl, inr,
}
use xm.JBuilder.{JBuilder}
use xm.Metadata.{DataType}
use xm.Attributes.{SingleAttribute, MultiAttribute, AttributeBuilder, add_multi, add_single}
use xm.Attributes.History.{some_back}
use xm.Attributes.Touched.{add_multi-changed, add_single-changed, single_value-changed}
use xm.Attributes.Arguments.{Argument}
use xm.Attributes.Console.{Attribute, ConsoleBuilder, metadata, multi_value}
use xm.Attributes.Console.Builder.{Formats}
use xm.Attributes.Console.Methods.{perform, perform_all}
use xm.Attributes.Console.Rendered.{rendered, add_argument}
use xm.Attributes.Console.Performed.{perform-metadata}
use xm.Attributes.Console.Flushed.{multi_value-changed}

-- A map with one more entry at its end, which is marked as changed.
pub record Longer {A : Type 0} (changed : A → Bool) (key : Bytes) (es es' : Map A) : Type 0 where
  pub entry : A
  pub marked : changed entry ≡ true
  pub longer : es' ≡ es ++ (key, entry) ∷ []

pub put_first :
    {A : Type 0} (changed : A → Bool) (key : Bytes) (a : A) (es : Map A)
    → lookup key es ≡ none
    → changed a ≡ true
    → Longer changed key es (insert key a es)
put_first changed key a es h c = record { entry = a; marked = c; longer = insert-absent key a es h }

pub put_next :
    {A : Type 0} (changed : A → Bool) (key : Bytes) (a : A) (es es' : Map A)
    → lookup key es ≡ none
    → changed a ≡ true
    → Longer changed key es es'
    → Longer changed key es (insert key a es')
put_next changed key a es es' h c l = record {
  entry = a;
  marked = c;
  longer = ap (insert key a) l.longer ∙ insert-last key l.entry a es h;
}

-- What one call does to the two maps.
pub data Put (k : Attribute) (a b : AttributeBuilder) : Type 0 where
  put_multi :
      (m : MultiAttribute)
      → k.multiple ≡ true
      → m.changed ≡ true
      → b ≡ record a { any_changed = true; multi_map = insert k.key m a.multi_map }
      → Put k a b
  put_single :
      (s : SingleAttribute)
      → k.multiple ≡ false
      → s.changed ≡ true
      → b ≡ record a { any_changed = true; single_map = insert k.key s a.single_map }
      → Put k a b

metadata-Put :
    (fails : Bytes → Bool) (k : Attribute) (dt : DataType) (add : JBuilder → JBuilder)
    (c d : ConsoleBuilder)
    → metadata fails k dt add c ≡ some d
    → Put k c.attributes d.attributes
unfolding metadata
metadata-Put fails k dt add c d e = elim (Bool-cases k.multiple) [
  | inl m ↦
      let a = record c.attributes { any_changed = true } in
      let (m', p, q) =
        >>=-eq-some (multi_value k dt add (add_multi [] k.key a).1 (add_multi [] k.key a).0) _
          (rw (m, metadata) at e) in
      put_multi m' m
        (multi_value-changed k dt add (add_multi [] k.key a).1 (add_multi [] k.key a).0 m' p
          ∙ add_multi-changed [] k.key a)
        (ap (λ (x : ConsoleBuilder). x.attributes) (sym (some_back q)))
  | inr m ↦
      let a = record c.attributes { any_changed = true } in
      let (s, pre) = add_single k.console_key k.key a in
      put_single (xm.Attributes.single_value k.locked dt add pre s) m
        (single_value-changed k.locked dt add pre s ∙ add_single-changed k.console_key k.key a)
        (ap (λ (x : ConsoleBuilder). x.attributes) (sym (some_back (rw (m, metadata) at e))))
]

perform-Put :
    (f : Formats) (fails : Bytes → Bool) (k : Attribute) (v : Argument) (c d : ConsoleBuilder)
    → perform f fails k v c ≡ some d
    → Put k c.attributes d.attributes
perform-Put f fails k v c d e =
    metadata-Put fails k (rendered f k v).0 (add_argument f k v) c d
      (rw (perform-metadata f fails k v) at e)

-- What the calls do to the two maps.
pub record Grown (k : Attribute) (a b : AttributeBuilder) : Type 0 where
  pub any : b.any_changed ≡ true
  pub multi :
      k.multiple ≡ true
      → Longer (λ m. m.changed) k.key a.multi_map b.multi_map × (b.single_map ≡ a.single_map)
  pub single :
      k.multiple ≡ false
      → Longer (λ s. s.changed) k.key a.single_map b.single_map × (b.multi_map ≡ a.multi_map)

first-Grown :
    (k : Attribute) (a b : AttributeBuilder)
    → lookup k.key a.multi_map ≡ none
    → lookup k.key a.single_map ≡ none
    → Put k a b
    → Grown k a b
first-Grown k a b hm hs (put_multi m e c q) = record {
  any = ap (λ (x : AttributeBuilder). x.any_changed) q;
  multi = λ _. (
    subst (Longer (λ m. m.changed) k.key a.multi_map)
        (sym (ap (λ (x : AttributeBuilder). x.multi_map) q))
        (put_first (λ m. m.changed) k.key m a.multi_map hm c),
    ap (λ (x : AttributeBuilder). x.single_map) q,
  );
  single = λ n. absurd (cc (sym e ∙ n));
}
first-Grown k a b hm hs (put_single s e c q) = record {
  any = ap (λ (x : AttributeBuilder). x.any_changed) q;
  multi = λ n. absurd (cc (sym e ∙ n));
  single = λ _. (
    subst (Longer (λ s. s.changed) k.key a.single_map)
        (sym (ap (λ (x : AttributeBuilder). x.single_map) q))
        (put_first (λ s. s.changed) k.key s a.single_map hs c),
    ap (λ (x : AttributeBuilder). x.multi_map) q,
  );
}

next-Grown :
    (k : Attribute) (a b d : AttributeBuilder)
    → lookup k.key a.multi_map ≡ none
    → lookup k.key a.single_map ≡ none
    → Grown k a b
    → Put k b d
    → Grown k a d
next-Grown k a b d hm hs g (put_multi m e c q) =
    let (l, s) = g.multi e in
    record {
      any = ap (λ (x : AttributeBuilder). x.any_changed) q;
      multi = λ _. (
        subst (Longer (λ m. m.changed) k.key a.multi_map)
            (sym (ap (λ (x : AttributeBuilder). x.multi_map) q))
            (put_next (λ m. m.changed) k.key m a.multi_map b.multi_map hm c l),
        ap (λ (x : AttributeBuilder). x.single_map) q ∙ s,
      );
      single = λ n. absurd (cc (sym e ∙ n));
    }
next-Grown k a b d hm hs g (put_single s e c q) =
    let (l, m) = g.single e in
    record {
      any = ap (λ (x : AttributeBuilder). x.any_changed) q;
      multi = λ n. absurd (cc (sym e ∙ n));
      single = λ _. (
        subst (Longer (λ s. s.changed) k.key a.single_map)
            (sym (ap (λ (x : AttributeBuilder). x.single_map) q))
            (put_next (λ s. s.changed) k.key s a.single_map b.single_map hs c l),
        ap (λ (x : AttributeBuilder). x.multi_map) q ∙ m,
      );
    }

module _ (f : Formats) (fails : Bytes → Bool) (k : Attribute) (a : AttributeBuilder)
    (hm : lookup k.key a.multi_map ≡ none) (hs : lookup k.key a.single_map ≡ none) where
  later-Grown :
      (vs : List Argument) (c d : ConsoleBuilder)
      → Grown k a c.attributes
      → perform_all f fails k vs c ≡ some d
      → Grown k a d.attributes
  unfolding perform_all
  later-Grown [] c d g e = subst (λ (x : ConsoleBuilder). Grown k a x.attributes) (some_back e) g
  later-Grown (v ∷ vs) c d g e =
      let (c1, p, q) = >>=-eq-some (perform f fails k v c) (perform_all f fails k vs) e in
      later-Grown vs c1 d
        (next-Grown k a c.attributes c1.attributes hm hs g (perform-Put f fails k v c c1 p)) q

pub perform_all-Grown :
    (f : Formats) (fails : Bytes → Bool) (k : Attribute) (v : Argument) (vs : List Argument)
    (c d : ConsoleBuilder)
    → lookup k.key c.attributes.multi_map ≡ none
    → lookup k.key c.attributes.single_map ≡ none
    → perform_all f fails k (v ∷ vs) c ≡ some d
    → Grown k c.attributes d.attributes
unfolding perform_all
perform_all-Grown f fails k v vs c d hm hs e =
    let (c1, p, q) = >>=-eq-some (perform f fails k v c) (perform_all f fails k vs) e in
    later-Grown f fails k c.attributes hm hs vs c1 d
      (first-Grown k c.attributes c1.attributes hm hs (perform-Put f fails k v c c1 p)) q

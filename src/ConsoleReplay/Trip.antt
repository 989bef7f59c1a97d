-- ===== src/ConsoleReplay/Trip.antt =====
-- The attributes of a span on their way through the methods of xopconsole's builder, Append and collectMetadata.
use xm.Base.{
  ℕ, ◌≡◌, refl, ap, sym, ◌∙◌, Bool, true, Option, none, some, List, [], ◌∷◌, ◌++◌, Bytes, Map,
  lookup, length, Bool-cases, inl, inr, ◌==◌, All, append_assoc, append-nil, arith, All-perm,
}
use Prim.{tt}
use mathlib.Core.List.{Permᴰ}
use mathlib.Core.List
use xm.JBuilder.{JBuilder, append_bytes}
use xm.Attributes.{
  SingleAttribute, MultiAttribute, AttributeBuilder, init, nothing_to_append, append_entries,
}
use xm.Attributes.Flush.{append_entries-those, write_all}
use xm.Attributes.Console.{Request, ConsoleBuilder, append, write_multi, write_single}
use xm.Attributes.Console.Builder.{Formats}
use xm.Attributes.Console.Rendered.{Documented}
use xm.ConsoleReplay.Metadata.{AttributeType, Parsers, SpanCall, collect_metadata}
use xm.ConsoleReplay.Words.{behind}
use xm.ConsoleReplay.Values.{Inverse}
use xm.ConsoleReplay.RoundTrip.{
  Entry, IsEntry, tail_text, calls_of, rounds, collect_metadata-tail_text,
}
use xm.ConsoleReplay.Made.{
  perform_entries, multis, singles, multis-singles, Apart, KeepsAll, entry_text, Made, Made-Permᴰ,
  Made-those, entries_text, entries_text-append, write_all-entries_text,
}
use xm.ConsoleReplay.Appended.{Absent, Has, AnyAfter, entries-Has}

entries_text-tail_text :
    (f : Formats) (p : Parsers) (definitions : Bytes → Option AttributeType) (es : List Entry)
    → All (IsEntry f p definitions) es
    → entries_text f es ≡ tail_text f p definitions es
unfolding entries_text tail_text entry_text
entries_text-tail_text f p definitions [] h = refl
entries_text-tail_text f p definitions (e ∷ es) (h, hs) =
    rw (h.key_text, entries_text-tail_text f p definitions es hs) (simp append_assoc refl)

none_left : {A : Type 0} (xs ys : Map A) → (length xs == 0) ≡ true → Permᴰ xs ys → ys ≡ []
none_left [] [] h p = refl
none_left [] (y ∷ ys) h p = absurd (All-perm (λ _. ⊥) [] (y ∷ ys) p tt).0
none_left (x ∷ xs) ys h p = absurd (ground arith)

module _ (f : Formats) where
  nothing-Made :
      {A : Type 0} (changed : A → Bool) (text : A → Bytes) (ys : Map A) (es : List Entry)
      → ys ≡ []
      → Made f changed text ys es
      → es ≡ []
  unfolding Made
  nothing-Made changed text [] [] q h = refl
  nothing-Made changed text [] (e ∷ es) q h = absurd h
  nothing-Made changed text (y ∷ ys) es q h = absurd cc

  append_entries-entries_text :
      {A : Type 0} (changed : A → Bool) (text : A → Bytes) (write : A → JBuilder → JBuilder)
      → ((a : A) (j : JBuilder) → (write a j).b ≡ j.b ++ b' ' ∷ text a)
      → (only_changed : Bool) (xs : Map A) (es : List Entry) (j : JBuilder)
      → Made f changed text xs es
      → (append_entries changed write only_changed xs j).b ≡ j.b ++ entries_text f es
  append_entries-entries_text {A} changed text write w oc xs es j h =
      ap (λ (x : JBuilder). x.b) (append_entries-those changed write oc xs j)
      ∙ (ap (λ (zs : Map A). (write_all changed write zs j).b)
            (Made-those f changed text oc xs es h)
          ∙ write_all-entries_text f changed text write w xs es j h)

  write_multi-text :
      (m : MultiAttribute) (j : JBuilder) → (write_multi m j).b ≡ j.b ++ b' ' ∷ m.builder.b
  unfolding write_multi append_bytes
  write_multi-text m j = append_assoc j.b (b' ' ∷ []) m.builder.b

  write_single-text :
      (s : SingleAttribute) (j : JBuilder) → (write_single s j).b ≡ j.b ++ b' ' ∷ s.key_value
  unfolding write_single append_bytes
  write_single-text s j = append_assoc j.b (b' ' ∷ []) s.key_value

  append-entries_text :
      (ms : Map MultiAttribute) (ss : Map SingleAttribute) (only_changed : Bool)
      (a : AttributeBuilder) (j : JBuilder) (em es : List Entry)
      → a.any_changed ≡ true
      → Permᴰ a.multi_map ms
      → Permᴰ a.single_map ss
      → Made f (λ m. m.changed) (λ m. m.builder.b) ms em
      → Made f (λ s. s.changed) (λ s. s.key_value) ss es
      → (append ms ss only_changed a j).0.b ≡ j.b ++ entries_text f (em ++ es)
  unfolding append nothing_to_append entries_text
  append-entries_text ms ss oc a j em es c pm ps hm hs =
      elim (Bool-cases (nothing_to_append oc a)) [
        | inl e ↦
            let qm = nothing-Made _ _ ms em (none_left a.multi_map ms (ground arith) pm) hm in
            let qs = nothing-Made _ _ ss es (none_left a.single_map ss (ground arith) ps) hs in
            simp (e, qm, qs) (sym (append-nil j.b))
        | inr e ↦ simp e (
            let j1 = append_entries (λ m. m.changed) write_multi oc ms j in
            append_entries-entries_text (λ s. s.changed) (λ s. s.key_value) write_single
              write_single-text oc ss es j1 hs
            ∙ (ap (λ (x : Bytes). x ++ entries_text f es)
                  (append_entries-entries_text (λ m. m.changed) (λ m. m.builder.b) write_multi
                    write_multi-text oc ms em j hm)
                ∙ (append_assoc j.b (entries_text f em) (entries_text f es)
                    ∙ ap (◌++◌ j.b) (sym (entries_text-append f em es)))))
      ]

Absent-init : (es : List Entry) → Absent init es
unfolding init lookup
Absent-init [] = tt
Absent-init (e ∷ es) = ((refl, refl), Absent-init es)

start-Has : (f : Formats) (r : Request) → Has f (record { attributes = init; request = r }) [] []
unfolding init Made
start-Has f r = record { made_multis = tt; made_singles = tt }

-- Calls of the methods of xopconsole's builder, with the values of one attribute after those of another, do not
-- panic, whatever the order in which Append then visits its maps. What Append writes, less the first space,
-- is read by collectMetadata without an error, in as many rounds as there are keys and values and one for
-- the end, and makes exactly the calls on the span that give it the values of all the attributes, in the
-- order in which the attributes were written. There is an attribute at least, no two have the same key, and
-- each keeps all the values that it gets. Each key must be a text without an equals sign that a definition
-- is found for, whose attribute can be constructed, and strconv and time must read what they write and
-- write no text that is empty or ends in a comma; each value must be one that can be read: names of enums
-- that need no quotes, finite floats, durations that need none, times in ASCII, links with an accepted
-- header, and strings that strconv understands when they are escaped for JSON.
pub collect_metadata-append :
    (f : Formats) (p : Parsers) (definitions : Bytes → Option AttributeType) (fails : Bytes → Bool)
    (r : Request) (e : Entry) (es : List Entry) (only_changed : Bool)
    (order_multis : Map MultiAttribute → Map MultiAttribute)
    (order_singles : Map SingleAttribute → Map SingleAttribute) (j : JBuilder)
    (calls : List SpanCall) (n : ℕ)
    → Documented f
    → Inverse p
    → ((m : Map MultiAttribute) → Permᴰ m (order_multis m))
    → ((s : Map SingleAttribute) → Permᴰ s (order_singles s))
    → Apart (e ∷ es)
    → All KeepsAll (e ∷ es)
    → All (IsEntry f p definitions) (e ∷ es)
    → (c : ConsoleBuilder) × (perform_entries f fails
          (e ∷ es)
          (record { attributes = init; request = r })
        ≡ some c)
      × ((ds : List Entry) × Permᴰ (e ∷ es) ds
          × ((x : Bytes) × ((append
                  (order_multis c.attributes.multi_map)
                  (order_singles c.attributes.single_map)
                  only_changed
                  c.attributes
                  j).0.b
                ≡ j.b ++ x)
              × (collect_metadata p (rounds f p definitions ds n) definitions none (behind x) calls
                  ≡ some (calls ++ calls_of f p definitions ds, true))))
unfolding AnyAfter
collect_metadata-append f p definitions fails r e es oc om os j calls n doc inv pm ps apart keep
      is =
    let (c, q, h, any) =
      entries-Has f fails doc (e ∷ es) (record { attributes = init; request = r }) [] []
        (start-Has f r) (Absent-init (e ∷ es)) apart keep in
    let (dm, rm, gm) =
      Made-Permᴰ f (λ m. m.changed) (λ m. m.builder.b) c.attributes.multi_map
        (om c.attributes.multi_map) (multis (e ∷ es)) (pm c.attributes.multi_map) h.made_multis in
    let (dss, rs, gs) =
      Made-Permᴰ f (λ s. s.changed) (λ s. s.key_value) c.attributes.single_map
        (os c.attributes.single_map) (singles (e ∷ es)) (ps c.attributes.single_map)
        h.made_singles in
    let perm : Permᴰ (e ∷ es) (dm ++ dss) = List.Permᴰ.trans (multis-singles (e ∷ es)) (
      List.Permᴰ.trans (List.Permᴰ.append_right (singles (e ∷ es)) rm)
        (List.Permᴰ.append_left dm rs)) in
    let all : All (IsEntry f p definitions) (dm ++ dss) =
      All-perm (IsEntry f p definitions) (e ∷ es) (dm ++ dss) perm is in
    (
      c,
      q,
      (
        dm ++ dss,
        perm,
        (
          tail_text f p definitions (dm ++ dss),
          append-entries_text f (om c.attributes.multi_map) (os c.attributes.single_map) oc
                c.attributes j dm dss any (pm c.attributes.multi_map) (ps c.attributes.single_map)
                gm gs
              ∙ ap (◌++◌ j.b) (entries_text-tail_text f p definitions (dm ++ dss) all),
          collect_metadata-tail_text f p definitions n (dm ++ dss) calls inv all,
        ),
      ),
    )

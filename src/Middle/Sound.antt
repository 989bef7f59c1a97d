-- ===== src/Middle/Sound.antt =====
-- Whatever the headers hold and the random bytes are, the trace of the new logger is well formed.
use xm.Base.{
  ◌≡◌, refl, ap, sym, subst, ◌∙◌, Bool, true, false, Option, none, some, List, [], ◌∷◌, Bytes,
  arith, bytes_eq, if◌then◌else◌, not,
}
use xm.Trace.Arrays.{is_zero_hex}
use xm.Trace.{
  Trace, Field, trace_id, span_id, flags, get, new_trace, initialize, set_string_of, set_zero_of,
  set_random_of, trace_from_string,
}
use xm.Trace.Bundle.{Bundle}
use xm.Trace.Coherent.{
  IsCoherent, IsValid, IsCoherent-IsValid, initialize-IsCoherent, initialize_idle,
}
use xm.Trace.Operations.{
  set_bytes_of-IsCoherent, set_string_of-IsCoherent, set_zero_of-IsCoherent, new_trace-IsCoherent,
}
use xm.Trace.Random.{AreDraws, set_random_of-IsCoherent, set_random_of_ne}
use xm.Trace.Canonical.{set_string-IsCoherent}
use xm.Middle.Ensures.{Ensures, Ensures-bind, Ensures-if, Ensures-of, Ensures-result}
use xm.Middle.{
  Drawn, set_both_random, set_by_parent_trace_header, set_by_b3_sampled, b3_parent, B3Parts,
  find_b3_submatch, set_by_b3_header, Headers, set_by_b3_headers, set_by_headers, randomize_zero,
  child_bundle, is_sampled_word, sampled_words,
}

-- A bundle of two valid traces.
pub record IsValidBundle (b : Bundle) : Type 0 where
  pub valid_parent : IsValid b.parent
  pub valid_trace : IsValid b.trace

-- A coherent trace with a value in the field.
abbrev pub HasId : Field → Trace → Type 0
HasId f t = IsCoherent t × (is_zero_hex (get f t) ≡ false)

set_random_of-Ensures :
    (f : Field) (t : Trace) (draws : List Bytes)
    → IsValid t
    → AreDraws draws
    → Ensures (HasId f) (set_random_of f t draws)
set_random_of-Ensures f t draws v hd =
    Ensures-of (HasId f) (set_random_of f t draws)
      λ u rest e. let (c, z, r) = set_random_of-IsCoherent f t draws u rest v hd e in ((c, z), r)

set_both_random-Ensures :
    (t : Trace) (draws : List Bytes)
    → IsValid t
    → AreDraws draws
    → Ensures (HasId span_id) (set_both_random t draws)
unfolding set_both_random
set_both_random-Ensures t draws v hd =
    Ensures-bind (HasId trace_id) (HasId span_id) (set_random_of trace_id t draws) _
      (set_random_of-Ensures trace_id t draws v hd)
      λ p h r. set_random_of-Ensures span_id p.0 p.1 (IsCoherent-IsValid h.0) r

pub trace_from_string-IsCoherent : (s : Bytes) → IsCoherent (trace_from_string s).0
unfolding trace_from_string
trace_from_string-IsCoherent s = set_string-IsCoherent s

set_by_parent_trace_header-Ensures :
    (b : Bundle) (h : Bytes) (draws : List Bytes)
    → IsValidBundle b
    → AreDraws draws
    → Ensures IsValidBundle (set_by_parent_trace_header b h draws)
unfolding set_by_parent_trace_header
set_by_parent_trace_header-Ensures b h draws v hd =
    Ensures-if IsValidBundle (not (trace_from_string h).1) _ _
      (λ _.
        Ensures-bind (HasId span_id) IsValidBundle (set_both_random new_trace draws) _
          (set_both_random-Ensures new_trace draws (IsCoherent-IsValid new_trace-IsCoherent) hd)
          λ p c r.
            (record { valid_parent = v.valid_parent; valid_trace = IsCoherent-IsValid c.0 }, r))
      (λ _.
        Ensures-bind (HasId span_id) IsValidBundle
          (set_random_of span_id (trace_from_string h).0 draws) _
          (set_random_of-Ensures span_id (trace_from_string h).0 draws
            (IsCoherent-IsValid (trace_from_string-IsCoherent h)) hd)
          λ p c r. (
            record {
              valid_parent = IsCoherent-IsValid (trace_from_string-IsCoherent h);
              valid_trace = IsCoherent-IsValid c.0;
            },
            r,
          ))

pub set_by_b3_sampled-IsValid :
    (t : Trace) (h : Bytes) → IsValid t → IsValid (set_by_b3_sampled t h)
unfolding set_by_b3_sampled
set_by_b3_sampled-IsValid t h v = ground (
  arith,
  IsCoherent-IsValid (set_bytes_of-IsCoherent flags (1 ∷ []) t (omega arith) v),
  IsCoherent-IsValid (set_bytes_of-IsCoherent flags (0 ∷ []) t (omega arith) v),
)

pub set_string_of-IsValid :
    (f : Field) (h : Bytes) (t : Trace) → IsValid t → IsValid (set_string_of f h t)
set_string_of-IsValid f h t v = IsCoherent-IsValid (set_string_of-IsCoherent f h t v)

pub set_zero_of-IsValid : (f : Field) (t : Trace) → IsValid t → IsValid (set_zero_of f t)
set_zero_of-IsValid f t v = IsCoherent-IsValid (set_zero_of-IsCoherent f t v)

pub if-IsValid : (b : Bool) (t u : Trace) → IsValid t → IsValid u → IsValid (if b then t else u)
if-IsValid true t u v w = v
if-IsValid false t u v w = w

pub b3_parent-IsValid : (m : B3Parts) (t : Trace) → IsValid t → IsValid (b3_parent m t)
unfolding b3_parent
b3_parent-IsValid m t v =
    let t1 = set_by_b3_sampled (set_string_of trace_id m.trace_id_part t) m.sampled_part in
    let v1 =
      set_by_b3_sampled-IsValid _ m.sampled_part
        (set_string_of-IsValid trace_id m.trace_id_part t v) in
    if-IsValid (bytes_eq m.parent_part []) _ _ (set_zero_of-IsValid span_id t1 v1)
      (set_string_of-IsValid span_id m.parent_part t1 v1)

set_by_b3_header-Ensures :
    (b : Bundle) (h : Bytes) (draws : List Bytes)
    → IsValidBundle b
    → AreDraws draws
    → Ensures IsValidBundle (set_by_b3_header b h draws)
unfolding set_by_b3_header
set_by_b3_header-Ensures b h draws v hd =
    Ensures-if IsValidBundle (is_sampled_word sampled_words h) _ _
      (λ _.
        let w = set_by_b3_sampled-IsValid new_trace h (IsCoherent-IsValid new_trace-IsCoherent) in
        Ensures-bind (HasId span_id) IsValidBundle
          (set_both_random (set_by_b3_sampled new_trace h) draws) _
          (set_both_random-Ensures (set_by_b3_sampled new_trace h) draws w hd)
          λ p c r. (record { valid_parent = w; valid_trace = IsCoherent-IsValid c.0 }, r))
      (λ _. matched (find_b3_submatch h) refl)
  where
    matched :
        (o : Option B3Parts)
        → find_b3_submatch h ≡ o
        → Ensures IsValidBundle (elim (find_b3_submatch h) as (λ _. Drawn Bundle) [
          | none ↦ some (b, draws)
          | some m ↦ some (
            record b {
              parent = b3_parent m b.parent;
              trace = set_string_of span_id m.span_id_part (b3_parent m b.parent);
            },
            draws,
          )
        ])
    matched none e = rw e (v, hd)
    matched (some m) e =
        let w = b3_parent-IsValid m b.parent v.valid_parent in
        rw e (
          record {
            valid_parent = w;
            valid_trace = set_string_of-IsValid span_id m.span_id_part (b3_parent m b.parent) w;
          },
          hd,
        )

set_by_b3_headers-Ensures :
    (b : Bundle) (r : Headers) (draws : List Bytes)
    → IsValidBundle b
    → AreDraws draws
    → Ensures IsValidBundle (set_by_b3_headers b r draws)
unfolding set_by_b3_headers
set_by_b3_headers-Ensures b r draws v hd =
    let t0 = set_string_of trace_id r.b3_trace_id b.trace in
    let v0 = set_string_of-IsValid trace_id r.b3_trace_id b.trace v.valid_trace in
    let t = if not (bytes_eq r.b3_sampled []) then set_by_b3_sampled t0 r.b3_sampled else t0 in
    let vt : IsValid t =
      if-IsValid (not (bytes_eq r.b3_sampled [])) _ _ (set_by_b3_sampled-IsValid t0 r.b3_sampled v0)
        v0 in
    let vp =
      if-IsValid (not (bytes_eq r.b3_parent_span_id [])) _ _
        (set_string_of-IsValid span_id r.b3_parent_span_id t vt)
        (set_zero_of-IsValid span_id t vt) in
    Ensures-if IsValidBundle (not (bytes_eq r.b3_span_id [])) _ _
      (λ _. (
        record { valid_parent = vp; valid_trace = set_string_of-IsValid span_id r.b3_span_id t vt },
        hd,
      ))
      (λ _.
        Ensures-bind (HasId span_id) IsValidBundle (set_random_of span_id t draws) _
          (set_random_of-Ensures span_id t draws vt hd)
          λ p c r'. (record { valid_parent = vp; valid_trace = IsCoherent-IsValid c.0 }, r'))

set_by_headers-Ensures :
    (b : Bundle) (r : Headers) (draws : List Bytes)
    → IsValidBundle b
    → AreDraws draws
    → Ensures IsValidBundle (set_by_headers b r draws)
unfolding set_by_headers
set_by_headers-Ensures b r draws v hd =
    Ensures-if IsValidBundle (not (bytes_eq r.b3 [])) _ _
      (λ _. set_by_b3_header-Ensures b r.b3 draws v hd)
      (λ _.
        Ensures-if IsValidBundle (not (bytes_eq r.traceparent [])) _ _
          (λ _. set_by_parent_trace_header-Ensures b r.traceparent draws v hd)
          (λ _.
            Ensures-if IsValidBundle (not (bytes_eq r.b3_trace_id [])) _ _
              (λ _. set_by_b3_headers-Ensures b r draws v hd) (λ _. (v, hd))))

-- What the logger of a request needs of its trace.
abbrev pub HasIds : Trace → Type 0
HasIds t = IsCoherent t × (is_zero_hex t.trace_id_hex ≡ false) × (is_zero_hex t.span_id_hex ≡ false)

span_random-Ensures :
    (t : Trace) (draws : List Bytes)
    → HasId trace_id t
    → AreDraws draws
    → Ensures HasIds
        (if is_zero_hex t.span_id_hex then set_random_of span_id t draws else some (t, draws))
span_random-Ensures t draws h hd =
    Ensures-if HasIds (is_zero_hex t.span_id_hex) _ _
      (λ _. Ensures-of HasIds (set_random_of span_id t draws) λ u rest e.
        let (c, z, r) =
          set_random_of-IsCoherent span_id t draws u rest (IsCoherent-IsValid h.0) hd e in
        let same =
          set_random_of_ne span_id trace_id t draws u rest (λ n. cc) e
          ∙ ap (get trace_id) (initialize_idle t h.0.init) in
        ((c, subst (λ x. is_zero_hex x ≡ false) (sym same) h.1, z), r))
      (λ z. ((h.0, h.1, z), hd))

randomize_zero-Ensures :
    (t : Trace) (draws : List Bytes)
    → IsValid t
    → AreDraws draws
    → Ensures HasIds (randomize_zero t draws)
unfolding randomize_zero
randomize_zero-Ensures t draws v hd =
    let c = initialize-IsCoherent t v in
    Ensures-bind (HasId trace_id) HasIds _ _
      (Ensures-if (HasId trace_id) (is_zero_hex (initialize t).trace_id_hex) _ _
        (λ _. set_random_of-Ensures trace_id (initialize t) draws (IsCoherent-IsValid c) hd)
        (λ z. ((c, z), hd)))
      λ p h r. span_random-Ensures p.0 p.1 h r

child_bundle-Ensures :
    (b : Bundle) (r : Headers) (draws : List Bytes)
    → IsValidBundle b
    → AreDraws draws
    → Ensures (λ (x : Bundle). IsValid x.parent × HasIds x.trace) (child_bundle b r draws)
unfolding child_bundle
child_bundle-Ensures b r draws v hd =
    Ensures-bind IsValidBundle _ (set_by_headers b r draws) _
      (set_by_headers-Ensures b r draws v hd)
      λ p w r'.
        Ensures-bind HasIds _ (randomize_zero p.0.trace p.1) _
          (randomize_zero-Ensures p.0.trace p.1 w.valid_trace r')
          λ q h r''. ((w.valid_parent, h), r'')

-- For any headers, when makeChildSpan gets its trace from a bundle of valid traces and draws of bytes,
-- that trace is coherent and neither its trace id nor its span id is zero; the parent is valid.
pub child_bundle-HasIds :
    (b : Bundle) (r : Headers) (draws : List Bytes) (x : Bundle) (rest : List Bytes)
    → IsValidBundle b
    → AreDraws draws
    → child_bundle b r draws ≡ some (x, rest)
    → IsValid x.parent × HasIds x.trace
child_bundle-HasIds b r draws x rest v hd e =
    Ensures-result _ (child_bundle b r draws) x rest (child_bundle-Ensures b r draws v hd) e

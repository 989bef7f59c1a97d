-- ===== src/Middle/Total.antt =====
-- The middleware always comes to an end: it takes at most four random draws that are not zero.
use xm.Base.{
  ◌+◌, ◌≤◌, ◌≡◌, refl, Bool, Option, none, some, List, [], ◌∷◌, Bytes, arith, bytes_eq,
  if◌then◌else◌, not, length,
}
use xm.Trace.Arrays.{is_zero_hex}
use xm.Trace.{
  Trace, Field, version, trace_id, span_id, flags, width, new_trace, initialize, set_string_of,
  set_random_of, trace_from_string,
}
use xm.Trace.Bundle.{Bundle}
use xm.Trace.Coherent.{IsValid, IsCoherent-IsValid, initialize-IsCoherent}
use xm.Trace.Operations.{new_trace-IsCoherent}
use xm.Trace.Random.{set_random_of_good, IsGoodDraw, set_random_of-IsCoherent}
use xm.Middle.Ensures.{AreGood, AreGood-AreDraws, Ends, Ends-now, Ends-bind, Ends-if}
use xm.Middle.Sound.{
  IsValidBundle, set_by_b3_sampled-IsValid, set_string_of-IsValid, set_zero_of-IsValid, if-IsValid,
  b3_parent-IsValid, trace_from_string-IsCoherent,
}
use xm.Middle.{
  set_both_random, set_by_parent_trace_header, set_by_b3_sampled, b3_parent, B3Parts,
  find_b3_submatch, Drawn, set_by_b3_header, Headers, set_by_b3_headers, set_by_headers,
  randomize_zero, child_bundle, is_sampled_word, sampled_words,
}

abbrev IsId : Field → Type 0
IsId version = ⊥
IsId trace_id = Unit
IsId span_id = Unit
IsId flags = ⊥

pick : (f : Field) (d : Bytes) → IsId f → IsGoodDraw 16 d → IsGoodDraw 8 d → IsGoodDraw (width f) d
pick version d i g h = absurd i
pick trace_id d i g h = g
pick span_id d i g h = h
pick flags d i g h = absurd i

set_random_of-Ends :
    (f : Field) (t : Trace) (draws : List Bytes)
    → IsId f
    → IsValid t
    → AreGood draws
    → 1 ≤ length draws
    → Ends IsValid 1 draws (set_random_of f t draws)
set_random_of-Ends f t [] i v g n = absurd (omega arith)
set_random_of-Ends f t (d ∷ draws) i v (g, gs) n =
    let (u, e) = set_random_of_good f t d draws v (pick f d i g.1 g.2) in
    let (c, z, r) =
      set_random_of-IsCoherent f t (d ∷ draws) u draws v (AreGood-AreDraws (d ∷ draws) (g, gs)) e in
    ((u, draws), e, IsCoherent-IsValid c, gs, omega arith)

set_both_random-Ends :
    (t : Trace) (draws : List Bytes)
    → IsValid t
    → AreGood draws
    → 2 ≤ length draws
    → Ends IsValid 2 draws (set_both_random t draws)
unfolding set_both_random
set_both_random-Ends t draws v g n =
    Ends-bind IsValid IsValid 1 1 draws (set_random_of trace_id t draws) _
      (set_random_of-Ends trace_id t draws tt v g (omega arith))
      λ p w g' m. set_random_of-Ends span_id p.0 p.1 tt w g' (omega arith)

set_by_parent_trace_header-Ends :
    (b : Bundle) (h : Bytes) (draws : List Bytes)
    → IsValidBundle b
    → AreGood draws
    → 2 ≤ length draws
    → Ends IsValidBundle 2 draws (set_by_parent_trace_header b h draws)
unfolding set_by_parent_trace_header
set_by_parent_trace_header-Ends b h draws v g n =
    Ends-if IsValidBundle 2 draws (not (trace_from_string h).1) _ _
      (λ _.
        Ends-bind IsValid IsValidBundle 2 0 draws (set_both_random new_trace draws) _
          (set_both_random-Ends new_trace draws (IsCoherent-IsValid new_trace-IsCoherent) g n)
          λ p w g' m.
            Ends-now IsValidBundle 0 p.1 _
              (record { valid_parent = v.valid_parent; valid_trace = w }) g')
      (λ _.
        Ends-bind IsValid IsValidBundle 1 1 draws
          (set_random_of span_id (trace_from_string h).0 draws) _
          (set_random_of-Ends span_id (trace_from_string h).0 draws tt
            (IsCoherent-IsValid (trace_from_string-IsCoherent h)) g (omega arith))
          λ p w g' m.
            Ends-now IsValidBundle 1 p.1 _
              (record {
                valid_parent = IsCoherent-IsValid (trace_from_string-IsCoherent h);
                valid_trace = w;
              })
              g')

set_by_b3_header-Ends :
    (b : Bundle) (h : Bytes) (draws : List Bytes)
    → IsValidBundle b
    → AreGood draws
    → 2 ≤ length draws
    → Ends IsValidBundle 2 draws (set_by_b3_header b h draws)
unfolding set_by_b3_header
set_by_b3_header-Ends b h draws v g n =
    Ends-if IsValidBundle 2 draws (is_sampled_word sampled_words h) _ _
      (λ _.
        let w = set_by_b3_sampled-IsValid new_trace h (IsCoherent-IsValid new_trace-IsCoherent) in
        Ends-bind IsValid IsValidBundle 2 0 draws
          (set_both_random (set_by_b3_sampled new_trace h) draws) _
          (set_both_random-Ends (set_by_b3_sampled new_trace h) draws w g n)
          λ p w' g' m.
            Ends-now IsValidBundle 0 p.1 _ (record { valid_parent = w; valid_trace = w' }) g')
      (λ _. matched (find_b3_submatch h) refl)
  where
    matched :
        (o : Option B3Parts)
        → find_b3_submatch h ≡ o
        → Ends IsValidBundle 2 draws (elim (find_b3_submatch h) as (λ _. Drawn Bundle) [
          | none ↦ some (b, draws)
          | some m ↦ some (
            record b {
              parent = b3_parent m b.parent;
              trace = set_string_of span_id m.span_id_part (b3_parent m b.parent);
            },
            draws,
          )
        ])
    matched none e = rw e (Ends-now IsValidBundle 2 draws b v g)
    matched (some m) e =
        let w = b3_parent-IsValid m b.parent v.valid_parent in
        rw e (
          Ends-now IsValidBundle 2 draws _
            (record {
              valid_parent = w;
              valid_trace = set_string_of-IsValid span_id m.span_id_part (b3_parent m b.parent) w;
            })
            g)

set_by_b3_headers-Ends :
    (b : Bundle) (r : Headers) (draws : List Bytes)
    → IsValidBundle b
    → AreGood draws
    → 2 ≤ length draws
    → Ends IsValidBundle 2 draws (set_by_b3_headers b r draws)
unfolding set_by_b3_headers
set_by_b3_headers-Ends b r draws v g n =
    let t0 = set_string_of trace_id r.b3_trace_id b.trace in
    let v0 = set_string_of-IsValid trace_id r.b3_trace_id b.trace v.valid_trace in
    let t = if not (bytes_eq r.b3_sampled []) then set_by_b3_sampled t0 r.b3_sampled else t0 in
    let vt : IsValid t =
      if-IsValid (not (bytes_eq r.b3_sampled [])) _ _ (set_by_b3_sampled-IsValid t0 r.b3_sampled v0)
        v0 in
    let vp =
      if-IsValid (not (bytes_eq r.b3_parent_span_id [])) _ _
        (set_string_of-IsValid span_id r.b3_parent_span_id t vt)
        (set_zero_of-IsValid span_id t vt) in
    Ends-if IsValidBundle 2 draws (not (bytes_eq r.b3_span_id [])) _ _
      (λ _.
        Ends-now IsValidBundle 2 draws _
          (record {
            valid_parent = vp;
            valid_trace = set_string_of-IsValid span_id r.b3_span_id t vt;
          })
          g)
      (λ _.
        Ends-bind IsValid IsValidBundle 1 1 draws (set_random_of span_id t draws) _
          (set_random_of-Ends span_id t draws tt vt g (omega arith))
          λ p w g' m.
            Ends-now IsValidBundle 1 p.1 _ (record { valid_parent = vp; valid_trace = w }) g')

set_by_headers-Ends :
    (b : Bundle) (r : Headers) (draws : List Bytes)
    → IsValidBundle b
    → AreGood draws
    → 2 ≤ length draws
    → Ends IsValidBundle 2 draws (set_by_headers b r draws)
unfolding set_by_headers
set_by_headers-Ends b r draws v g n =
    Ends-if IsValidBundle 2 draws (not (bytes_eq r.b3 [])) _ _
      (λ _. set_by_b3_header-Ends b r.b3 draws v g n)
      (λ _.
        Ends-if IsValidBundle 2 draws (not (bytes_eq r.traceparent [])) _ _
          (λ _. set_by_parent_trace_header-Ends b r.traceparent draws v g n)
          (λ _.
            Ends-if IsValidBundle 2 draws (not (bytes_eq r.b3_trace_id [])) _ _
              (λ _. set_by_b3_headers-Ends b r draws v g n)
              (λ _. Ends-now IsValidBundle 2 draws b v g)))

id_random-Ends :
    (f : Field) (b : Bool) (t : Trace) (draws : List Bytes)
    → IsId f
    → IsValid t
    → AreGood draws
    → 1 ≤ length draws
    → Ends IsValid 1 draws (if b then set_random_of f t draws else some (t, draws))
id_random-Ends f b t draws i v g n =
    Ends-if IsValid 1 draws b _ _ (λ _. set_random_of-Ends f t draws i v g n)
      (λ _. Ends-now IsValid 1 draws t v g)

randomize_zero-Ends :
    (t : Trace) (draws : List Bytes)
    → IsValid t
    → AreGood draws
    → 2 ≤ length draws
    → Ends IsValid 2 draws (randomize_zero t draws)
unfolding randomize_zero
randomize_zero-Ends t draws v g n =
    let w = IsCoherent-IsValid (initialize-IsCoherent t v) in
    Ends-bind IsValid IsValid 1 1 draws _ _
      (id_random-Ends trace_id (is_zero_hex (initialize t).trace_id_hex) (initialize t) draws tt w g
        (omega arith))
      λ p w' g' m.
        id_random-Ends span_id (is_zero_hex p.0.span_id_hex) p.0 p.1 tt w' g' (omega arith)

child_bundle-Ends :
    (b : Bundle) (r : Headers) (draws : List Bytes)
    → IsValidBundle b
    → AreGood draws
    → 4 ≤ length draws
    → Ends IsValidBundle 4 draws (child_bundle b r draws)
unfolding child_bundle
child_bundle-Ends b r draws v g n =
    Ends-bind IsValidBundle IsValidBundle 2 2 draws (set_by_headers b r draws) _
      (set_by_headers-Ends b r draws v g (omega arith))
      λ p w g' m.
        Ends-bind IsValid IsValidBundle 2 0 p.1 (randomize_zero p.0.trace p.1) _
          (randomize_zero-Ends p.0.trace p.1 w.valid_trace g' (omega arith))
          λ q u g'' m'.
            Ends-now IsValidBundle 0 q.1 _
              (record { valid_parent = w.valid_parent; valid_trace = u }) g''

-- For any headers, makeChildSpan gets its trace from a bundle of valid traces when at least four draws
-- are to come, and all are as long as a trace id and not zero in their first 8 bytes; it takes at most
-- four of them.
pub child_bundle_ends :
    (b : Bundle) (r : Headers) (draws : List Bytes)
    → IsValidBundle b
    → AreGood draws
    → 4 ≤ length draws
    → (x : Bundle) × (rest : List Bytes) × (child_bundle b r draws ≡ some (x, rest))
      × (length draws ≤ length rest + 4)
child_bundle_ends b r draws v g n =
    let (p, e, h, g', m) = child_bundle-Ends b r draws v g n in (p.0, p.1, e, m)

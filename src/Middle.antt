-- ===== src/Middle.antt =====
-- xopmiddle: how the headers of an inbound request set the trace of its logger. Random identifiers
-- come from `draws`, the bytes that crypto/rand delivers next (Trace/Arrays.antt).
pub mod Ensures
pub mod Sound
pub mod Total
pub mod Propagate
mod Tests
use xm.Base.{
  ℕ, Bool, true, false, Option, none, some, List, [], ◌∷◌, ◌++◌, Bytes, codes, bytes_eq, ◌>>=◌,
  if◌then◌else◌, ◌||◌, not,
}
use xm.Trace.Arrays.{is_zero_hex}
use xm.Trace.Header.{take_hex, take_dash, take_end}
use xm.Trace.{
  Trace, trace_id, span_id, flags, get, new_trace, initialize, set_bytes_of, set_string_of,
  set_zero_of, set_random_of, trace_from_string,
}
use xm.Trace.Bundle.{Bundle}

-- What a function that draws random bytes returns, with the draws that are left.
abbrev pub Drawn : Type 0 → Type 0
Drawn A = Option (A × List Bytes)

-- `t.TraceID().SetRandom(); t.SpanID().SetRandom()`
unfoldable pub set_both_random : Trace → List Bytes → Drawn Trace
set_both_random t draws = do p ← set_random_of trace_id t draws; set_random_of span_id p.0 p.1

unfoldable pub set_by_parent_trace_header : Bundle → Bytes → List Bytes → Drawn Bundle
set_by_parent_trace_header b h draws =
    let parent = (trace_from_string h).0 in
    if not (trace_from_string h).1
    then (do p ← set_both_random new_trace draws; some (record b { trace = p.0 }, p.1))
    else (do
      p ← set_random_of span_id parent draws
      some (record b { parent = parent; trace = p.0 }, p.1))

unfoldable pub set_by_b3_sampled : Trace → Bytes → Trace
set_by_b3_sampled t h =
    if bytes_eq h (codes "1") || (bytes_eq h (codes "true") || bytes_eq h (codes "d"))
    then set_bytes_of flags (1 ∷ []) t
    else if bytes_eq h (codes "0") || bytes_eq h (codes "false")
    then set_bytes_of flags (0 ∷ []) t
    else t

-- b3RE: ^([a-fA-F0-9]{32})-([a-fA-F0-9]{16})-(0|1|true|false|d)(?:-([a-fA-F0-9]{16}))?$
-- No word of the alternation begins another, so at most one of them matches.
strip_prefix : Bytes → Bytes → Option Bytes
strip_prefix [] s = some s
strip_prefix (c ∷ p) [] = none
strip_prefix (c ∷ p) (x ∷ s) = if bytes_eq (c ∷ []) (x ∷ []) then strip_prefix p s else none

abbrev pub sampled_words : List Bytes
sampled_words = codes "0" ∷ codes "1" ∷ codes "true" ∷ codes "false" ∷ codes "d" ∷ []

take_word : List Bytes → Bytes → Option (Bytes × Bytes)
unfolding strip_prefix
take_word [] s = none
take_word (w ∷ ws) s = elim (strip_prefix w s) [
  | some rest ↦ some (w, rest)
  | none ↦ take_word ws s
]

-- the optional group: empty, or a dash and sixteen digits up to the end
take_parent : Bytes → Option Bytes
take_parent [] = some []
take_parent (c ∷ s) = do rest ← take_dash (c ∷ s); p ← take_hex 16 rest; _ ← take_end p.1; some p.0

pub record B3Parts : Type 0 where
  pub trace_id_part : Bytes
  pub span_id_part : Bytes
  pub sampled_part : Bytes
  pub parent_part : Bytes

unfoldable pub find_b3_submatch : Bytes → Option B3Parts
unfolding take_word take_parent
find_b3_submatch s = do
  p1 ← take_hex 32 s
  s2 ← take_dash p1.1
  p3 ← take_hex 16 s2
  s4 ← take_dash p3.1
  p5 ← take_word sampled_words s4
  parent ← take_parent p5.1
  some (record {
    trace_id_part = p1.0;
    span_id_part = p3.0;
    sampled_part = p5.0;
    parent_part = parent;
  })

is_sampled_word : List Bytes → Bytes → Bool
is_sampled_word [] h = false
is_sampled_word (w ∷ ws) h = bytes_eq h w || is_sampled_word ws h

unfoldable pub b3_parent : B3Parts → Trace → Trace
b3_parent m t =
    let t1 = set_by_b3_sampled (set_string_of trace_id m.trace_id_part t) m.sampled_part in
    if bytes_eq m.parent_part []
    then set_zero_of span_id t1
    else set_string_of span_id m.parent_part t1

unfoldable pub set_by_b3_header : Bundle → Bytes → List Bytes → Drawn Bundle
unfolding is_sampled_word
set_by_b3_header b h draws =
    if is_sampled_word sampled_words h
    then (let parent = set_by_b3_sampled new_trace h in
        do p ← set_both_random parent draws; some (record b { parent = parent; trace = p.0 }, p.1))
    else elim (find_b3_submatch h) [
      | none ↦ some (b, draws)
      | some m ↦
          let parent = b3_parent m b.parent in
          some (
            record b { parent = parent; trace = set_string_of span_id m.span_id_part parent },
            draws,
          )
    ]

-- The headers that the middleware reads; one that is missing is empty.
pub record Headers : Type 0 where
  pub b3 : Bytes
  pub traceparent : Bytes
  pub b3_trace_id : Bytes
  pub b3_sampled : Bytes
  pub b3_parent_span_id : Bytes
  pub b3_span_id : Bytes

abbrev is_set : Bytes → Bool
is_set h = not (bytes_eq h [])

-- The branch of makeChildSpan for the separate X-B3 headers.
unfoldable pub set_by_b3_headers : Bundle → Headers → List Bytes → Drawn Bundle
set_by_b3_headers b r draws =
    let t0 = set_string_of trace_id r.b3_trace_id b.trace in
    let t = if is_set r.b3_sampled then set_by_b3_sampled t0 r.b3_sampled else t0 in
    let parent =
      if is_set r.b3_parent_span_id
      then set_string_of span_id r.b3_parent_span_id t
      else set_zero_of span_id t in
    if is_set r.b3_span_id
    then some (record b { parent = parent; trace = set_string_of span_id r.b3_span_id t }, draws)
    else (do
      p ← set_random_of span_id t draws
      some (record b { parent = parent; trace = p.0 }, p.1))

unfoldable pub set_by_headers : Bundle → Headers → List Bytes → Drawn Bundle
set_by_headers b r draws =
    if is_set r.b3
    then set_by_b3_header b r.b3 draws
    else if is_set r.traceparent
    then set_by_parent_trace_header b r.traceparent draws
    else if is_set r.b3_trace_id
    then set_by_b3_headers b r draws
    else some (b, draws)

-- `if t.TraceID().IsZero() { t.TraceID().SetRandom() }`, and so for SpanID
unfoldable pub randomize_zero : Trace → List Bytes → Drawn Trace
randomize_zero t draws = do
  p ←
      if is_zero_hex (initialize t).trace_id_hex
      then set_random_of trace_id (initialize t) draws
      else some (initialize t, draws)
  if is_zero_hex p.0.span_id_hex then set_random_of span_id p.0 p.1 else some p

-- The bundle that makeChildSpan gives to the request's logger, from the bundle of the seed.
unfoldable pub child_bundle : Bundle → Headers → List Bytes → Drawn Bundle
child_bundle b r draws = do
  p ← set_by_headers b r draws
  q ← randomize_zero p.0.trace p.1
  some (record (p.0) { trace = q.0 }, q.1)

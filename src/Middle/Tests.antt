-- ===== src/Middle/Tests.antt =====
-- xopmiddle: the theorems about the headers of a request at concrete inputs.
use xm.Base.{
  ◌≡◌, refl, ◌+◌, ◌≤◌, true, false, some, List, [], ◌∷◌, replicate, length, Bytes, bytes_eq, codes,
  map, arith,
}
use xm.Trace.Hex.{from_hex_char}
use xm.Trace.Header.{find_submatch}
use xm.Trace.Hex.Codec.{to_lower}
use xm.Trace.Arrays.{is_zero_hex}
use xm.Trace.{
  Trace, flags, trace_id, span_id, get, new_trace, string, trace_from_string, set_string,
  set_random_of,
}
use xm.Trace.Coherent.{IsCoherent, IsValid, IsCoherent-IsValid}
use xm.Trace.Operations.{new_trace-IsCoherent}
use xm.Trace.Bundle.{Bundle, new_bundle}
use xm.Trace.Random.{set_random_of_good, set_random_of-IsCoherent}
use xm.Middle.{Headers, child_bundle, set_by_parent_trace_header, set_both_random}
use xm.Middle.Ensures.{AreGood, AreGood-AreDraws}
use xm.Middle.Sound.{IsValidBundle, HasIds, trace_from_string-IsCoherent, child_bundle-HasIds}
use xm.Middle.Total.{child_bundle_ends}
use xm.Middle.Propagate.{
  Continues, set_by_parent_trace_header-Continues, set_by_parent_trace_header_restarts,
}

abbrev draws : List Bytes
draws = replicate 16 1 ∷ replicate 16 2 ∷ replicate 16 3 ∷ replicate 16 4 ∷ []

draws-AreGood : AreGood draws
unfolding bytes_eq
draws-AreGood = ground arith

abbrev draws_left : List Bytes
draws_left = replicate 16 2 ∷ replicate 16 3 ∷ replicate 16 4 ∷ []

-- A request with a traceparent and no other header of a trace.
abbrev request : Headers
request = record {
  b3 = [];
  traceparent = codes "00-0123456789ABCDEF0123456789ABCDEF-0123456789ABCDEF-01";
  b3_trace_id = [];
  b3_sampled = [];
  b3_parent_span_id = [];
  b3_span_id = [];
}

new_bundle-IsValid : IsValidBundle new_bundle
unfolding new_bundle
new_bundle-IsValid = record {
  valid_parent = IsCoherent-IsValid new_trace-IsCoherent;
  valid_trace = IsCoherent-IsValid new_trace-IsCoherent;
}

child_bundle_ends_example :
    (x : Bundle) × (rest : List Bytes) × (child_bundle new_bundle request draws ≡ some (x, rest))
    × (length draws ≤ length rest + 4)
child_bundle_ends_example =
    child_bundle_ends new_bundle request draws new_bundle-IsValid draws-AreGood (omega arith)

ended :
    (x : Bundle) × (rest : List Bytes) × (child_bundle new_bundle request draws ≡ some (x, rest))
    × (length draws ≤ length rest + 4)
ended = child_bundle_ends new_bundle request draws new_bundle-IsValid draws-AreGood (omega arith)

child_bundle-HasIds_example : IsValid ended.0.parent × HasIds ended.0.trace
child_bundle-HasIds_example =
    child_bundle-HasIds new_bundle request draws ended.0 ended.1 new_bundle-IsValid
      (AreGood-AreDraws draws draws-AreGood) ended.2

accepted : (trace_from_string request.traceparent).1 ≡ true
unfolding trace_from_string set_string find_submatch from_hex_char
accepted = refl

continued :
    (u : Trace) × (set_random_of span_id (trace_from_string request.traceparent).0 draws
      ≡ some (u, draws_left))
continued =
    set_random_of_good span_id (trace_from_string request.traceparent).0 (replicate 16 1) draws_left
      (IsCoherent-IsValid (trace_from_string-IsCoherent request.traceparent)) draws-AreGood.0.2

abbrev continuing : Bundle
continuing = record new_bundle {
  parent = (trace_from_string request.traceparent).0;
  trace = continued.0;
}

continues :
    set_by_parent_trace_header new_bundle request.traceparent draws ≡ some (continuing, draws_left)
unfolding set_by_parent_trace_header
continues = rw (accepted, continued.1) refl

set_by_parent_trace_header-Continues_example :
    (string continuing.parent ≡ map to_lower request.traceparent)
    × Continues continuing.parent continuing.trace
    × (continuing.state ≡ new_bundle.state)
    × (continuing.baggage ≡ new_bundle.baggage)
set_by_parent_trace_header-Continues_example =
    set_by_parent_trace_header-Continues new_bundle request.traceparent draws continuing draws_left
      (AreGood-AreDraws draws draws-AreGood) accepted continues

refused : (trace_from_string (codes "00-11-22-01")).1 ≡ false
unfolding trace_from_string set_string find_submatch from_hex_char
refused = refl

with_trace_id : (u : Trace) × (set_random_of trace_id new_trace draws ≡ some (u, draws_left))
with_trace_id =
    set_random_of_good trace_id new_trace (replicate 16 1) draws_left
      (IsCoherent-IsValid new_trace-IsCoherent) draws-AreGood.0.1

with_ids :
    (u : Trace) × (set_random_of span_id with_trace_id.0 draws_left
      ≡ some (u, replicate 16 3 ∷ replicate 16 4 ∷ []))
with_ids =
    set_random_of_good span_id with_trace_id.0 (replicate 16 2)
      (replicate 16 3 ∷ replicate 16 4 ∷ [])
      (IsCoherent-IsValid
        (set_random_of-IsCoherent trace_id new_trace draws with_trace_id.0 draws_left
          (IsCoherent-IsValid new_trace-IsCoherent) (AreGood-AreDraws draws draws-AreGood)
          with_trace_id.1).0)
      draws-AreGood.1.0.2

restarts :
    set_by_parent_trace_header new_bundle (codes "00-11-22-01") draws
    ≡ some (record new_bundle { trace = with_ids.0 }, replicate 16 3 ∷ replicate 16 4 ∷ [])
unfolding set_by_parent_trace_header set_both_random
restarts = rw (refused, with_trace_id.1, with_ids.1) refl

set_by_parent_trace_header_restarts_example :
    (new_bundle.parent ≡ new_bundle.parent)
    × IsCoherent with_ids.0
    × (is_zero_hex (get trace_id with_ids.0) ≡ false)
    × (is_zero_hex (get span_id with_ids.0) ≡ false)
    × (get flags with_ids.0 ≡ get flags new_trace)
set_by_parent_trace_header_restarts_example =
    set_by_parent_trace_header_restarts new_bundle (codes "00-11-22-01") draws
      (record new_bundle { trace = with_ids.0 }) (replicate 16 3 ∷ replicate 16 4 ∷ [])
      (AreGood-AreDraws draws draws-AreGood) refused restarts

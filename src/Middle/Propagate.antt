-- ===== src/Middle/Propagate.antt =====
-- What a traceparent header carries over into the new trace.
use xm.Base.{
  ◌≡◌, refl, ap, sym, subst, ◌∙◌, Bool, true, false, some, List, Bytes, map, ◌>>=◌, >>=-eq-some,
}
use xm.Trace.Hex.Codec.{to_lower}
use xm.Trace.Arrays.{is_zero_hex}
use xm.Trace.{
  Trace, version, trace_id, span_id, flags, get, new_trace, initialize, set_random_of,
  trace_from_string, string,
}
use xm.Trace.Bundle.{Bundle}
use xm.Trace.Coherent.{IsCoherent, IsCoherent-IsValid, initialize_idle}
use xm.Trace.Operations.{new_trace-IsCoherent}
use xm.Trace.Random.{AreDraws, set_random_of-IsCoherent, set_random_of_ne}
use xm.Trace.RoundTrip.{string-trace_from_string}
use xm.Middle.Sound.{trace_from_string-IsCoherent}
use xm.Middle.{set_both_random, set_by_parent_trace_header}

set_by_parent_accepted :
    (b : Bundle) (h : Bytes) (draws : List Bytes)
    → (trace_from_string h).1 ≡ true
    → set_by_parent_trace_header b h draws ≡ (
        set_random_of span_id (trace_from_string h).0 draws >>= λ (p : Trace × List Bytes).
        some (record b { parent = (trace_from_string h).0; trace = p.0 }, p.1))
unfolding set_by_parent_trace_header
set_by_parent_accepted b h draws a = simp a

set_by_parent_refused :
    (b : Bundle) (h : Bytes) (draws : List Bytes)
    → (trace_from_string h).1 ≡ false
    → set_by_parent_trace_header b h draws ≡ (
        set_both_random new_trace draws >>= λ (p : Trace × List Bytes).
        some (record b { trace = p.0 }, p.1))
unfolding set_by_parent_trace_header
set_by_parent_refused b h draws a = simp a

-- The new trace continues the parent: all but its span id, which is random and not zero.
pub record Continues (parent trace : Trace) : Type 0 where
  pub same_version : get version trace ≡ get version parent
  pub same_trace_id : get trace_id trace ≡ get trace_id parent
  pub same_flags : get flags trace ≡ get flags parent
  pub new_span_id : is_zero_hex (get span_id trace) ≡ false

continued :
    (t u : Trace) (draws rest : List Bytes)
    → IsCoherent t
    → AreDraws draws
    → set_random_of span_id t draws ≡ some (u, rest)
    → Continues t u
continued t u draws rest c hd e = record {
  same_version =
      set_random_of_ne span_id version t draws u rest (λ n. cc) e ∙ ap (get version) idle;
  same_trace_id =
      set_random_of_ne span_id trace_id t draws u rest (λ n. cc) e ∙ ap (get trace_id) idle;
  same_flags = set_random_of_ne span_id flags t draws u rest (λ n. cc) e ∙ ap (get flags) idle;
  new_span_id = (set_random_of-IsCoherent span_id t draws u rest (IsCoherent-IsValid c) hd e).1;
}
  where
    idle : initialize t ≡ t
    idle = initialize_idle t c.init

-- When SetByParentTraceHeader ends on a header that TraceFromString accepts, the parent shows the
-- header in lower case, the trace continues the parent with a span id that is not zero, and the state
-- and the baggage stay.
pub set_by_parent_trace_header-Continues :
    (b : Bundle) (h : Bytes) (draws : List Bytes) (x : Bundle) (rest : List Bytes)
    → AreDraws draws
    → (trace_from_string h).1 ≡ true
    → set_by_parent_trace_header b h draws ≡ some (x, rest)
    → (string x.parent ≡ map to_lower h)
      × Continues x.parent x.trace
      × (x.state ≡ b.state)
      × (x.baggage ≡ b.baggage)
set_by_parent_trace_header-Continues b h draws x rest hd a e =
    let t = (trace_from_string h).0 in
    let (p, d, e') =
      >>=-eq-some (set_random_of span_id t draws) _
        (sym (set_by_parent_accepted b h draws a) ∙ e) in
    let y : Bundle = record b { parent = t; trace = p.0 } in
    let q : y ≡ x = cc in
    let read : trace_from_string h ≡ (t, true) = ap (λ (k : Bool). (t, k)) a in
    subst
      (λ (z : Bundle).
        (string z.parent ≡ map to_lower h)
        × Continues z.parent z.trace
        × (z.state ≡ b.state)
        × (z.baggage ≡ b.baggage))
      q
      (
        string-trace_from_string h t read,
        continued t p.0 draws p.1 (trace_from_string-IsCoherent h) hd d,
        refl,
        refl,
      )

-- When SetByParentTraceHeader ends on a header that TraceFromString refuses, the parent stays, and the
-- trace is a coherent one with the flags of NewTrace and both ids not zero.
pub set_by_parent_trace_header_restarts :
    (b : Bundle) (h : Bytes) (draws : List Bytes) (x : Bundle) (rest : List Bytes)
    → AreDraws draws
    → (trace_from_string h).1 ≡ false
    → set_by_parent_trace_header b h draws ≡ some (x, rest)
    → (x.parent ≡ b.parent)
      × IsCoherent x.trace
      × (is_zero_hex (get trace_id x.trace) ≡ false)
      × (is_zero_hex (get span_id x.trace) ≡ false)
      × (get flags x.trace ≡ get flags new_trace)
unfolding set_both_random
set_by_parent_trace_header_restarts b h draws x rest hd a e =
    let (p, d, e') =
      >>=-eq-some (set_both_random new_trace draws) _
        (sym (set_by_parent_refused b h draws a) ∙ e) in
    let (p1, d1, d2) = >>=-eq-some (set_random_of trace_id new_trace draws) _ d in
    let (c1, z1, r1) =
      set_random_of-IsCoherent trace_id new_trace draws p1.0 p1.1
        (IsCoherent-IsValid new_trace-IsCoherent) hd d1 in
    let k = continued p1.0 p.0 p1.1 p.1 c1 r1 d2 in
    let (c2, z2, r2) =
      set_random_of-IsCoherent span_id p1.0 p1.1 p.0 p.1 (IsCoherent-IsValid c1) r1 d2 in
    let f1 =
      set_random_of_ne trace_id flags new_trace draws p1.0 p1.1 (λ n. cc) d1
      ∙ ap (get flags) (initialize_idle new_trace new_trace-IsCoherent.init) in
    let y : Bundle = record b { trace = p.0 } in
    let q : y ≡ x = cc in
    subst
      (λ (z : Bundle).
        (z.parent ≡ b.parent)
        × IsCoherent z.trace
        × (is_zero_hex (get trace_id z.trace) ≡ false)
        × (is_zero_hex (get span_id z.trace) ≡ false)
        × (get flags z.trace ≡ get flags new_trace))
      q
      (refl, c2, subst (λ v. is_zero_hex v ≡ false) (sym k.same_trace_id) z1, z2, k.same_flags ∙ f1)

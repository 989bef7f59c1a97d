-- ===== src/Trace/Canonical.antt =====
-- Reading a header: SetString, TraceFromString, String, and the JSON forms.
use xm.Base.{
  ◌≡◌, refl, ap, sym, subst, ◌∙◌, Bool, true, false, none, some, inl, inr, Bytes, Option-cases,
  arith,
}
use xm.Trace.Hex.{encode}
use xm.Trace.Hex.Fit.{fit, hex_value}
use xm.Trace.Arrays.{HexBytes}
use xm.Trace.Header.{Parts, find_submatch}
use xm.Trace.{
  Trace, Field, version, trace_id, span_id, flags, zero_trace, header_of, rebuild, initialize,
  sample, new_trace, store, set_array_of, set_string_of, set_string,
}
use xm.Trace.Coherent.{
  IsCoherent, IsValid, IsCoherent-IsValid, initialize-IsCoherent, initialize_idle, initialized-put,
}
use xm.Trace.Operations.{
  set_string_of-fit, set_string_of-IsCoherent, zero_trace-IsValid, new_trace-IsCoherent,
}

abbrev shown : Bytes → HexBytes
shown b = record { b = b; h = encode b }

-- The coherent trace with the given arrays.
abbrev pub trace_of : Bytes → Bytes → Bytes → Bytes → Trace
trace_of v i s f = record {
  version_hex = shown v;
  trace_id_hex = shown i;
  span_id_hex = shown s;
  flags_hex = shown f;
  header_string = header_of (encode v) (encode i) (encode s) (encode f);
  initialized = true;
}

pub coherent-trace_of :
    (t : Trace)
    → IsCoherent t
    → t ≡ trace_of t.version_hex.b t.trace_id_hex.b t.span_id_hex.b t.flags_hex.b
coherent-trace_of t c =
    ground (arith, c.shown version, c.shown trace_id, c.shown span_id, c.shown flags)

initialized-store : (f : Field) (b : Bytes) (t : Trace) → (store f b t).initialized ≡ t.initialized
unfolding rebuild
initialized-store f b t = initialized-put f (shown b) t

set_array_of-store :
    (f : Field) (b : Bytes) (t : Trace) → t.initialized ≡ true → set_array_of f b t ≡ store f b t
unfolding set_array_of
set_array_of-store f b t i = ap (store f b) (initialize_idle t i)

stores-trace_of :
    (v i s f : Bytes) (t : Trace)
    → t.initialized ≡ true
    → store flags f (store span_id s (store trace_id i (store version v t))) ≡ trace_of v i s f
unfolding rebuild
stores-trace_of v i s f t e = λ j. record {
  version_hex = shown v;
  trace_id_hex = shown i;
  span_id_hex = shown s;
  flags_hex = shown f;
  header_string = header_of (encode v) (encode i) (encode s) (encode f);
  initialized = e j;
}

-- Setting all four fields leaves nothing of the trace before.
set_arrays-trace_of :
    (v i s f : Bytes) (t : Trace)
    → IsValid t
    → set_array_of flags f
        (set_array_of span_id s (set_array_of trace_id i (set_array_of version v t)))
      ≡ trace_of v i s f
set_arrays-trace_of v i s f t valid =
    let t0 = initialize t in
    let i0 : t0.initialized ≡ true = (initialize-IsCoherent t valid).init in
    let t1 = store version v t0 in
    let i1 : t1.initialized ≡ true = initialized-store version v t0 ∙ i0 in
    let t2 = store trace_id i t1 in
    let i2 : t2.initialized ≡ true = initialized-store trace_id i t1 ∙ i1 in
    let t3 = store span_id s t2 in
    let i3 : t3.initialized ≡ true = initialized-store span_id s t2 ∙ i2 in
    let e1 : set_array_of version v t ≡ t1 = unfold set_array_of in refl in
    let e2 : set_array_of trace_id i (set_array_of version v t) ≡ t2 =
      ap (set_array_of trace_id i) e1 ∙ set_array_of-store trace_id i t1 i1 in
    let e3 : set_array_of span_id s (set_array_of trace_id i (set_array_of version v t)) ≡ t3 =
      ap (set_array_of span_id s) e2 ∙ set_array_of-store span_id s t2 i2 in
    ap (set_array_of flags f) e3 ∙ set_array_of-store flags f t3 i3 ∙ stores-trace_of v i s f t0 i0

pub set_string_accepts :
    (s : Bytes) (m : Parts) (t : Trace)
    → IsValid t
    → find_submatch s ≡ some m
    → set_string s t ≡ (
      trace_of
          (fit 1 (hex_value m.version_part))
          (fit 16 (hex_value m.trace_id_part))
          (fit 8 (hex_value m.span_id_part))
          (fit 1 (hex_value m.flags_part)),
      true,
    )
unfolding set_string
set_string_accepts s m t v e =
    let t1 = set_string_of version m.version_part t in
    let v1 = IsCoherent-IsValid (set_string_of-IsCoherent version m.version_part t v) in
    let t2 = set_string_of trace_id m.trace_id_part t1 in
    let v2 = IsCoherent-IsValid (set_string_of-IsCoherent trace_id m.trace_id_part t1 v1) in
    let t3 = set_string_of span_id m.span_id_part t2 in
    let v3 = IsCoherent-IsValid (set_string_of-IsCoherent span_id m.span_id_part t2 v2) in
    rw (e, set_string)
      (ap (λ (u : Trace). (u, true))
        (set_string_of-fit flags m.flags_part t3 v3
          ∙ ap (set_array_of flags _) (
              set_string_of-fit span_id m.span_id_part t2 v2
              ∙ ap (set_array_of span_id _) (
                  set_string_of-fit trace_id m.trace_id_part t1 v1
                  ∙ ap (set_array_of trace_id _) (set_string_of-fit version m.version_part t v)))
          ∙ set_arrays-trace_of _ _ _ _ t v))

-- A text of another form is refused; what is left of the trace is another matter.
pub set_string_refuses :
    (s : Bytes) (t : Trace)
    → find_submatch s ≡ none
    → set_string s t ≡ (initialize (sample t), false)
unfolding set_string
set_string_refuses s t e = rw (e, set_string)

pub set_string_accepts-IsCoherent :
    (s : Bytes) (m : Parts) (t : Trace)
    → IsValid t
    → find_submatch s ≡ some m
    → IsCoherent (set_string s t).0
unfolding set_string
set_string_accepts-IsCoherent s m t v e =
    let v1 = IsCoherent-IsValid (set_string_of-IsCoherent version m.version_part t v) in
    let v2 = IsCoherent-IsValid (set_string_of-IsCoherent trace_id m.trace_id_part _ v1) in
    let v3 = IsCoherent-IsValid (set_string_of-IsCoherent span_id m.span_id_part _ v2) in
    rw (e, set_string) (set_string_of-IsCoherent flags m.flags_part _ v3)

-- SetString on a zero trace leaves a coherent trace, whether or not it accepts the text.
pub set_string-IsCoherent : (s : Bytes) → IsCoherent (set_string s zero_trace).0
set_string-IsCoherent s = elim (Option-cases (find_submatch s)) [
  | inl e ↦
      subst IsCoherent (sym (ap (λ (p : Trace × Bool). p.0) (set_string_refuses s zero_trace e)))
        (unfold new_trace in new_trace-IsCoherent)
  | inr (m, e) ↦ set_string_accepts-IsCoherent s m zero_trace zero_trace-IsValid e
]

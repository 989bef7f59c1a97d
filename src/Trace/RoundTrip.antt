-- ===== src/Trace/RoundTrip.antt =====
-- Printing a trace and reading it back, both ways.
use xm.Base.{
  ℕ, zero, suc, ◌+◌, ◌*◌, ◌≡◌, ◌↔◌, refl, ap, sym, ◌∙◌, Bool, true, false, none, some, inl, inr, [],
  ◌∷◌, length, map, Bytes, AreBytes, Option-cases, arith,
}
use mathlib.Core.List.{map-append}
use xm.Trace.Hex.{encode, decode_string, from_hex_char}
use xm.Trace.Hex.Codec.{
  is_hex, to_lower, decode_string-encode, length-encode, encode-IsDigit, encode-decode_string,
}
use xm.Trace.Hex.Fit.{fit, hex_value, fit_exact}
use xm.Trace.Header.{dash, Parts, find_submatch}
use xm.Trace.Header.Match.{
  AreHex, IsGroup, AreGroups, spell, digits-AreHex, find_submatch-spell, find_submatch-eq-some,
}
use xm.Trace.{
  Trace, version, trace_id, span_id, flags, zero_trace, header_of, new_trace, set_string,
  trace_from_string, string,
}
use xm.Trace.Coherent.{IsCoherent, IsValid}
use xm.Trace.Operations.{zero_trace-IsValid}
use xm.Trace.Canonical.{trace_of, coherent-trace_of, set_string_accepts, set_string_refuses}

encode-IsGroup : (n : ℕ) (b : Bytes) → length b ≡ n → AreBytes b → IsGroup (2 * n) (encode b)
encode-IsGroup n b w h = record {
  size = omega (arith, length-encode b);
  hex = digits-AreHex (encode b) (encode-IsDigit b h);
}

hex_value-encode :
    (n : ℕ) (b : Bytes) → length b ≡ n → AreBytes b → fit n (hex_value (encode b)) ≡ b
hex_value-encode n b w h = rw (decode_string-encode b h, hex_value) (fit_exact n b w)

abbrev parts_of : Trace → Parts
parts_of t = record {
  version_part = encode t.version_hex.b;
  trace_id_part = encode t.trace_id_hex.b;
  span_id_part = encode t.span_id_hex.b;
  flags_part = encode t.flags_hex.b;
}

parts_of-AreGroups : (t : Trace) → IsCoherent t → AreGroups (parts_of t)
parts_of-AreGroups t c = record {
  version_group = encode-IsGroup 1 t.version_hex.b (c.arrays version).wide (c.arrays version).bytes;
  trace_id_group =
      encode-IsGroup 16 t.trace_id_hex.b (c.arrays trace_id).wide (c.arrays trace_id).bytes;
  span_id_group = encode-IsGroup 8 t.span_id_hex.b (c.arrays span_id).wide (c.arrays span_id).bytes;
  flags_group = encode-IsGroup 1 t.flags_hex.b (c.arrays flags).wide (c.arrays flags).bytes;
}

header-spell : (t : Trace) → IsCoherent t → t.header_string ≡ spell (parts_of t)
header-spell t c = ap (λ (u : Trace). u.header_string) (coherent-trace_of t c)

-- SetString of the header of a coherent trace turns any valid trace into that trace.
pub set_string-header :
    (t u : Trace) → IsCoherent t → IsValid u → set_string t.header_string u ≡ (t, true)
set_string-header t u c v =
    set_string_accepts t.header_string (parts_of t) u v (
      ap find_submatch (header-spell t c)
      ∙ find_submatch-spell (parts_of t) (parts_of-AreGroups t c))
    ∙ rw
        (
          hex_value-encode 1 t.version_hex.b (c.arrays version).wide (c.arrays version).bytes,
          hex_value-encode 16 t.trace_id_hex.b (c.arrays trace_id).wide (c.arrays trace_id).bytes,
          hex_value-encode 8 t.span_id_hex.b (c.arrays span_id).wide (c.arrays span_id).bytes,
          hex_value-encode 1 t.flags_hex.b (c.arrays flags).wide (c.arrays flags).bytes,
        )
        (ap (λ (w : Trace). (w, true)) (sym (coherent-trace_of t c)))

string-header : (t : Trace) → IsCoherent t → string t ≡ t.header_string
unfolding string
string-header t c = let i = c.init in rw i

-- Reading back what String shows of a coherent trace gives that trace, and reports success.
pub trace_from_string-string : (t : Trace) → IsCoherent t → trace_from_string (string t) ≡ (t, true)
unfolding trace_from_string
trace_from_string-string t c =
    ap (λ s. set_string s zero_trace) (string-header t c)
    ∙ set_string-header t zero_trace c zero_trace-IsValid

decode_string_total :
    (n : ℕ) (s : Bytes)
    → length s ≡ 2 * n
    → AreHex s
    → (b : Bytes) × (decode_string s ≡ some b) × (length b ≡ n)
unfolding decode_string
decode_string_total zero [] w h = ([], refl, refl)
decode_string_total zero (p ∷ s) w h = absurd (omega arith)
decode_string_total (suc n) [] w h = absurd (omega arith)
decode_string_total (suc n) (p ∷ []) w h = absurd (omega arith)
decode_string_total (suc n) (p ∷ q ∷ s) w (hp, (hq, hs)) =
    let (x, ex) = hex-value p hp in
    let (y, ey) = hex-value q hq in
    let (rest, er, wr) = decode_string_total n s (omega arith) hs in
    ((x * 16 + y) ∷ rest, rw (ex, ey, er), ap suc wr)
  where
    hex-value : (c : ℕ) → is_hex c ≡ true → (x : ℕ) × (from_hex_char c ≡ some x)
    hex-value c e = elim (Option-cases (from_hex_char c)) [
      | inl none_there ↦ cc (rw (none_there, is_hex) at e)
      | inr found ↦ found
    ]

-- A group of `2 n` digits, read and shown again, is itself in lower case.
group-lower :
    (n : ℕ) (s : Bytes) → IsGroup (2 * n) s → encode (fit n (hex_value s)) ≡ map to_lower s
group-lower n s g =
    let (b, e, w) = decode_string_total n s g.size g.hex in
    rw (e, hex_value) (ap encode (fit_exact n b w) ∙ (encode-decode_string s b e).0)

dash-lower : to_lower dash ≡ dash
unfolding to_lower
dash-lower = refl

map-spell :
    (m : Parts)
    → map to_lower (spell m)
      ≡ header_of
          (map to_lower m.version_part)
          (map to_lower m.trace_id_part)
          (map to_lower m.span_id_part)
          (map to_lower m.flags_part)
map-spell m = simp (map-append, dash-lower)

string-parsed :
    (m : Parts)
    → AreGroups m
    → string (
        trace_of
          (fit 1 (hex_value m.version_part))
          (fit 16 (hex_value m.trace_id_part))
          (fit 8 (hex_value m.span_id_part))
          (fit 1 (hex_value m.flags_part)))
      ≡ map to_lower (spell m)
unfolding string
string-parsed m g =
    rw
      (
        group-lower 1 m.version_part g.version_group,
        group-lower 16 m.trace_id_part g.trace_id_group,
        group-lower 8 m.span_id_part g.span_id_group,
        group-lower 1 m.flags_part g.flags_group,
      )
      (sym (map-spell m))

-- A text that TraceFromString accepts is shown again by String in lower case.
pub string-trace_from_string :
    (s : Bytes) (t : Trace) → trace_from_string s ≡ (t, true) → string t ≡ map to_lower s
unfolding trace_from_string
string-trace_from_string s t h = elim (Option-cases (find_submatch s)) [
  | inl e ↦ cc (sym (set_string_refuses s zero_trace e) ∙ h)
  | inr (m, e) ↦
      accepted m (find_submatch-eq-some s m e)
        (sym (set_string_accepts s m zero_trace zero_trace-IsValid e) ∙ h)
]
  where
    accepted :
        (m : Parts)
        → (s ≡ spell m) × AreGroups m
        → ◌≡◌ {A = Trace × Bool}
            (
              trace_of
                  (fit 1 (hex_value m.version_part))
                  (fit 16 (hex_value m.trace_id_part))
                  (fit 8 (hex_value m.span_id_part))
                  (fit 1 (hex_value m.flags_part)),
              true,
            )
            (t, true)
        → string t ≡ map to_lower s
    accepted m (split, g) q =
        let r : trace_of (fit 1 (hex_value m.version_part)) (fit 16 (hex_value m.trace_id_part))
              (fit 8 (hex_value m.span_id_part)) (fit 1 (hex_value m.flags_part))
            ≡ t =
          ap (λ (p : Trace × Bool). p.0) q in
        sym (ap string r) ∙ string-parsed m g ∙ ap (map to_lower) (sym split)

-- TraceFromString reports success exactly on a text of four groups of hexadecimal digits, of 2, 32, 16
-- and 2 digits, between dashes.
pub trace_from_string_accepts :
    (s : Bytes) → ((trace_from_string s).1 ≡ true) ↔ ((m : Parts) × (s ≡ spell m) × AreGroups m)
trace_from_string_accepts s = (forth, back)
  where
    refused :
        find_submatch s ≡ none
        → (trace_from_string s).1 ≡ true
        → (m : Parts) × (s ≡ spell m) × AreGroups m
    refused e h =
        let k : (trace_from_string s).1 ≡ false =
          unfold trace_from_string in
          ap (λ (p : Trace × Bool). p.1) (set_string_refuses s zero_trace e) in
        cc k

    forth : (trace_from_string s).1 ≡ true → (m : Parts) × (s ≡ spell m) × AreGroups m
    forth h = elim (Option-cases (find_submatch s)) [
      | inl e ↦ refused e h
      | inr (m, e) ↦ (m, (find_submatch-eq-some s m e).0, (find_submatch-eq-some s m e).1)
    ]

    back : (m : Parts) × (s ≡ spell m) × AreGroups m → (trace_from_string s).1 ≡ true
    back (m, e, g) =
        unfold trace_from_string in
        ap (λ (p : Trace × Bool). p.1)
          (set_string_accepts s m zero_trace zero_trace-IsValid
            (ap find_submatch e ∙ find_submatch-spell m g))

-- A text that TraceFromString refuses gives the trace of NewTrace.
pub trace_from_string_refused :
    (s : Bytes) → (trace_from_string s).1 ≡ false → (trace_from_string s).0 ≡ new_trace
unfolding trace_from_string new_trace
trace_from_string_refused s h = elim (Option-cases (find_submatch s)) [
  | inl e ↦ ap (λ (p : Trace × Bool). p.0) (set_string_refuses s zero_trace e)
  | inr (m, e) ↦
      cc (ap (λ (p : Trace × Bool). p.1) (set_string_accepts s m zero_trace zero_trace-IsValid e))
]

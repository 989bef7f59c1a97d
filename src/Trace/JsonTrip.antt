-- ===== src/Trace/JsonTrip.antt =====
-- The JSON form of a trace is read back; the offsets of a header are those of its parts.
use xm.Base.{
  ℕ, zero, suc, ◌+◌, ◌≡◌, refl, ap, ◌∙◌, true, none, some, [], ◌∷◌, ◌++◌, length, Bytes, arith,
  length-append, take, drop, take-append_left, get_elem?, take_all,
}
use xm.Trace.Hex.{encode}
use xm.Trace.Hex.Codec.{length-encode}
use xm.Trace.Header.{dash}
use xm.Trace.{
  Trace, Field, version, trace_id, span_id, flags, width, start_of, get, header_of, wrapped_string,
}
use xm.Trace.Coherent.{IsCoherent, IsValid, initialize_idle}
use xm.Trace.RoundTrip.{set_string-header}
use xm.Trace.Json.{quote, is_at, marshal_json, unmarshal_json}

header-length :
    (v i s f : Bytes) → length (header_of v i s f) ≡ length v + length i + length s + length f + 3
header-length v i s f = omega (
  arith,
  length-append v (dash ∷ (i ++ dash ∷ (s ++ dash ∷ f))),
  length-append i (dash ∷ (s ++ dash ∷ f)),
  length-append s (dash ∷ f),
)

shown-length : (f : Field) (t : Trace) → IsCoherent t → length (get f t).h ≡ width f + width f
shown-length f t c =
    let w = (c.arrays f).wide in omega (arith, ap length (c.shown f), length-encode (get f t).b)

-- A header is 55 bytes long.
pub length-header : (t : Trace) → IsCoherent t → length t.header_string ≡ 55
length-header t c = omega (
  arith,
  ap length c.header,
  header-length t.version_hex.h t.trace_id_hex.h t.span_id_hex.h t.flags_hex.h,
  shown-length version t c,
  shown-length trace_id t c,
  shown-length span_id t c,
  shown-length flags t c,
)

get_elem?-append_at : (s : Bytes) (c n : ℕ) → length s ≡ n → get_elem? (s ++ c ∷ []) n ≡ some c
get_elem?-append_at [] c zero h = refl
get_elem?-append_at [] c (suc n) h = absurd (omega arith)
get_elem?-append_at (x ∷ s) c zero h = absurd (omega arith)
get_elem?-append_at (x ∷ s) c (suc n) h = get_elem?-append_at s c n (omega arith)

marshal_json_size : (t : Trace) → IsCoherent t → length (marshal_json t) ≡ 57
unfolding marshal_json
marshal_json_size t c = omega (arith, length-header t c, length-append t.header_string (quote ∷ []))

marshal_json_start : (t : Trace) → is_at 0 quote (marshal_json t) ≡ true
unfolding marshal_json is_at
marshal_json_start t = refl

marshal_json_end : (t : Trace) → IsCoherent t → is_at 56 quote (marshal_json t) ≡ true
unfolding marshal_json is_at
marshal_json_end t c = rw (get_elem?-append_at t.header_string quote 55 (length-header t c), is_at)

marshal_json_body : (t : Trace) → IsCoherent t → take 55 (drop 1 (marshal_json t)) ≡ t.header_string
unfolding marshal_json
marshal_json_body t c = take-append_left 55 t.header_string (quote ∷ []) (length-header t c)

-- UnmarshalJSON into any valid trace of what MarshalJSON gives for a coherent one is that trace, with
-- no error.
pub unmarshal_json-marshal_json :
    (t u : Trace) → IsCoherent t → IsValid u → unmarshal_json (marshal_json t) u ≡ (t, none)
unfolding unmarshal_json
unmarshal_json-marshal_json t u c v = rw (
  marshal_json_size t c,
  marshal_json_start t,
  marshal_json_end t c,
  marshal_json_body t c,
  set_string-header t u c v,
)

drop_past :
    (n k m : ℕ) (xs : Bytes) (c : ℕ) (ys : Bytes)
    → length xs ≡ n
    → m ≡ n + 1 + k
    → drop m (xs ++ c ∷ ys) ≡ drop k ys
drop_past zero k zero [] c ys h e = absurd (omega arith)
drop_past zero k (suc m) [] c ys h e = let q : m ≡ k = omega arith in rw q
drop_past zero k m (x ∷ xs) c ys h e = absurd (omega arith)
drop_past (suc n) k m [] c ys h e = absurd (omega arith)
drop_past (suc n) k zero (x ∷ xs) c ys h e = absurd (omega arith)
drop_past (suc n) k (suc m) (x ∷ xs) c ys h e = drop_past n k m xs c ys (omega arith) (omega arith)

header_slice :
    (f : Field) (t : Trace)
    → IsCoherent t
    → take (width f + width f) (
        drop
          (start_of f)
          (header_of t.version_hex.h t.trace_id_hex.h t.span_id_hex.h t.flags_hex.h))
      ≡ (get f t).h
header_slice version t c = take-append_left 2 t.version_hex.h _ (shown-length version t c)
header_slice trace_id t c =
    rw
      (drop_past 2 0 3 t.version_hex.h dash
        (t.trace_id_hex.h ++ dash ∷ (t.span_id_hex.h ++ dash ∷ t.flags_hex.h))
        (shown-length version t c) (omega arith))
      (take-append_left 32 t.trace_id_hex.h _ (shown-length trace_id t c))
header_slice span_id t c =
    rw
      (
        drop_past 2 33 36 t.version_hex.h dash
            (t.trace_id_hex.h ++ dash ∷ (t.span_id_hex.h ++ dash ∷ t.flags_hex.h))
            (shown-length version t c) (omega arith),
        drop_past 32 0 33 t.trace_id_hex.h dash (t.span_id_hex.h ++ dash ∷ t.flags_hex.h)
            (shown-length trace_id t c) (omega arith),
      )
      (take-append_left 16 t.span_id_hex.h _ (shown-length span_id t c))
header_slice flags t c =
    rw
      (
        drop_past 2 50 53 t.version_hex.h dash
            (t.trace_id_hex.h ++ dash ∷ (t.span_id_hex.h ++ dash ∷ t.flags_hex.h))
            (shown-length version t c) (omega arith),
        drop_past 32 17 50 t.trace_id_hex.h dash (t.span_id_hex.h ++ dash ∷ t.flags_hex.h)
            (shown-length trace_id t c) (omega arith),
        drop_past 16 0 17 t.span_id_hex.h dash t.flags_hex.h (shown-length span_id t c)
            (omega arith),
      )
      (take_all 2 t.flags_hex.h (let w = shown-length flags t c in omega arith))

-- On a coherent trace, the part of the header that a handle's String cuts out is its array in
-- hexadecimal.
pub wrapped_string-encode :
    (f : Field) (t : Trace) → IsCoherent t → wrapped_string f t ≡ encode (get f t).b
unfolding wrapped_string
wrapped_string-encode f t c =
    ap (λ s. take (width f + width f) (drop (start_of f) s))
      (ap (λ (u : Trace). u.header_string) (initialize_idle t c.init) ∙ c.header)
    ∙ header_slice f t c
    ∙ c.shown f

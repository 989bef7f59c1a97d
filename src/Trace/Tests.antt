-- ===== src/Trace/Tests.antt =====
-- xoptrace: the theorems about traces at concrete inputs.
use xm.Base.{
  ◌≡◌, refl, true, false, none, some, List, [], ◌∷◌, replicate, Bytes, bytes_eq, codes, map, arith,
  ◌↔◌, inl, inr,
}
use xm.Trace.Hex.{encode, copy}
use xm.Trace.Hex.Codec.{to_lower}
use xm.Trace.Arrays.{is_zero_hex, set_random_hex, read_random, initialize_hex}
use xm.Trace.Header.{Parts, find_submatch}
use xm.Trace.Header.Match.{AreGroups, spell}
use xm.Trace.{
  rebuild, Trace, Field, version, trace_id, span_id, flags, width, get, zero_trace, new_trace,
  initialize, string, set_string, trace_from_string, set_array_of, set_bytes_of, set_random_of,
  wrapped_string,
}
use xm.Trace.Coherent.{IsCoherent, IsCoherent-IsValid}
use xm.Trace.Operations.{zero_trace-IsValid, new_trace-IsCoherent, set_array_of-IsCoherent}
use xm.Trace.Random.{AreDraws, set_random_of-IsCoherent, set_random_of_ends}
use xm.Trace.Json.{marshal_json, unmarshal_json}
use xm.Trace.RoundTrip.{
  set_string-header, trace_from_string-string, string-trace_from_string, trace_from_string_accepts,
  trace_from_string_refused,
}
use xm.Trace.JsonTrip.{unmarshal_json-marshal_json, wrapped_string-encode}
use xm.Trace.Stale.{set_string_stale}
use xm.Trace.Reach.{Call}

-- A trace id of sixteen bytes 7.
abbrev sevens : Trace
sevens = set_array_of trace_id (replicate 16 7) new_trace

sevens-IsCoherent : IsCoherent sevens
sevens-IsCoherent =
    set_array_of-IsCoherent trace_id (replicate 16 7) new_trace refl (ground arith)
      (IsCoherent-IsValid new_trace-IsCoherent)

trace_from_string-string_example : trace_from_string (string sevens) ≡ (sevens, true)
trace_from_string-string_example = trace_from_string-string sevens sevens-IsCoherent

abbrev upper : Bytes
upper = codes "00-0123456789ABCDEF0123456789ABCDEF-0123456789ABCDEF-01"

string-trace_from_string_example : string (trace_from_string upper).0 ≡ map to_lower upper
unfolding find_submatch xm.Trace.Hex.from_hex_char
string-trace_from_string_example =
    string-trace_from_string upper (trace_from_string upper).0
      (unfold trace_from_string set_string in refl)

trace_from_string_accepts_example :
    ((trace_from_string upper).1 ≡ true) ↔ ((m : Parts) × (upper ≡ spell m) × AreGroups m)
trace_from_string_accepts_example = trace_from_string_accepts upper

trace_from_string_refused_example : (trace_from_string (codes "00-01")).0 ≡ new_trace
unfolding find_submatch xm.Trace.Hex.from_hex_char
trace_from_string_refused_example =
    trace_from_string_refused (codes "00-01") (unfold trace_from_string set_string in refl)

-- The first draw is all zero, the second is not.
abbrev draws : List Bytes
draws = replicate 16 0 ∷ replicate 16 9 ∷ []

draws-AreDraws : AreDraws draws
draws-AreDraws = ground arith

abbrev nines : Trace
nines = set_array_of trace_id (replicate 16 9) new_trace

read_nines : set_random_of trace_id new_trace draws ≡ some (nines, [])
unfolding set_random_of set_array_of set_random_hex is_zero_hex bytes_eq read_random copy initialize
    new_trace rebuild initialize_hex
read_nines = refl

set_random_of-IsCoherent_example :
    IsCoherent nines × (is_zero_hex (get trace_id nines) ≡ false) × AreDraws []
set_random_of-IsCoherent_example =
    set_random_of-IsCoherent trace_id new_trace draws nines []
      (IsCoherent-IsValid new_trace-IsCoherent) draws-AreDraws read_nines

set_random_of_ends_example :
    (u : Trace) × (rest : List Bytes) × (set_random_of trace_id new_trace draws ≡ some (u, rest))
set_random_of_ends_example =
    set_random_of_ends trace_id new_trace draws (IsCoherent-IsValid new_trace-IsCoherent)
      (unfold bytes_eq in inr (inl (omega arith, refl)))

set_string-header_example : set_string sevens.header_string zero_trace ≡ (sevens, true)
set_string-header_example = set_string-header sevens zero_trace sevens-IsCoherent zero_trace-IsValid

unmarshal_json-marshal_json_example :
    unmarshal_json (marshal_json sevens) zero_trace ≡ (sevens, none)
unmarshal_json-marshal_json_example =
    unmarshal_json-marshal_json sevens zero_trace sevens-IsCoherent zero_trace-IsValid

wrapped_string-encode_example : wrapped_string span_id sevens ≡ encode (get span_id sevens).b
wrapped_string-encode_example = wrapped_string-encode span_id sevens sevens-IsCoherent

-- The flags of `unsampled` are 00.
abbrev unsampled : Trace
unsampled = set_array_of flags (0 ∷ []) new_trace

unsampled-IsCoherent : IsCoherent unsampled
unsampled-IsCoherent =
    set_array_of-IsCoherent flags (0 ∷ []) new_trace refl (ground arith)
      (IsCoherent-IsValid new_trace-IsCoherent)

set_string_stale_example :
    (¬ IsCoherent (set_string (codes "01") unsampled).0)
    × ((set_string (codes "01") unsampled).0.flags_hex.b ≡ 1 ∷ [])
    × (string (set_string (codes "01") unsampled).0 ≡ string unsampled)
unfolding find_submatch xm.Trace.Hex.from_hex_char set_array_of xm.Trace.rebuild
set_string_stale_example =
    set_string_stale (codes "01") unsampled 0 unsampled-IsCoherent refl refl (λ e. cc)

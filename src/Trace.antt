-- ===== src/Trace.antt =====
-- The package xoptrace: hexbytes.go in `Arrays`, trace.go here. The four arrays of a trace are named
-- by `Field`; a handle that the methods Version, TraceID, SpanID and Flags return is the trace and
-- the field's name, since the handle points into the trace.
pub mod Hex
pub mod Arrays
pub mod Header
pub mod Coherent
pub mod Operations
pub mod Random
pub mod Canonical
pub mod Json
pub mod RoundTrip
pub mod JsonTrip
pub mod Stale
pub mod Bundle
pub mod Reach
mod Tests
use xm.Base.{
  ℕ, ◌+◌, Bool, true, false, Option, none, some, List, [], ◌∷◌, ◌++◌, take, drop, replicate, length,
  set, Bytes, codes, ◌>>=◌, if◌then◌else◌, ◌==◌, ◌&&◌, not, get_elem?,
}
use Hex.{encode, set_bytes, set_bytes_from_string}
use Arrays.{HexBytes, zero_array, initialize_hex, is_zero_hex, set_random_hex, initialized_hex}
use Header.{dash, find_submatch, Parts}

pub data Field : Type 0 where
  version trace_id span_id flags : Field

abbrev pub width : Field → ℕ
width version = 1
width trace_id = 16
width span_id = 8
width flags = 1

abbrev start_of_version : ℕ
start_of_version = 0

abbrev start_of_trace_id : ℕ
start_of_trace_id = start_of_version + 2 + 1

abbrev start_of_span_id : ℕ
start_of_span_id = start_of_trace_id + 32 + 1

abbrev start_of_flags : ℕ
start_of_flags = start_of_span_id + 16 + 1

abbrev pub start_of : Field → ℕ
start_of version = start_of_version
start_of trace_id = start_of_trace_id
start_of span_id = start_of_span_id
start_of flags = start_of_flags

pub record Trace : Type 0 where
  pub version_hex : HexBytes
  pub trace_id_hex : HexBytes
  pub span_id_hex : HexBytes
  pub flags_hex : HexBytes
  pub header_string : Bytes
  pub initialized : Bool

abbrev pub get : Field → Trace → HexBytes
get version t = t.version_hex
get trace_id t = t.trace_id_hex
get span_id t = t.span_id_hex
get flags t = t.flags_hex

abbrev pub put : Field → HexBytes → Trace → Trace
put version x t = record t { version_hex = x }
put trace_id x t = record t { trace_id_hex = x }
put span_id x t = record t { span_id_hex = x }
put flags x t = record t { flags_hex = x }

-- The zero value of the struct: what `var trace Trace` declares.
abbrev pub zero_trace : Trace
zero_trace = record {
  version_hex = zero_array 1;
  trace_id_hex = zero_array 16;
  span_id_hex = zero_array 8;
  flags_hex = zero_array 1;
  header_string = [];
  initialized = false;
}

abbrev pub header_of : Bytes → Bytes → Bytes → Bytes → Bytes
header_of v i s f = v ++ dash ∷ (i ++ dash ∷ (s ++ dash ∷ f))

unfoldable pub rebuild : Trace → Trace
rebuild t = record t {
  header_string = header_of t.version_hex.h t.trace_id_hex.h t.span_id_hex.h t.flags_hex.h;
}

unfoldable pub initialize : Trace → Trace
initialize t =
    if t.initialized
    then t
    else rebuild (record t {
      initialized = true;
      version_hex = initialize_hex t.version_hex;
      trace_id_hex = initialize_hex t.trace_id_hex;
      span_id_hex = initialize_hex t.span_id_hex;
      flags_hex = initialize_hex t.flags_hex;
    })

-- `trace.flags.b[0] = 1`: the byte alone, not its hexadecimal copy.
abbrev pub sample : Trace → Trace
sample t = record t { flags_hex = record (t.flags_hex) { b = set t.flags_hex.b 0 1 } }

unfoldable pub new_trace : Trace
new_trace = initialize (sample zero_trace)

-- The methods of a handle. Each ends in `x.trace.rebuild()`.
abbrev pub store : Field → Bytes → Trace → Trace
store f b t = rebuild (put f (record { b = b; h = encode b }) t)

unfoldable pub set_bytes_of : Field → Bytes → Trace → Trace
set_bytes_of f b t = let t' = initialize t in store f (set_bytes (get f t').b b) t'

unfoldable pub set_array_of : Field → Bytes → Trace → Trace
set_array_of f b t = store f b (initialize t)

unfoldable pub set_string_of : Field → Bytes → Trace → Trace
set_string_of f h t = let t' = initialize t in store f (set_bytes_from_string (get f t').b h) t'

unfoldable pub set_zero_of : Field → Trace → Trace
set_zero_of f t = store f (replicate (width f) 0) (initialize t)

unfoldable pub set_of : Field → HexBytes → Trace → Trace
set_of f x t = rebuild (put f x (initialize t))

-- `draws` is what the calls of crypto/rand still to come will fill in; `none` means that all of them
-- were zero, and the loop goes on.
unfoldable pub set_random_of : Field → Trace → List Bytes → Option (Trace × List Bytes)
set_random_of f t draws = do
  let t' = initialize t
  (x, rest) ← set_random_hex (get f t') draws
  some (rebuild (put f x t'), rest)

unfoldable pub wrapped_string : Field → Trace → Bytes
wrapped_string f t =
    let t' = initialize t in take (width f + width f) (drop (start_of f) t'.header_string)

unfoldable pub set_string : Bytes → Trace → Trace × Bool
set_string s t = elim (find_submatch s) [
  | none ↦ (initialize (sample t), false)
  | some m ↦ (
    set_string_of flags m.flags_part (
        set_string_of span_id m.span_id_part
          (set_string_of trace_id m.trace_id_part (set_string_of version m.version_part t))),
    true,
  )
]

unfoldable pub trace_from_string : Bytes → Trace × Bool
trace_from_string s = set_string s zero_trace

-- GetVersion, GetTraceID, GetSpanID, GetFlags
unfoldable pub get_field : Field → Trace → HexBytes
unfolding initialized_hex
get_field f t = initialized_hex (get f t) t.initialized

unfoldable pub is_zero : Trace → Bool
unfolding is_zero_hex
is_zero t = is_zero_hex t.trace_id_hex && is_zero_hex t.span_id_hex

unfoldable pub string : Trace → Bytes
string t =
    if not t.initialized
    then codes "00-00000000000000000000000000000000-0000000000000000-00"
    else t.header_string

unfoldable pub fill : Field → Trace → List Bytes → Option (Trace × List Bytes)
fill f t draws =
    if is_zero_hex (get f t)
    then (do (x, rest) ← set_random_hex (get f t) draws; some (put f x t, rest))
    else some (t, draws)

unfoldable pub rebuild_set_non_zero : Trace → List Bytes → Option (Trace × List Bytes)
rebuild_set_non_zero t draws = do
  (t1, draws1) ← fill trace_id t draws
  (t2, draws2) ← fill span_id t1 draws1
  some (rebuild t2, draws2)

-- ===== src/Counter.antt =====
-- xoputil/counter.go: the numbers of traces and of the requests of a trace, for callers that come one after the
-- other. The counts are int32, here their bit patterns.
pub mod Stable
mod Tests
use xm.Base.{
  ℕ, ◌+◌, ◌%◌, ◌^◌, Bool, true, false, Option, none, some, List, [], ◌∷◌, Bytes, Map, lookup,
  insert, not,
}

pub record TraceInfo : Type 0 where
  pub request_count : ℕ
  pub trace_num : ℕ
  pub request_map : Map ℕ

pub record RequestCounter : Type 0 where
  pub trace_count : ℕ
  pub trace_map : Map TraceInfo

unfoldable pub new_request_counter : RequestCounter
new_request_counter = record { trace_count = 0; trace_map = [] }

-- atomic.AddInt32 of one
abbrev pub add_one : ℕ → ℕ
add_one n = (n + 1) % 2 ^ 32

-- The trace is loaded, or stored with the next number; so the maps are written back.
unfoldable pub load_trace : Bytes → RequestCounter → TraceInfo × RequestCounter
load_trace trace c = elim (lookup trace c.trace_map) [
  | some ti ↦ (ti, c)
  | none ↦
      let n = add_one c.trace_count in
      let ti : TraceInfo = record { request_count = 0; trace_num = n; request_map = [] } in
      (ti, record { trace_count = n; trace_map = insert trace ti c.trace_map })
]

-- The number of the request, whether it was loaded, and the trace.
unfoldable pub load_request : Bytes → TraceInfo → ℕ × Bool × TraceInfo
load_request span ti = elim (lookup span ti.request_map) [
  | some n ↦ (n, true, ti)
  | none ↦
      let n = add_one ti.request_count in
      (n, false, record ti { request_count = n; request_map = insert span n ti.request_map })
]

pub record Numbers : Type 0 where
  pub trace_number : ℕ
  pub request_number : ℕ
  pub is_new : Bool

-- GetNumber; the trace info of the map is the one that is changed.
unfoldable pub get_number : Bytes → Bytes → RequestCounter → Numbers × RequestCounter
unfolding load_trace load_request
get_number trace span c =
    let (ti, c1) = load_trace trace c in
    let (n, loaded, ti1) = load_request span ti in
    (
      record { trace_number = ti1.trace_num; request_number = n; is_new = not loaded },
      record c1 { trace_map = insert trace ti1 c1.trace_map },
    )

-- The calls of some callers, in their order.
unfoldable pub after_calls : List (Bytes × Bytes) → RequestCounter → RequestCounter
unfolding get_number
after_calls [] c = c
after_calls ((trace, span) ∷ calls) c = after_calls calls (get_number trace span c).1

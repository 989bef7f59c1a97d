-- ===== src/Trace/Bundle.antt =====
-- xoptrace/bundle.go, state.go and baggage.go. A State and a Baggage are the text of their header.
use xm.Base.{Bool, ◌&&◌, not, Bytes, [], bytes_eq}
use xm.Trace.Arrays.{is_zero_hex}
use xm.Trace.{Trace, new_trace}

pub record Bundle : Type 0 where
  pub parent : Trace
  pub trace : Trace
  pub state : Bytes
  pub baggage : Bytes

unfoldable pub new_bundle : Bundle
new_bundle = record { parent = new_trace; trace = new_trace; state = []; baggage = [] }

unfoldable pub parent_trace_is_different : Bundle → Bool
parent_trace_is_different b =
    not (is_zero_hex b.parent.trace_id_hex)
    && not (bytes_eq b.parent.trace_id_hex.b b.trace.trace_id_hex.b)

-- ===== src/Trace/Reach.antt =====
-- Traces in use: any sequence of the operations of trace.go.
use xm.Base.{◌≡◌, Option, some, List, [], ◌∷◌, length, Bytes, AreBytes, ◌>>=◌}
use xm.Trace.Arrays.{HexBytes}
use xm.Trace.Header.{Parts, find_submatch}
use xm.Trace.{
  Trace, Field, width, set_bytes_of, set_array_of, set_string_of, set_zero_of, set_of,
  set_random_of, set_string,
}
use xm.Trace.Coherent.{IsArray, IsShown}

-- A call on a trace, or on one of its four handles.
pub data Call : Type 0 where
  of_array : Field → Bytes → Call
  of_bytes : Field → Bytes → Call
  of_string : Field → Bytes → Call
  of_zero : Field → Call
  of_hex : Field → HexBytes → Call
  of_random : Field → Call
  of_text : Bytes → Call

-- What a call does; `none` when the draws run out.
unfoldable pub perform : Call → Trace → List Bytes → Option (Trace × List Bytes)
perform (of_array f b) t draws = some (set_array_of f b t, draws)
perform (of_bytes f b) t draws = some (set_bytes_of f b t, draws)
perform (of_string f h) t draws = some (set_string_of f h t, draws)
perform (of_zero f) t draws = some (set_zero_of f t, draws)
perform (of_hex f x) t draws = some (set_of f x t, draws)
perform (of_random f) t draws = set_random_of f t draws
perform (of_text s) t draws = some ((set_string s t).0, draws)

unfoldable pub perform_all : List Call → Trace → List Bytes → Option (Trace × List Bytes)
perform_all [] t draws = some (t, draws)
perform_all (c ∷ cs) t draws = perform c t draws >>= λ p. perform_all cs p.0 p.1

-- Go's types allow the call, and a text for SetString has the form of a header.
abbrev pub IsAllowed : Call → Type 0
IsAllowed (of_array f b) = (length b ≡ width f) × AreBytes b
IsAllowed (of_bytes f b) = AreBytes b
IsAllowed (of_string f h) = Unit
IsAllowed (of_zero f) = Unit
IsAllowed (of_hex f x) = IsArray (width f) x × IsShown x
IsAllowed (of_random f) = Unit
IsAllowed (of_text s) = (m : Parts) × (find_submatch s ≡ some m)

-- ===== src/Trace/Json.antt =====
-- MarshalJSON and UnmarshalJSON of a trace. json.Marshal writes a text of digits and dashes
-- between quotes and escapes nothing in it.
use xm.Base.{
  ℕ, Bool, false, Option, none, some, [], ◌∷◌, ◌++◌, take, drop, length, get_elem?, Bytes,
  if◌then◌else◌, ◌==◌, not, ◌||◌,
}
use xm.Trace.{Trace, set_string}

abbrev pub quote : ℕ
quote = b'"'

pub data UnmarshalError : Type 0 where
  wrong_length not_quoted invalid_input : UnmarshalError

unfoldable pub marshal_json : Trace → Bytes
marshal_json t = quote ∷ (t.header_string ++ quote ∷ [])

-- `b[i]`, read only where `i` is below the length.
unfoldable pub is_at : ℕ → ℕ → Bytes → Bool
is_at i c b = elim (get_elem? b i) [ none ↦ false | some x ↦ x == c ]

-- The trace afterwards, and the error that is returned.
unfoldable pub unmarshal_json : Bytes → Trace → Trace × Option UnmarshalError
unmarshal_json b t =
    if not (length b == 57)
    then (t, some wrong_length)
    else if not (is_at 0 quote b) || not (is_at 56 quote b)
    then (t, some not_quoted)
    else (let (t', accepted) = set_string (take 55 (drop 1 b)) t in
        if not accepted then (t', some invalid_input) else (t', none))

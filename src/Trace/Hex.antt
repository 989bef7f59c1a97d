-- ===== src/Trace/Hex.antt =====
-- The part of encoding/hex that xoptrace calls, and the byte-array helpers of xoptrace/trace.go.
pub mod Codec
pub mod Fit
use xm.Base.{
  ℕ, ◌+◌, ◌-◌, ◌*◌, ◌/◌, ◌%◌, ◌&&◌, Option, none, some, [], ◌∷◌, ◌++◌, ltb, leb, if◌then◌else◌,
  length, Bytes, ◌>>=◌, take, drop, replicate,
}

-- hex.Encode
pub hex_digit : ℕ → ℕ
hex_digit n = if ltb n 10 then b'0' + n else b'a' + (n - 10)

unfoldable pub encode : Bytes → Bytes
unfolding hex_digit
encode [] = []
encode (c ∷ s) = hex_digit (c / 16) ∷ hex_digit (c % 16) ∷ encode s

-- hex.DecodeString: an odd length or a byte that is no digit is an error.
unfoldable pub from_hex_char : ℕ → Option ℕ
from_hex_char c =
    if leb b'0' c && leb c b'9'
    then some (c - b'0')
    else if leb b'a' c && leb c b'f'
    then some (c - b'a' + 10)
    else if leb b'A' c && leb c b'F'
    then some (c - b'A' + 10)
    else none

unfoldable pub decode_string : Bytes → Option Bytes
unfolding from_hex_char
decode_string [] = some []
decode_string (p ∷ []) = none
decode_string (p ∷ q ∷ s) = do
  a ← from_hex_char p
  b ← from_hex_char q
  rest ← decode_string s
  some ((a * 16 + b) ∷ rest)

-- the builtin copy
unfoldable pub copy : Bytes → Bytes → Bytes
copy dest src = take (length dest) src ++ drop (length src) dest

abbrev pub zero_bytes : Bytes
zero_bytes = replicate 16 0

-- The result is what `dest` holds afterwards.
unfoldable pub set_bytes : Bytes → Bytes → Bytes
set_bytes dest b =
    if leb (length dest) (length b)
    then copy dest (take (length dest) b)
    else (let dest' = copy dest b in
        take (length b) dest'
        ++ copy (drop (length b) dest') (take (length dest - length b) zero_bytes))

unfoldable pub set_bytes_from_string : Bytes → Bytes → Bytes
set_bytes_from_string dest h = elim (decode_string h) [
  | none ↦ copy dest (take (length dest) zero_bytes)
  | some b ↦ set_bytes dest b
]

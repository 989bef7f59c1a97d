-- ===== src/Trace/Arrays.antt =====
-- xoptrace/hexbytes.go. The file holds one type and its methods three times over, for arrays of 1, 8
-- and 16 bytes; here the width is an argument, or the length of the array at hand.
use xm.Base.{
  ℕ, ◌*◌, Bool, Option, none, some, List, [], ◌∷◌, replicate, length, Bytes, bytes_eq,
  if◌then◌else◌, not,
}
use xm.Trace.Hex.{encode, copy, set_bytes, set_bytes_from_string}

-- An array and its hexadecimal copy.
pub record HexBytes : Type 0 where
  pub b : Bytes
  pub h : Bytes

-- Go's zero value: the copy holds zero bytes, not digits.
abbrev pub zero_array : ℕ → HexBytes
zero_array n = record { b = replicate n 0; h = replicate (n * 2) 0 }

unfoldable pub new_hex_bytes : ℕ → HexBytes
new_hex_bytes n = record (zero_array n) { h = replicate (n * 2) b'0' }

unfoldable pub hex_bytes_from_slice : ℕ → Bytes → HexBytes
hex_bytes_from_slice n b = let x = set_bytes (replicate n 0) b in record { b = x; h = encode x }

unfoldable pub hex_bytes_from_string : ℕ → Bytes → HexBytes
hex_bytes_from_string n s =
    let x = set_bytes_from_string (replicate n 0) s in record { b = x; h = encode x }

unfoldable pub is_zero_hex : HexBytes → Bool
is_zero_hex x = bytes_eq x.b (replicate (length x.b) 0)

unfoldable pub initialize_hex : HexBytes → HexBytes
initialize_hex x = record x { h = encode x.b }

-- The second argument is the trace's `initialized`.
unfoldable pub initialized_hex : HexBytes → Bool → HexBytes
initialized_hex x init = if not init then record x { h = encode x.b } else x

-- `rand.Read(x.b[:])`
unfoldable pub read_random : HexBytes → Bytes → HexBytes
read_random x d = record x { b = copy x.b d }

-- Each round reads the next bytes of crypto/rand into the array, until they are not all zero.
unfoldable pub set_random_hex : HexBytes → List Bytes → Option (HexBytes × List Bytes)
set_random_hex x [] = none
set_random_hex x (d ∷ draws) =
    let x' = read_random x d in
    let again = set_random_hex x' draws in
    if is_zero_hex x' then again else some (initialize_hex x', draws)

-- NewRandomTraceID at width 16, NewRandomSpanID at width 8
unfoldable pub new_random : ℕ → List Bytes → Option (HexBytes × List Bytes)
new_random n draws = set_random_hex (new_hex_bytes n) draws

-- ===== src/Trace/Hex/Codec.antt =====
-- hex.Encode against hex.DecodeString.
use xm.Base.{
  ℕ, ◌+◌, ◌*◌, ◌/◌, ◌%◌, ◌≤◌, ◌<◌, ◌≡◌, refl, ap, subst, Bool, true, false, ◌&&◌, Option, none,
  some, ◌⊎◌, [], ◌∷◌, map, arith, leb, if◌then◌else◌, length, Bytes, AreBytes, All, ◌>>=◌,
}
use xm.Trace.Hex.{hex_digit, encode, from_hex_char, decode_string}

pub from_hex_char-hex_digit : (n : ℕ) → n < 16 → from_hex_char (hex_digit n) ≡ some n
unfolding from_hex_char hex_digit
from_hex_char-hex_digit n h = ground arith

-- Decoding undoes encoding, for every byte string.
pub decode_string-encode : (s : Bytes) → AreBytes s → decode_string (encode s) ≡ some s
unfolding decode_string encode
decode_string-encode [] h = refl
decode_string-encode (c ∷ s) (hc, hs) =
    rw
      (
        from_hex_char-hex_digit (c / 16) (omega arith),
        from_hex_char-hex_digit (c % 16) (omega arith),
        decode_string-encode s hs,
      )
      (ap some (ground arith))

pub length-encode : (s : Bytes) → length (encode s) ≡ 2 * length s
unfolding encode
length-encode [] = refl
length-encode (c ∷ s) = omega (arith, length-encode s)

-- `is_hex` is the class `[a-fA-F0-9]`.
abbrev pub is_hex : ℕ → Bool
is_hex c = elim (from_hex_char c) [ none ↦ false | some _ ↦ true ]

-- A digit that `encode` writes: lower case.
abbrev pub IsDigit : ℕ → Type 0
IsDigit c = ((b'0' ≤ c) × (c ≤ b'9')) ⊎ ((b'a' ≤ c) × (c ≤ b'f'))

hex_digit-IsDigit : (n : ℕ) → n < 16 → IsDigit (hex_digit n)
unfolding hex_digit
hex_digit-IsDigit n h = ground arith

pub encode-IsDigit : (s : Bytes) → AreBytes s → All IsDigit (encode s)
unfolding encode
encode-IsDigit [] h = tt
encode-IsDigit (c ∷ s) (hc, hs) = (
  hex_digit-IsDigit (c / 16) (omega arith),
  (hex_digit-IsDigit (c % 16) (omega arith), encode-IsDigit s hs),
)

-- What the letters of a header become.
unfoldable pub to_lower : ℕ → ℕ
to_lower c = if leb b'A' c && leb c b'F' then c + 32 else c

hex_digit-to_lower : (c n : ℕ) → from_hex_char c ≡ some n → (n < 16) × (hex_digit n ≡ to_lower c)
unfolding from_hex_char hex_digit to_lower
hex_digit-to_lower c n h = ground arith

pair-digits : (a b : ℕ) → a < 16 → b < 16 → ((a * 16 + b) / 16 ≡ a) × ((a * 16 + b) % 16 ≡ b)
pair-digits a b h k = omega arith

-- A text that decodes is the encoding of the result up to the case of its letters.
pub encode-decode_string :
    (s b : Bytes) → decode_string s ≡ some b → (encode b ≡ map to_lower s) × AreBytes b
unfolding decode_string encode
encode-decode_string [] b h = ground arith
encode-decode_string (p ∷ []) b h = cc
encode-decode_string (p ∷ q ∷ s) b h =
    go (from_hex_char p) (from_hex_char q) (decode_string s) refl refl refl (encode-decode_string s)
      h
  where
    joined :
        (x y : ℕ) (rest : Bytes)
        → from_hex_char p ≡ some x
        → from_hex_char q ≡ some y
        → (encode rest ≡ map to_lower s) × AreBytes rest
        → (encode ((x * 16 + y) ∷ rest) ≡ map to_lower (p ∷ q ∷ s)) × AreBytes ((x * 16 + y) ∷ rest)
    joined x y rest hx hy (e, rest-bytes) =
        let (lx, dx) = hex_digit-to_lower p x hx in
        let (ly, dy) = hex_digit-to_lower q y hy in
        let (hi, lo) = pair-digits x y lx ly in
        (rw (hi, lo) (cc (dx, dy, e)), (omega arith, rest-bytes))

    go :
        (x y : Option ℕ) (z : Option Bytes)
        → from_hex_char p ≡ x
        → from_hex_char q ≡ y
        → decode_string s ≡ z
        → ((rest : Bytes)
            → decode_string s ≡ some rest
            → (encode rest ≡ map to_lower s) × AreBytes rest)
        → (x >>= λ a. y >>= λ b. z >>= λ rest. some ((a * 16 + b) ∷ rest)) ≡ some b
        → (encode b ≡ map to_lower (p ∷ q ∷ s)) × AreBytes b
    go none y z hx hy hz ih e = cc
    go (some x) none z hx hy hz ih e = cc
    go (some x) (some y) none hx hy hz ih e = cc
    go (some x) (some y) (some rest) hx hy hz ih e =
        subst (λ t. (encode t ≡ map to_lower (p ∷ q ∷ s)) × AreBytes t) {x = (x * 16 + y) ∷ rest}
          (cc) (joined x y rest hx hy (ih rest hz))

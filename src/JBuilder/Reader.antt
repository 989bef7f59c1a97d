-- ===== src/JBuilder/Reader.antt =====
-- A reader of the body of a JSON string, after RFC 8259: control characters must be escaped, a quote
-- ends the string. Code points from 128 on are not read from an escape: the writer makes none.
use xm.Base.{
  ℕ, zero, suc, ◌+◌, ◌*◌, Option, none, some, [], ◌∷◌, ◌++◌, Bytes, if◌then◌else◌, ◌==◌, ◌||◌, ltb,
  ◌>>=◌,
}
use xm.Trace.Hex.{from_hex_char}

-- `digits n v` waits for `n + 1` more hexadecimal digits behind those that made `v`.
pub data Mode : Type 0 where
  plain slash : Mode
  digits : ℕ → ℕ → Mode

code_point : ℕ → Option (Mode × Bytes)
code_point v = if ltb v 128 then some (plain, v ∷ []) else none

after_slash : ℕ → Option (Mode × Bytes)
after_slash c =
    if c == b'"' || (c == b'\\' || c == b'/')
    then some (plain, c ∷ [])
    else if c == b'b'
    then some (plain, 8 ∷ [])
    else if c == b'f'
    then some (plain, 12 ∷ [])
    else if c == b'n'
    then some (plain, 10 ∷ [])
    else if c == b'r'
    then some (plain, 13 ∷ [])
    else if c == b't'
    then some (plain, 9 ∷ [])
    else if c == b'u'
    then some (digits 3 0, [])
    else none

unfoldable pub read_step : Mode → ℕ → Option (Mode × Bytes)
unfolding code_point after_slash from_hex_char
read_step plain c =
    if ltb c 32 || c == b'"'
    then none
    else if c == b'\\'
    then some (slash, [])
    else some (plain, c ∷ [])
read_step slash c = after_slash c
read_step (digits zero v) c = from_hex_char c >>= λ x. code_point (v * 16 + x)
read_step (digits (suc n) v) c = from_hex_char c >>= λ x. some (digits n (v * 16 + x), [])

unfoldable pub read : Mode → Bytes → Option Bytes
unfolding read_step
read plain [] = some []
read slash [] = none
read (digits n v) [] = none
read m (c ∷ s) = read_step m c >>= λ (p : Mode × Bytes). read p.0 s >>= λ r. some (p.1 ++ r)

unfoldable pub read_body : Bytes → Option Bytes
unfolding read
read_body s = read plain s

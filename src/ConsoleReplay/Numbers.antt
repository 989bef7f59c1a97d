-- ===== src/ConsoleReplay/Numbers.antt =====
-- strconv.ParseInt and ParseUint in base ten, as xopconsole/replay.go calls them, against the numbers that
-- the builder writes. An integer of 64 bits is its bit pattern.
use xm.Base.{
  ℕ, zero, suc, ◌+◌, ◌-◌, ◌*◌, ◌/◌, ◌%◌, ◌^◌, ◌≤◌, ◌<◌, ◌≡◌, refl, ap, ◌∙◌, true, false, Option,
  none, some, [], ◌∷◌, Bytes, if◌then◌else◌, ltb, leb, lt→ltb, ltb→lt, ◌==◌, ◌&&◌, ◌>>=◌,
  Bool-cases, inl, inr, arith,
}
use xm.JBuilder.Numbers.{digits_loop, format_uint, format_int}
use xm.ConsoleReplay.{is_empty}
use xm.ConsoleReplay.Strings.{format_uint-Word, format_uint-digits}

unfoldable pub parse_digits : ℕ → Bytes → Option ℕ
parse_digits n [] = some n
parse_digits n (c ∷ s) =
    let rest = parse_digits (n * 10 + (c - 48)) s in if leb 48 c && leb c 57 then rest else none

unfoldable pub parse_uint : Bytes → Option ℕ
unfolding parse_digits
parse_uint s =
    if is_empty s then none else (parse_digits 0 s >>= λ n. if ltb n (2 ^ 64) then some n else none)

unfoldable pub positive : Bytes → Option ℕ
unfolding parse_uint
positive s = parse_uint s >>= λ n. if ltb n (2 ^ 63) then some n else none

unfoldable pub negative : Bytes → Option ℕ
unfolding parse_uint
negative s = parse_uint s >>= λ n. if leb n (2 ^ 63) then some ((2 ^ 64 - n) % 2 ^ 64) else none

unfoldable pub parse_int : Bytes → Option ℕ
unfolding positive negative
parse_int [] = none
parse_int (c ∷ s) =
    if c == b'+' then positive s else if c == b'-' then negative s else positive (c ∷ s)

-- `10 ^ k`
abbrev tens : ℕ → ℕ
tens zero = 1
tens (suc k) = 10 * tens k

digit_step :
    (m d : ℕ) (acc : Bytes)
    → d < 10
    → parse_digits m ((48 + d) ∷ acc) ≡ parse_digits (m * 10 + d) acc
unfolding parse_digits
digit_step m d acc h =
    let t : (leb 48 (48 + d) && leb (48 + d) 57) ≡ true = ground arith in
    rw t (ap (λ (x : ℕ). parse_digits x acc) (omega arith))

parse_digits-digits_loop :
    (fuel n : ℕ) (acc : Bytes)
    → n < tens fuel
    → parse_digits 0 (digits_loop fuel n acc) ≡ parse_digits n acc
unfolding digits_loop
parse_digits-digits_loop zero n acc h = ap (λ (m : ℕ). parse_digits m acc) (omega arith)
parse_digits-digits_loop (suc fuel) n acc h = elim (Bool-cases (ltb n 10)) [
  | inl e ↦
      rw (e, digits_loop)
        (digit_step 0 n acc (ground arith) ∙ ap (λ (x : ℕ). parse_digits x acc) (omega arith))
  | inr e ↦
      rw (e, digits_loop)
        (parse_digits-digits_loop fuel (n / 10) ((48 + n % 10) ∷ acc) (omega arith)
          ∙ (digit_step (n / 10) (n % 10) acc (omega arith)
              ∙ ap (λ (x : ℕ). parse_digits x acc) (omega arith)))
]

parse_digits-format_uint : (n : ℕ) → n < 2 ^ 64 → parse_digits 0 (format_uint n) ≡ some n
unfolding format_uint parse_digits
parse_digits-format_uint n h = parse_digits-digits_loop 20 n [] (omega arith)

-- The first byte is a digit.
digits_first : (n : ℕ) → (c : ℕ) × (s : Bytes) × (format_uint n ≡ c ∷ s) × (48 ≤ c) × (c < 58)
digits_first n =
    let (c, s, e, w) = format_uint-Word n in
    let h = format_uint-digits n in let d = rw e at h in (c, s, e, d.0.0, d.0.1)

pub parse_uint-format_uint : (n : ℕ) → n < 2 ^ 64 → parse_uint (format_uint n) ≡ some n
unfolding parse_uint
parse_uint-format_uint n h =
    let (c, s, e, l, u) = digits_first n in
    let q = parse_digits-format_uint n h in
    let q' : parse_digits 0 (c ∷ s) ≡ some n = rw e at q in
    rw (e, parse_uint, q', lt→ltb n (2 ^ 64) h) refl

pub parse_uint-format_int : (n : ℕ) → n < 2 ^ 63 → parse_uint (format_int n) ≡ some n
unfolding format_int
parse_uint-format_int n h =
    rw (lt→ltb n (2 ^ 63) h, format_int) (parse_uint-format_uint n (omega arith))

parse_int_digits :
    (c : ℕ) (s : Bytes) (n : ℕ)
    → 48 ≤ c
    → c < 58
    → parse_uint (c ∷ s) ≡ some n
    → n < 2 ^ 63
    → parse_int (c ∷ s) ≡ some n
unfolding parse_int positive
parse_int_digits c s n l u q h =
    let p : (c == b'+') ≡ false = ground arith in
    let m : (c == b'-') ≡ false = ground arith in rw (p, parse_int, m, q, lt→ltb n (2 ^ 63) h) refl

-- A 64-bit integer that is written is read back.
pub parse_int-format_int : (v : ℕ) → v < 2 ^ 64 → parse_int (format_int v) ≡ some v
unfolding format_int parse_int negative
parse_int-format_int v h = elim (Bool-cases (ltb v (2 ^ 63))) [
  | inl e ↦
      let (c, s, q, l, u) = digits_first v in
      let p = parse_uint-format_uint v h in
      rw (e, format_int, q) (parse_int_digits c s v l u (rw q at p) (ltb→lt v (2 ^ 63) e))
  | inr e ↦
      let p = parse_uint-format_uint (2 ^ 64 - v) (ground arith) in
      rw (e, format_int, parse_int, p) (back v h e)
]
  where
    back :
        (v : ℕ)
        → v < 2 ^ 64
        → ltb v (2 ^ 63) ≡ false
        → (if leb (2 ^ 64 - v) (2 ^ 63) then some ((2 ^ 64 - (2 ^ 64 - v)) % 2 ^ 64) else none)
          ≡ some v
    back v h e = ground arith

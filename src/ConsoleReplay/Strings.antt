-- ===== src/ConsoleReplay/Strings.antt =====
-- Unquoted words and quoted strings, read with the byte behind them.
use xm.Base.{
  ℕ, zero, suc, ◌+◌, ◌-◌, ◌/◌, ◌%◌, ◌^◌, ◌≤◌, ◌<◌, ◌≡◌, refl, ap, sym, ◌∙◌, true, false, Option,
  some, [], ◌∷◌, ◌++◌, Bytes, ◌==◌, ltb, append_assoc, Bool-cases, inl, inr, arith, All,
}
use xm.JBuilder.Numbers.{digits_loop, format_uint, format_int}
use xm.JBuilder.ConsoleStrings.{is_one_of, is_safe, is_word}
use xm.ConsoleReplay.{scan, one_string, with_sep, one_string_and_sep, one_word_maybe_quoted}
use xm.ConsoleReplay.Words.{Safe, Bounded, sep_of, behind, unquoted-append}

-- A word that needs no quotes.
abbrev pub Word : Bytes → Type 0
Word w = (c : ℕ) × (s : Bytes) × (w ≡ c ∷ s) × Safe (c ∷ s)

safe_not_quote : (c : ℕ) → is_safe c ≡ true → (c == b'"') ≡ false
unfolding is_safe is_one_of is_word
safe_not_quote c h = ground arith

module _ (unquote : Bytes → Option Bytes) where
  with_sep-rest : (s rest : Bytes) → with_sep unquote (s, rest) ≡ (s, sep_of rest, behind rest)
  unfolding with_sep
  with_sep-rest s [] = refl
  with_sep-rest s (c ∷ t) = refl

  one_string-word :
      (c : ℕ) (s rest : Bytes)
      → Safe (c ∷ s)
      → Bounded rest
      → one_string unquote (c ∷ (s ++ rest)) ≡ (c ∷ s, rest)
  unfolding one_string
  one_string-word c s rest (e, h) b =
      rw (safe_not_quote c e, one_string) (unquoted-append c s rest (e, h) b)

  pub Word-append :
      (w rest : Bytes)
      → Word w
      → Bounded rest
      → one_string_and_sep unquote (w ++ rest) ≡ (w, sep_of rest, behind rest)
  unfolding one_string_and_sep
  Word-append w rest (c, s, e, h) b =
      ap (λ (x : Bytes). one_string_and_sep unquote (x ++ rest)) e
      ∙ (ap (with_sep unquote) (one_string-word c s rest h b)
          ∙ (with_sep-rest (c ∷ s) rest
              ∙ ap (λ (x : Bytes). (x, sep_of rest, behind rest)) (sym e)))

  one_string-quoted :
      (body one rest : Bytes)
      → scan (body ++ b'"' ∷ rest) ≡ some (body ++ b'"' ∷ [], rest)
      → unquote (b'"' ∷ (body ++ b'"' ∷ [])) ≡ some one
      → one_string unquote (b'"' ∷ (body ++ b'"' ∷ rest)) ≡ (one, rest)
  unfolding one_string
  one_string-quoted body one rest h u = rw (h, one_string, u) refl

  quoted_text :
      (body rest : Bytes) → (b'"' ∷ (body ++ b'"' ∷ [])) ++ rest ≡ b'"' ∷ (body ++ b'"' ∷ rest)
  quoted_text body rest = ap (◌∷◌ b'"') (append_assoc body (b'"' ∷ []) rest)

  pub quoted-append :
      (body one rest : Bytes)
      → scan (body ++ b'"' ∷ rest) ≡ some (body ++ b'"' ∷ [], rest)
      → unquote (b'"' ∷ (body ++ b'"' ∷ [])) ≡ some one
      → one_string_and_sep unquote ((b'"' ∷ (body ++ b'"' ∷ [])) ++ rest)
        ≡ (one, sep_of rest, behind rest)
  unfolding one_string_and_sep
  quoted-append body one rest h u =
      ap (one_string_and_sep unquote) (quoted_text body rest)
      ∙ (ap (with_sep unquote) (one_string-quoted body one rest h u) ∙ with_sep-rest one rest)

  pub maybe_quoted-append :
      (boundary body one rest : Bytes)
      → scan (body ++ b'"' ∷ rest) ≡ some (body ++ b'"' ∷ [], rest)
      → unquote (b'"' ∷ (body ++ b'"' ∷ [])) ≡ some one
      → one_word_maybe_quoted unquote boundary ((b'"' ∷ (body ++ b'"' ∷ [])) ++ rest)
        ≡ (one, sep_of rest, behind rest)
  unfolding one_word_maybe_quoted
  maybe_quoted-append boundary body one rest h u =
      ap (one_word_maybe_quoted unquote boundary) (quoted_text body rest)
      ∙ rw (h, one_word_maybe_quoted, u) (with_sep-rest one rest)

-- Integers are such words.
Word-more : (c : ℕ) (w : Bytes) → is_safe c ≡ true → Word w → Word (c ∷ w)
Word-more c w e (d, s, q, h) = (c, w, refl, (e, rw q h))

digit_safe : (c : ℕ) → 48 ≤ c → c < 58 → is_safe c ≡ true
unfolding is_safe is_one_of is_word
digit_safe c h g = ground arith

digits_loop-Word : (fuel n : ℕ) (acc : Bytes) → Word acc → Word (digits_loop fuel n acc)
unfolding digits_loop
digits_loop-Word zero n acc h = h
digits_loop-Word (suc fuel) n acc h = elim (Bool-cases (ltb n 10)) [
  | inl e ↦
      rw (e, digits_loop)
        (Word-more (48 + n) acc (digit_safe (48 + n) (omega arith) (ground arith)) h)
  | inr e ↦
      rw (e, digits_loop)
        (digits_loop-Word fuel (n / 10) _
          (Word-more (48 + n % 10) acc (digit_safe _ (omega arith) (omega arith)) h))
]

pub format_uint-Word : (n : ℕ) → Word (format_uint n)
unfolding format_uint digits_loop
format_uint-Word n = elim (Bool-cases (ltb n 10)) [
  | inl e ↦
      rw (e, format_uint) (48 + n, [], refl, (digit_safe (48 + n) (omega arith) (ground arith), tt))
  | inr e ↦
      rw (e, format_uint)
        (digits_loop-Word 19 (n / 10) _
          (48 + n % 10, [], refl, (digit_safe _ (omega arith) (omega arith), tt)))
]

minus_safe : is_safe b'-' ≡ true
unfolding is_safe is_one_of is_word
minus_safe = refl

pub format_int-Word : (v : ℕ) → Word (format_int v)
unfolding format_int
format_int-Word v = elim (Bool-cases (ltb v (2 ^ 63))) [
  | inl e ↦ rw (e, format_int) (format_uint-Word v)
  | inr e ↦ rw (e, format_int) (Word-more b'-' _ minus_safe (format_uint-Word (2 ^ 64 - v)))
]

-- What holds of digits and of the minus holds of every byte of an integer.
module _ (P : ℕ → Type 0) (digit : (c : ℕ) → 48 ≤ c → c < 58 → P c) where
  digits_loop-All : (fuel n : ℕ) (acc : Bytes) → All P acc → All P (digits_loop fuel n acc)
  unfolding digits_loop
  digits_loop-All zero n acc h = h
  digits_loop-All (suc fuel) n acc h = elim (Bool-cases (ltb n 10)) [
    | inl e ↦ rw (e, digits_loop) (digit (48 + n) (omega arith) (ground arith), h)
    | inr e ↦
        rw (e, digits_loop)
          (digits_loop-All fuel (n / 10) _ (digit (48 + n % 10) (omega arith) (omega arith), h))
  ]

  pub format_int-All : P b'-' → (v : ℕ) → All P (format_int v)
  unfolding format_int format_uint
  format_int-All m v = elim (Bool-cases (ltb v (2 ^ 63))) [
    | inl e ↦ rw (e, format_int) (digits_loop-All 20 v [] tt)
    | inr e ↦ rw (e, format_int) (m, digits_loop-All 20 (2 ^ 64 - v) [] tt)
  ]

pub format_uint-digits : (n : ℕ) → All (λ c. (48 ≤ c) × (c < 58)) (format_uint n)
unfolding format_uint
format_uint-digits n = digits_loop-All (λ c. (48 ≤ c) × (c < 58)) (λ c l u. (l, u)) 20 n [] tt

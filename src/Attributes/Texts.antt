-- ===== src/Attributes/Texts.antt =====
-- What the methods of a JSON builder append, and in what byte it ends.
use xm.Base.{
  ℕ, zero, suc, ◌+◌, ◌-◌, ◌/◌, ◌%◌, ◌^◌, ◌≤◌, ◌<◌, ◌≡◌, refl, ap, ◌∙◌, Bool, false, [], ◌∷◌, ◌++◌,
  Bytes, if◌then◌else◌, ltb, append_assoc, Bool-cases, inl, inr, arith,
}
use xm.JBuilder.{JBuilder, append_bytes, add_string_body, add_string, add_safe_string}
use xm.JBuilder.Escape.{needs_escape}
use xm.JBuilder.Quote.{hide_all, escapes-hide_all}
use xm.JBuilder.Numbers.{digits_loop, format_uint, format_int, add_int64}
use xm.Attributes.Values.{PlainEnd, append-PlainEnd}

-- The method appends the text.
abbrev pub Appends : (JBuilder → JBuilder) → Bytes → Type 0
Appends add r = (j : JBuilder) → add j ≡ append_bytes r j

append-append :
    (u v : Bytes) (j : JBuilder) → append_bytes v (append_bytes u j) ≡ append_bytes (u ++ v) j
unfolding append_bytes
append-append u v j = ap (λ (b : Bytes). record j { b = b }) (append_assoc j.b u v)

pub Appends-then :
    (add add' : JBuilder → JBuilder) (u v : Bytes)
    → Appends add u
    → Appends add' v
    → Appends (λ j. add' (add j)) (u ++ v)
Appends-then add add' u v h g j = ap add' (h j) ∙ (g (append_bytes u j) ∙ append-append u v j)

abbrev pub body_text : Bytes → Bytes
body_text s = if needs_escape s then hide_all s else s

unfoldable pub string_text : Bytes → Bytes
string_text s = b'"' ∷ (body_text s ++ b'"' ∷ [])

add_string_body-Appends : (s : Bytes) → Appends (add_string_body s) (body_text s)
unfolding add_string_body append_bytes
add_string_body-Appends s j = elim (Bool-cases (needs_escape s)) [
  | inl e ↦
      rw (e, add_string_body) (ap (λ (b : Bytes). record j { b = b }) (escapes-hide_all s j.b))
  | inr n ↦ rw (n, add_string_body) refl
]

pub add_string-Appends : (s : Bytes) → Appends (add_string s) (string_text s)
unfolding add_string string_text
add_string-Appends s =
    Appends-then (λ j. add_string_body s (append_bytes (b'"' ∷ []) j)) (append_bytes (b'"' ∷ []))
      (b'"' ∷ body_text s) (b'"' ∷ [])
      (Appends-then (append_bytes (b'"' ∷ [])) (add_string_body s) (b'"' ∷ []) (body_text s)
        (λ j. refl) (add_string_body-Appends s))
      (λ j. refl)

pub add_safe_string-Appends : (s : Bytes) → Appends (add_safe_string s) (b'"' ∷ (s ++ b'"' ∷ []))
unfolding add_safe_string
add_safe_string-Appends s =
    Appends-then (λ j. append_bytes s (append_bytes (b'"' ∷ []) j)) (append_bytes (b'"' ∷ []))
      (b'"' ∷ s) (b'"' ∷ [])
      (Appends-then (append_bytes (b'"' ∷ [])) (append_bytes s) (b'"' ∷ []) s (λ j. refl)
        (λ j. refl))
      (λ j. refl)

pub add_int64-Appends : (v : ℕ) → Appends (add_int64 v) (format_int v)
unfolding add_int64
add_int64-Appends v j = refl

-- The last byte.
module _ (bad : ℕ → Bool) where
  pub quoted-PlainEnd : (s : Bytes) → bad b'"' ≡ false → PlainEnd bad (b'"' ∷ (s ++ b'"' ∷ []))
  quoted-PlainEnd s h = (b'"' ∷ s, b'"', refl, h)

  pub string_text-PlainEnd : (s : Bytes) → bad b'"' ≡ false → PlainEnd bad (string_text s)
  unfolding string_text
  string_text-PlainEnd s h = quoted-PlainEnd (body_text s) h

  module _ (digit : (c : ℕ) → 48 ≤ c → c < 58 → bad c ≡ false) where
    digits_loop-PlainEnd :
        (fuel n : ℕ) (acc : Bytes) → PlainEnd bad acc → PlainEnd bad (digits_loop fuel n acc)
    unfolding digits_loop
    digits_loop-PlainEnd zero n acc p = p
    digits_loop-PlainEnd (suc fuel) n acc p = elim (Bool-cases (ltb n 10)) [
      | inl e ↦ rw (e, digits_loop) (append-PlainEnd bad ((48 + n) ∷ []) acc p)
      | inr e ↦
          rw (e, digits_loop)
            (digits_loop-PlainEnd fuel (n / 10) ((48 + n % 10) ∷ acc)
              (append-PlainEnd bad ((48 + n % 10) ∷ []) acc p))
    ]

    format_uint-PlainEnd : (n : ℕ) → PlainEnd bad (format_uint n)
    unfolding format_uint digits_loop
    format_uint-PlainEnd n = elim (Bool-cases (ltb n 10)) [
      | inl e ↦ rw (e, format_uint) ([], 48 + n, refl, digit (48 + n) (omega arith) (ground arith))
      | inr e ↦
          rw (e, format_uint)
            (digits_loop-PlainEnd 19 (n / 10) ((48 + n % 10) ∷ [])
              ([], 48 + n % 10, refl, digit (48 + n % 10) (omega arith) (omega arith)))
    ]

    pub format_int-PlainEnd : (v : ℕ) → PlainEnd bad (format_int v)
    unfolding format_int
    format_int-PlainEnd v = elim (Bool-cases (ltb v (2 ^ 63))) [
      | inl e ↦ rw (e, format_int) (format_uint-PlainEnd v)
      | inr e ↦
          rw (e, format_int)
            (append-PlainEnd bad (b'-' ∷ []) (format_uint (2 ^ 64 - v))
              (format_uint-PlainEnd (2 ^ 64 - v)))
    ]

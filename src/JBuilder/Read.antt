-- ===== src/JBuilder/Read.antt =====
-- What a JSON reader makes of the strings that the builder writes.
use xm.Base.{
  ℕ, ◌≤◌, ◌<◌, ◌≡◌, ◌≢◌, refl, ap, sym, subst, ◌∙◌, false, none, some, [], ◌∷◌, ◌++◌, Bytes, All,
  if◌then◌else◌, ◌>>=◌, arith, Bool-cases, inl, inr, ◌⊎◌,
}
use mathlib.Core.List.Memᴰ as Mem
use mathlib.Core.List.{Memᴰ}
use mathlib.Core.List.Memᴰ.{head, tail}
use xm.JBuilder.Escape.{in_table, needs_escape}
use xm.JBuilder.Reader.{plain, read, read_body}
use xm.JBuilder.Quote.{hide, hide_all, escapes-hide_all}
use xm.JBuilder.{JBuilder, add_string_body}

-- A byte that the builder can write: the control characters are those with an escape.
abbrev pub IsClean : ℕ → Type 0
IsClean c = (32 ≤ c) ⊎ ((8 ≤ c) × (c ≤ 13) × (c ≢ 11))

-- A control character with none.
abbrev pub IsRaw : ℕ → Type 0
IsRaw c = ((1 ≤ c) × (c < 8)) ⊎ ((c ≡ 11) ⊎ ((14 ≤ c) × (c < 32)))

read-hide_clean :
    (c : ℕ) (s : Bytes)
    → IsClean c
    → read plain (hide c ++ s) ≡ (read plain s >>= λ r. some (c ∷ r))
unfolding read hide
read-hide_clean c s h = ground arith

read-hide_raw : (c : ℕ) (s : Bytes) → IsRaw c → read plain (hide c ++ s) ≡ none
unfolding read hide
read-hide_raw c s h = ground arith

read_refused : (c : ℕ) (s : Bytes) → read plain s ≡ none → read plain (hide c ++ s) ≡ none
unfolding read hide
read_refused c s h = ground arith

read-nil : read plain [] ≡ some []
unfolding read
read-nil = refl

read-hide_all : (s : Bytes) → All IsClean s → read plain (hide_all s) ≡ some s
unfolding hide_all
read-hide_all [] h = read-nil
read-hide_all (c ∷ s) (hc, hs) = read-hide_clean c (hide_all s) hc ∙ rw (read-hide_all s hs, ◌>>=◌)

-- Some control character has no escape.
abbrev pub HasRaw : Bytes → Type 0
HasRaw [] = ⊥
HasRaw (c ∷ s) = IsRaw c ⊎ HasRaw s

read-hide_all_raw : (s : Bytes) → HasRaw s → read plain (hide_all s) ≡ none
unfolding hide_all
read-hide_all_raw [] h = absurd h
read-hide_all_raw (c ∷ s) (inl h) = read-hide_raw c (hide_all s) h
read-hide_all_raw (c ∷ s) (inr h) = read_refused c (hide_all s) (read-hide_all_raw s h)

-- The fast path: no byte is in the table.
hide_fast : (c : ℕ) → in_table c ≡ false → (IsClean c ⊎ IsRaw c) → hide c ≡ c ∷ []
unfolding in_table hide
hide_fast c t h = ground arith

needs_escape-cons :
    (c : ℕ) (s : Bytes)
    → needs_escape (c ∷ s) ≡ false
    → (in_table c ≡ false) × (needs_escape s ≡ false)
unfolding needs_escape
needs_escape-cons c s h = ground arith

hide_all_fast : (s : Bytes) → needs_escape s ≡ false → All IsClean s → hide_all s ≡ s
unfolding hide_all
hide_all_fast [] n h = refl
hide_all_fast (c ∷ s) n (hc, hs) =
    let (t, n') = needs_escape-cons c s n in rw (hide_fast c t (inl hc), hide_all_fast s n' hs)

read_fast_raw : (c : ℕ) (s : Bytes) → IsRaw c → read plain (c ∷ s) ≡ none
unfolding read
read_fast_raw c s h = ground arith

read_fast_none :
    (c : ℕ) (s : Bytes) → in_table c ≡ false → read plain s ≡ none → read plain (c ∷ s) ≡ none
unfolding read in_table
read_fast_none c s t h = ground arith

read_fast-HasRaw : (s : Bytes) → needs_escape s ≡ false → HasRaw s → read plain s ≡ none
read_fast-HasRaw [] n h = absurd h
read_fast-HasRaw (c ∷ s) n (inl h) = read_fast_raw c s h
read_fast-HasRaw (c ∷ s) n (inr h) =
    let (t, n') = needs_escape-cons c s n in read_fast_none c s t (read_fast-HasRaw s n' h)

-- What AddStringBody appends.
unfoldable pub body : Bytes → Bytes
body s = if needs_escape s then hide_all s else s

pub add_string_body-body : (s : Bytes) (j : JBuilder) → (add_string_body s j).b ≡ j.b ++ body s
unfolding add_string_body body
add_string_body-body s j = elim (Bool-cases (needs_escape s)) [
  | inl e ↦ rw e (escapes-hide_all s j.b)
  | inr n ↦ rw n
]

-- A JSON reader gets back every text whose control characters all have an escape.
pub read_body-body : (s : Bytes) → All IsClean s → read_body (body s) ≡ some s
unfolding body read_body
read_body-body s h = elim (Bool-cases (needs_escape s)) [
  | inl e ↦ rw e (read-hide_all s h)
  | inr n ↦ rw n (ap (read plain) (sym (hide_all_fast s n h)) ∙ read-hide_all s h)
]

read_body-body_raw : (s : Bytes) → HasRaw s → read_body (body s) ≡ none
unfolding body read_body
read_body-body_raw s h = elim (Bool-cases (needs_escape s)) [
  | inl e ↦ rw e (read-hide_all_raw s h)
  | inr n ↦ rw n (read_fast-HasRaw s n h)
]

-- For a text whose control characters are all among 8, 9, 10, 12 and 13, AddStringBody appends
-- to the buffer what a JSON reader turns into that text again.
pub add_string_body-read :
    (s : Bytes) (j : JBuilder)
    → All IsClean s
    → (w : Bytes) × ((add_string_body s j).b ≡ j.b ++ w) × (read_body w ≡ some s)
add_string_body-read s j h = (body s, add_string_body-body s j, read_body-body s h)

-- A control character stands in the text.
abbrev pub HasControl : Bytes → Type 0
HasControl w = (c : ℕ) × (c < 32) × Memᴰ c w

hide_raw : (c : ℕ) → IsRaw c → hide c ≡ c ∷ []
unfolding hide
hide_raw c h = ground arith

raw_control : (c : ℕ) → IsRaw c → c < 32
raw_control c h = ground arith

hide_all-HasControl : (s : Bytes) → HasRaw s → HasControl (hide_all s)
unfolding hide_all
hide_all-HasControl [] h = absurd h
hide_all-HasControl (c ∷ s) (inl h) = (
  c,
  raw_control c h,
  Mem.append_left (hide_all s) (subst (Memᴰ c) (sym (hide_raw c h)) (head refl)),
)
hide_all-HasControl (c ∷ s) (inr h) =
    let (d, l, m) = hide_all-HasControl s h in (d, l, Mem.append_right (hide c) m)

HasRaw-HasControl : (s : Bytes) → HasRaw s → HasControl s
HasRaw-HasControl [] h = absurd h
HasRaw-HasControl (c ∷ s) (inl h) = (c, raw_control c h, head refl)
HasRaw-HasControl (c ∷ s) (inr h) = let (d, l, m) = HasRaw-HasControl s h in (d, l, tail m)

body-HasControl : (s : Bytes) → HasRaw s → HasControl (body s)
unfolding body
body-HasControl s h = elim (Bool-cases (needs_escape s)) [
  | inl e ↦ rw e (hide_all-HasControl s h)
  | inr n ↦ rw n (HasRaw-HasControl s h)
]

-- For a text with a control character from 1 to 31 other than 8, 9, 10, 12 and 13, AddStringBody
-- appends to the buffer a text in which a byte below 32 stands as it is, which the grammar of strings in
-- RFC 8259 has no place for; the reader of JBuilder/Reader refuses it.
pub add_string_body_invalid :
    (s : Bytes) (j : JBuilder)
    → HasRaw s
    → (w : Bytes) × ((add_string_body s j).b ≡ j.b ++ w) × HasControl w × (read_body w ≡ none)
add_string_body_invalid s j h =
    (body s, add_string_body-body s j, body-HasControl s h, read_body-body_raw s h)

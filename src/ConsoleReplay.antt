-- ===== src/ConsoleReplay.antt =====
-- xopconsole/replay.go: how the words of a line are read. A word is given with the byte that ends it, 0 at
-- the end of the line, and with what is left.
pub mod Metadata
pub mod Words
pub mod Quoted
pub mod Numbers
pub mod Strings
pub mod Values
pub mod ValueTrip
pub mod RoundTrip
pub mod QuotedEnum
pub mod Made
pub mod Appended
pub mod Trip
mod Tests
use xm.Base.{
  ℕ, Bool, true, false, Option, none, some, List, [], ◌∷◌, ◌++◌, Bytes, drop, length, if◌then◌else◌,
  ◌==◌, ◌&&◌, ◌||◌,
}
use xm.JBuilder.ConsoleStrings.{is_one_of, is_safe}

-- The text in front of the first boundary, the boundary, and the text behind it.
unfoldable pub cut : Bytes → Bytes → Option (Bytes × ℕ × Bytes)
unfolding is_one_of
cut boundary [] = none
cut boundary (c ∷ t) = elim (is_one_of boundary c) [
  | true ↦ some ([], c, t)
  | false ↦ elim (cut boundary t) [
    | none ↦ none
    | some (found, sep, rest) ↦ some (c ∷ found, sep, rest)
  ]
]

unfoldable pub one_word : Bytes → Bytes → Bytes × ℕ × Bytes
unfolding cut
one_word boundary t = elim (cut boundary t) [ none ↦ ([], 0, t) | some w ↦ w ]

unfoldable pub one_word_terminal : Bytes → Bytes → Bytes × ℕ × Bytes
unfolding cut
one_word_terminal boundary t = elim (cut boundary t) [ none ↦ (t, 0, []) | some w ↦ w ]

-- The loop behind an opening quote: the text up to the closing quote, and what is left. A backslash takes
-- the next byte with it.
unfoldable pub scan : Bytes → Option (Bytes × Bytes)
scan [] = none
scan (c ∷ []) = if c == b'"' then some (c ∷ [], []) else none
scan (c ∷ d ∷ t) = elim (c == b'\\') [
  | true ↦ elim (scan t) [ none ↦ none | some (found, rest) ↦ some (c ∷ d ∷ found, rest) ]
  | false ↦ elim (c == b'"') [
    | true ↦ some (c ∷ [], d ∷ t)
    | false ↦ elim (scan (d ∷ t)) [ none ↦ none | some (found, rest) ↦ some (c ∷ found, rest) ]
  ]
]

-- `[-:punct\w]*`, as far as it goes.
unfoldable pub take_inner : Bytes → Bytes
unfolding is_safe
take_inner [] = []
take_inner (c ∷ s) = elim (is_safe c || (c == b':')) [ true ↦ c ∷ take_inner s | false ↦ [] ]

abbrev pub is_empty : Bytes → Bool
is_empty [] = true
is_empty (c ∷ s) = false

-- A match does not end in a colon: the colons at the end are given back.
unfoldable pub trim_colons : Bytes → Bytes
trim_colons [] = []
trim_colons (c ∷ s) =
    let rest = trim_colons s in if (c == b':') && is_empty rest then [] else c ∷ rest

-- `UnquotedConsoleStringRE.FindString`
unfoldable pub find_string : Bytes → Bytes
unfolding is_safe take_inner trim_colons
find_string [] = []
find_string (c ∷ s) = if is_safe c then c ∷ trim_colons (take_inner s) else []

-- The unquoted string at the start.
unfoldable pub unquoted : Bytes → Bytes × Bytes
unfolding find_string
unquoted t = let one = find_string t in (one, drop (length one) t)

unfoldable pub skip_space : Bytes × Bytes → Bytes × Bytes
skip_space ([], b) = ([], b)
skip_space (c ∷ a, []) = (c ∷ a, [])
skip_space (c ∷ a, d ∷ b) = if d == b' ' then (c ∷ a, b) else (c ∷ a, d ∷ b)

-- `unquote` is strconv.Unquote.
module _ (unquote : Bytes → Option Bytes) where
  unfoldable pub one_string : Bytes → Bytes × Bytes
  unfolding scan unquoted
  one_string [] = ([], [])
  one_string (c ∷ t) =
      if c == b'"'
      then (elim (scan t) [
        | none ↦ unquoted (c ∷ t)
        | some (found, rest) ↦ elim (unquote (c ∷ found)) [
          | none ↦ ([], c ∷ t)
          | some one ↦ (one, rest)
        ]
      ])
      else unquoted (c ∷ t)

  unfoldable pub with_sep : Bytes × Bytes → Bytes × ℕ × Bytes
  with_sep (s, []) = (s, 0, [])
  with_sep (s, c ∷ t) = (s, c, t)

  unfoldable pub one_string_and_sep : Bytes → Bytes × ℕ × Bytes
  unfolding one_string
  one_string_and_sep t = with_sep (one_string t)

  unfoldable pub one_string_and_space : Bytes → Bytes × Bytes
  unfolding one_string skip_space
  one_string_and_space t = skip_space (one_string t)

  unfoldable pub unquote_or : Bytes → Bytes
  unquote_or [] = []
  unquote_or (c ∷ t) =
      if c == b'"' then (elim (unquote (c ∷ t)) [ none ↦ c ∷ t | some u ↦ u ]) else c ∷ t

  unfoldable pub one_word_maybe_quoted : Bytes → Bytes → Bytes × ℕ × Bytes
  unfolding scan one_word
  one_word_maybe_quoted boundary [] = ([], 0, [])
  one_word_maybe_quoted boundary (c ∷ t) =
      if c == b'"'
      then (elim (scan t) [
        | none ↦ one_word boundary (c ∷ t)
        | some (found, rest) ↦ elim (unquote (c ∷ found)) [
          | none ↦ ([], 0, c ∷ t)
          | some one ↦ with_sep (one, rest)
        ]
      ])
      else one_word boundary (c ∷ t)

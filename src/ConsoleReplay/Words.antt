-- ===== src/ConsoleReplay/Words.antt =====
-- The readers of words on the texts that the console writes.
use xm.Base.{
  ℕ, ◌≡◌, refl, ap, ◌∙◌, true, false, none, some, [], ◌∷◌, ◌++◌, Bytes, drop-append_left, ◌==◌,
  ◌||◌, All, arith, append-nil,
}
use xm.JBuilder.ConsoleStrings.{is_one_of, is_safe, is_word}
use xm.ConsoleReplay.{
  cut, one_word, one_word_terminal, scan, take_inner, trim_colons, find_string, unquoted,
}

-- No byte of the word ends it.
abbrev pub Within : Bytes → Bytes → Type 0
Within boundary = All (λ c. is_one_of boundary c ≡ false)

-- What a value has behind it: nothing, or a comma or a space.
abbrev pub ends : Bytes
ends = b' ' ∷ b',' ∷ []

abbrev pub Bounded : Bytes → Type 0
Bounded [] = Unit
Bounded (c ∷ t) = is_one_of ends c ≡ true

abbrev pub sep_of : Bytes → ℕ
sep_of [] = 0
sep_of (c ∷ t) = c

abbrev pub behind : Bytes → Bytes
behind [] = []
behind (c ∷ t) = t

cut_found :
    (boundary w : Bytes) (c : ℕ) (t : Bytes)
    → Within boundary w
    → is_one_of boundary c ≡ true
    → cut boundary (w ++ c ∷ t) ≡ some (w, c, t)
unfolding cut
cut_found boundary [] c t h e = rw (e, cut) refl
cut_found boundary (d ∷ w) c t (n, h) e = rw (n, cut, cut_found boundary w c t h e) refl

cut-none : (boundary w : Bytes) → Within boundary w → cut boundary w ≡ none
unfolding cut
cut-none boundary [] h = refl
cut-none boundary (d ∷ w) (n, h) = rw (n, cut, cut-none boundary w h) refl

pub one_word-append :
    (boundary w : Bytes) (c : ℕ) (t : Bytes)
    → Within boundary w
    → is_one_of boundary c ≡ true
    → one_word boundary (w ++ c ∷ t) ≡ (w, c, t)
unfolding one_word
one_word-append boundary w c t h e = rw (cut_found boundary w c t h e, one_word) refl

pub one_word_terminal-append :
    (w rest : Bytes)
    → Within ends w
    → Bounded rest
    → one_word_terminal ends (w ++ rest) ≡ (w, sep_of rest, behind rest)
unfolding one_word_terminal
one_word_terminal-append w [] h b =
    ap (one_word_terminal ends) (append-nil w) ∙ rw (cut-none ends w h, one_word_terminal) refl
one_word_terminal-append w (c ∷ t) h b = rw (cut_found ends w c t h b, one_word_terminal) refl

-- Words that the pattern of unquoted strings takes whole.
abbrev pub Safe : Bytes → Type 0
Safe = All (λ c. is_safe c ≡ true)

end_not_inner : (c : ℕ) → is_one_of ends c ≡ true → (is_safe c || (c == b':')) ≡ false
unfolding is_one_of is_safe is_word
end_not_inner c h = ground arith

colon_not_safe : (c : ℕ) → is_safe c ≡ true → (c == b':') ≡ false
unfolding is_one_of is_safe is_word
colon_not_safe c h = ground arith

take_inner-append : (s rest : Bytes) → Safe s → Bounded rest → take_inner (s ++ rest) ≡ s
unfolding take_inner
take_inner-append [] [] h b = refl
take_inner-append [] (c ∷ t) h b = rw (end_not_inner c b, take_inner) refl
take_inner-append (c ∷ s) rest (e, h) b = rw (e, take_inner, take_inner-append s rest h b) refl

trim_colons-Safe : (s : Bytes) → Safe s → trim_colons s ≡ s
unfolding trim_colons
trim_colons-Safe [] h = refl
trim_colons-Safe (c ∷ s) (e, h) = rw (trim_colons-Safe s h, colon_not_safe c e) refl

pub unquoted-append :
    (c : ℕ) (s rest : Bytes)
    → Safe (c ∷ s)
    → Bounded rest
    → unquoted (c ∷ (s ++ rest)) ≡ (c ∷ s, rest)
unfolding unquoted find_string
unquoted-append c s rest (e, h) b =
    let f : find_string (c ∷ (s ++ rest)) ≡ c ∷ s =
      rw (e, find_string, take_inner-append s rest h b, trim_colons-Safe s h) refl in
    rw (f, unquoted) (ap (λ (t : Bytes). (c ∷ s, t)) (drop-append_left _ s rest refl))

-- A text between quotes: a backslash has a byte behind it, and no quote stands alone.
pub data Closed : Bytes → Type 0 where
  nothing : Closed []
  plain :
      (c : ℕ) (s : Bytes) → (c == b'\\') ≡ false → (c == b'"') ≡ false → Closed s → Closed (c ∷ s)
  escaped : (c d : ℕ) (s : Bytes) → (c == b'\\') ≡ true → Closed s → Closed (c ∷ d ∷ s)

scan_plain :
    (c : ℕ) (s rest found left : Bytes)
    → (c == b'\\') ≡ false
    → (c == b'"') ≡ false
    → scan (s ++ b'"' ∷ rest) ≡ some (found, left)
    → scan (c ∷ (s ++ b'"' ∷ rest)) ≡ some (c ∷ found, left)
unfolding scan
scan_plain c [] rest found left n q h = rw (n, scan, q, h) refl
scan_plain c (d ∷ s) rest found left n q h = rw (n, scan, q, h) refl

scan_escaped :
    (c d : ℕ) (s rest found left : Bytes)
    → (c == b'\\') ≡ true
    → scan (s ++ b'"' ∷ rest) ≡ some (found, left)
    → scan (c ∷ d ∷ (s ++ b'"' ∷ rest)) ≡ some (c ∷ d ∷ found, left)
unfolding scan
scan_escaped c d s rest found left e h = rw (e, scan, h) refl

scan_quote : (rest : Bytes) → scan (b'"' ∷ rest) ≡ some (b'"' ∷ [], rest)
unfolding scan
scan_quote [] = refl
scan_quote (c ∷ t) = refl

pub scan-append :
    (s rest : Bytes) → Closed s → scan (s ++ b'"' ∷ rest) ≡ some (s ++ b'"' ∷ [], rest)
scan-append [] rest nothing = scan_quote rest
scan-append (c ∷ s) rest (plain c' s' n q h) = scan_plain c s rest _ rest n q (scan-append s rest h)
scan-append (c ∷ d ∷ s) rest (escaped c' d' s' e h) =
    scan_escaped c d s rest _ rest e (scan-append s rest h)

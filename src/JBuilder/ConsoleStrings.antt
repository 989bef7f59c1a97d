-- ===== src/JBuilder/ConsoleStrings.antt =====
-- xoputil/jbuilder.go: the strings of the console format, quoted only where the expression safeRE does not
-- match. Bytes from 128 on match no class of it.
use xm.Base.{
  ℕ, Bool, true, false, none, some, [], ◌∷◌, Bytes, codes, bytes_eq, length, get_elem?,
  if◌then◌else◌, leb, ◌==◌, ◌&&◌, ◌||◌, not,
}
use xm.JBuilder.{JBuilder, append_bytes}

unfoldable pub is_one_of : Bytes → ℕ → Bool
is_one_of [] c = false
is_one_of (d ∷ ds) c = (c == d) || is_one_of ds c

-- The variable `punct`, less its escapes, with the dash.
abbrev pub punct : Bytes
punct = b'-' ∷ 96 ∷ codes "_~!@#$%^&*[]{};'<>.?/"

unfoldable pub is_word : ℕ → Bool
is_word c =
    (leb 48 c && leb c 57) || ((leb 65 c && leb c 90) || ((leb 97 c && leb c 122) || (c == 95)))

-- `[-punct\w]`
unfoldable pub is_safe : ℕ → Bool
unfolding is_one_of is_word
is_safe c = is_one_of punct c || is_word c

-- `[-:punct\w]*`
unfoldable pub all_inner : Bytes → Bool
unfolding is_safe
all_inner [] = true
all_inner (c ∷ s) = (is_safe c || (c == b':')) && all_inner s

-- `safeRE.MatchString`: the first and the last byte are safe, and no byte is outside of the class.
unfoldable pub safe_re : Bytes → Bool
unfolding is_safe all_inner
safe_re [] = false
safe_re (c ∷ s) = elim (get_elem? (c ∷ s) (length s)) [
  | none ↦ false
  | some d ↦ is_safe c && (is_safe d && all_inner s)
]

-- `quote` is strconv.AppendQuote on an empty buffer.
unfoldable pub add_console_string : (Bytes → Bytes) → Bytes → JBuilder → JBuilder
unfolding append_bytes safe_re bytes_eq
add_console_string quote s j =
    if safe_re s && (not (bytes_eq s (codes "t")) && not (bytes_eq s (codes "f")))
    then append_bytes s j
    else append_bytes (quote s) j

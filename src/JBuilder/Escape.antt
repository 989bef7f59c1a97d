-- ===== src/JBuilder/Escape.antt =====
-- xoputil/fromphu.go: the table of bytes that call for the slow loop, and the loop.
use xm.Base.{
  ℕ, zero, suc, ◌+◌, ◌-◌, Bool, false, Option, none, some, [], ◌∷◌, ◌++◌, Bytes, length, take, drop,
  get_elem?, if◌then◌else◌, ◌==◌, ◌||◌,
}

-- The table `escapes`.
unfoldable pub in_table : ℕ → Bool
in_table c =
    c == b'"'
    || (c == b'<'
        || (c == 39 || (c == b'\\' || (c == 8 || (c == 12 || (c == 10 || (c == 13 || c == 9)))))))

unfoldable pub needs_escape : Bytes → Bool
needs_escape [] = false
needs_escape (c ∷ s) = in_table c || needs_escape s

-- `\u00` and two digits
abbrev pub unicode : ℕ → ℕ → Bytes
unicode x y = b'\\' ∷ b'u' ∷ b'0' ∷ b'0' ∷ x ∷ y ∷ []

-- The cases of the loop's switch.
unfoldable pub escape_of : ℕ → Option Bytes
escape_of c =
    if c == b'"'
    then some (b'\\' ∷ b'"' ∷ [])
    else if c == b'\\'
    then some (b'\\' ∷ b'\\' ∷ [])
    else if c == 10
    then some (b'\\' ∷ b'n' ∷ [])
    else if c == 13
    then some (b'\\' ∷ b'r' ∷ [])
    else if c == 9
    then some (b'\\' ∷ b't' ∷ [])
    else if c == 12
    then some (unicode b'0' b'c')
    else if c == 8
    then some (unicode b'0' b'8')
    else if c == b'<'
    then some (unicode b'3' b'c')
    else if c == 39
    then some (unicode b'2' b'7')
    else if c == 0
    then some (unicode b'0' b'0')
    else none

-- `s[j:i]`
abbrev pub slice : Bytes → ℕ → ℕ → Bytes
slice s j i = take (i - j) (drop j s)

-- `for i := i; i < n; i++` with `k` rounds left: the bytes from `j` on are not yet written.
unfoldable pub escape_loop : ℕ → Bytes → ℕ → ℕ → Bytes → Bytes
escape_loop zero s i j b = b ++ drop j s
escape_loop (suc k) s i j b = elim (get_elem? s i) [
  | none ↦ b
  | some c ↦ elim (escape_of c) [
    | none ↦ escape_loop k s (i + 1) j b
    | some e ↦ escape_loop k s (i + 1) (i + 1) ((b ++ slice s j i) ++ e)
  ]
]

unfoldable pub escapes : Bytes → Bytes → Bytes
unfolding escape_loop
escapes s b = escape_loop (length s) s 0 0 b

-- ===== src/JBuilder.antt =====
-- xoputil/jbuilder.go and xoputil/fromphu.go: the buffer that JSON is built in. A builder is its
-- bytes and the flag FastKeys.
pub mod Escape
pub mod Reader
pub mod Quote
pub mod Read
pub mod Keys
pub mod Numbers
pub mod ConsoleStrings
mod Tests
use xm.Base.{
  ℕ, ◌-◌, Bool, true, false, Option, none, some, [], ◌∷◌, ◌++◌, Bytes, length, get_elem?,
  if◌then◌else◌, ◌==◌, ◌||◌,
}
use Escape.{needs_escape, escapes}

pub record JBuilder : Type 0 where
  pub b : Bytes
  pub fast_keys : Bool

unfoldable pub append_bytes : Bytes → JBuilder → JBuilder
append_bytes v j = record j { b = j.b ++ v }

unfoldable pub reset : JBuilder → JBuilder
reset j = record j { b = [] }

unfoldable pub opens : ℕ → Bool
opens c = c == b'[' || (c == b'{' || c == b':')

unfoldable pub comma : JBuilder → JBuilder
unfolding append_bytes opens
comma j = elim (get_elem? j.b (length j.b - 1)) [
  | none ↦ j
  | some c ↦ if opens c then j else append_bytes (b',' ∷ []) j
]

-- AddStringBody: one byte of the table, and the slow loop writes the whole text.
unfoldable pub add_string_body : Bytes → JBuilder → JBuilder
unfolding append_bytes
add_string_body s j = if needs_escape s then record j { b = escapes s j.b } else append_bytes s j

unfoldable pub add_string : Bytes → JBuilder → JBuilder
unfolding append_bytes
add_string v j = append_bytes (b'"' ∷ []) (add_string_body v (append_bytes (b'"' ∷ []) j))

-- The caller promises that nothing in `v` needs an escape.
unfoldable pub add_safe_string : Bytes → JBuilder → JBuilder
unfolding append_bytes
add_safe_string v j = append_bytes (b'"' ∷ []) (append_bytes v (append_bytes (b'"' ∷ []) j))

unfoldable pub add_safe_key : Bytes → JBuilder → JBuilder
unfolding append_bytes
add_safe_key v j =
    append_bytes (b'"' ∷ b':' ∷ []) (append_bytes v (append_bytes (b'"' ∷ []) (comma j)))

unfoldable pub add_key : Bytes → JBuilder → JBuilder
unfolding append_bytes
add_key v j =
    if j.fast_keys then add_safe_key v j else append_bytes (b':' ∷ []) (add_string v (comma j))

unfoldable pub build_key : Bytes → Bytes
unfolding append_bytes
build_key v =
    let start : JBuilder = record { b = []; fast_keys = false } in
    (append_bytes (b':' ∷ []) (add_string v (append_bytes (b',' ∷ []) start))).b

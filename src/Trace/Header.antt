-- ===== src/Trace/Header.antt =====
-- traceRE of xoptrace/trace.go: what regexp's FindStringSubmatch returns for
--   ^([a-fA-F0-9]{2})-([a-fA-F0-9]{32})-([a-fA-F0-9]{16})-([a-fA-F0-9]{2})$
pub mod Match
use xm.Base.{ℕ, zero, suc, Bool, Option, none, some, [], ◌∷◌, Bytes, ◌>>=◌, if◌then◌else◌, ◌==◌}
use xm.Trace.Hex.Codec.{is_hex}

abbrev pub dash : ℕ
dash = b'-'

-- `[a-fA-F0-9]{n}`: the digits and what follows them.
unfoldable pub take_hex : ℕ → Bytes → Option (Bytes × Bytes)
take_hex zero s = some ([], s)
take_hex (suc n) [] = none
take_hex (suc n) (c ∷ s) =
    if is_hex c then (do (digits, rest) ← take_hex n s; some (c ∷ digits, rest)) else none

unfoldable pub take_dash : Bytes → Option Bytes
take_dash [] = none
take_dash (c ∷ s) = if c == dash then some s else none

unfoldable pub take_end : Bytes → Option (Unit {0})
take_end [] = some tt
take_end (c ∷ s) = none

pub record Parts : Type 0 where
  pub version_part : Bytes
  pub trace_id_part : Bytes
  pub span_id_part : Bytes
  pub flags_part : Bytes

unfoldable pub find_submatch : Bytes → Option Parts
unfolding take_hex take_dash take_end
find_submatch s = do
  (v, s1) ← take_hex 2 s
  s2 ← take_dash s1
  (i, s3) ← take_hex 32 s2
  s4 ← take_dash s3
  (p, s5) ← take_hex 16 s4
  s6 ← take_dash s5
  (f, s7) ← take_hex 2 s6
  _ ← take_end s7
  some (record { version_part = v; trace_id_part = i; span_id_part = p; flags_part = f })

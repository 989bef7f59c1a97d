-- ===== src/JBuilder/Numbers.antt =====
-- xoputil/jbuilder.go: numbers and Booleans, as strconv writes them. An integer of 64 bits is its bit
-- pattern.
use xm.Base.{ℕ, zero, suc, ◌+◌, ◌-◌, ◌/◌, ◌%◌, ◌^◌, Bool, [], ◌∷◌, Bytes, codes, if◌then◌else◌, ltb}
use xm.JBuilder.{JBuilder, append_bytes}

-- The digits of `n` in front of `acc`; `fuel` bounds their number.
unfoldable pub digits_loop : ℕ → ℕ → Bytes → Bytes
digits_loop zero n acc = acc
digits_loop (suc fuel) n acc =
    let rest = digits_loop fuel (n / 10) ((48 + n % 10) ∷ acc) in
    if ltb n 10 then (48 + n) ∷ acc else rest

-- Twenty digits hold 2 ^ 64.
unfoldable pub format_uint : ℕ → Bytes
unfolding digits_loop
format_uint n = digits_loop 20 n []

unfoldable pub format_int : ℕ → Bytes
unfolding format_uint
format_int v = if ltb v (2 ^ 63) then format_uint v else b'-' ∷ format_uint (2 ^ 64 - v)

unfoldable pub add_uint64 : ℕ → JBuilder → JBuilder
unfolding append_bytes format_uint
add_uint64 v j = append_bytes (format_uint v) j

unfoldable pub add_int64 : ℕ → JBuilder → JBuilder
unfolding append_bytes format_int
add_int64 v j = append_bytes (format_int v) j

unfoldable pub add_bool : Bool → JBuilder → JBuilder
unfolding append_bytes
add_bool v j = append_bytes (if v then codes "true" else codes "false") j

-- `format` is strconv.AppendFloat with 'f' and -1.
unfoldable pub add_float64 : (ℕ → Bytes) → ℕ → JBuilder → JBuilder
unfolding append_bytes
add_float64 format v j = append_bytes (format v) j

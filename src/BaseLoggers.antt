-- ===== src/BaseLoggers.antt =====
-- base.go: the base loggers of a seed, each known by a number. The slice `List` is an array and the
-- length of its part in use.
pub mod Without
mod Tests
use xm.Base.{
  ℕ, zero, suc, ◌+◌, ◌-◌, Bool, true, false, Option, none, some, List, [], ◌∷◌, ◌++◌, length, take,
  set, get_elem?, if◌then◌else◌, ltb, ◌==◌,
}

pub record Loggers : Type 0 where
  pub array : List ℕ
  pub len : ℕ
  pub removed : List ℕ
  pub added : List ℕ

-- `s.loggers.List`
unfoldable pub list : Loggers → List ℕ
list s = take s.len s.array

-- loggers.Copy: the flag keeps Removed and Added.
unfoldable pub copy_loggers : Bool → Loggers → Loggers
unfolding list
copy_loggers keep_history s = record {
  array = list s;
  len = length (list s);
  removed = if keep_history then s.removed else [];
  added = if keep_history then s.added else [];
}

-- `a[i], a[j] = a[j], a[i]`
abbrev pub swap : ℕ → ℕ → List ℕ → Option (List ℕ)
swap i j a = elim (get_elem? a i) [
  | none ↦ none
  | some x ↦ elim (get_elem? a j) [ none ↦ none | some y ↦ some (set (set a i y) j x) ]
]

-- `List = List[:len(List)-1]`, which panics on an empty slice.
abbrev pub shorten : List ℕ → Loggers → Option Loggers
shorten a s = elim s.len [ zero ↦ none | suc n ↦ some (record s { array = a; len = n }) ]

-- The body of the loop when the logger at `i` is the one to remove.
unfoldable pub remove_at : ℕ → ℕ → Loggers → Option Loggers
remove_at base i s =
    let s' = record s { removed = s.removed ++ base ∷ [] } in
    if ltb i (s.len - 1)
    then elim (swap i (s.len - 1) s.array) [ none ↦ none | some a ↦ shorten a s' ]
    else shorten s.array s'

-- WithoutBase: the range has the length that the slice has at the start, and reads each element when it
-- comes to it. `k` elements are left; `none` is a panic.
unfoldable pub without_loop : ℕ → ℕ → ℕ → Loggers → Option Loggers
without_loop base zero i s = some s
without_loop base (suc k) i s = elim (get_elem? s.array i) [
  | none ↦ none
  | some b ↦
      if b == base
      then elim (remove_at base i s) [ none ↦ none | some t ↦ without_loop base k (i + 1) t ]
      else without_loop base k (i + 1) s
]

unfoldable pub without_base : ℕ → Loggers → Option Loggers
without_base base s = without_loop base s.len 0 s

-- WithBase; append writes behind the part in use.
unfoldable pub with_base : ℕ → Loggers → Loggers
with_base base s = record s {
  array = take s.len s.array ++ base ∷ [];
  len = s.len + 1;
  added = s.added ++ base ∷ [];
}

-- ===== src/Groups.antt =====
-- basegroup.go: a group of base loggers that acts as one. What its members do with a call is a parameter:
-- `L`, `R` and so on are the states of their loggers, requests, spans, prefilled parts and lines.
pub mod Calls
pub mod Lines
pub mod Spans
pub mod Requests
pub mod Final
mod Tests
use xm.Base.{
  ℕ, Bool, true, false, Option, none, some, List, [], ◌∷◌, ◌++◌, map, Bytes, bytes_eq,
  if◌then◌else◌, ◌||◌, Map, lookup, insert, ◌⊎◌, inl, inr,
}

-- strings.Join with a slash
unfoldable pub join : List Bytes → Bytes
join [] = []
join (i ∷ []) = i
join (i ∷ j ∷ is) = i ++ b'/' ∷ join (j ∷ is)

module _ {L : Type 0} where
  -- CombineBaseLoggers: the first alone, or a group.
  unfoldable pub combine_base_loggers : L → List L → L ⊎ List L
  combine_base_loggers first [] = inl first
  combine_base_loggers first (l ∷ more) = inr (first ∷ l ∷ more)

  unfoldable pub group_id : (L → Bytes) → List L → Bytes
  unfolding join
  group_id id ls = join (map id ls)

  unfoldable pub any_of : (L → Bool) → List L → Bool
  any_of f [] = false
  any_of f (l ∷ ls) = f l || any_of f ls

  -- ReferencesKept and Buffered
  unfoldable pub group_references_kept : (L → Bool) → List L → Bool
  unfolding any_of
  group_references_kept references_kept ls = any_of references_kept ls

  unfoldable pub group_buffered : (L → Bool) → List L → Bool
  unfolding any_of
  group_buffered buffered ls = any_of buffered ls

module _ {R : Type 0} where
  -- Boring and SetErrorReporter, where a function is the number by which it is known.
  unfoldable pub requests_boring : (Bool → R → R) → Bool → List R → List R
  requests_boring boring b rs = map (boring b) rs

  unfoldable pub requests_set_error_reporter : (ℕ → R → R) → ℕ → List R → List R
  requests_set_error_reporter set_error_reporter f rs = map (set_error_reporter f) rs

-- What startRequests returns: one request, or a group of requests that are spans too.
pub data Started (R : Type 0) : Type 0 where
  alone : R → Started R
  grouped : List R → Started R

module _ {L R : Type 0} (id : L → Bytes) (request : L → R) where
  -- The loop of startRequests: a logger whose id has a request already is passed over.
  unfoldable pub start_loop : List L → List R → Map R → List R × Map R
  unfolding lookup insert
  start_loop [] rs m = (rs, m)
  start_loop (l ∷ ls) rs m = elim (lookup (id l) m) [
    | some r ↦ start_loop ls rs m
    | none ↦ start_loop ls (rs ++ request l ∷ []) (insert (id l) (request l) m)
  ]

  unfoldable pub start_requests : List L → Started R × Map R
  unfolding start_loop
  start_requests (l ∷ []) = (alone (request l), (id l, request l) ∷ [])
  start_requests ls = let (rs, m) = start_loop ls [] [] in (grouped rs, m)

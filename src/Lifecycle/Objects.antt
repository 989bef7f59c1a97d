-- ===== src/Lifecycle/Objects.antt =====
-- The objects of logger.go: loggers, spans and what the loggers of one request share.
use xm.Base.{
  ℕ, ◌+◌, ◌%◌, ◌^◌, Bool, true, false, List, [], ◌∷◌, ◌++◌, if◌then◌else◌, ltb, ◌==◌, ◌&&◌,
}

pub record Logger : Type 0 where
  pub span : ℕ
  pub parent : ℕ
  pub non_span_sub_log : Bool
  pub minimum_log_level : ℕ
  pub synchronous_flush_when_done : Bool

-- From the log numbers of loggers to their addresses.
abbrev pub Dependents : Type 0
Dependents = List (ℕ × ℕ)

-- The counters are int32, as bit patterns; `known_active` is 0 or 1.
pub record Span : Type 0 where
  pub boring : ℕ
  pub detached : Bool
  pub active_dependents : Dependents
  pub done_count : ℕ
  pub known_active : Bool
  pub log_number : ℕ

-- The texts of the logger's own error lines, or the text of a user's line.
pub data Message : Type 0 where
  used_again done_again done_of_sub_log : Message
  text : ℕ → Message

-- What the base loggers and the timer are told.
pub data Event : Type 0 where
  base_done : ℕ → Bool → Event
  base_boring : ℕ → Bool → Event
  base_line : ℕ → ℕ → Message → Event
  base_flush timer_reset timer_stop : Event

-- `shared`, with the loggers and the spans; `pending` counts the goroutines that wait to flush.
pub record State : Type 0 where
  pub loggers : ℕ → Logger
  pub spans : ℕ → Span
  pub log_count : ℕ
  pub active_detached : Dependents
  pub waiting_for_detached : Bool
  pub flush_active : Bool
  pub pending : ℕ
  pub events : List Event

abbrev pub update {ℓ} : {A : Type ℓ} → ℕ → A → (ℕ → A) → ℕ → A
update a x f = λ b. if b == a then x else f b

-- `m[n] = l` and `delete(m, n)`
unfoldable pub insert : ℕ → ℕ → Dependents → Dependents
insert n l [] = (n, l) ∷ []
insert n l ((m, k) ∷ ds) = if m == n then (n, l) ∷ ds else (m, k) ∷ insert n l ds

unfoldable pub delete : ℕ → Dependents → Dependents
delete n [] = []
delete n ((m, k) ∷ ds) = if m == n then ds else (m, k) ∷ delete n ds

abbrev pub is_empty : Dependents → Bool
is_empty [] = true
is_empty (d ∷ ds) = false

-- `atomic.AddInt32(&c, 1)`, and the tests on what it returns.
abbrev pub increment : ℕ → ℕ
increment c = (c + 1) % 2 ^ 32

abbrev pub exceeds_one : ℕ → Bool
exceeds_one c = ltb 1 c && ltb c (2 ^ 31)

abbrev pub span_of : ℕ → State → Span
span_of l s = s.spans (s.loggers l).span

abbrev pub set_span : ℕ → Span → State → State
set_span l x s = record s { spans = update (s.loggers l).span x s.spans }

abbrev pub emit : Event → State → State
emit e s = record s { events = s.events ++ e ∷ [] }

-- addMyselfAsDependent: the state after it, and what it returns.
unfoldable pub add_myself_as_dependent : ℕ → State → State × Bool
add_myself_as_dependent l s =
    let n = (span_of l s).log_number in
    let p = (s.loggers l).parent in
    let ds = insert n l (span_of p s).active_dependents in
    if l == 0
    then (s, false)
    else if (span_of l s).detached
    then (record s { active_detached = insert n l s.active_detached }, false)
    else (
      set_span p (record (span_of p s) { active_dependents = ds }) s,
      elim ds [ [] ↦ false | d ∷ rest ↦ is_empty rest ],
    )

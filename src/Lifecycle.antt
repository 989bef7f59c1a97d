-- ===== src/Lifecycle.antt =====
-- logger.go: when the loggers of one request are active, done and flushed. Loggers and spans stand at
-- addresses; the request is the logger at 0, and a pointer to a logger or a span is its address.
--
-- The functions of the file call each other. What is still to be executed is a list of tasks: `step`
-- executes the first one, which puts the calls that it makes in front of what waits. `run` counts the
-- steps. A map of dependents is a list, in the order in which its range is taken.
mod Objects
unfoldable pub use Objects.*
pub mod Run
pub mod Quiet
pub mod Endless
pub mod Told
pub mod Revived
pub mod Leaves
pub mod Finish
mod Tests
use xm.Base.{
  ℕ, zero, suc, ◌+◌, ◌%◌, ◌^◌, Bool, true, false, Option, none, some, List, [], ◌∷◌, ◌++◌, map,
  if◌then◌else◌, ltb, ◌==◌, ◌&&◌, not,
}

pub data Task : Type 0 where
  has_activity : ℕ → Bool → Task
  start_flusher : ℕ → Task
  recursive_done : ℕ → Bool → Task
  done : ℕ → Bool → Task
  check_count : ℕ → Bool → ℕ → Task
  close : ℕ → Task
  request_flush flush finish_flush : Task
  not_boring : ℕ → Task
  write : ℕ → ℕ → Message → Task
  call_done : ℕ → Task
  call_boring : ℕ → Task

-- xopnum.ErrorLevel
abbrev pub error_level : ℕ
error_level = 17

-- `logger.Error().Msg(m)`
abbrev pub error : ℕ → Message → List Task
error l m = not_boring l ∷ write l error_level m ∷ []

abbrev when : Bool → List Task → List Task
when b ts = if b then ts else []

unfoldable pub step_has_activity : ℕ → Bool → State → List Task × State
step_has_activity l start s =
    let was = (span_of l s).known_active in
    let s' = set_span l (record (span_of l s) { known_active = true }) s in
    let added = add_myself_as_dependent l s' in
    if was then ([], s') else (
      when added.1 (has_activity (s.loggers l).parent false ∷ [])
          ++ when start (start_flusher l ∷ []),
      added.0,
    )

-- The rest of hasActivity under `if startFlusher`.
unfoldable pub step_start_flusher : ℕ → State → List Task × State
step_start_flusher l s = (
  when (not ((span_of l s).done_count == 0)) (error l used_again) ++ done l false ∷ [],
  if s.flush_active then s else emit timer_reset (record s { flush_active = true }),
)

-- recursiveDone; the loop calls `done` on the dependents.
unfoldable pub step_recursive_done : ℕ → Bool → State → List Task × State
step_recursive_done l final s =
    let sp = span_of l s in
    let calls = map (λ (d : ℕ × ℕ). done d.1 final) sp.active_dependents in
    let idle = record sp { known_active = false } in
    if final
    then (
      calls,
      emit (base_done (s.loggers l).span true)
          (set_span l (record idle { done_count = increment sp.done_count }) s),
    )
    else (
      calls,
      if sp.known_active then emit (base_done (s.loggers l).span false) (set_span l idle s) else s,
    )

-- The count is what recursiveDone is about to return.
unfoldable pub step_done : ℕ → Bool → State → List Task × State
step_done l explicit s =
    (recursive_done l true ∷ check_count l explicit (increment (span_of l s).done_count) ∷ [], s)

-- The rest of `done` after the check of the count: a detached logger, the request, and any other.
unfoldable pub step_close : ℕ → State → List Task × State
step_close l s =
    let n = (span_of l s).log_number in
    let p = (s.loggers l).parent in
    let rest = delete n s.active_detached in
    let quiet =
      s.waiting_for_detached && is_empty rest && is_empty (span_of 0 s).active_dependents in
    if (span_of l s).detached
    then (if quiet
        then (request_flush ∷ [], record s { active_detached = rest; waiting_for_detached = false })
        else ([], record s { active_detached = rest }))
    else if p == l
    then (if not (is_empty (span_of l s).active_dependents)
        then ([], s)
        else if not (is_empty s.active_detached)
        then ([], record s { waiting_for_detached = true })
        else (request_flush ∷ [], s))
    else (
      [],
      set_span p
          (record (span_of p s) { active_dependents = delete n (span_of p s).active_dependents }) s,
    )

-- Flush, up to the flushers; detachedDone is its first loop.
unfoldable pub step_flush : State → List Task × State
step_flush s = (
  map (λ (d : ℕ × ℕ). recursive_done d.1 false) s.active_detached
      ++ recursive_done 0 false ∷ finish_flush ∷ [],
  s,
)

unfoldable pub step_not_boring : ℕ → State → List Task × State
step_not_boring l s =
    let count = increment (span_of l s).boring in
    let s1 = set_span l (record (span_of l s) { boring = count }) s in
    let s2 = emit (base_boring (s.loggers l).span false) s1 in
    let request_count = increment (span_of 0 s2).boring in
    let s3 = set_span 0 (record (span_of 0 s2) { boring = request_count }) s2 in
    if not (count == 1) then ([], s1) else (
      has_activity l true ∷ [],
      if request_count == 1 then emit (base_boring (s.loggers 0).span false) s3 else s3,
    )

-- Line, and Msg of the line that it returns: below the minimum level, the line goes nowhere.
unfoldable pub step_write : ℕ → ℕ → Message → State → List Task × State
step_write l level m s = (
  has_activity l true ∷ [],
  if ltb level (s.loggers l).minimum_log_level then s else emit (base_line l level m) s,
)

-- Boring; with no other thread, its second look at the counter finds what the first one found.
unfoldable pub step_boring : ℕ → State → List Task × State
step_boring l s =
    if not ((span_of 0 s).boring == 0)
    then ([], s)
    else (has_activity l true ∷ [], emit (base_boring (s.loggers 0).span true) s)

unfoldable pub step : Task → State → List Task × State
step (has_activity l start) s = step_has_activity l start s
step (start_flusher l) s = step_start_flusher l s
step (recursive_done l final) s = step_recursive_done l final s
step (done l explicit) s = step_done l explicit s
step (check_count l explicit count) s =
    (when (exceeds_one count && explicit) (error l done_again) ++ close l ∷ [], s)
step (close l) s = step_close l s
step request_flush s =
    if (s.loggers 0).synchronous_flush_when_done
    then (flush ∷ [], s)
    else ([], record s { pending = s.pending + 1 })
step flush s = step_flush s
step finish_flush s = ([], emit base_flush (emit timer_stop (record s { flush_active = false })))
step (not_boring l) s = step_not_boring l s
step (write l level m) s = step_write l level m s
step (call_done l) s =
    (if (s.loggers l).non_span_sub_log then error l done_of_sub_log else done l true ∷ [], s)
step (call_boring l) s = step_boring l s

-- Seed.request: the request at 0, with its span. What it starts at the base loggers and its prefilled
-- attributes are left out.
unfoldable pub new_request : ℕ → Bool → Bool → State
new_request level synchronous buffered = record {
  loggers = λ _. record {
    span = 0;
    parent = 0;
    non_span_sub_log = false;
    minimum_log_level = level;
    synchronous_flush_when_done = synchronous;
  };
  spans = λ _. record {
    boring = 0;
    detached = false;
    active_dependents = [];
    done_count = 0;
    known_active = true;
    log_number = 0;
  };
  log_count = 0;
  active_detached = [];
  waiting_for_detached = false;
  flush_active = buffered;
  pending = 0;
  events = if buffered then timer_reset ∷ [] else timer_reset ∷ timer_stop ∷ [];
}

-- Sub.Logger of `old`, at the address `l`: a second logger on one span, less its prefilled attributes.
unfoldable pub sub_logger : ℕ → ℕ → ℕ → Bool → State → List Task × State
sub_logger old l level synchronous s = (
  has_activity l false ∷ [],
  record s {
    loggers =
        update l
          (record (s.loggers old) {
            non_span_sub_log = true;
            minimum_log_level = level;
            synchronous_flush_when_done = synchronous;
          })
          s.loggers;
  },
)

-- newChildLog of `old`, at the address `l` with its span at `a`, for a seed that neither adds nor removes
-- base loggers; its prefilled attributes are left out.
unfoldable pub new_child_log : ℕ → ℕ → ℕ → Bool → ℕ → Bool → State → State
new_child_log old l a detached level synchronous s =
    let n = increment s.log_count in
    let logger : Logger = record {
      span = a;
      parent = old;
      non_span_sub_log = false;
      minimum_log_level = level;
      synchronous_flush_when_done = synchronous;
    } in
    let span : Span = record {
      boring = 0;
      detached = detached;
      active_dependents = [];
      done_count = 0;
      known_active = true;
      log_number = n;
    } in
    let s' : State = record s {
      loggers = update l logger s.loggers;
      spans = update a span s.spans;
      log_count = n;
    } in
    (add_myself_as_dependent l (emit (base_boring a true) s')).0

-- `none` when the steps do not suffice.
unfoldable pub run : ℕ → List Task → State → Option State
run k [] s = some s
run zero (t ∷ ts) s = none
run (suc k) (t ∷ ts) s = let next = step t s in run k (next.0 ++ ts) next.1

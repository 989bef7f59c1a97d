-- ===== src/Lifecycle/Quiet.antt =====
-- When Done flushes the request by itself.
use xm.Base.{
  ℕ, ◌≡◌, refl, ap, sym, subst, Bool, true, false, List, [], ◌∷◌, ◌++◌, map, All, All-append, arith,
  inl, inr, ◌⊎◌,
}
use xm.Lifecycle.{
  State, Logger, Task, Dependents, has_activity, start_flusher, recursive_done, done, check_count,
  close, request_flush, flush, finish_flush, not_boring, write, call_done, call_boring, span_of,
  is_empty, delete, step, step_has_activity, step_start_flusher, step_recursive_done, step_done,
  step_close, step_flush, step_not_boring, step_write, step_boring, add_myself_as_dependent,
}
use xm.Lifecycle.Run.{Leads, here, next}

-- The request is its own parent, and no other logger is.
abbrev pub IsRooted : State → Type 0
IsRooted s = (l : ℕ) → (s.loggers l).parent ≡ l → l ≡ 0

-- Nothing under the request is active.
abbrev pub IsQuiet : State → Type 0
IsQuiet s = ((span_of 0 s).active_dependents ≡ []) × (s.active_detached ≡ [])

unfoldable pub is_request_flush : Task → Bool
is_request_flush request_flush = true
is_request_flush _ = false

-- Calls, and rests of calls, none of which is the flush that `done` asks for.
unfoldable pub IsPlain : List Task → Type 0
unfolding is_request_flush
IsPlain = All (λ t. is_request_flush t ≡ false)

is_empty-true : (ds : Dependents) → is_empty ds ≡ true → ds ≡ []
is_empty-true [] h = refl
is_empty-true (d ∷ ds) h = cc

pub step_keeps_loggers : (t : Task) (s : State) → (step t s).1.loggers ≡ s.loggers
unfolding step step_has_activity add_myself_as_dependent step_start_flusher step_recursive_done
    step_done step_close step_flush step_not_boring step_write step_boring
step_keeps_loggers (has_activity l b) s = ground arith
step_keeps_loggers (start_flusher l) s = ground arith
step_keeps_loggers (recursive_done l b) s = ground arith
step_keeps_loggers (done l b) s = ground arith
step_keeps_loggers (check_count l b c) s = ground arith
step_keeps_loggers (close l) s = ground arith
step_keeps_loggers request_flush s = ground arith
step_keeps_loggers flush s = ground arith
step_keeps_loggers finish_flush s = ground arith
step_keeps_loggers (not_boring l) s = ground arith
step_keeps_loggers (write l v m) s = ground arith
step_keeps_loggers (call_done l) s = ground arith
step_keeps_loggers (call_boring l) s = ground arith

-- The end of `done` asks for a flush only in a quiet state.
step_close-IsQuiet :
    (l : ℕ) (s : State)
    → IsRooted s
    → IsPlain (step_close l s).0
      ⊎ (((step_close l s).0 ≡ request_flush ∷ []) × IsQuiet (step_close l s).1)
unfolding step_close IsPlain
step_close-IsQuiet l s r = ground (
  arith,
  r l,
  is_empty-true (span_of 0 s).active_dependents,
  is_empty-true s.active_detached,
  is_empty-true (delete (span_of l s).log_number s.active_detached),
)

dones-IsPlain : (b : Bool) (ds : Dependents) → IsPlain (map (λ (d : ℕ × ℕ). done d.1 b) ds)
unfolding IsPlain is_request_flush
dones-IsPlain b [] = tt
dones-IsPlain b (d ∷ ds) = (refl, dones-IsPlain b ds)

detached-IsPlain :
    (ds : Dependents) (ts : List Task)
    → IsPlain ts
    → IsPlain (map (λ (d : ℕ × ℕ). recursive_done d.1 false) ds ++ ts)
unfolding IsPlain is_request_flush
detached-IsPlain [] ts h = h
detached-IsPlain (d ∷ ds) ts h = (refl, detached-IsPlain ds ts h)

recursive-IsPlain : (l : ℕ) (b : Bool) (s : State) → IsPlain (step_recursive_done l b s).0
unfolding step_recursive_done
recursive-IsPlain l true s = dones-IsPlain true (span_of l s).active_dependents
recursive-IsPlain l false s = dones-IsPlain false (span_of l s).active_dependents

-- A configuration of a run: the flush that `done` asks for is only ever the next task, in a quiet state.
data IsSafe (ts : List Task) (s : State) : Type 0 where
  plain : IsPlain ts → IsSafe ts s
  flushing : (us : List Task) → ts ≡ request_flush ∷ us → IsPlain us → IsQuiet s → IsSafe ts s

step-IsPlain :
    (t : Task) (s : State)
    → IsRooted s
    → IsPlain (step t s).0 ⊎ (((step t s).0 ≡ request_flush ∷ []) × IsQuiet (step t s).1)
unfolding step step_has_activity step_start_flusher step_recursive_done step_done step_flush
    step_not_boring step_write step_boring IsPlain is_request_flush
step-IsPlain (has_activity l b) s r = inl (ground arith)
step-IsPlain (start_flusher l) s r = inl (ground arith)
step-IsPlain (recursive_done l b) s r = inl (recursive-IsPlain l b s)
step-IsPlain (done l b) s r = inl (refl, (refl, tt))
step-IsPlain (check_count l b c) s r = inl (ground arith)
step-IsPlain (close l) s r = unfold IsPlain in step_close-IsQuiet l s r
step-IsPlain request_flush s r = inl (ground arith)
step-IsPlain flush s r = inl (detached-IsPlain s.active_detached _ (refl, (refl, tt)))
step-IsPlain finish_flush s r = inl tt
step-IsPlain (not_boring l) s r = inl (ground arith)
step-IsPlain (write l v m) s r = inl (refl, tt)
step-IsPlain (call_done l) s r = inl (ground arith)
step-IsPlain (call_boring l) s r = inl (ground arith)

step-IsSafe :
    (t : Task) (ts : List Task) (s : State)
    → IsRooted s
    → IsPlain ts
    → IsSafe ((step t s).0 ++ ts) (step t s).1
unfolding IsPlain
step-IsSafe t ts s r h = elim (step-IsPlain t s r) [
  | inl p ↦ plain (All-append _ (step t s).0 ts p h)
  | inr (e, q) ↦ flushing ts (ap (λ us. us ++ ts) e) h q
]

rest-IsPlain : {t : Task} {ts : List Task} {s : State} → IsSafe (t ∷ ts) s → IsPlain ts
unfolding IsPlain
rest-IsPlain (plain h) = h.1
rest-IsPlain {ts = ts} (flushing us e h q) = let e' : us ≡ ts = cc in subst IsPlain e' h

flush-IsQuiet : {us : List Task} {s : State} → IsSafe (request_flush ∷ us) s → IsQuiet s
unfolding IsPlain is_request_flush
flush-IsQuiet (plain h) = cc (h.0)
flush-IsQuiet (flushing us e h q) = q

Leads-IsSafe :
    {ts us : List Task} {s u : State} → Leads ts s us u → IsRooted s → IsSafe ts s → IsSafe us u
Leads-IsSafe here r h = h
Leads-IsSafe (next {t} {ts} {us} {s} a) r h =
    Leads-IsSafe a
      (subst (λ (f : ℕ → Logger). (l : ℕ) → (f l).parent ≡ l → l ≡ 0) (sym (step_keeps_loggers t s))
        r)
      (step-IsSafe t ts s r (rest-IsPlain h))

-- In every run that starts with calls of the interface, from a state where no logger but the request is
-- its own parent, whenever the flush that Done asks for is next, the request has no active dependents
-- and no detached logger is active.
pub request_flush-IsQuiet :
    (ts us : List Task) (s u : State)
    → IsRooted s
    → IsPlain ts
    → Leads ts s (request_flush ∷ us) u
    → IsQuiet u
request_flush-IsQuiet ts us s u r h a = flush-IsQuiet (Leads-IsSafe a r (plain h))

-- ===== src/Lifecycle/Told.antt =====
-- What the base loggers are told in the end: nothing that waits is forgotten.
use mathlib.Core.List.Memᴰ as Mem
use mathlib.Core.List.{Memᴰ}
use mathlib.Core.List.Memᴰ.{head, tail}
use xm.Base.{
  ℕ, ◌≡◌, refl, ap, sym, subst, Bool, true, false, List, [], ◌∷◌, ◌++◌, map, if◌then◌else◌, ◌==◌,
  ltb, not, some, arith, All,
}
use xm.Lifecycle.{
  State, Logger, Task, Dependents, Event, base_done, base_flush, base_boring, base_line, timer_stop,
  timer_reset, has_activity, start_flusher, recursive_done, done, check_count, close, request_flush,
  flush, finish_flush, not_boring, write, call_done, call_boring, run, span_of, increment, emit,
  step, step_has_activity, step_start_flusher, step_recursive_done, step_done, step_close,
  step_flush, step_not_boring, step_write, step_boring, add_myself_as_dependent, error,
  done_of_sub_log,
}
use xm.Lifecycle.Run.{run-Leads, Leads, here, next}
use xm.Lifecycle.Quiet.{step_keeps_loggers}

if-both {ℓ} :
    {A : Type 0} (P : A → Type ℓ) (b : Bool) {x y : A} → P x → P y → P (if b then x else y)
if-both P true p q = p
if-both P false p q = q

abbrev pub Has : Event → State → Type 0
Has e s = Memᴰ e s.events

emitted : (e x : Event) {es : List Event} → Memᴰ e es → Memᴰ e (es ++ x ∷ [])
emitted e x h = Mem.append_left (x ∷ []) h

close_says_nothing : (l : ℕ) (s : State) → (step_close l s).1.events ≡ s.events
unfolding step_close
close_says_nothing l s = ground arith

add_says_nothing : (l : ℕ) (s : State) → (add_myself_as_dependent l s).0.events ≡ s.events
unfolding add_myself_as_dependent
add_says_nothing l s = ground arith

emits : (e : Event) (s : State) → Has e (emit e s)
emits e s = Mem.append_right s.events (head refl)

step_keeps : (e : Event) (t : Task) (s : State) → Has e s → Has e (step t s).1
unfolding step step_has_activity step_start_flusher step_recursive_done step_done step_flush
    step_not_boring step_write step_boring
step_keeps e (has_activity l b) s h =
    if-both (λ (p : List Task × State). Has e p.1) (span_of l s).known_active h
      (subst (Memᴰ e) (sym (add_says_nothing l _)) h)
step_keeps e (start_flusher l) s h = if-both (Has e) s.flush_active h (emitted e timer_reset h)
step_keeps e (recursive_done l true) s h = emitted e (base_done (s.loggers l).span true) h
step_keeps e (recursive_done l false) s h =
    if-both (Has e) (span_of l s).known_active (emitted e (base_done (s.loggers l).span false) h) h
step_keeps e (done l b) s h = h
step_keeps e (check_count l b c) s h = h
step_keeps e (close l) s h = subst (Memᴰ e) (sym (close_says_nothing l s)) h
step_keeps e request_flush s h =
    if-both (λ (p : List Task × State). Has e p.1) (s.loggers 0).synchronous_flush_when_done h h
step_keeps e flush s h = h
step_keeps e finish_flush s h = emitted e base_flush (emitted e timer_stop h)
step_keeps e (not_boring l) s h =
    if-both (λ (p : List Task × State). Has e p.1) (not (increment (span_of l s).boring == 1)) h
      (if-both (Has e) _ (emitted e _ (emitted e (base_boring (s.loggers l).span false) h))
        (emitted e (base_boring (s.loggers l).span false) h))
step_keeps e (write l v m) s h =
    if-both (Has e) (ltb v (s.loggers l).minimum_log_level) h (emitted e (base_line l v m) h)
step_keeps e (call_done l) s h = h
step_keeps e (call_boring l) s h =
    if-both (λ (p : List Task × State). Has e p.1) (not ((span_of 0 s).boring == 0)) h
      (emitted e (base_boring (s.loggers 0).span true) h)

Leads-keeps : {ts us : List Task} {s u : State} (e : Event) → Leads ts s us u → Has e s → Has e u
Leads-keeps e here h = h
Leads-keeps e (next {t} {ts} {us} {s} a) h = Leads-keeps e a (step_keeps e t s h)

-- `base.Done(_, true)` on the span of the logger at `c`.
abbrev pub final_done : ℕ → State → Event
final_done c s = base_done (s.loggers c).span true

pub final_done-step : (c : ℕ) (t : Task) (s : State) → final_done c (step t s).1 ≡ final_done c s
final_done-step c t s = ap (λ (f : ℕ → Logger). base_done (f c).span true) (step_keeps_loggers t s)

says_final : (c : ℕ) (s : State) → Has (final_done c s) (step (recursive_done c true) s).1
unfolding step step_recursive_done
says_final c s = Mem.append_right s.events (head refl)

-- A waiting recursiveDone is told to the base logger.
recursive_done_told :
    {ts us : List Task} {s u : State} (c : ℕ)
    → Leads ts s us u
    → us ≡ []
    → Memᴰ (recursive_done c true) ts
    → Has (final_done c s) u
recursive_done_told c (here {ts} {s}) e m =
    absurd (Mem.not-nil (subst (Memᴰ (recursive_done c true)) e m))
recursive_done_told c (next {t} {ts} {us} {s} {u} a) e (head p) =
    Leads-keeps (final_done c s) a
      (subst (λ x. Has (final_done c s) (step x s).1) p (says_final c s))
recursive_done_told c (next {t} {ts} {us} {s} {u} a) e (tail m) =
    subst (λ x. Has x u) (final_done-step c t s)
      (recursive_done_told c a e (Mem.append_right (step t s).0 m))

-- And so is a waiting `done`.
pub done_told :
    {ts us : List Task} {s u : State} (c : ℕ) (b : Bool)
    → Leads ts s us u
    → us ≡ []
    → Memᴰ (done c b) ts
    → Has (final_done c s) u
unfolding step step_done
done_told c b (here {ts} {s}) e m = absurd (Mem.not-nil (subst (Memᴰ (done c b)) e m))
done_told c b (next {t} {ts} {us} {s} {u} a) e (head p) =
    recursive_done_told c (subst (λ x. Leads ((step x s).0 ++ ts) (step x s).1 us u) (sym p) a) e
      (head refl)
done_told c b (next {t} {ts} {us} {s} {u} a) e (tail m) =
    subst (λ x. Has x u) (final_done-step c t s)
      (done_told c b a e (Mem.append_right (step t s).0 m))

calls_done :
    (c n : ℕ) (b : Bool) (ds : Dependents)
    → Memᴰ (n, c) ds
    → Memᴰ (done c b) (map (λ (d : ℕ × ℕ). done d.1 b) ds)
calls_done c n b ds (head e) = head (ap (λ (d : ℕ × ℕ). done d.1 b) e)
calls_done c n b ds (tail m) = tail (calls_done c n b _ m)

-- recursiveDone calls `done` on every dependent.
dependents_told :
    (l c n : ℕ) (final : Bool) (ts : List Task) (s u : State)
    → Memᴰ (n, c) (span_of l s).active_dependents
    → Leads (recursive_done l final ∷ ts) s [] u
    → Has (final_done c s) u
unfolding step step_recursive_done
dependents_told l c n true ts s u m (next a) =
    done_told c true a refl (Mem.append_left ts (calls_done c n true _ m))
dependents_told l c n false ts s u m (next a) =
    subst (λ x. Has x u) (final_done-step c (recursive_done l false) s)
      (done_told c false a refl (Mem.append_left ts (calls_done c n false _ m)))

-- What holds of every member.
each_member : (P : ℕ × ℕ → Type 0) (ds : Dependents) → ((d : ℕ × ℕ) → Memᴰ d ds → P d) → All P ds
each_member P [] f = tt
each_member P (d ∷ ds) f = (f d (head refl), each_member P ds (λ x m. f x (tail m)))

done_told_both :
    (l : ℕ) (s u : State)
    → Leads (done l true ∷ []) s [] u
    → Has (final_done l s) u
      × All (λ (d : ℕ × ℕ). Has (final_done d.1 s) u) (span_of l s).active_dependents
unfolding step step_done
done_told_both l s u (next a) = (
  recursive_done_told l a refl (head refl),
  each_member _ (span_of l s).active_dependents (λ (n, c) m.
      dependents_told l c n true (check_count l true (increment (span_of l s).done_count) ∷ []) s u
        m a),
)

flush_told :
    (c n : ℕ) (s u : State)
    → s.active_detached ≡ []
    → Memᴰ (n, c) (span_of 0 s).active_dependents
    → Leads (flush ∷ []) s [] u
    → Has (final_done c s) u
unfolding step step_flush
flush_told c n s u e m (next a) = dependents_told 0 c n false (finish_flush ∷ []) s u m (
    subst
      (λ ds.
        Leads
          ((map (λ (d : ℕ × ℕ). recursive_done d.1 false) ds
              ++ recursive_done 0 false ∷ finish_flush ∷ [])
            ++ [])
          s [] u)
      e a)

call_told :
    (l : ℕ) (s u : State)
    → (s.loggers l).non_span_sub_log ≡ false
    → Leads (call_done l ∷ []) s [] u
    → Has (final_done l s) u
      × All (λ (d : ℕ × ℕ). Has (final_done d.1 s) u) (span_of l s).active_dependents
unfolding step
call_told l s u f (next a) = done_told_both l s u (
    subst (λ b. Leads ((if b then error l done_of_sub_log else done l true ∷ []) ++ []) s [] u) f a)

-- Whenever a call of Done on a logger with a span of its own comes to its end, which it need not, the base logger
-- has been told that the span is done for good, and so for the span of every active dependent the logger
-- had, be there any or none.
pub done_reaches :
    (l k : ℕ) (s u : State)
    → (s.loggers l).non_span_sub_log ≡ false
    → run k (call_done l ∷ []) s ≡ some u
    → Memᴰ (base_done (s.loggers l).span true) u.events
      × All
          (λ (d : ℕ × ℕ). Memᴰ (base_done (s.loggers d.1).span true) u.events)
          (span_of l s).active_dependents
done_reaches l k s u f e = call_told l s u f (run-Leads k (call_done l ∷ []) s u e)

-- When Flush ends and no detached logger was active, the base logger was told that the span of every
-- active dependent of the request is done for good.
pub flush_finalizes :
    (c n k : ℕ) (s u : State)
    → s.active_detached ≡ []
    → Memᴰ (n, c) (span_of 0 s).active_dependents
    → run k (flush ∷ []) s ≡ some u
    → Memᴰ (base_done (s.loggers c).span true) u.events
flush_finalizes c n k s u d m e = flush_told c n s u d m (run-Leads k (flush ∷ []) s u e)

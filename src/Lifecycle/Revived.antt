-- ===== src/Lifecycle/Revived.antt =====
-- A line on a logger that is idle: hasActivity calls `done`, whether or not the logger was done before.
use mathlib.Core.List.Memᴰ as Mem
use mathlib.Core.List.{Memᴰ}
use mathlib.Core.List.Memᴰ.{head, tail}
use xm.Base.{ℕ, ◌≡◌, refl, sym, subst, true, false, some, List, [], ◌∷◌, ◌++◌, arith}
use xm.Lifecycle.{
  State, Task, Message, base_done, has_activity, start_flusher, done, write, span_of, step, run,
  step_has_activity, step_start_flusher, step_write,
}
use xm.Lifecycle.Run.{Leads, here, next, run-Leads}
use xm.Lifecycle.Told.{Has, final_done, final_done-step, done_told}

calls_done : (l : ℕ) (s : State) → Memᴰ (done l false) (step_start_flusher l s).0
unfolding step_start_flusher
calls_done l s = Mem.append_right _ (head refl)

start_told :
    {ts us : List Task} {s u : State} (l : ℕ)
    → Leads ts s us u
    → us ≡ []
    → Memᴰ (start_flusher l) ts
    → Has (final_done l s) u
unfolding step
start_told l (here {ts} {s}) e m = absurd (Mem.not-nil (subst (Memᴰ (start_flusher l)) e m))
start_told l (next {t} {ts} {us} {s} {u} a) e (head p) =
    subst (λ x. Has x u) (final_done-step l (start_flusher l) s)
      (done_told l false (subst (λ x. Leads ((step x s).0 ++ ts) (step x s).1 us u) (sym p) a) e
        (Mem.append_left ts (calls_done l s)))
start_told l (next {t} {ts} {us} {s} {u} a) e (tail m) =
    subst (λ x. Has x u) (final_done-step l t s)
      (start_told l a e (Mem.append_right (step t s).0 m))

starts_flusher :
    (l : ℕ) (s : State)
    → (span_of l s).known_active ≡ false
    → Memᴰ (start_flusher l) (step_has_activity l true s).0
unfolding step_has_activity
starts_flusher l s i = rw (i) (Mem.append_right _ (head refl))

activity_told :
    (l : ℕ) (s u : State)
    → (span_of l s).known_active ≡ false
    → Leads (has_activity l true ∷ []) s [] u
    → Has (final_done l s) u
unfolding step
activity_told l s u i (next a) =
    subst (λ x. Has x u) (final_done-step l (has_activity l true) s)
      (start_told l a refl (Mem.append_left [] (starts_flusher l s i)))

still_idle :
    (l level : ℕ) (m : Message) (s : State)
    → (span_of l s).known_active ≡ false
    → (span_of l (step_write l level m s).1).known_active ≡ false
unfolding step_write
still_idle l level m s i = ground (arith, i)

write_told :
    (l level : ℕ) (m : Message) (s u : State)
    → (span_of l s).known_active ≡ false
    → Leads (write l level m ∷ []) s [] u
    → Has (final_done l s) u
unfolding step step_write
write_told l level m s u i (next a) =
    subst (λ x. Has x u) (final_done-step l (write l level m) s)
      (activity_told l (step_write l level m s).1 u (still_idle l level m s i) a)

-- When a line on a logger that is not active ends, the base logger was told that its span is done for
-- good, even if Done was never called.
pub write_finalizes :
    (l level k : ℕ) (m : Message) (s u : State)
    → (span_of l s).known_active ≡ false
    → run k (write l level m ∷ []) s ≡ some u
    → Memᴰ (base_done (s.loggers l).span true) u.events
write_finalizes l level k m s u i e =
    write_told l level m s u i (run-Leads k (write l level m ∷ []) s u e)

-- ===== src/Lifecycle/Endless.antt =====
-- A logger made by Sub().Logger() of a request: it shares the request's span, and hasActivity makes it
-- a dependent of that span, which is its own.
use xm.Base.{
  map, ℕ, zero, suc, ◌≡◌, ◌≢◌, refl, ap, ◌∙◌, Bool, true, false, none, List, [], ◌∷◌, ◌++◌, arith,
}
use xm.Lifecycle.{
  State, Span, Task, Message, has_activity, start_flusher, done, check_count, write, span_of,
  set_span, step, run, step_done, step_recursive_done, step_has_activity, step_start_flusher,
  step_write, add_myself_as_dependent, insert, emit, base_done, increment,
}
use xm.Lifecycle.Run.{run_endless, update_self}

-- The logger at `l` is the one dependent of its own span.
abbrev IsOwnDependent : ℕ → ℕ → State → Type 0
IsOwnDependent n l s = (span_of l s).active_dependents ≡ (n, l) ∷ []

-- `done` of such a logger calls itself.
done_endless :
    (n l : ℕ) (e : Bool) (ts : List Task) (k : ℕ) (s : State)
    → IsOwnDependent n l s
    → run k (done l e ∷ ts) s ≡ none
unfolding run step step_done step_recursive_done
done_endless n l e ts zero s h = refl
done_endless n l e ts (suc zero) s h = refl
done_endless n l e ts (suc (suc k)) s h =
    let a = (s.loggers l).span in
    let x = record (span_of l s) {
      known_active = false;
      done_count = increment (span_of l s).done_count;
    } in
    let s' = emit (base_done a true) (set_span l x s) in
    let h' : IsOwnDependent n l s' =
      ap (λ (y : Span). y.active_dependents) (update_self a x s.spans) ∙ h in
    let waits = check_count l e (increment (span_of l s).done_count) ∷ ts in
    ap (λ ds. run k (map (λ (d : ℕ × ℕ). done d.1 true) ds ++ waits) s') h
    ∙ done_endless n l true waits k s' h'

-- A logger made from the request, which is idle: what Sub.Logger and a flush leave.
pub record IsIdleSubLogger (l : ℕ) (s : State) : Type 0 where
  pub other : l ≢ 0
  pub same_span : (s.loggers l).span ≡ (s.loggers 0).span
  pub of_request : (s.loggers l).parent ≡ 0
  pub attached : (span_of 0 s).detached ≡ false
  pub idle : (span_of 0 s).known_active ≡ false
  pub alone : (span_of 0 s).active_dependents ≡ []
  pub not_done : (span_of 0 s).done_count ≡ 0

added_tasks :
    (l : ℕ) (s : State)
    → IsIdleSubLogger l s
    → (step_has_activity l true s).0 ≡ has_activity 0 false ∷ start_flusher l ∷ []
unfolding step_has_activity add_myself_as_dependent insert
added_tasks l s h = ground (arith, h.other, h.same_span, h.of_request, h.attached, h.idle, h.alone)

-- What hasActivity leaves of the span.
record IsCaught (n l : ℕ) (s : State) : Type 0 where
  pub same : (s.loggers l).span ≡ (s.loggers 0).span
  pub own : IsOwnDependent n l s
  pub active : (span_of 0 s).known_active ≡ true
  pub not_done : (span_of 0 s).done_count ≡ 0

added_state :
    (l : ℕ) (s : State)
    → IsIdleSubLogger l s
    → IsCaught (span_of 0 s).log_number l (step_has_activity l true s).1
unfolding step_has_activity add_myself_as_dependent insert
added_state l s h = record {
  same = ground (arith, h.other, h.same_span, h.of_request, h.attached, h.idle, h.alone);
  own = ground (arith, h.other, h.same_span, h.of_request, h.attached, h.idle, h.alone);
  active = ground (arith, h.other, h.same_span, h.of_request, h.attached, h.idle, h.alone);
  not_done =
      ground (arith, h.other, h.same_span, h.of_request, h.attached, h.idle, h.alone, h.not_done);
}

quiet_tasks : (n l : ℕ) (s : State) → IsCaught n l s → (step_has_activity 0 false s).0 ≡ []
unfolding step_has_activity
quiet_tasks n l s c = ground (arith, c.active)

quiet_state : (n l : ℕ) (s : State) → IsCaught n l s → IsCaught n l (step_has_activity 0 false s).1
unfolding step_has_activity
quiet_state n l s c = record {
  same = ground (arith, c.same, c.active);
  own = ground (arith, c.own, c.same, c.active);
  active = ground (arith, c.active);
  not_done = ground (arith, c.not_done, c.active);
}

flusher_tasks :
    (n l : ℕ) (s : State) → IsCaught n l s → (step_start_flusher l s).0 ≡ done l false ∷ []
unfolding step_start_flusher
flusher_tasks n l s c = ground (arith, c.same, c.not_done)

flusher_state :
    (n l : ℕ) (s : State) → IsCaught n l s → IsOwnDependent n l (step_start_flusher l s).1
unfolding step_start_flusher
flusher_state n l s c = ground (arith, c.own)

has_activity_endless :
    (l : ℕ) (ts : List Task) (s : State)
    → IsIdleSubLogger l s
    → (k : ℕ) → run k (has_activity l true ∷ ts) s ≡ none
unfolding step
has_activity_endless l ts s h =
    let n = (span_of 0 s).log_number in
    let s1 = (step_has_activity l true s).1 in
    let c1 = added_state l s h in
    let s2 = (step_has_activity 0 false s1).1 in
    let c2 = quiet_state n l s1 c1 in
    let s3 = (step_start_flusher l s2).1 in
    run_endless (has_activity l true) ts s λ k1.
      ap (λ us. run k1 (us ++ ts) s1) (added_tasks l s h)
      ∙ run_endless (has_activity 0 false) (start_flusher l ∷ ts) s1
          (λ k2.
            ap (λ us. run k2 (us ++ start_flusher l ∷ ts) s2) (quiet_tasks n l s1 c1)
            ∙ run_endless (start_flusher l) ts s2
                (λ k3.
                  ap (λ us. run k3 (us ++ ts) s3) (flusher_tasks n l s2 c2)
                  ∙ done_endless n l false ts k3 s3 (flusher_state n l s2 c2))
                k2)
          k1

-- When the request is idle and not done, as after Flush, and has no dependents, a line on a
-- logger made from it by Sub().Logger() never returns, whatever its level.
pub write_endless :
    (l level : ℕ) (m : Message) (s : State)
    → IsIdleSubLogger l s
    → (k : ℕ) → run k (write l level m ∷ []) s ≡ none
unfolding step step_write
write_endless l level m s h =
    run_endless (write l level m) [] s
      λ k. has_activity_endless l [] (step_write l level m s).1 (written h) k
  where
    written : IsIdleSubLogger l s → IsIdleSubLogger l (step_write l level m s).1
    written h = record {
      other = h.other;
      same_span = ground (arith, h.same_span);
      of_request = ground (arith, h.of_request);
      attached = ground (arith, h.attached);
      idle = ground (arith, h.idle);
      alone = ground (arith, h.alone);
      not_done = ground (arith, h.not_done);
    }

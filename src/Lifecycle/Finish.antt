-- ===== src/Lifecycle/Finish.antt =====
-- Done of a request whose sub-loggers are still active: all of it, to the flush.
use xm.Base.{
  ℕ, ◌≡◌, refl, ap, sym, subst, ◌∙◌, true, false, some, List, [], ◌∷◌, ◌++◌, map, All, append_assoc,
  arith,
}
use xm.Lifecycle.{
  State, Logger, Task, Dependents, Event, base_done, base_flush, timer_stop, recursive_done, done,
  check_count, close, request_flush, flush, finish_flush, call_done, span_of, increment, step, run,
  step_recursive_done, step_done, step_close, step_flush,
}
use xm.Lifecycle.Run.{Leads, here, next, Leads-trans, Leads-run}
use xm.Lifecycle.Leaves.{
  IsLeaf, AreLeaves, AreApart, IsFinished, AllDone, told, next_to, children_done,
}

-- A request that Done is called on for the first time, with its active dependents.
pub record IsReady (ds : Dependents) (s : State) : Type 0 where
  pub own_parent : (s.loggers 0).parent ≡ 0
  pub own_span : (s.loggers 0).non_span_sub_log ≡ false
  pub synchronous : (s.loggers 0).synchronous_flush_when_done ≡ true
  pub attached : (span_of 0 s).detached ≡ false
  pub not_done : (span_of 0 s).done_count ≡ 0
  pub dependents : (span_of 0 s).active_dependents ≡ ds
  pub no_detached : s.active_detached ≡ []
  pub leaves : AreLeaves s ds
  pub apart : AreApart s.loggers ds

told-IsLeaf : (n c : ℕ) (s : State) → IsLeaf n c s → IsLeaf n c (told 0 s)
unfolding told step_recursive_done
told-IsLeaf n c s h = record {
  other = h.other;
  of_request = h.of_request;
  apart = h.apart;
  attached = ground (arith, h.apart, h.attached);
  alone = ground (arith, h.apart, h.alone);
  not_done = ground (arith, h.apart, h.not_done);
  numbered = ground (arith, h.apart, h.numbered);
}

told-AreLeaves : (ds : Dependents) (s : State) → AreLeaves s ds → AreLeaves (told 0 s) ds
told-AreLeaves [] s h = tt
told-AreLeaves ((n, c) ∷ ds) s (h, hs) = (told-IsLeaf n c s h, told-AreLeaves ds s hs)

told_request :
    (s : State)
    → ((span_of 0 (told 0 s)).active_dependents ≡ (span_of 0 s).active_dependents)
      × ((span_of 0 (told 0 s)).done_count ≡ increment (span_of 0 s).done_count)
      × ((span_of 0 (told 0 s)).known_active ≡ false)
      × ((span_of 0 (told 0 s)).detached ≡ (span_of 0 s).detached)
      × ((told 0 s).loggers ≡ s.loggers)
      × ((told 0 s).active_detached ≡ s.active_detached)
      × ((told 0 s).events ≡ s.events ++ base_done (s.loggers 0).span true ∷ [])
unfolding told step_recursive_done
told_request s = (ground arith, ground arith, ground arith, ground arith, refl, refl, refl)

next_both :
    {t : Task} {ts news us : List Task} {s v u : State}
    → step t s ≡ (news, v)
    → Leads (news ++ ts) v us u
    → Leads (t ∷ ts) s us u
next_both {t} {ts} {news} {us} {s} {v} {u} e a =
    next (subst (λ (p : List Task × State). Leads (p.0 ++ ts) p.1 us u) (sym e) a)

flushed : State → State
flushed s = (step finish_flush s).1

-- The end of Done of a request with nothing active under it.
flush_ends :
    (u : State)
    → (u.loggers 0).parent ≡ 0
    → (u.loggers 0).synchronous_flush_when_done ≡ true
    → (span_of 0 u).detached ≡ false
    → (span_of 0 u).active_dependents ≡ []
    → (span_of 0 u).known_active ≡ false
    → u.active_detached ≡ []
    → Leads (close 0 ∷ []) u [] (flushed u)
unfolding step step_close step_flush step_recursive_done flushed
flush_ends u p y a r k d =
    next_both {t = close 0} {news = request_flush ∷ []} {v = u} (ground (arith, p, a, r, d)) (
      next_both {t = request_flush} {news = flush ∷ []} {v = u} (ground (arith, y)) (
        next_both {t = flush} {news = recursive_done 0 false ∷ finish_flush ∷ []} {v = u}
          (ap
            (λ ds. (
              map (λ (e : ℕ × ℕ). recursive_done e.1 false) ds
                  ++ recursive_done 0 false ∷ finish_flush ∷ [],
              u,
            ))
            d)
          (next_both {t = recursive_done 0 false} {news = []} {v = u} (ground (arith, r, k))
            (next here))))

-- What is left when all of that is done.
abbrev pub IsOver : Dependents → State → State → Type 0
IsOver ds s u =
    All (λ d. IsFinished d.1 u) ds
    × IsFinished 0 u
    × ((span_of 0 u).active_dependents ≡ [])
    × (u.events
        ≡ s.events
          ++ base_done (s.loggers 0).span true
            ∷ (map (λ (d : ℕ × ℕ). base_done (s.loggers d.1).span true) ds
                ++ timer_stop ∷ base_flush ∷ []))

flushed-IsFinished :
    (ds : Dependents) (u : State)
    → All (λ d. IsFinished d.1 u) ds
    → All (λ d. IsFinished d.1 (flushed u)) ds
unfolding flushed step
flushed-IsFinished [] u h = tt
flushed-IsFinished ((n, c) ∷ ds) u (h, hs) =
    (record { inactive = h.inactive; done_once = h.done_once }, flushed-IsFinished ds u hs)

ends :
    (es fs : List Event) (e : Event)
    → (((es ++ e ∷ []) ++ fs) ++ timer_stop ∷ []) ++ base_flush ∷ []
      ≡ es ++ e ∷ (fs ++ timer_stop ∷ base_flush ∷ [])
ends es fs e =
    append_assoc ((es ++ e ∷ []) ++ fs) (timer_stop ∷ []) (base_flush ∷ [])
    ∙ append_assoc (es ++ e ∷ []) fs (timer_stop ∷ base_flush ∷ [])
    ∙ append_assoc es (e ∷ []) (fs ++ timer_stop ∷ base_flush ∷ [])

request_outcome :
    (ds : Dependents) (s u : State)
    → IsReady ds s
    → AllDone ds (told 0 s) u
    → IsOver ds s (flushed u)
unfolding flushed step
request_outcome ds s u h d =
    let (e1, e2, e3, e4, e5, e6, e7) = told_request s in
    let names = λ (f : ℕ → Logger). map (λ (c : ℕ × ℕ). base_done (f c.1).span true) ds in
    (
      unfold flushed in flushed-IsFinished ds u d.finished,
      record {
        inactive = d.request_active ∙ e3;
        done_once = d.request_done ∙ e2 ∙ ap increment h.not_done;
      },
      d.rest,
      ap (λ es. (es ++ timer_stop ∷ []) ++ base_flush ∷ [])
            (d.events
              ∙ ap (λ es. es ++ names (told 0 s).loggers) e7
              ∙ ap (λ f. (s.events ++ base_done (s.loggers 0).span true ∷ []) ++ names f) e5)
          ∙ ends s.events (names s.loggers) (base_done (s.loggers 0).span true),
    )

request_path :
    (ds : Dependents) (s u : State)
    → IsReady ds s
    → AllDone ds (told 0 s) u
    → Leads
        (map (λ (d : ℕ × ℕ). done d.1 true) ds
          ++ check_count 0 true (increment (span_of 0 s).done_count) ∷ [])
        (told 0 s)
        (check_count 0 true (increment (span_of 0 s).done_count) ∷ [])
        u
    → Leads (call_done 0 ∷ []) s [] (flushed u)
unfolding step step_done step_recursive_done told
request_path ds s u h d a =
    let (e1, e2, e3, e4, e5, e6, e7) = told_request s in
    let check = check_count 0 true (increment (span_of 0 s).done_count) ∷ [] in
    next_to {t = call_done 0} {news = done 0 true ∷ []} (ground (arith, h.own_span)) (
      next (
        next_to (ap (map (λ (c : ℕ × ℕ). done c.1 true)) h.dependents) (
          Leads-trans a (
            next_to {news = close 0 ∷ []}
              (ap (λ k. (step (check_count 0 true (increment k)) u).0) h.not_done)
              (flush_ends u (ap (λ (f : ℕ → Logger). (f 0).parent) (d.loggers ∙ e5) ∙ h.own_parent)
                (ap (λ (f : ℕ → Logger). (f 0).synchronous_flush_when_done) (d.loggers ∙ e5)
                  ∙ h.synchronous)
                (d.request_attached ∙ e4 ∙ h.attached) d.rest (d.request_active ∙ e3)
                (d.detached ∙ e6 ∙ h.no_detached))))))

-- Done of a request that flushes synchronously and was not done before, with no detached logger active
-- and any number of active dependents, each with a span of its own, no dependents and not done, ends:
-- each of them and the request are done once and inactive, the request keeps no dependents, and the
-- base logger is told of the request, of each dependent in turn and then to flush, and nothing else.
pub request_done :
    (ds : Dependents) (s : State)
    → IsReady ds s
    → (k : ℕ) × (u : State) × (run k (call_done 0 ∷ []) s ≡ some u) × IsOver ds s u
request_done ds s h =
    let (e1, e2, e3, e4, e5, e6, e7) = told_request s in
    let (u, a, d) =
      children_done ds (check_count 0 true (increment (span_of 0 s).done_count) ∷ []) (told 0 s)
        (e1 ∙ h.dependents) (told-AreLeaves ds s h.leaves)
        (subst (λ f. AreApart f ds) (sym e5) h.apart) in
    let (k, r) = Leads-run (request_path ds s u h d a) in
    (k, flushed u, r, request_outcome ds s u h d)

-- ===== src/Lifecycle/Leaves.antt =====
-- Done of the active dependents of a request, one after the other.
use xm.Base.{
  ℕ, ◌≡◌, ◌≢◌, refl, ap, sym, subst, ◌∙◌, true, false, List, [], ◌∷◌, ◌++◌, map, All, append_assoc,
  append-nil, arith,
}
use xm.Lifecycle.{
  State, Logger, Span, Task, Dependents, base_done, done, check_count, close, span_of, increment,
  delete, step, step_recursive_done, step_done, step_close,
}
use xm.Lifecycle.Run.{Leads, here, next, Leads-trans}

pub next_to :
    {t : Task} {ts news us : List Task} {s u : State}
    → (step t s).0 ≡ news
    → Leads (news ++ ts) (step t s).1 us u
    → Leads (t ∷ ts) s us u
next_to {t} {ts} {news} {us} {s} {u} e a =
    next (subst (λ ns. Leads (ns ++ ts) (step t s).1 us u) (sym e) a)

-- An active dependent of the request, with no dependents of its own, that is not done yet.
pub record IsLeaf (n c : ℕ) (s : State) : Type 0 where
  pub other : c ≢ 0
  pub of_request : (s.loggers c).parent ≡ 0
  pub apart : (s.loggers c).span ≢ (s.loggers 0).span
  pub attached : (span_of c s).detached ≡ false
  pub alone : (span_of c s).active_dependents ≡ []
  pub not_done : (span_of c s).done_count ≡ 0
  pub numbered : (span_of c s).log_number ≡ n

-- What `done` leaves of it.
pub record IsFinished (c : ℕ) (s : State) : Type 0 where
  pub inactive : (span_of c s).known_active ≡ false
  pub done_once : (span_of c s).done_count ≡ 1

unfoldable pub told : ℕ → State → State
unfolding step_recursive_done
told c s = (step_recursive_done c true s).1

unfoldable pub closed : ℕ → State → State
unfolding step_close
closed c s = (step_close c s).1

pub child_done :
    (n c : ℕ) (ts : List Task) (s : State)
    → IsLeaf n c s
    → Leads (done c true ∷ ts) s ts (closed c (told c s))
unfolding step step_done step_recursive_done step_close told closed
child_done n c ts s h = next (
    next_to (ap (map (λ (d : ℕ × ℕ). done d.1 true)) h.alone) (
      next_to {news = close c ∷ []}
        (ap (λ k. (step (check_count c true (increment k)) (told c s)).0) h.not_done)
        (next_to {news = []} (ground (arith, h.other, h.of_request, h.attached)) here)))

-- The effect on everything else.
pub record Leaves (n c : ℕ) (ds : Dependents) (s u : State) : Type 0 where
  pub finished : IsFinished c u
  pub loggers : u.loggers ≡ s.loggers
  pub rest : (span_of 0 u).active_dependents ≡ ds
  pub request_done : (span_of 0 u).done_count ≡ (span_of 0 s).done_count
  pub request_active : (span_of 0 u).known_active ≡ (span_of 0 s).known_active
  pub request_attached : (span_of 0 u).detached ≡ (span_of 0 s).detached
  pub others : (a : ℕ) → a ≢ (s.loggers c).span → a ≢ (s.loggers 0).span → u.spans a ≡ s.spans a
  pub detached : u.active_detached ≡ s.active_detached
  pub events : u.events ≡ s.events ++ base_done (s.loggers c).span true ∷ []

pub child_done-Leaves :
    (n c : ℕ) (ds : Dependents) (s : State)
    → IsLeaf n c s
    → (span_of 0 s).active_dependents ≡ (n, c) ∷ ds
    → Leaves n c ds s (closed c (told c s))
unfolding step_recursive_done step_close told closed delete
child_done-Leaves n c ds s h e = record {
  finished = record {
    inactive =
        ground (arith, h.other, h.of_request, h.attached, h.apart, h.numbered, h.not_done, e);
    done_once =
        ground (arith, h.other, h.of_request, h.attached, h.apart, h.numbered, h.not_done, e);
  };
  loggers = ground (arith, h.other, h.of_request, h.attached, h.apart, h.numbered, h.not_done, e);
  rest = ground (arith, h.other, h.of_request, h.attached, h.apart, h.numbered, h.not_done, e);
  request_done =
      ground (arith, h.other, h.of_request, h.attached, h.apart, h.numbered, h.not_done, e);
  request_active =
      ground (arith, h.other, h.of_request, h.attached, h.apart, h.numbered, h.not_done, e);
  request_attached =
      ground (arith, h.other, h.of_request, h.attached, h.apart, h.numbered, h.not_done, e);
  others = λ a p q.
      ground (arith, h.other, h.of_request, h.attached, h.apart, h.numbered, h.not_done, e);
  detached = ground (arith, h.other, h.of_request, h.attached, h.apart, h.numbered, h.not_done, e);
  events = ground (arith, h.other, h.of_request, h.attached, h.apart, h.numbered, h.not_done, e);
}

-- Each has a span of its own.
abbrev pub AreApart : (ℕ → Logger) → Dependents → Type 0
AreApart f [] = Unit
AreApart f ((n, c) ∷ ds) = All (λ d. (f c).span ≢ (f d.1).span) ds × AreApart f ds

abbrev pub AreLeaves : State → Dependents → Type 0
AreLeaves s = All (λ d. IsLeaf d.0 d.1 s)

Leaves-span :
    (n c : ℕ) (ds : Dependents) (s u : State) (k : ℕ)
    → Leaves n c ds s u
    → (s.loggers k).span ≢ (s.loggers c).span
    → (s.loggers k).span ≢ (s.loggers 0).span
    → span_of k u ≡ span_of k s
Leaves-span n c ds s u k v p q =
    ap (λ (f : ℕ → Logger). u.spans (f k).span) v.loggers ∙ v.others (s.loggers k).span p q

Leaves-IsLeaf :
    (n c : ℕ) (ds : Dependents) (s u : State) (m k : ℕ)
    → Leaves n c ds s u
    → (s.loggers k).span ≢ (s.loggers c).span
    → IsLeaf m k s
    → IsLeaf m k u
Leaves-IsLeaf n c ds s u m k v p h =
    let e = Leaves-span n c ds s u k v p h.apart in
    record {
      other = h.other;
      of_request = ap (λ (f : ℕ → Logger). (f k).parent) v.loggers ∙ h.of_request;
      apart = subst (λ (f : ℕ → Logger). (f k).span ≢ (f 0).span) (sym v.loggers) h.apart;
      attached = ap (λ (x : Span). x.detached) e ∙ h.attached;
      alone = ap (λ (x : Span). x.active_dependents) e ∙ h.alone;
      not_done = ap (λ (x : Span). x.done_count) e ∙ h.not_done;
      numbered = ap (λ (x : Span). x.log_number) e ∙ h.numbered;
    }

Leaves-AreLeaves :
    (n c : ℕ) (ds es : Dependents) (s u : State)
    → Leaves n c ds s u
    → All (λ d. (s.loggers c).span ≢ (s.loggers d.1).span) es
    → AreLeaves s es
    → AreLeaves u es
Leaves-AreLeaves n c ds [] s u v a h = tt
Leaves-AreLeaves n c ds ((m, k) ∷ es) s u v (a, as') (h, hs) =
    (Leaves-IsLeaf n c ds s u m k v (λ e. a (sym e)) h, Leaves-AreLeaves n c ds es s u v as' hs)

-- All of them are done, and nothing else has changed.
pub record AllDone (ds : Dependents) (s u : State) : Type 0 where
  pub finished : All (λ d. IsFinished d.1 u) ds
  pub loggers : u.loggers ≡ s.loggers
  pub rest : (span_of 0 u).active_dependents ≡ []
  pub request_done : (span_of 0 u).done_count ≡ (span_of 0 s).done_count
  pub request_active : (span_of 0 u).known_active ≡ (span_of 0 s).known_active
  pub request_attached : (span_of 0 u).detached ≡ (span_of 0 s).detached
  pub others :
      (a : ℕ)
      → All (λ d. a ≢ (s.loggers d.1).span) ds
      → a ≢ (s.loggers 0).span
      → u.spans a ≡ s.spans a
  pub detached : u.active_detached ≡ s.active_detached
  pub events : u.events ≡ s.events ++ map (λ (d : ℕ × ℕ). base_done (s.loggers d.1).span true) ds

AllDone-cons :
    (n c : ℕ) (ds : Dependents) (s v u : State)
    → IsLeaf n c s
    → AreApart s.loggers ((n, c) ∷ ds)
    → Leaves n c ds s v
    → AllDone ds v u
    → AllDone ((n, c) ∷ ds) s u
AllDone-cons n c ds s v u h (a, as') l d = record {
  finished = (head_finished, d.finished);
  loggers = d.loggers ∙ l.loggers;
  rest = d.rest;
  request_done = d.request_done ∙ l.request_done;
  request_active = d.request_active ∙ l.request_active;
  request_attached = d.request_attached ∙ l.request_attached;
  others = λ b p q.
      d.others b (subst (λ (f : ℕ → Logger). All (λ e. b ≢ (f e.1).span) ds) (sym l.loggers) p.1)
        (subst (λ (f : ℕ → Logger). b ≢ (f 0).span) (sym l.loggers) q)
      ∙ l.others b p.0 q;
  detached = d.detached ∙ l.detached;
  events =
      d.events
      ∙ ap (λ (f : ℕ → Logger). v.events ++ map (λ (e : ℕ × ℕ). base_done (f e.1).span true) ds)
          l.loggers
      ∙ ap (λ es. es ++ map (λ (e : ℕ × ℕ). base_done (s.loggers e.1).span true) ds) l.events
      ∙ append_assoc s.events (base_done (s.loggers c).span true ∷ []) _;
}
  where
    head_finished : IsFinished c u
    head_finished =
        let e : span_of c u ≡ span_of c v =
          ap (λ (f : ℕ → Logger). u.spans (f c).span) d.loggers
          ∙ d.others (v.loggers c).span
              (subst (λ (f : ℕ → Logger). All (λ e. (f c).span ≢ (f e.1).span) ds) (sym l.loggers)
                a)
              (subst (λ (f : ℕ → Logger). (f c).span ≢ (f 0).span) (sym l.loggers) h.apart) in
        record {
          inactive = ap (λ (x : Span). x.known_active) e ∙ l.finished.inactive;
          done_once = ap (λ (x : Span). x.done_count) e ∙ l.finished.done_once;
        }

pub children_done :
    (ds : Dependents) (ts : List Task) (s : State)
    → (span_of 0 s).active_dependents ≡ ds
    → AreLeaves s ds
    → AreApart s.loggers ds
    → (u : State) × Leads (map (λ (d : ℕ × ℕ). done d.1 true) ds ++ ts) s ts u × AllDone ds s u
children_done [] ts s e h a = (
  s,
  here,
  record {
    finished = tt;
    loggers = refl;
    rest = e;
    request_done = refl;
    request_active = refl;
    request_attached = refl;
    others = λ b p q. refl;
    detached = refl;
    events = sym (append-nil s.events);
  },
)
children_done ((n, c) ∷ ds) ts s e (h, hs) (a, as') =
    let v = closed c (told c s) in
    let l = child_done-Leaves n c ds s h e in
    let (u, run', d) =
      children_done ds ts v l.rest (Leaves-AreLeaves n c ds ds s v l a hs)
        (subst (λ f. AreApart f ds) (sym l.loggers) as') in
    (
      u,
      Leads-trans (child_done n c (map (λ (d : ℕ × ℕ). done d.1 true) ds ++ ts) s h) run',
      AllDone-cons n c ds s v u h (a, as') l d,
    )

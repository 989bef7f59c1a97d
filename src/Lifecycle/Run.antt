-- ===== src/Lifecycle/Run.antt =====
-- Runs of the tasks of a logger: one step after the other.
use xm.Base.{ℕ, zero, suc, ◌≡◌, refl, ap, subst, none, some, List, [], ◌∷◌, ◌++◌, arith, ◌≢◌}
use xm.Lifecycle.{State, Task, step, run, update}

-- From tasks and a state to what is left of them after some steps.
pub data Leads : List Task → State → List Task → State → Type 0 where
  here : {ts : List Task} {s : State} → Leads ts s ts s
  next :
      {t : Task} {ts us : List Task} {s u : State}
      → Leads ((step t s).0 ++ ts) (step t s).1 us u
      → Leads (t ∷ ts) s us u

pub Leads-trans :
    {ts us vs : List Task} {s u v : State} → Leads ts s us u → Leads us u vs v → Leads ts s vs v
Leads-trans here b = b
Leads-trans (next a) b = next (Leads-trans a b)

-- What ends in a state is a run with enough fuel.
pub Leads-run : {ts : List Task} {s u : State} → Leads ts s [] u → (k : ℕ) × (run k ts s ≡ some u)
unfolding run
Leads-run a = go a refl
  where
    go :
        {ts us : List Task} {s u : State}
        → Leads ts s us u
        → us ≡ []
        → (k : ℕ) × (run k ts s ≡ some u)
    go (here {ts} {s}) e = (0, ap (λ us. run 0 us s) e)
    go (next a) e = let (k, h) = go a e in (suc k, h)

-- And a run that ends is such a path.
pub run-Leads : (k : ℕ) (ts : List Task) (s u : State) → run k ts s ≡ some u → Leads ts s [] u
unfolding run
run-Leads k [] s u e = let p : s ≡ u = cc in subst (λ v. Leads [] s [] v) p here
run-Leads zero (t ∷ ts) s u e = cc
run-Leads (suc k) (t ∷ ts) s u e = next (run-Leads k ((step t s).0 ++ ts) (step t s).1 u e)

-- A task whose successors never end never ends.
pub run_endless :
    (t : Task) (ts : List Task) (s : State)
    → ((k : ℕ) → run k ((step t s).0 ++ ts) (step t s).1 ≡ none)
    → (k : ℕ) → run k (t ∷ ts) s ≡ none
unfolding run
run_endless t ts s h zero = refl
run_endless t ts s h (suc k) = h k

pub update_self {ℓ} : {A : Type ℓ} (a : ℕ) (x : A) (f : ℕ → A) → update a x f a ≡ x
update_self a x f = ground arith

pub update_ne {ℓ} : {A : Type ℓ} (a b : ℕ) (x : A) (f : ℕ → A) → b ≢ a → update a x f b ≡ f b
update_ne a b x f h = ground arith

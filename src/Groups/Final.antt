-- ===== src/Groups/Final.antt =====
-- basegroup.go: Flush and Final of a group of requests, with the goroutines that they start. A schedule says
-- when the loop makes its next turn and when a goroutine runs.
use xm.Base.{
  ℕ, zero, suc, ◌+◌, ◌-◌, ◌≡◌, refl, ap, ◌∙◌, Bool, true, false, Option, none, some, List, [], ◌∷◌,
  ◌++◌, length, replicate, ◌⊎◌, inl, inr, arith, length-append, subst, append-nil,
}
use mathlib.Core.List.{Permᴰ}
use mathlib.Core.List
use Prim.{Unit, tt}

pub data Event : Type 0 where
  -- A turn of the loop: one more goroutine.
  turn : Event
  -- The goroutine at a place among those that wait runs.
  runs : ℕ → Event

module _ {R : Type 0} where
  -- The goroutine at a place, and the others.
  unfoldable pub pick : ℕ → List R → Option (R × List R)
  pick i [] = none
  pick zero (p ∷ ps) = some (p, ps)
  pick (suc i) (p ∷ ps) = elim (pick i ps) [ none ↦ none | some (q, qs) ↦ some (q, p ∷ qs) ]

  -- What is taken and what is left are the goroutines that were.
  PickedFrom : List R → Option (R × List R) → Type 0
  PickedFrom ps none = Unit
  PickedFrom ps (some (q, qs)) = Permᴰ ps (q ∷ qs) × (length ps ≡ suc (length qs))

  pick-PickedFrom : (i : ℕ) (ps : List R) → PickedFrom ps (pick i ps)
  unfolding pick PickedFrom
  pick-PickedFrom i [] = tt
  pick-PickedFrom zero (p ∷ ps) = (List.Permᴰ.refl (p ∷ ps), refl)
  pick-PickedFrom (suc i) (p ∷ ps) =
      elim (pick i ps)
          as (λ o.
            PickedFrom ps o
            → PickedFrom (p ∷ ps) (elim o [ none ↦ none | some (q, qs) ↦ some (q, p ∷ qs) ])) [
              | none ↦ λ h. tt
              | some (q, qs) ↦ λ h. (
                List.Permᴰ.trans (List.Permᴰ.cons refl h.0) (List.Permᴰ.swap refl refl),
                ap suc h.1,
              )
            ]
        (pick-PickedFrom i ps)

-- Flush: each goroutine has its own request, the count is that of the WaitGroup, and the requests flushed are
-- newest first.
pub record Flushing (R : Type 0) : Type 0 where
  pub rest : List R
  pub waiting : List R
  pub count : ℕ
  pub flushed : List R

module _ {R : Type 0} where
  unfoldable pub begin_flush : List R → Flushing R
  begin_flush rs = record { rest = rs; waiting = []; count = length rs; flushed = [] }

  unfoldable pub flush_event : Event → Flushing R → Option (Flushing R)
  unfolding pick
  flush_event turn s = elim s.rest [
    | [] ↦ none
    | r ∷ rs ↦
        some (record { rest = rs; waiting = r ∷ s.waiting; count = s.count; flushed = s.flushed })
  ]
  flush_event (runs i) s = elim (pick i s.waiting) [
    | none ↦ none
    | some (p, ps) ↦
        some (record { rest = s.rest; waiting = ps; count = s.count - 1; flushed = p ∷ s.flushed })
  ]

  unfoldable pub flush_events : List Event → Flushing R → Option (Flushing R)
  unfolding flush_event
  flush_events [] s = some s
  flush_events (e ∷ es) s = elim (flush_event e s) [ none ↦ none | some t ↦ flush_events es t ]

  -- Flush returns: the loop is over and Wait lets it pass.
  unfoldable pub has_returned : Flushing R → Bool
  has_returned s = elim s.rest [
    | [] ↦ elim s.count [ zero ↦ true | suc n ↦ false ]
    | r ∷ rs ↦ false
  ]

  -- No request is lost or doubled, and the count is that of the goroutines that have not run.
  record Accounts (all : List R) (s : Flushing R) : Type 0 where
    each : Permᴰ all (s.rest ++ (s.waiting ++ s.flushed))
    counted : s.count ≡ length s.rest + length s.waiting

  AccountsIf : List R → Option (Flushing R) → Type 0
  AccountsIf all none = Unit
  AccountsIf all (some s) = Accounts all s

  turn-Accounts :
      (all : List R) (s : Flushing R) → Accounts all s → AccountsIf all (flush_event turn s)
  unfolding flush_event AccountsIf
  turn-Accounts all s h =
      elim s.rest
          as (λ rest.
            Permᴰ all (rest ++ (s.waiting ++ s.flushed))
            → s.count ≡ length rest + length s.waiting
            → AccountsIf all (elim rest [
              | [] ↦ none
              | r ∷ rs ↦ some (record {
                rest = rs;
                waiting = r ∷ s.waiting;
                count = s.count;
                flushed = s.flushed;
              })
            ])) [
              | [] ↦ λ e c. tt
              | r ∷ rs ↦ λ e c. record {
                each =
                    List.Permᴰ.trans e
                      (List.Permᴰ.symm (List.Permᴰ.middle r rs (s.waiting ++ s.flushed)));
                counted = omega arith;
              }
            ]
        h.each h.counted

  runs-Accounts :
      (all : List R) (i : ℕ) (s : Flushing R)
      → Accounts all s
      → AccountsIf all (flush_event (runs i) s)
  unfolding flush_event AccountsIf PickedFrom
  runs-Accounts all i s h =
      elim (pick i s.waiting)
          as (λ o.
            PickedFrom s.waiting o
            → AccountsIf all (elim o [
              | none ↦ none
              | some (p, ps) ↦ some (record {
                rest = s.rest;
                waiting = ps;
                count = s.count - 1;
                flushed = p ∷ s.flushed;
              })
            ])) [
              | none ↦ λ q. tt
              | some (p, ps) ↦ λ q. record {
                each = List.Permᴰ.trans h.each (
                    List.Permᴰ.append_left s.rest (
                      List.Permᴰ.trans (List.Permᴰ.append_right s.flushed q.0)
                        (List.Permᴰ.symm (List.Permᴰ.middle p ps s.flushed))));
                counted = omega (arith, q.1, h.counted);
              }
            ]
        (pick-PickedFrom i s.waiting)

  event-Accounts :
      (all : List R) (e : Event) (s : Flushing R)
      → Accounts all s
      → AccountsIf all (flush_event e s)
  event-Accounts all turn s h = turn-Accounts all s h
  event-Accounts all (runs i) s h = runs-Accounts all i s h

  events-Accounts :
      (all : List R) (es : List Event) (s : Flushing R)
      → Accounts all s
      → AccountsIf all (flush_events es s)
  unfolding flush_events AccountsIf
  events-Accounts all [] s h = h
  events-Accounts all (e ∷ es) s h =
      elim (flush_event e s)
          as (λ o.
            AccountsIf all o
            → AccountsIf all (elim o [ none ↦ none | some t ↦ flush_events es t ])) [
              | none ↦ λ q. tt
              | some t ↦ λ q. events-Accounts all es t q
            ]
        (event-Accounts all e s h)

  -- Flush has returned and has flushed each request once, or it has not and some event can happen.
  unfoldable pub FlushesAll : List R → Flushing R → Type 0
  unfolding has_returned flush_event
  FlushesAll all s =
      ((has_returned s ≡ true) × Permᴰ all s.flushed)
      ⊎ ((has_returned s ≡ false) × ((e : Event) × (t : Flushing R) × (flush_event e s ≡ some t)))

  fields-FlushesAll :
      (all rest waiting : List R) (count : ℕ) (flushed : List R)
      → Permᴰ all (rest ++ (waiting ++ flushed))
      → count ≡ length rest + length waiting
      → FlushesAll all (record { rest = rest; waiting = waiting; count = count; flushed = flushed })
  unfolding FlushesAll has_returned flush_event pick
  fields-FlushesAll all (r ∷ rs) waiting count flushed e c = inr (refl, (turn, _, refl))
  fields-FlushesAll all [] (p ∷ ps) zero flushed e c = absurd (omega arith)
  fields-FlushesAll all [] (p ∷ ps) (suc n) flushed e c = inr (refl, (runs 0, _, refl))
  fields-FlushesAll all [] [] zero flushed e c = inl (refl, e)
  fields-FlushesAll all [] [] (suc n) flushed e c = absurd (omega arith)

  begin-Accounts : (rs : List R) → Accounts rs (begin_flush rs)
  unfolding begin_flush
  begin-Accounts rs = record {
    each = List.Permᴰ.symm (List.Permᴰ.append-nil rs);
    counted = omega arith;
  }

  -- Whatever the order of the turns of Flush's loop and of its goroutines: Flush has returned and has flushed each
  -- request of the group once, or it has not returned and some event can happen.
  pub flush_events-FlushesAll :
      (rs : List R) (es : List Event) (s : Flushing R)
      → flush_events es (begin_flush rs) ≡ some s
      → FlushesAll rs s
  unfolding AccountsIf
  flush_events-FlushesAll rs es s h =
      let a : Accounts rs s =
        subst (AccountsIf rs) h (events-Accounts rs es (begin_flush rs) (begin-Accounts rs)) in
      fields-FlushesAll rs s.rest s.waiting s.count s.flushed a.each a.counted

-- Final: the goroutines read the variable of the loop when they run.
pub record Finishing (R : Type 0) : Type 0 where
  pub rest : List R
  pub variable : Option R
  pub waiting : ℕ
  pub finished : List R

module _ {R : Type 0} where
  unfoldable pub begin_final : List R → Finishing R
  begin_final rs = record { rest = rs; variable = none; waiting = 0; finished = [] }

  unfoldable pub final_turn : Finishing R → Option (Finishing R)
  final_turn s = elim s.rest [
    | [] ↦ none
    | r ∷ rs ↦
        some
          (record { rest = rs; variable = some r; waiting = suc s.waiting; finished = s.finished })
  ]

  unfoldable pub final_runs : Finishing R → Option (Finishing R)
  final_runs s = elim s.waiting [
    | zero ↦ none
    | suc n ↦ elim s.variable [
      | none ↦ none
      | some r ↦
          some (record { rest = s.rest; variable = some r; waiting = n; finished = r ∷ s.finished })
    ]
  ]

  -- Some events of one kind.
  unfoldable pub repeat :
      (Finishing R → Option (Finishing R)) → ℕ → Finishing R → Option (Finishing R)
  repeat f zero s = some s
  repeat f (suc n) s = elim (f s) [ none ↦ none | some t ↦ repeat f n t ]

  -- When the loop is over.
  waiting_on : R → ℕ → List R → Finishing R
  waiting_on l n fs = record { rest = []; variable = some l; waiting = n; finished = fs }

  turns :
      (rs : List R) (l : R) (k : ℕ) (fs : List R) (v : Option R)
      → repeat final_turn
          (suc (length rs))
          (record { rest = rs ++ l ∷ []; variable = v; waiting = k; finished = fs })
        ≡ some (waiting_on l (suc (length rs) + k) fs)
  unfolding repeat final_turn waiting_on
  turns [] l k fs v = ap (λ (n : ℕ). some (waiting_on l n fs)) (omega arith)
  turns (r ∷ rs) l k fs v =
      turns rs l (suc k) fs (some r) ∙ ap (λ (n : ℕ). some (waiting_on l n fs)) (omega arith)

  replicate_shift :
      (n : ℕ) (l : R) (fs : List R) → replicate n l ++ l ∷ fs ≡ l ∷ replicate n l ++ fs
  replicate_shift zero l fs = refl
  replicate_shift (suc n) l fs = ap (◌∷◌ l) (replicate_shift n l fs)

  drains :
      (n : ℕ) (l : R) (fs : List R)
      → repeat final_runs n (waiting_on l n fs) ≡ some (waiting_on l 0 (replicate n l ++ fs))
  unfolding repeat final_runs waiting_on
  drains zero l fs = refl
  drains (suc n) l fs =
      drains n l (l ∷ fs) ∙ ap (λ gs. some (waiting_on l 0 gs)) (replicate_shift n l fs)

  -- The turns of the loop of Final, and then its goroutines.
  unfoldable pub final_after_loop : List R → Option (Finishing R)
  unfolding begin_final repeat
  final_after_loop rs = elim (repeat final_turn (length rs) (begin_final rs)) [
    | none ↦ none
    | some s ↦ repeat final_runs (length rs) s
  ]

  -- When the goroutines of Final run after its loop, the last request of the group is finished as often as there
  -- are requests, and no other is.
  pub final_after_loop-replicate :
      (rs : List R) (l : R)
      → final_after_loop (rs ++ l ∷ [])
        ≡ some (record {
          rest = [];
          variable = some l;
          waiting = 0;
          finished = replicate (suc (length rs)) l;
        })
  unfolding final_after_loop waiting_on begin_final
  final_after_loop-replicate rs l =
      let k = suc (length rs) in
      let n : length (rs ++ l ∷ []) ≡ k = length-append rs (l ∷ []) ∙ omega arith in
      let m : k + 0 ≡ k = omega arith in
      let drain : Option (Finishing R) → Option (Finishing R) =
        λ o. elim o [ none ↦ none | some s ↦ repeat final_runs k s ] in
      ap
        (λ (j : ℕ). elim (repeat final_turn j (begin_final (rs ++ l ∷ []))) [
          | none ↦ none
          | some s ↦ repeat final_runs j s
        ])
        n
      ∙ (ap drain (turns rs l 0 [] none ∙ ap (λ (j : ℕ). some (waiting_on l j [])) m)
          ∙ (drains k l []
              ∙ ap (λ (gs : List R). some (waiting_on l 0 gs)) (append-nil (replicate k l))))

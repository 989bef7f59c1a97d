-- ===== src/Seeds/Passed.antt =====
-- seed.go: what the second `i++` of the loop of react passes over.
use xm.Base.{
  ℕ, zero, suc, ◌≤◌, ◌≡◌, ◌≢◌, refl, ap, subst, Bool, true, false, Option, none, some, List, [],
  ◌∷◌, Bytes, length, get_elem?, Option-cases, inl, inr, if◌then◌else◌, ◌||◌, not, arith,
}
use xm.Metadata.Values.{TimeValue}
use xm.Seeds.{Seed}
use xm.Seeds.Marks.{IfSome}
use xm.Seeds.Places.{call_at-Stands}
use xm.Trace.{rebuild_set_non_zero}
use xm.Seeds.Modifiers.{Surroundings, Modifiers}
use xm.Seeds.React.{
  apply_mods, react_loop, call_at, is_nil, react_trace, react_end, react, react_marked, is_empty,
}

-- The callbacks of a program: what each does with a seed.
abbrev pub Callbacks : Type 0
Callbacks = ℕ → Seed → Bytes → Bool → TimeValue → Modifiers

-- They differ at most where react runs the callback in the place `n`, counted from 1.
unfoldable pub SameBut : ℕ → Callbacks → Callbacks → Type 0
SameBut n call call' =
    (f : ℕ) (s : Seed) (d : Bytes) (b : Bool) (now : TimeValue)
    → s.current_reactive_index ≢ n
    → call f s d b now ≡ call' f s d b now

get_elem?-end : (fs : List ℕ) (i : ℕ) → get_elem? fs i ≡ none → length fs ≤ i
get_elem?-end [] i h = omega arith
get_elem?-end (f ∷ fs) zero h = ground arith
get_elem?-end (f ∷ fs) (suc i) h = let r = get_elem?-end fs i h in omega arith

get_elem?-inside : (fs : List ℕ) (i f : ℕ) → get_elem? fs i ≡ some f → suc i ≤ length fs
get_elem?-inside [] i f h = ground arith
get_elem?-inside (g ∷ fs) zero f h = omega arith
get_elem?-inside (g ∷ fs) (suc i) f h = let r = get_elem?-inside fs i f h in omega arith

-- The callbacks `fs`, a nil, and what stands behind it.
abbrev pub with_nil : List ℕ → List (Option ℕ) → List (Option ℕ)
with_nil [] gs = none ∷ gs
with_nil (f ∷ fs) gs = some f ∷ with_nil fs gs

get_elem?-with_nil :
    (fs : List ℕ) (gs : List (Option ℕ)) (j : ℕ)
    → j ≤ length fs
    → get_elem? (with_nil fs gs) j ≡ some (get_elem? fs j)
get_elem?-with_nil [] gs zero h = refl
get_elem?-with_nil [] gs (suc j) h = absurd (omega arith)
get_elem?-with_nil (f ∷ fs) gs zero h = refl
get_elem?-with_nil (f ∷ fs) gs (suc j) h = get_elem?-with_nil fs gs j (omega arith)

module _ (e : Surroundings) (call call' : Callbacks) (fs : List ℕ)
    (same : SameBut (suc (suc (length fs))) call call') (b : Bool) (d : Bytes)
    (now : TimeValue) where
  call_at_same :
      (i f : ℕ) (s : Seed)
      → suc i ≢ suc (suc (length fs))
      → call_at e call b d now i f s ≡ call_at e call' b d now i f s
  unfolding call_at SameBut
  call_at_same i f s h =
      let s1 = record s { current_reactive_index = suc i } in
      ap
        (λ (ms : Modifiers). elim (apply_mods e ms s1) [
          | none ↦ none
          | some t ↦ elim (get_elem? t.reactive i) [ none ↦ none | some g ↦ some (t, is_nil g) ]
        ])
        (same f s1 d (not b) now h)

  loop_same :
      (k i : ℕ) (passing seen : Bool) (s : Seed)
      → suc (suc (length fs)) ≤ i
      → react_loop e call b d now k i passing seen s ≡ react_loop e call' b d now k i passing seen s
  unfolding react_loop
  loop_same zero i passing seen s h = refl
  loop_same (suc k) i true seen s h = loop_same k (suc i) false seen s (omega arith)
  loop_same (suc k) i false seen s h = elim (Option-cases (get_elem? s.reactive i)) [
    | inl n ↦ rw (n, react_loop) refl
    | inr (none, q) ↦ rw (q, react_loop) (loop_same k (suc i) true true s (omega arith))
    | inr (some f, q) ↦ elim (Option-cases (call_at e call' b d now i f s)) [
      | inl n ↦ rw (q, react_loop, call_at_same i f s (λ r. absurd (omega arith)), n) refl
      | inr (p, r) ↦
          rw (q, react_loop, call_at_same i f s (λ r. absurd (omega arith)), r)
            (loop_same k (suc i) false (seen || p.1) p.0 (omega arith))
    ]
  ]

  passed_same :
      (k i : ℕ) (s : Seed)
      → length fs ≤ i
      → react_loop e call b d now k (suc i) true true s
        ≡ react_loop e call' b d now k (suc i) true true s
  unfolding react_loop
  passed_same zero i s h = refl
  passed_same (suc k) i s h = loop_same k (suc (suc i)) false true s (omega arith)

  -- From the place `i` to the nil nothing has changed.
  IsKept : ℕ → Seed → Type 0
  IsKept i s = (j : ℕ) → i ≤ j → j ≤ length fs → get_elem? s.reactive j ≡ some (get_elem? fs j)

  call_at-IsKept :
      (i f : ℕ) (s : Seed) (p : Seed × Bool)
      → call_at e call' b d now i f s ≡ some p
      → IsKept i s
      → IsKept (suc i) p.0
  unfolding IsKept IfSome
  call_at-IsKept i f s p r h j l m =
      subst (IfSome (λ (p : Seed × Bool). get_elem? (p.0).reactive j ≡ some (get_elem? fs j))) r (
        call_at-Stands e i j (get_elem? fs j) (λ q. absurd (omega arith)) call' b d now f s
          (h j (omega arith) m))

  loop_to_nil :
      (k i : ℕ) (seen : Bool) (s : Seed)
      → i ≤ length fs
      → IsKept i s
      → react_loop e call b d now k i false seen s ≡ react_loop e call' b d now k i false seen s
  unfolding react_loop IsKept
  loop_to_nil zero i seen s l h = refl
  loop_to_nil (suc k) i seen s l h = elim (Option-cases (get_elem? fs i)) [
    | inl n ↦ rw (h i (omega arith) l, n, react_loop) (passed_same k i s (get_elem?-end fs i n))
    | inr (f, q) ↦
        let inside = get_elem?-inside fs i f q in
        let other = call_at_same i f s (λ r. absurd (omega arith)) in
        elim (Option-cases (call_at e call' b d now i f s)) [
          | inl n ↦ rw (h i (omega arith) l, q, react_loop, other, n) refl
          | inr (p, r) ↦
              rw (h i (omega arith) l, q, react_loop, other, r)
                (loop_to_nil k (suc i) (seen || p.1) p.0 inside (call_at-IsKept i f s p r h))
        ]
  ]

  marked_same :
      (gs : List (Option ℕ)) (s : Seed) (rest : List Bytes)
      → react_marked e call b d now (record s { reactive = with_nil fs gs }, rest)
        ≡ react_marked e call' b d now (record s { reactive = with_nil fs gs }, rest)
  unfolding react_marked react_end IsKept
  marked_same gs s rest =
      let u = record s { trace_set = false; span_set = false; reactive = with_nil fs gs } in
      ap
        (λ (x : Option (Seed × Bool)).
          if is_empty u.reactive
          then some (u, rest)
          else elim x [ none ↦ none | some p ↦ some (react_end e call p, rest) ])
        (loop_to_nil (length u.reactive) 0 false u (omega arith)
          (λ j l m. get_elem?-with_nil fs gs j m))

  -- react goes on with what a trace has been found for.
  abbrev go_on : Callbacks → Option (Seed × List Bytes) → Option (Seed × List Bytes)
  go_on f none = none
  go_on f (some p) = react_marked e f b d now p

  after_trace :
      (gs : List (Option ℕ)) (s : Seed) (draws : List Bytes) (c : Bool)
      → go_on call (react_trace e call c (record s { reactive = with_nil fs gs }) draws)
        ≡ go_on call' (react_trace e call' c (record s { reactive = with_nil fs gs }) draws)
  unfolding react_trace
  after_trace gs s draws false = marked_same gs s draws
  after_trace gs s draws true =
      let u = record s { reactive = with_nil fs gs } in
      let drawn : Option (Seed × List Bytes) =
        elim (rebuild_set_non_zero s.trace_bundle.trace draws) [
          | none ↦ none
          | some (t, rest) ↦
              some (record u { trace_bundle = record (s.trace_bundle) { trace = t } }, rest)
        ] in
      elim s.trace_set
        as (λ c.
          go_on call (if c then some (u, draws) else drawn)
          ≡ go_on call' (if c then some (u, draws) else drawn)) [
            | true ↦ marked_same gs s draws
            | false ↦ elim (Option-cases (rebuild_set_non_zero s.trace_bundle.trace draws)) [
              | inl q ↦ rw (q) refl
              | inr ((t, rest), q) ↦ rw (q) (
                  marked_same gs (record s { trace_bundle = record (s.trace_bundle) { trace = t } })
                    rest)
            ]
          ]

  -- The callbacks of a seed are some that are not nil, a nil, and any others. Whether the seed sprouts as a request
  -- or as a span and whatever the callbacks do, the outcome is the same for two meanings of the callbacks that
  -- differ at most where react runs the place behind that nil: the callback there is not run.
  pub react_passes_over :
      (gs : List (Option ℕ)) (s : Seed) (draws : List Bytes)
      → react e call b d now (record s { reactive = with_nil fs gs }) draws
        ≡ react e call' b d now (record s { reactive = with_nil fs gs }) draws
  unfolding react
  react_passes_over gs s draws = after_trace gs s draws b

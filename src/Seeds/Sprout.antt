-- ===== src/Seeds/Sprout.antt =====
-- seed.go: what sprouting leaves of the marks of a seed.
use xm.Base.{
  ℕ, zero, suc, ◌≡◌, refl, subst, Bool, true, false, none, some, List, Bytes, length, get_elem?,
  Option-cases, inl, inr, if◌then◌else◌, ◌||◌, not,
}
use Prim.{Unit, tt}
use xm.Metadata.Values.{TimeValue}
use xm.Trace.{span_id, set_random_of}
use xm.Seeds.{Seed, fresh_span, copy_span_seed}
use xm.Seeds.Modifiers.{Surroundings, Modifiers, modify_all, no_more, is_outside}
use xm.Seeds.React.{
  apply_mods, fill_source, react_loop, call_at, is_nil, react_trace, react_end, react, react_marked,
  is_empty, sub_seed,
}
use xm.Seeds.Marks.{IsUnmarked, IsWithin, IfSome, IfSome-elim, without_news, apply_mods-IsWithin}

module _ (e : Surroundings) where
  -- The parent is the trace of the seed, and the span id is drawn.
  IsChild : Seed → List Bytes → Seed × List Bytes → Type 0
  IsChild t more (n, left) =
      (n.trace_bundle.parent ≡ t.trace_bundle.trace)
      × (set_random_of span_id t.trace_bundle.trace more ≡ some (n.trace_bundle.trace, left))

  sub_seed-IsChild :
      (t : Seed) (more : List Bytes)
      → t.span_set ≡ false
      → IfSome (IsChild t more) (sub_seed e no_more t more)
  unfolding sub_seed IfSome fresh_span copy_span_seed apply_mods fill_source modify_all IsChild
  sub_seed-IsChild t more h =
      elim (Option-cases (set_random_of span_id t.trace_bundle.trace more)) [
        | inl q ↦ rw (h, q) tt
        | inr ((u, left), q) ↦ rw (h, q) (refl, q)
      ]

  module _ (call : ℕ → Seed → Bytes → Bool → TimeValue → Modifiers) where
    call_at-IsUnmarked :
        (b : Bool) (d : Bytes) (now : TimeValue) (i f : ℕ) (s : Seed)
        → IsUnmarked s
        → IfSome (λ (p : Seed × Bool). IsUnmarked p.0) (call_at e call b d now i f s)
    unfolding call_at IfSome is_outside
    call_at-IsUnmarked b d now i f s h =
        let s1 = record s { current_reactive_index = suc i } in
        let ms = call f s1 d (not b) now in
        IfSome-elim IsWithin (λ (p : Seed × Bool). IsUnmarked p.0) (apply_mods e ms s1)
          (λ t. elim (get_elem? t.reactive i) [ none ↦ none | some g ↦ some (t, is_nil g) ])
          (apply_mods-IsWithin e ms s1
            (record { no_trace = h.no_trace; no_span = h.no_span; within = refl }))
          (λ t q.
            IfSome-elim (λ _. Unit) (λ (p : Seed × Bool). IsUnmarked p.0) (get_elem? t.reactive i)
              (λ g. some (t, is_nil g)) (without_news (get_elem? t.reactive i))
              (λ g u. record { no_trace = q.no_trace; no_span = q.no_span }))

    loop-IsUnmarked :
        (b : Bool) (d : Bytes) (now : TimeValue) (k i : ℕ) (passing nil_seen : Bool) (s : Seed)
        → IsUnmarked s
        → IfSome
            (λ (p : Seed × Bool). IsUnmarked p.0)
            (react_loop e call b d now k i passing nil_seen s)
    unfolding react_loop IfSome is_outside
    loop-IsUnmarked b d now zero i passing nil_seen s h = h
    loop-IsUnmarked b d now (suc k) i true nil_seen s h =
        loop-IsUnmarked b d now k (suc i) false nil_seen s h
    loop-IsUnmarked b d now (suc k) i false nil_seen s h =
        IfSome-elim (λ _. Unit) (λ (p : Seed × Bool). IsUnmarked p.0) (get_elem? s.reactive i)
          (λ o. elim o [
            | none ↦ react_loop e call b d now k (suc i) true true s
            | some f ↦ elim (call_at e call b d now i f s) [
              | none ↦ none
              | some p ↦ react_loop e call b d now k (suc i) false (nil_seen || p.1) p.0
            ]
          ])
          (without_news (get_elem? s.reactive i))
          (λ o u.
            elim o
              as (λ o.
                IfSome (λ (p : Seed × Bool). IsUnmarked p.0)
                  (elim o [
                    | none ↦ react_loop e call b d now k (suc i) true true s
                    | some f ↦ elim (call_at e call b d now i f s) [
                      | none ↦ none
                      | some p ↦ react_loop e call b d now k (suc i) false (nil_seen || p.1) p.0
                    ]
                  ])) [
                    | none ↦ loop-IsUnmarked b d now k (suc i) true true s h
                    | some f ↦
                        IfSome-elim (λ (p : Seed × Bool). IsUnmarked p.0)
                          (λ (p : Seed × Bool). IsUnmarked p.0) (call_at e call b d now i f s)
                          (λ p. react_loop e call b d now k (suc i) false (nil_seen || p.1) p.0)
                          (call_at-IsUnmarked b d now i f s h)
                          (λ p q. loop-IsUnmarked b d now k (suc i) false (nil_seen || p.1) p.0 q)
                  ])

    end-IsUnmarked : (p : Seed × Bool) → IsUnmarked p.0 → IsUnmarked (react_end e call p)
    unfolding react_end
    end-IsUnmarked (s, nil_seen) h = record { no_trace = h.no_trace; no_span = h.no_span }

    marked-IsUnmarked :
        (b : Bool) (d : Bytes) (now : TimeValue) (p : Seed × List Bytes)
        → IfSome (λ (q : Seed × List Bytes). IsUnmarked q.0) (react_marked e call b d now p)
    unfolding react_marked IfSome
    marked-IsUnmarked b d now (s, rest) =
        let u = record s { trace_set = false; span_set = false } in
        elim (is_empty u.reactive)
          as (λ c.
            IfSome (λ (q : Seed × List Bytes). IsUnmarked q.0)
              (if c
                then some (u, rest)
                else elim (react_loop e call b d now (length u.reactive) 0 false false u) [
                  | none ↦ none
                  | some p ↦ some (react_end e call p, rest)
                ])) [
                  | true ↦ record { no_trace = refl; no_span = refl }
                  | false ↦
                      IfSome-elim (λ (p : Seed × Bool). IsUnmarked p.0)
                        (λ (q : Seed × List Bytes). IsUnmarked q.0)
                        (react_loop e call b d now (length u.reactive) 0 false false u)
                        (λ p. some (react_end e call p, rest))
                        (loop-IsUnmarked b d now (length u.reactive) 0 false false u
                          (record { no_trace = refl; no_span = refl }))
                        end-IsUnmarked
                ]

    -- Whatever the callbacks do, a seed that has sprouted has no mark.
    pub react-IsUnmarked :
        (b : Bool) (d : Bytes) (now : TimeValue) (s t : Seed) (draws rest : List Bytes)
        → react e call b d now s draws ≡ some (t, rest)
        → IsUnmarked t
    unfolding react IfSome
    react-IsUnmarked b d now s t draws rest h =
        subst (IfSome (λ (p : Seed × List Bytes). IsUnmarked p.0)) h (
          IfSome-elim (λ _. Unit) (λ (p : Seed × List Bytes). IsUnmarked p.0)
            (react_trace e call b s draws) (react_marked e call b d now)
            (without_news (react_trace e call b s draws)) (λ p u. marked-IsUnmarked b d now p))

    -- However a seed was marked and whatever the callbacks do: the span that sprouts hands a seed without a marked
    -- span to its children, so a child's seed has the span's trace as its parent and a span id that is drawn.
    pub sub_seed-react :
        (b : Bool) (d : Bytes) (now : TimeValue) (s t n : Seed) (draws rest more left : List Bytes)
        → react e call b d now s draws ≡ some (t, rest)
        → sub_seed e no_more t more ≡ some (n, left)
        → (n.trace_bundle.parent ≡ t.trace_bundle.trace)
          × (set_random_of span_id t.trace_bundle.trace more ≡ some (n.trace_bundle.trace, left))
    unfolding IfSome IsChild
    sub_seed-react b d now s t n draws rest more left h k =
        subst (IfSome (IsChild t more)) k
          (sub_seed-IsChild t more (react-IsUnmarked b d now s t draws rest h).no_span)

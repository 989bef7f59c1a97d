-- ===== src/Seeds/Tests.antt =====
-- seed.go: the theorems on seeds at a concrete seed.
use xm.Base.{
  ℕ, zero, suc, ◌≡◌, ◌≢◌, refl, Bool, true, false, Option, some, none, List, [], ◌∷◌, Bytes,
}
use xm.Metadata.Values.{TimeValue}
use xm.Trace.{new_trace, set_random_of, span_id}
use xm.Trace.Bundle.{new_bundle}
use xm.Settings.{default_settings}
use xm.Seeds.{Seed}
use xm.Seeds.Modifiers.{
  Surroundings, Modifiers, no_more, and_then, with_span, with_reactive_replaced,
}
use xm.Seeds.React.{react, sub_seed}
use xm.Seeds.Sprout.{sub_seed-react}
use xm.Seeds.Passed.{SameBut, react_passes_over}

abbrev nowhere : Surroundings
nowhere = record {
  split_version = λ text. (text, none);
  program = 112 ∷ [];
  default_namespace = 120 ∷ [];
  zero_version = 0;
}

abbrev noon : TimeValue
noon = record { wall = 1; ext = 2; loc = 0 }

-- Each callback sets the span, and the callback 0 removes itself.
abbrev call : ℕ → Seed → Bytes → Bool → TimeValue → Modifiers
call zero s d b t = and_then (with_span (9 ∷ [])) (and_then (with_reactive_replaced none) no_more)
call (suc f) s d b t = and_then (with_span (9 ∷ [])) no_more

abbrev marked : Seed
marked = record {
  trace_bundle = new_bundle;
  loggers = record { array = []; len = 0; removed = []; added = [] };
  reactive = some 0 ∷ some 5 ∷ [];
  ctx = 0;
  current_reactive_index = 0;
  trace_set = true;
  span_set = true;
  source_info = record {
    source = [];
    source_version = none;
    namespace = [];
    namespace_version = none;
  };
  settings = default_settings 0;
}

abbrev of_some : Option (Seed × List Bytes) → Seed × List Bytes
of_some none = (marked, [])
of_some (some p) = p

abbrev sprouted : Seed
unfolding react
sprouted = (of_some (react nowhere call true [] noon marked [])).0

abbrev draws : List Bytes
draws = (1 ∷ 2 ∷ 3 ∷ 4 ∷ 5 ∷ 6 ∷ 7 ∷ 8 ∷ []) ∷ []

abbrev child : Seed
unfolding sub_seed
child = (of_some (sub_seed nowhere no_more sprouted draws)).0

sub_seed-react_example :
    (child.trace_bundle.parent ≡ sprouted.trace_bundle.trace)
    × (set_random_of span_id sprouted.trace_bundle.trace draws
        ≡ some (child.trace_bundle.trace, []))
unfolding react sub_seed set_random_of xm.Trace.Arrays.set_random_hex xm.Trace.Arrays.is_zero_hex
    xm.Base.bytes_eq xm.Trace.Arrays.read_random xm.Trace.Hex.copy xm.Trace.initialize
    xm.Trace.set_array_of xm.Trace.rebuild new_bundle new_trace
sub_seed-react_example =
    sub_seed-react nowhere call true [] noon marked sprouted child [] [] draws [] refl refl

-- Another meaning of the callbacks, which does nothing in the third place.
abbrev call_less : ℕ → Seed → Bytes → Bool → TimeValue → Modifiers
call_less f s d b t = elim s.current_reactive_index [
  | zero ↦ call f s d b t
  | suc zero ↦ call f s d b t
  | suc (suc zero) ↦ call f s d b t
  | suc (suc (suc zero)) ↦ no_more
  | suc (suc (suc (suc i))) ↦ call f s d b t
]

call_less-SameBut : SameBut 3 call call_less
unfolding SameBut
call_less-SameBut f s d b t h =
    elim s.current_reactive_index
        as (λ i.
          i ≢ 3
          → call f s d b t ≡ (elim i [
            | zero ↦ call f s d b t
            | suc zero ↦ call f s d b t
            | suc (suc zero) ↦ call f s d b t
            | suc (suc (suc zero)) ↦ no_more
            | suc (suc (suc (suc i))) ↦ call f s d b t
          ])) [
            | zero ↦ λ _. refl
            | suc zero ↦ λ _. refl
            | suc (suc zero) ↦ λ _. refl
            | suc (suc (suc zero)) ↦ λ q. absurd (q refl)
            | suc (suc (suc (suc i))) ↦ λ _. refl
          ]
      h

react_passes_over_example :
    react nowhere call false [] noon
      (record marked { reactive = some 5 ∷ none ∷ some 0 ∷ some 5 ∷ [] })
      []
    ≡ react nowhere call_less false [] noon
        (record marked { reactive = some 5 ∷ none ∷ some 0 ∷ some 5 ∷ [] })
        []
react_passes_over_example =
    react_passes_over nowhere call call_less (5 ∷ []) call_less-SameBut false [] noon
      (some 0 ∷ some 5 ∷ []) marked []

-- ===== src/Seeds/React.antt =====
-- seed.go: making, copying and sprouting of seeds.
use xm.Base.{
  ℕ, zero, suc, Bool, true, false, Option, none, some, List, [], ◌∷◌, Bytes, length, get_elem?,
  if◌then◌else◌, ◌||◌, not, ◌>>=◌,
}
use xm.Metadata.Values.{TimeValue}
use xm.Trace.{rebuild_set_non_zero}
use xm.Trace.Bundle.{new_bundle}
use xm.Settings.{default_settings}
use xm.Seeds.{Seed, SourceInfo, copy_span_seed, fresh_span}
use xm.Seeds.Modifiers.{Surroundings, Modifiers, modify_all, set_source, set_namespace}

-- A nil slice and an empty text, as the code tests them.
unfoldable pub is_empty : {A : Type 0} → List A → Bool
is_empty [] = true
is_empty (x ∷ xs) = false

unfoldable pub or_zero : ℕ → Option ℕ → Option ℕ
or_zero z none = some z
or_zero z (some v) = some v

unfoldable pub is_nil : {A : Type 0} → Option A → Bool
is_nil none = true
is_nil (some f) = false

-- The callbacks that are not nil.
unfoldable pub keep_callbacks : List (Option ℕ) → List (Option ℕ)
keep_callbacks [] = []
keep_callbacks (none ∷ fs) = keep_callbacks fs
keep_callbacks (some f ∷ fs) = some f ∷ keep_callbacks fs

module _ (e : Surroundings) where
  -- The second half of applyMods.
  unfoldable pub fill_info : SourceInfo → SourceInfo
  unfolding set_source set_namespace is_empty or_zero
  fill_info info =
      let i1 = if is_empty info.source then set_source e e.program info else info in
      let i2 = record i1 { source_version = or_zero e.zero_version i1.source_version } in
      let i3 = if is_empty i2.namespace then set_namespace e e.default_namespace i2 else i2 in
      record i3 { namespace_version = or_zero e.zero_version i3.namespace_version }

  unfoldable pub fill_source : Seed → Seed
  unfolding fill_info
  fill_source s = record s { source_info = fill_info s.source_info }

  unfoldable pub apply_mods : Modifiers → Seed → Option Seed
  unfolding modify_all fill_source
  apply_mods mods s = elim (modify_all e mods s) [ none ↦ none | some t ↦ some (fill_source t) ]

  -- NewSeed; `background` is the context, `identity` the rewriting of filenames that changes nothing.
  unfoldable pub new_seed : ℕ → ℕ → Modifiers → Option Seed
  unfolding apply_mods new_bundle default_settings
  new_seed background identity mods = apply_mods mods (record {
    trace_bundle = new_bundle;
    loggers = record { array = []; len = 0; removed = []; added = [] };
    reactive = [];
    ctx = background;
    current_reactive_index = 0;
    trace_set = false;
    span_set = false;
    source_info = record {
      source = [];
      source_version = none;
      namespace = [];
      namespace_version = none;
    };
    settings = default_settings identity;
  })

  -- Seed.Copy
  unfoldable pub copy_seed : Modifiers → Seed → List Bytes → Option (Seed × List Bytes)
  unfolding copy_span_seed fresh_span apply_mods
  copy_seed mods s draws = do
    (n, rest) ← fresh_span s.span_set (copy_span_seed true s) draws
    t ← apply_mods mods n
    some (t, rest)

  -- Span.SubSeed, on the seed of the span, with the settings of its logger.
  unfoldable pub sub_seed : Modifiers → Seed → List Bytes → Option (Seed × List Bytes)
  unfolding copy_span_seed fresh_span apply_mods
  sub_seed mods s draws =
      let c = copy_span_seed false s in
      let child = record c {
        trace_bundle = record (c.trace_bundle) { parent = c.trace_bundle.trace };
      } in
      do (n, rest) ← fresh_span s.span_set child draws; t ← apply_mods mods n; some (t, rest)

  module _ (call : ℕ → Seed → Bytes → Bool → TimeValue → Modifiers) where
    -- The callback at `i`: the seed it makes, and whether it has replaced itself by nil.
    unfoldable pub call_at : Bool → Bytes → TimeValue → ℕ → ℕ → Seed → Option (Seed × Bool)
    unfolding apply_mods is_nil
    call_at is_request description now i f s =
        let s1 = record s { current_reactive_index = suc i } in
        elim (apply_mods (call f s1 description (not is_request) now) s1) [
          | none ↦ none
          | some t ↦ elim (get_elem? t.reactive i) [ none ↦ none | some g ↦ some (t, is_nil g) ]
        ]

    -- The loop of react from the place `i` on, with `k` places left. After a nil, the statement `i++` comes on top
    -- of that of the loop, so that a place is passed over: `passing`. The flag with the seed is nilSeen.
    unfoldable pub react_loop :
        Bool → Bytes → TimeValue → ℕ → ℕ → Bool → Bool → Seed → Option (Seed × Bool)
    unfolding call_at
    react_loop is_request description now zero i passing nil_seen s = some (s, nil_seen)
    react_loop is_request description now (suc k) i true nil_seen s =
        react_loop is_request description now k (suc i) false nil_seen s
    react_loop is_request description now (suc k) i false nil_seen s =
        elim (get_elem? s.reactive i) [
          | none ↦ none
          | some o ↦ elim o [
            | none ↦ react_loop is_request description now k (suc i) true true s
            | some f ↦ elim (call_at is_request description now i f s) [
              | none ↦ none
              | some p ↦ react_loop is_request description now k (suc i) false (nil_seen || p.1) p.0
            ]
          ]
        ]

    -- The start of react: a request without a trace gets one.
    unfoldable pub react_trace : Bool → Seed → List Bytes → Option (Seed × List Bytes)
    react_trace is_request s draws =
        if is_request
        then if s.trace_set
          then some (s, draws)
          else elim (rebuild_set_non_zero s.trace_bundle.trace draws) [
            | none ↦ none
            | some (t, rest) ↦
                some (record s { trace_bundle = record (s.trace_bundle) { trace = t } }, rest)
          ]
        else some (s, draws)

    -- The end of react.
    unfoldable pub react_end : Seed × Bool → Seed
    unfolding keep_callbacks
    react_end (s, nil_seen) = record s {
      current_reactive_index = 0;
      reactive = if nil_seen then keep_callbacks s.reactive else s.reactive;
    }

    -- The rest of react, which clears the marks and runs the callbacks.
    unfoldable pub react_marked :
        Bool → Bytes → TimeValue → Seed × List Bytes → Option (Seed × List Bytes)
    unfolding react_loop react_end is_empty
    react_marked is_request description now (s, rest) =
        let u = record s { trace_set = false; span_set = false } in
        if is_empty u.reactive
        then some (u, rest)
        else elim (react_loop is_request description now (length u.reactive) 0 false false u) [
          | none ↦ none
          | some p ↦ some (react_end p, rest)
        ]

    unfoldable pub react : Bool → Bytes → TimeValue → Seed → List Bytes → Option (Seed × List Bytes)
    unfolding react_trace react_marked
    react is_request description now s draws = elim (react_trace is_request s draws) [
      | none ↦ none
      | some p ↦ react_marked is_request description now p
    ]

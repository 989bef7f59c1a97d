-- ===== src/Seeds/Modifiers.antt =====
-- seed.go: the modifiers of a seed.
use xm.Base.{
  ℕ, zero, suc, Bool, true, false, Option, none, some, [], ◌∷◌, ◌++◌, Bytes, set, get_elem?,
  if◌then◌else◌,
}
use xm.Trace.{Trace, span_id, set_array_of}
use xm.Trace.Bundle.{Bundle}
use xm.Settings.{LogSettings}
use xm.BaseLoggers.{with_base, without_base}
use xm.Seeds.{Seed, SourceInfo}

mutual
  pub data SeedModifier : Type 0 where
    with_reactive : Option ℕ → SeedModifier
    with_reactive_replaced : Option ℕ → SeedModifier
    with_context : ℕ → SeedModifier
    with_bundle : Bundle → SeedModifier
    with_span : Bytes → SeedModifier
    with_trace : Trace → SeedModifier
    with_settings : (LogSettings → LogSettings) → SeedModifier
    with_namespace : Bytes → SeedModifier
    with_source : Bytes → SeedModifier
    with_base_logger : ℕ → SeedModifier
    without_base_logger : ℕ → SeedModifier
    combine_seed_modifiers : Modifiers → SeedModifier

  pub data Modifiers : Type 0 where
    no_more : Modifiers
    and_then : SeedModifier → Modifiers → Modifiers

-- What is not of this repository: SplitVersion, the program's name, and the version zero.
pub record Surroundings : Type 0 where
  pub split_version : Bytes → Bytes × Option ℕ
  pub program : Bytes
  pub default_namespace : Bytes
  pub zero_version : ℕ

-- `s.reactive[s.currentReactiveIndex-1] = f`, which panics out of range.
unfoldable pub replace_current : Option ℕ → Seed → Option Seed
replace_current f s = elim s.current_reactive_index [
  | zero ↦ none
  | suc i ↦ elim (get_elem? s.reactive i) [
    | none ↦ none
    | some g ↦ some (record s { reactive = set s.reactive i f })
  ]
]

-- Inside of a reactive function an override does not mark the seed.
unfoldable pub is_outside : Seed → Bool
is_outside s = elim s.current_reactive_index [ zero ↦ true | suc i ↦ false ]

module _ (e : Surroundings) where
  unfoldable pub set_namespace : Bytes → SourceInfo → SourceInfo
  set_namespace text info =
      let (name, version) = e.split_version text in
      record info { namespace = name; namespace_version = version }

  unfoldable pub set_source : Bytes → SourceInfo → SourceInfo
  set_source text info =
      let (name, version) = e.split_version text in
      record info { source = name; source_version = version }

  unfoldable mutual
    unfolding replace_current is_outside set_namespace set_source

    pub modify : SeedModifier → Seed → Option Seed
    modify (with_reactive f) s = some (record s { reactive = s.reactive ++ f ∷ [] })
    modify (with_reactive_replaced f) s = replace_current f s
    modify (with_context c) s = some (record s { ctx = c })
    modify (with_bundle b) s = some (record s {
      trace_bundle = b;
      trace_set = if is_outside s then true else s.trace_set;
      span_set = if is_outside s then true else s.span_set;
    })
    modify (with_span span) s = some (record s {
      trace_bundle = record (s.trace_bundle) {
        trace = set_array_of span_id span s.trace_bundle.trace;
      };
      span_set = if is_outside s then true else s.span_set;
    })
    modify (with_trace t) s = some (record s {
      trace_bundle = record (s.trace_bundle) { trace = t };
      trace_set = if is_outside s then true else s.trace_set;
      span_set = if is_outside s then true else s.span_set;
    })
    modify (with_settings f) s = some (record s { settings = f s.settings })
    modify (with_namespace text) s =
        some (record s { source_info = set_namespace text s.source_info })
    modify (with_source text) s = some (record s { source_info = set_source text s.source_info })
    modify (with_base_logger b) s = some (record s { loggers = with_base b s.loggers })
    modify (without_base_logger b) s = elim (without_base b s.loggers) [
      | none ↦ none
      | some l ↦ some (record s { loggers = l })
    ]
    modify (combine_seed_modifiers ms) s = modify_all ms s

    pub modify_all : Modifiers → Seed → Option Seed
    modify_all no_more s = some s
    modify_all (and_then m ms) s = elim (modify m s) [ none ↦ none | some t ↦ modify_all ms t ]

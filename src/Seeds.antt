-- ===== src/Seeds.antt =====
-- seed.go: seeds, from which requests and spans sprout. A callback, a context and a base logger are the numbers
-- by which they are known; `none` is a nil callback. A function that can panic gives an Option.
pub mod Modifiers
pub mod React
pub mod Marks
pub mod Sprout
pub mod Places
pub mod Passed
mod Tests
use xm.Base.{
  ℕ, zero, suc, ◌+◌, Bool, true, false, Option, none, some, List, [], Bytes, if◌then◌else◌, not,
}
use xm.Trace.{span_id, set_random_of, Trace}
use xm.Trace.Bundle.{Bundle, new_bundle}
use xm.Settings.{LogSettings, default_settings}
use xm.BaseLoggers.{Loggers, copy_loggers}

-- xopbase.SourceInfo; a version is the number by which it is known.
pub record SourceInfo : Type 0 where
  pub source : Bytes
  pub source_version : Option ℕ
  pub namespace : Bytes
  pub namespace_version : Option ℕ

-- Seed and spanSeed, less the configuration, the delay of flushes, the description and the sequence code of
-- spans, which no function here reads.
pub record Seed : Type 0 where
  pub trace_bundle : Bundle
  pub loggers : Loggers
  pub reactive : List (Option ℕ)
  pub ctx : ℕ
  pub current_reactive_index : ℕ
  pub trace_set : Bool
  pub span_set : Bool
  pub source_info : SourceInfo
  pub settings : LogSettings

-- spanSeed.copy, with LogSettings.Copy, after which nothing is shared.
unfoldable pub copy_span_seed : Bool → Seed → Seed
copy_span_seed with_history s = record s { loggers = copy_loggers with_history s.loggers }

-- The span id is drawn unless it was set.
unfoldable pub fresh_span : Bool → Seed → List Bytes → Option (Seed × List Bytes)
fresh_span span_set s draws =
    if span_set then some (s, draws) else elim (set_random_of span_id s.trace_bundle.trace draws) [
      | none ↦ none
      | some (t, rest) ↦
          some (record s { trace_bundle = record (s.trace_bundle) { trace = t } }, rest)
    ]

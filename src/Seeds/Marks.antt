-- ===== src/Seeds/Marks.antt =====
-- seed.go: modifiers inside of a callback do not mark the seed.
use xm.Base.{
  ℕ, zero, suc, ◌≡◌, refl, Bool, true, false, Option, none, some, get_elem?, set, if◌then◌else◌,
}
use Prim.{Unit, tt}
use xm.BaseLoggers.{without_base}
use xm.Seeds.{Seed}
use xm.Seeds.Modifiers.{
  Surroundings, SeedModifier, Modifiers, modify, modify_all, with_reactive, with_reactive_replaced,
  with_context, with_bundle, with_span, with_trace, with_settings, with_namespace, with_source,
  with_base_logger, without_base_logger, combine_seed_modifiers, no_more, and_then, is_outside,
  replace_current, set_namespace, set_source,
}
use xm.Seeds.React.{apply_mods, fill_source}

-- No mark says that the trace or the span was set.
pub record IsUnmarked (s : Seed) : Type 0 where
  pub no_trace : s.trace_set ≡ false
  pub no_span : s.span_set ≡ false

-- So while a callback runs.
pub record IsWithin (s : Seed) : Type 0 where
  pub no_trace : s.trace_set ≡ false
  pub no_span : s.span_set ≡ false
  pub within : is_outside s ≡ false

unfoldable pub IfSome : {A : Type 0} → (A → Type 0) → Option A → Type 0
IfSome P none = Unit
IfSome P (some x) = P x

marked_within : (o b : Bool) → o ≡ false → b ≡ false → (if o then true else b) ≡ false
marked_within o b h k = rw (h, k) refl

pub IfSome-elim :
    {A B : Type 0} (P : A → Type 0) (Q : B → Type 0) (o : Option A) (f : A → Option B)
    → IfSome P o
    → ((x : A) → P x → IfSome Q (f x))
    → IfSome Q (elim o [ none ↦ none | some x ↦ f x ])
unfolding IfSome
IfSome-elim P Q none f h k = tt
IfSome-elim P Q (some x) f h k = k x h

-- When nothing is known of a value.
pub without_news : {A : Type 0} (o : Option A) → IfSome (λ (x : A). Unit) o
unfolding IfSome
without_news none = tt
without_news (some x) = tt

replace_at-IsWithin :
    (f : Option ℕ) (s : Seed) (n : ℕ)
    → IsWithin s
    → IfSome IsWithin (elim n [
      | zero ↦ none
      | suc i ↦ elim (get_elem? s.reactive i) [
        | none ↦ none
        | some g ↦ some (record s { reactive = set s.reactive i f })
      ]
    ])
unfolding IfSome is_outside
replace_at-IsWithin f s zero h = tt
replace_at-IsWithin f s (suc i) h =
    IfSome-elim (λ _. Unit) IsWithin (get_elem? s.reactive i)
      (λ g. some (record s { reactive = set s.reactive i f }))
      (without_news (get_elem? s.reactive i))
      (λ g u. record { no_trace = h.no_trace; no_span = h.no_span; within = h.within })

replace_current-IsWithin :
    (f : Option ℕ) (s : Seed) → IsWithin s → IfSome IsWithin (replace_current f s)
unfolding replace_current
replace_current-IsWithin f s h = replace_at-IsWithin f s s.current_reactive_index h

module _ (e : Surroundings) where
  mutual
    unfolding IfSome modify modify_all set_namespace set_source is_outside

    modify-IsWithin : (m : SeedModifier) (s : Seed) → IsWithin s → IfSome IsWithin (modify e m s)
    modify-IsWithin (with_reactive f) s h = record {
      no_trace = h.no_trace;
      no_span = h.no_span;
      within = h.within;
    }
    modify-IsWithin (with_reactive_replaced f) s h = replace_current-IsWithin f s h
    modify-IsWithin (with_context c) s h = record {
      no_trace = h.no_trace;
      no_span = h.no_span;
      within = h.within;
    }
    modify-IsWithin (with_bundle b) s h = record {
      no_trace = marked_within (is_outside s) s.trace_set h.within h.no_trace;
      no_span = marked_within (is_outside s) s.span_set h.within h.no_span;
      within = h.within;
    }
    modify-IsWithin (with_span b) s h = record {
      no_trace = h.no_trace;
      no_span = marked_within (is_outside s) s.span_set h.within h.no_span;
      within = h.within;
    }
    modify-IsWithin (with_trace t) s h = record {
      no_trace = marked_within (is_outside s) s.trace_set h.within h.no_trace;
      no_span = marked_within (is_outside s) s.span_set h.within h.no_span;
      within = h.within;
    }
    modify-IsWithin (with_settings f) s h = record {
      no_trace = h.no_trace;
      no_span = h.no_span;
      within = h.within;
    }
    modify-IsWithin (with_namespace t) s h = record {
      no_trace = h.no_trace;
      no_span = h.no_span;
      within = h.within;
    }
    modify-IsWithin (with_source t) s h = record {
      no_trace = h.no_trace;
      no_span = h.no_span;
      within = h.within;
    }
    modify-IsWithin (with_base_logger b) s h = record {
      no_trace = h.no_trace;
      no_span = h.no_span;
      within = h.within;
    }
    modify-IsWithin (without_base_logger b) s h =
        IfSome-elim (λ _. Unit) IsWithin (without_base b s.loggers)
          (λ l. some (record s { loggers = l })) (without_news (without_base b s.loggers))
          (λ l u. record { no_trace = h.no_trace; no_span = h.no_span; within = h.within })
    modify-IsWithin (combine_seed_modifiers ms) s h = modify_all-IsWithin ms s h

    modify_all-IsWithin :
        (ms : Modifiers) (s : Seed) → IsWithin s → IfSome IsWithin (modify_all e ms s)
    modify_all-IsWithin no_more s h = h
    modify_all-IsWithin (and_then m ms) s h =
        IfSome-elim IsWithin IsWithin (modify e m s) (modify_all e ms) (modify-IsWithin m s h)
          (modify_all-IsWithin ms)

  fill_source-IsWithin : (s : Seed) → IsWithin s → IsWithin (fill_source e s)
  unfolding fill_source is_outside
  fill_source-IsWithin s h = record {
    no_trace = h.no_trace;
    no_span = h.no_span;
    within = h.within;
  }

  pub apply_mods-IsWithin :
      (ms : Modifiers) (s : Seed) → IsWithin s → IfSome IsWithin (apply_mods e ms s)
  unfolding apply_mods IfSome
  apply_mods-IsWithin ms s h =
      IfSome-elim IsWithin IsWithin (modify_all e ms s) (λ t. some (fill_source e t))
        (modify_all-IsWithin ms s h) fill_source-IsWithin

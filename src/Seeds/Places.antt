-- ===== src/Seeds/Places.antt =====
-- seed.go: what the modifiers of a callback leave of the other callbacks.
use xm.Base.{
  ℕ, zero, suc, ◌≡◌, ◌≢◌, refl, ap, ◌∙◌, Bool, Option, none, some, List, [], ◌∷◌, ◌++◌, Bytes,
  get_elem?, set, not, arith,
}
use Prim.{Unit, tt}
use xm.BaseLoggers.{without_base}
use xm.Metadata.Values.{TimeValue}
use xm.Seeds.{Seed}
use xm.Seeds.Modifiers.{
  Surroundings, SeedModifier, Modifiers, modify, modify_all, with_reactive, with_reactive_replaced,
  with_context, with_bundle, with_span, with_trace, with_settings, with_namespace, with_source,
  with_base_logger, without_base_logger, combine_seed_modifiers, no_more, and_then, replace_current,
}
use xm.Seeds.React.{apply_mods, fill_source, call_at, is_nil}
use xm.Seeds.Marks.{IfSome, IfSome-elim, without_news}

get_elem?-front :
    {A : Type 0} (l r : List A) (j : ℕ) (x : A)
    → get_elem? l j ≡ some x
    → get_elem? (l ++ r) j ≡ some x
get_elem?-front [] r j x h = ground arith
get_elem?-front (y ∷ l) r zero x h = h
get_elem?-front (y ∷ l) r (suc j) x h = get_elem?-front l r j x h

get_elem?-set :
    {A : Type 0} (l : List A) (i j : ℕ) (y : A) → i ≢ j → get_elem? (set l i y) j ≡ get_elem? l j
get_elem?-set [] i j y h = refl
get_elem?-set (z ∷ l) zero zero y h = absurd (h refl)
get_elem?-set (z ∷ l) zero (suc j) y h = refl
get_elem?-set (z ∷ l) (suc i) zero y h = refl
get_elem?-set (z ∷ l) (suc i) (suc j) y h = get_elem?-set l i j y (λ q. h (ap suc q))

-- While the callback at `i` runs, another one stands at `j`.
unfoldable pub Stands : ℕ → ℕ → Option ℕ → Seed → Type 0
Stands i j o s = (s.current_reactive_index ≡ suc i) × (get_elem? s.reactive j ≡ some o)

module _ (e : Surroundings) (i j : ℕ) (o : Option ℕ) (apart : i ≢ j) where
  replace_at-Stands :
      (f : Option ℕ) (s : Seed) (n : ℕ)
      → n ≡ suc i
      → Stands i j o s
      → IfSome (Stands i j o) (elim n [
        | zero ↦ none
        | suc k ↦ elim (get_elem? s.reactive k) [
          | none ↦ none
          | some g ↦ some (record s { reactive = set s.reactive k f })
        ]
      ])
  unfolding IfSome Stands
  replace_at-Stands f s zero m h = tt
  replace_at-Stands f s (suc k) m (p, q) =
      IfSome-elim (λ _. Unit) (Stands i j o) (get_elem? s.reactive k)
        (λ g. some (record s { reactive = set s.reactive k f }))
        (without_news (get_elem? s.reactive k))
        (λ g u. (p, get_elem?-set s.reactive k j f (λ r. apart (omega arith)) ∙ q))

  replace_current-Stands :
      (f : Option ℕ) (s : Seed) → Stands i j o s → IfSome (Stands i j o) (replace_current f s)
  unfolding replace_current Stands
  replace_current-Stands f s h = replace_at-Stands f s s.current_reactive_index h.0 h

  mutual
    unfolding IfSome Stands modify modify_all

    modify-Stands :
        (m : SeedModifier) (s : Seed) → Stands i j o s → IfSome (Stands i j o) (modify e m s)
    modify-Stands (with_reactive f) s h = (h.0, get_elem?-front s.reactive (f ∷ []) j o h.1)
    modify-Stands (with_reactive_replaced f) s h = replace_current-Stands f s h
    modify-Stands (with_context c) s h = h
    modify-Stands (with_bundle b) s h = h
    modify-Stands (with_span b) s h = h
    modify-Stands (with_trace t) s h = h
    modify-Stands (with_settings f) s h = h
    modify-Stands (with_namespace t) s h = h
    modify-Stands (with_source t) s h = h
    modify-Stands (with_base_logger b) s h = h
    modify-Stands (without_base_logger b) s h =
        IfSome-elim (λ _. Unit) (Stands i j o) (without_base b s.loggers)
          (λ l. some (record s { loggers = l })) (without_news (without_base b s.loggers))
          (λ l u. h)
    modify-Stands (combine_seed_modifiers ms) s h = modify_all-Stands ms s h

    modify_all-Stands :
        (ms : Modifiers) (s : Seed) → Stands i j o s → IfSome (Stands i j o) (modify_all e ms s)
    modify_all-Stands no_more s h = h
    modify_all-Stands (and_then m ms) s h =
        IfSome-elim (Stands i j o) (Stands i j o) (modify e m s) (modify_all e ms)
          (modify-Stands m s h) (modify_all-Stands ms)

  -- What the callback at `i` does leaves another callback in its place.
  pub call_at-Stands :
      (call : ℕ → Seed → Bytes → Bool → TimeValue → Modifiers) (b : Bool) (d : Bytes)
      (now : TimeValue) (f : ℕ) (s : Seed)
      → get_elem? s.reactive j ≡ some o
      → IfSome
          (λ (p : Seed × Bool). get_elem? (p.0).reactive j ≡ some o)
          (call_at e call b d now i f s)
  unfolding call_at IfSome Stands apply_mods fill_source
  call_at-Stands call b d now f s h =
      let s1 = record s { current_reactive_index = suc i } in
      let ms = call f s1 d (not b) now in
      let Q : Seed × Bool → Type 0 = λ p. get_elem? (p.0).reactive j ≡ some o in
      IfSome-elim (Stands i j o) Q (apply_mods e ms s1)
        (λ t. elim (get_elem? t.reactive i) [ none ↦ none | some g ↦ some (t, is_nil g) ])
        (IfSome-elim (Stands i j o) (Stands i j o) (modify_all e ms s1)
          (λ t. some (fill_source e t)) (modify_all-Stands ms s1 (refl, h)) (λ t q. q))
        (λ t q.
          IfSome-elim (λ _. Unit) Q (get_elem? t.reactive i) (λ g. some (t, is_nil g))
            (without_news (get_elem? t.reactive i)) (λ g u. q.1))

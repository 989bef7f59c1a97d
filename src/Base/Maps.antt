-- ===== src/Base/Maps.antt =====
-- Go's maps whose keys are strings, as association lists; a key stands once.
use mathlib.Core.Path.{◌≡◌, refl, ap}
use mathlib.Core.Bool.{Bool, false, ◌||◌}
use mathlib.Core.List.{List, [], ◌∷◌, ◌++◌}
use mathlib.Core.Option.{Option, none, some}
use mathlib.Core.Logic.{inl, inr}
use xm.Base.Tests.{if◌then◌else◌, Bool-cases}
use xm.Base.Text.{Bytes, bytes_eq, bytes_eq_sound, bytes_eq_refl}

abbrev pub Map {ℓ} : Type ℓ → Type ℓ
Map A = List (Bytes × A)

module _ {ℓ} {A : Type ℓ} where
  unfoldable pub lookup : Bytes → Map A → Option A
  lookup k [] = none
  lookup k ((j, a) ∷ m) = if bytes_eq j k then some a else lookup k m

  unfoldable pub insert : Bytes → A → Map A → Map A
  insert k a [] = (k, a) ∷ []
  insert k a ((j, b) ∷ m) = if bytes_eq j k then (k, a) ∷ m else (j, b) ∷ insert k a m

  pub lookup-insert_self : (k : Bytes) (a : A) (m : Map A) → lookup k (insert k a m) ≡ some a
  unfolding lookup insert
  lookup-insert_self k a [] = rw (bytes_eq_refl k) refl
  lookup-insert_self k a ((j, b) ∷ m) = elim (Bool-cases (bytes_eq j k)) [
    | inl e ↦ rw (e, lookup, bytes_eq_refl k) refl
    | inr n ↦ rw (n, lookup, n) (lookup-insert_self k a m)
  ]

  pub lookup-insert_ne :
      (k i : Bytes) (a : A) (m : Map A)
      → bytes_eq k i ≡ false
      → lookup i (insert k a m) ≡ lookup i m
  unfolding lookup insert
  lookup-insert_ne k i a [] h = rw h refl
  lookup-insert_ne k i a ((j, b) ∷ m) h = elim (Bool-cases (bytes_eq j k)) [
    | inl e ↦ let e' = bytes_eq_sound j k e in rw (e, lookup, h, e', h) refl
    | inr n ↦ rw (n, lookup, lookup-insert_ne k i a m h) refl
  ]

module _ {ℓ} {A : Type ℓ} where
  pub insert-absent :
      (k : Bytes) (a : A) (m : Map A) → lookup k m ≡ none → insert k a m ≡ m ++ (k, a) ∷ []
  unfolding lookup insert
  insert-absent k a [] h = refl
  insert-absent k a ((j, b) ∷ m) h = elim (Bool-cases (bytes_eq j k)) [
    | inl e ↦ absurd (let q = rw (e, lookup) at h in cc)
    | inr n ↦ rw (n, insert) (ap (◌∷◌ (j, b)) (insert-absent k a m (rw (n, lookup) at h)))
  ]

  pub insert-last :
      (k : Bytes) (a b : A) (m : Map A)
      → lookup k m ≡ none
      → insert k b (m ++ (k, a) ∷ []) ≡ m ++ (k, b) ∷ []
  unfolding lookup insert
  insert-last k a b [] h = rw (bytes_eq_refl k) refl
  insert-last k a b ((j, c) ∷ m) h = elim (Bool-cases (bytes_eq j k)) [
    | inl e ↦ absurd (let q = rw (e, lookup) at h in cc)
    | inr n ↦ rw (n, insert) (ap (◌∷◌ (j, c)) (insert-last k a b m (rw (n, lookup) at h)))
  ]

  pub lookup-last :
      (k : Bytes) (a : A) (m : Map A) → lookup k m ≡ none → lookup k (m ++ (k, a) ∷ []) ≡ some a
  unfolding lookup
  lookup-last k a [] h = rw (bytes_eq_refl k) refl
  lookup-last k a ((j, c) ∷ m) h = elim (Bool-cases (bytes_eq j k)) [
    | inl e ↦ absurd (let q = rw (e, lookup) at h in cc)
    | inr n ↦ rw (n, lookup) (lookup-last k a m (rw (n, lookup) at h))
  ]

unfoldable pub is_member : Bytes → List Bytes → Bool
is_member s [] = false
is_member s (t ∷ ts) = bytes_eq s t || is_member s ts

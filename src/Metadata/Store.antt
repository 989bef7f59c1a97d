-- ===== src/Metadata/Store.antt =====
-- The map of trackers.
use xm.Base.{
  ◌≡◌, ap, false, some, [], ◌∷◌, Bytes, bytes_eq, bytes_eq_sound, bytes_eq_refl, if◌then◌else◌,
  Bool-cases, inl, inr,
}
use xm.Metadata.{MetadataTracker, SpanMetadata, load, store}

pub load-store_self :
    (k : Bytes) (t : MetadataTracker) (m : SpanMetadata) → load k (store k t m) ≡ some t
unfolding load store
load-store_self k t [] = rw (bytes_eq_refl k)
load-store_self k t ((j, u) ∷ m) = elim (Bool-cases (bytes_eq j k)) [
  | inl e ↦ rw (e, bytes_eq_refl k)
  | inr n ↦ rw (n, n) (load-store_self k t m)
]

pub load-store_ne :
    (k j : Bytes) (t : MetadataTracker) (m : SpanMetadata)
    → bytes_eq k j ≡ false
    → load j (store k t m) ≡ load j m
unfolding load store
load-store_ne k j t [] h = rw h
load-store_ne k j t ((i, u) ∷ m) h = elim (Bool-cases (bytes_eq i k)) [
  | inl e ↦ rw (e, bytes_eq_sound i k e, h)
  | inr n ↦ rw n (ap (λ o. if bytes_eq i j then some u else o) (load-store_ne k j t m h))
]

-- ===== src/Attributes/Flush.antt =====
-- The flag anyChanged and the flags of the entries, by which Append writes each change once.
use xm.Base.{
  ◌≡◌, refl, Bool, true, false, [], ◌∷◌, Bytes, Map, if◌then◌else◌, ◌||◌, length, ◌==◌, All,
  Bool-cases, inl, inr, arith,
}
use xm.JBuilder.{JBuilder}
use xm.Attributes.{
  SingleAttribute, MultiAttribute, AttributeBuilder, append_entries, clear_multi, clear_single,
  clear, nothing_to_append,
}

module _ {A : Type 0} (changed : A → Bool) where
  -- The entries that are marked as changed.
  unfoldable pub only_those : Map A → Map A
  only_those [] = []
  only_those ((key, e) ∷ es) =
      let rest = only_those es in if changed e then (key, e) ∷ rest else rest

  -- Every entry, written one after the other.
  unfoldable pub write_all : (A → JBuilder → JBuilder) → Map A → JBuilder → JBuilder
  write_all write [] j = j
  write_all write ((key, e) ∷ es) j = write_all write es (write e j)

  abbrev pub Unchanged : Map A → Type 0
  Unchanged = All (λ e. changed e.1 ≡ false)

  pub append_entries_changed :
      (write : A → JBuilder → JBuilder) (es : Map A) (j : JBuilder)
      → append_entries changed write true es j ≡ write_all write (only_those es) j
  unfolding append_entries only_those write_all
  append_entries_changed write [] j = refl
  append_entries_changed write ((key, e) ∷ es) j = elim (Bool-cases (changed e)) [
    | inl c ↦ rw (c, append_entries, write_all) (append_entries_changed write es (write e j))
    | inr n ↦ rw (n, append_entries, write_all) (append_entries_changed write es j)
  ]

  pub append_entries_all :
      (write : A → JBuilder → JBuilder) (es : Map A) (j : JBuilder)
      → append_entries changed write false es j ≡ write_all write es j
  unfolding append_entries write_all
  append_entries_all write [] j = refl
  append_entries_all write ((key, e) ∷ es) j = elim (Bool-cases (changed e)) [
    | inl c ↦ rw (c, append_entries) (append_entries_all write es (write e j))
    | inr n ↦ rw (n, append_entries) (append_entries_all write es (write e j))
  ]

  -- What Append writes: the entries that are marked as changed, or all.
  unfoldable pub those : Bool → Map A → Map A
  those only_changed es = if only_changed then only_those es else es

  pub append_entries-those :
      (write : A → JBuilder → JBuilder) (only_changed : Bool) (es : Map A) (j : JBuilder)
      → append_entries changed write only_changed es j ≡ write_all write (those only_changed es) j
  unfolding those
  append_entries-those write true es j = append_entries_changed write es j
  append_entries-those write false es j = append_entries_all write es j

  pub only_those-Unchanged : (es : Map A) → Unchanged es → only_those es ≡ []
  unfolding only_those
  only_those-Unchanged [] h = refl
  only_those-Unchanged ((key, e) ∷ es) (n, h) = rw (n, only_those) (only_those-Unchanged es h)

-- No entry is marked as changed.
abbrev pub AllUnchanged : AttributeBuilder → Type 0
AllUnchanged a = Unchanged (λ m. m.changed) a.multi_map × Unchanged (λ s. s.changed) a.single_map

-- Without the flag of the builder no entry has changed.
abbrev pub IsTracked : AttributeBuilder → Type 0
IsTracked a = a.any_changed ≡ false → AllUnchanged a

pub clear_multi-Unchanged :
    (ms : Map MultiAttribute) → Unchanged (λ m. m.changed) (clear_multi true ms)
unfolding clear_multi
clear_multi-Unchanged [] = tt
clear_multi-Unchanged ((key, m) ∷ ms) = (entry, clear_multi-Unchanged ms)
  where
    entry : (if m.changed || false then record m { changed = false } else m).changed ≡ false
    entry = elim (Bool-cases m.changed) [ inl c ↦ simp c refl | inr n ↦ simp n refl ]

pub clear_single-Unchanged :
    (ss : Map SingleAttribute) → Unchanged (λ s. s.changed) (clear_single true ss)
unfolding clear_single
clear_single-Unchanged [] = tt
clear_single-Unchanged ((key, s) ∷ ss) = (entry, clear_single-Unchanged ss)
  where
    entry : (if s.changed || false then record s { changed = false } else s).changed ≡ false
    entry = elim (Bool-cases s.changed) [ inl c ↦ simp c refl | inr n ↦ simp n refl ]

pub empty_map :
    {A : Type 0} (P : Bytes × A → Type 0) (es : Map A) → (length es == 0) ≡ true → All P es
empty_map P [] h = tt
empty_map P (e ∷ es) h = absurd (ground arith)

-- Where Append returns at once, nothing has changed.
pub nothing-AllUnchanged :
    (a : AttributeBuilder) → IsTracked a → nothing_to_append true a ≡ true → AllUnchanged a
unfolding nothing_to_append
nothing-AllUnchanged a h e = elim (Bool-cases a.any_changed) [
  | inr n ↦ h n
  | inl c ↦ (empty_map _ a.multi_map (ground arith), empty_map _ a.single_map (ground arith))
]

pub clear-AllUnchanged : (a : AttributeBuilder) → AllUnchanged (clear true a)
unfolding clear
clear-AllUnchanged a = (clear_multi-Unchanged a.multi_map, clear_single-Unchanged a.single_map)

-- So too where Append writes every entry.
clear_multi_all : (ms : Map MultiAttribute) → Unchanged (λ m. m.changed) (clear_multi false ms)
unfolding clear_multi
clear_multi_all [] = tt
clear_multi_all ((key, m) ∷ ms) = (ground arith, clear_multi_all ms)

clear_single_all : (ss : Map SingleAttribute) → Unchanged (λ s. s.changed) (clear_single false ss)
unfolding clear_single
clear_single_all [] = tt
clear_single_all ((key, s) ∷ ss) = (ground arith, clear_single_all ss)

pub clear_all-AllUnchanged : (a : AttributeBuilder) → AllUnchanged (clear false a)
unfolding clear
clear_all-AllUnchanged a = (clear_multi_all a.multi_map, clear_single_all a.single_map)

-- What Append did is not done again.
pub nothing_after_clear : (a : AttributeBuilder) → nothing_to_append true (clear true a) ≡ true
unfolding nothing_to_append clear
nothing_after_clear a = refl

pub clear_any-AllUnchanged :
    (only_changed : Bool) (a : AttributeBuilder) → AllUnchanged (clear only_changed a)
clear_any-AllUnchanged true a = clear-AllUnchanged a
clear_any-AllUnchanged false a = clear_all-AllUnchanged a

pub nothing_again :
    (only_changed : Bool) (a : AttributeBuilder)
    → nothing_to_append only_changed a ≡ true
    → nothing_to_append true a ≡ true
unfolding nothing_to_append
nothing_again only_changed a h = ground arith

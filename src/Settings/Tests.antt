-- ===== src/Settings/Tests.antt =====
-- sub.go: the theorems about settings at concrete inputs.
use mathlib.Core.List.{Memᴰ}
use mathlib.Core.List.Memᴰ.{head, tail}
use xm.Base.{ℕ, ◌≤◌, ◌≡◌, refl, sym, subst, true, some, List, All, [], ◌∷◌, ◌++◌, codes, ◌⊎◌, arith}
use xm.Settings.{default_settings, stack_frames, level_values, send_prefill, no_prefill, bool_call}
use xm.Settings.Frames.{
  expected_frames, IsMonotone, stack_frames-expected_frames, stack_frames-IsMonotone,
}
use xm.Settings.Sent.{
  append_all, with_sequence, send_prefill-append_all, prefill_signed-Widens, Widens, prefill_signed,
  by_int8,
}
use xm.Settings.{int64_call, int8_type}

-- Three frames from the warn level on, by the default settings.
stack_frames-expected_frames_example :
    (stack_frames 13 3 (default_settings 0)).stack_frames_wanted 13
    ≡ expected_frames 13 3 13 ((default_settings 0).stack_frames_wanted 13)
stack_frames-expected_frames_example =
    stack_frames-expected_frames 13 3 13 (default_settings 0)
      (tail (tail (tail (tail (head refl)))))

abbrev IsFramed : ℕ → Type 0
IsFramed l = (l ≤ 17) ⊎ (l ≡ 20)

member-IsFramed : (m : ℕ) (ls : List ℕ) → All IsFramed ls → Memᴰ m ls → IsFramed m
member-IsFramed m [] h t = elim t [ ]
member-IsFramed m (l ∷ ls) (h, hs) (head e) = subst IsFramed (sym e) h
member-IsFramed m (l ∷ ls) (h, hs) (tail t) = member-IsFramed m ls hs t

default-IsMonotone : IsMonotone (default_settings 0)
unfolding default_settings
default-IsMonotone l m a b h = ground (arith, h, member-IsFramed m level_values (ground arith) b)

stack_frames-IsMonotone_example : IsMonotone (stack_frames 13 3 (default_settings 0))
stack_frames-IsMonotone_example =
    stack_frames-IsMonotone 13 3 (default_settings 0) default-IsMonotone

send_prefill-append_all_example :
    send_prefill
      (codes "seq")
      (codes ".A")
      (append_all (bool_call (codes "k") true ∷ []) (no_prefill (default_settings 0)))
    ≡ some (
      with_sequence
          (codes "seq")
          (codes ".A")
          (default_settings 0).tag_lines_with_span_sequence
          (bool_call (codes "k") true ∷ []),
      [],
    )
send_prefill-append_all_example =
    send_prefill-append_all (codes "seq") (codes ".A") (bool_call (codes "k") true) []
      (default_settings 0)

-- 254 is the int8 -2.
prefill_signed-Widens_example :
    (x : ℕ) × Widens 8 254 x
    × (prefill_signed by_int8 [] 254 (default_settings 0) ≡ record (default_settings 0) {
      prefill_data = (default_settings 0).prefill_data ++ int64_call [] x int8_type ∷ [];
    })
prefill_signed-Widens_example =
    prefill_signed-Widens by_int8 [] 254 (default_settings 0) (omega arith)

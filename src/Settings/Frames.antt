-- ===== src/Settings/Frames.antt =====
-- StackFrames against what its comment promises, level by level.
use mathlib.Core.List.{Memᴰ}
use mathlib.Core.List.Memᴰ.{head, tail}
use xm.Base.{
  ℕ, ◌≤◌, ◌≡◌, ap, subst, ◌∙◌, true, false, List, [], ◌∷◌, if◌then◌else◌, ltb, ◌==◌, arith,
  Bool-cases, inl, inr,
}
use xm.Settings.{LogSettings, level_values, adjust_frames, adjust_all, stack_frames}

-- Levels above get at least the count, levels below at most, and a count that fits stays.
unfoldable pub expected_frames : ℕ → ℕ → ℕ → ℕ → ℕ
expected_frames level count l current =
    if l == level
    then count
    else if ltb l level
    then (if ltb count current then count else current)
    else if ltb current count
    then count
    else current

adjust_self :
    (level count l : ℕ) (w : ℕ → ℕ)
    → adjust_frames level count l w l ≡ expected_frames level count l (w l)
unfolding adjust_frames expected_frames
adjust_self level count l w = ground arith

adjust_stable :
    (level count l m x : ℕ) (w : ℕ → ℕ)
    → w l ≡ expected_frames level count l x
    → adjust_frames level count m w l ≡ expected_frames level count l x
unfolding adjust_frames expected_frames
adjust_stable level count l m x w h = ground (arith, h)

adjust_other :
    (level count l m : ℕ) (w : ℕ → ℕ) → (l == m) ≡ false → adjust_frames level count m w l ≡ w l
unfolding adjust_frames
adjust_other level count l m w h = ground (arith, h)

all_stable :
    (level count l x : ℕ) (ls : List ℕ) (w : ℕ → ℕ)
    → w l ≡ expected_frames level count l x
    → adjust_all level count ls w l ≡ expected_frames level count l x
unfolding adjust_all
all_stable level count l x [] w h = h
all_stable level count l x (m ∷ ls) w h =
    all_stable level count l x ls (adjust_frames level count m w)
      (adjust_stable level count l m x w h)

==-eq : (l m : ℕ) → (l == m) ≡ true → l ≡ m
==-eq l m h = ground arith

all_expected :
    (level count l : ℕ) (ls : List ℕ) (w : ℕ → ℕ)
    → Memᴰ l ls
    → adjust_all level count ls w l ≡ expected_frames level count l (w l)
unfolding adjust_all
all_expected level count l [] w t = elim t [ ]
all_expected level count l (m ∷ ls) w (head e) =
    all_stable level count l (w l) ls (adjust_frames level count m w) (
      subst (λ n. adjust_frames level count n w l ≡ expected_frames level count l (w l)) e
        (adjust_self level count l w))
all_expected level count l (m ∷ ls) w (tail t) = elim (Bool-cases (l == m)) [
  | inl e ↦ all_stable level count l (w l) ls (adjust_frames level count m w) (
      subst (λ n. adjust_frames level count n w l ≡ expected_frames level count l (w l))
        (==-eq l m e) (adjust_self level count l w))
  | inr n ↦
      all_expected level count l ls (adjust_frames level count m w) t
      ∙ ap (expected_frames level count l) (adjust_other level count l m w n)
]

-- After StackFrames(level, count), the given level wants exactly `count` frames; a level above it the
-- larger of `count` and what it wanted, and a level below it the smaller.
pub stack_frames-expected_frames :
    (level count l : ℕ) (s : LogSettings)
    → Memᴰ l level_values
    → (stack_frames level count s).stack_frames_wanted l
      ≡ expected_frames level count l (s.stack_frames_wanted l)
unfolding stack_frames
stack_frames-expected_frames level count l s m =
    all_expected level count l level_values s.stack_frames_wanted m

-- Higher levels want at least as many frames.
abbrev pub IsMonotone : LogSettings → Type 0
IsMonotone s =
    (l m : ℕ)
    → Memᴰ l level_values
    → Memᴰ m level_values
    → l ≤ m
    → s.stack_frames_wanted l ≤ s.stack_frames_wanted m

expected_monotone :
    (level count l m x y : ℕ)
    → l ≤ m
    → x ≤ y
    → expected_frames level count l x ≤ expected_frames level count m y
unfolding expected_frames
expected_monotone level count l m x y h k = ground arith

-- If higher levels want at least as many frames as lower ones, they still do after StackFrames.
pub stack_frames-IsMonotone :
    (level count : ℕ) (s : LogSettings) → IsMonotone s → IsMonotone (stack_frames level count s)
stack_frames-IsMonotone level count s h l m a b le =
    let e = stack_frames-expected_frames level count l s a in
    let f = stack_frames-expected_frames level count m s b in
    let i = expected_monotone level count l m _ _ le (h l m a b le) in omega (arith, e, f, i)

-- ===== src/ConsoleReplay/Quoted.antt =====
-- The quoted texts that the console writes, read by the loop behind a quote.
use xm.Base.{
  ℕ, ◌≡◌, refl, Bool, true, false, Option, none, some, [], ◌∷◌, ◌++◌, Bytes, if◌then◌else◌, ◌==◌,
  ◌||◌, Bool-cases, inl, inr, arith,
}
use xm.JBuilder.Escape.{in_table, needs_escape, escape_of, unicode}
use xm.JBuilder.Quote.{hide, hide_all}
use xm.Attributes.Texts.{body_text}
use xm.ConsoleReplay.{scan}
use xm.ConsoleReplay.Words.{Closed, nothing, plain, escaped, scan-append}

backslash : (d : ℕ) (s : Bytes) → Closed s → Closed (b'\\' ∷ d ∷ s)
backslash d s h = escaped b'\\' d s refl h

unicode-Closed :
    (x y : ℕ) (s : Bytes)
    → ((x == b'\\') || (x == b'"')) ≡ false
    → ((y == b'\\') || (y == b'"')) ≡ false
    → Closed s
    → Closed (unicode x y ++ s)
unicode-Closed x y s hx hy h = backslash b'u' _ (
    plain b'0' _ refl refl (
      plain b'0' _ refl refl
        (plain x _ (ground arith) (ground arith) (plain y s (ground arith) (ground arith) h))))

-- A property of both branches.
if_intro :
    {A : Type 0} (P : A → Type 0) (b : Bool) (x y : A)
    → (b ≡ true → P x)
    → (b ≡ false → P y)
    → P (if b then x else y)
if_intro P true x y f g = f refl
if_intro P false x y f g = g refl

hide-Closed : (c : ℕ) (s : Bytes) → Closed s → Closed (hide c ++ s)
unfolding hide escape_of
hide-Closed c s h =
    if_intro P (c == b'"') _ _ (λ _. backslash b'"' s h)
      λ q.
        if_intro P (c == b'\\') _ _ (λ _. backslash b'\\' s h)
          λ b.
            if_intro P (c == 10) _ _ (λ _. backslash b'n' s h)
              λ _.
                if_intro P (c == 13) _ _ (λ _. backslash b'r' s h)
                  λ _.
                    if_intro P (c == 9) _ _ (λ _. backslash b't' s h)
                      λ _.
                        if_intro P (c == 12) _ _ (λ _. unicode-Closed b'0' b'c' s refl refl h)
                          λ _.
                            if_intro P (c == 8) _ _ (λ _. unicode-Closed b'0' b'8' s refl refl h)
                              λ _.
                                if_intro P (c == b'<') _ _
                                  (λ _. unicode-Closed b'3' b'c' s refl refl h)
                                  λ _.
                                    if_intro P (c == 39) _ _
                                      (λ _. unicode-Closed b'2' b'7' s refl refl h)
                                      λ _.
                                        if_intro P (c == 0) _ _
                                          (λ _. unicode-Closed b'0' b'0' s refl refl h)
                                          λ _. plain c s b q h
  where
    P : Option Bytes → Type 0
    P o = Closed ((elim o [ none ↦ c ∷ [] | some e ↦ e ]) ++ s)

hide_all-Closed : (s : Bytes) → Closed (hide_all s)
unfolding hide_all
hide_all-Closed [] = nothing
hide_all-Closed (c ∷ s) = hide-Closed c (hide_all s) (hide_all-Closed s)

unescaped-Closed : (s : Bytes) → needs_escape s ≡ false → Closed s
unfolding needs_escape in_table
unescaped-Closed [] e = nothing
unescaped-Closed (c ∷ s) e =
    plain c s (ground arith) (ground arith) (unescaped-Closed s (ground arith))

body_text-Closed : (s : Bytes) → Closed (body_text s)
body_text-Closed s = elim (Bool-cases (needs_escape s)) [
  | inl e ↦ rw e (hide_all-Closed s)
  | inr e ↦ rw e (unescaped-Closed s e)
]

-- What the loop finds behind the opening quote.
pub scan-body_text :
    (s rest : Bytes) → scan (body_text s ++ b'"' ∷ rest) ≡ some (body_text s ++ b'"' ∷ [], rest)
scan-body_text s rest = scan-append (body_text s) rest (body_text-Closed s)

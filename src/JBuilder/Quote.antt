-- ===== src/JBuilder/Quote.antt =====
-- The escaping loop against its meaning byte by byte, and against a reader.
use xm.Base.{
  get_elem?-middle, ℕ, suc, ◌+◌, ◌-◌, ◌≡◌, refl, ap, sym, ◌∙◌, Option, none, some, [], ◌∷◌, ◌++◌,
  Bytes, length, take, get_elem?, length-append, take-append_left, drop-append_left, append_assoc,
  arith,
}
use xm.JBuilder.Escape.{escape_of, slice, escape_loop, escapes}

-- What stands for one byte.
unfoldable pub hide : ℕ → Bytes
unfolding escape_of
hide c = elim (escape_of c) [ none ↦ c ∷ [] | some e ↦ e ]

unfoldable pub hide_all : Bytes → Bytes
hide_all [] = []
hide_all (c ∷ s) = hide c ++ hide_all s

escape_loop_copy :
    (k : ℕ) (s : Bytes) (i j : ℕ) (b : Bytes) (c : ℕ)
    → get_elem? s i ≡ some c
    → escape_of c ≡ none
    → escape_loop (suc k) s i j b ≡ escape_loop k s (i + 1) j b
unfolding escape_loop
escape_loop_copy k s i j b c g e = rw (g, escape_loop, e)

escape_loop_write :
    (k : ℕ) (s : Bytes) (i j : ℕ) (b : Bytes) (c : ℕ) (e : Bytes)
    → get_elem? s i ≡ some c
    → escape_of c ≡ some e
    → escape_loop (suc k) s i j b ≡ escape_loop k s (i + 1) (i + 1) ((b ++ slice s j i) ++ e)
unfolding escape_loop
escape_loop_write k s i j b c e g h = rw (g, escape_loop, h)

hide_copy : (c : ℕ) → escape_of c ≡ none → hide c ≡ c ∷ []
unfolding hide
hide_copy c e = rw (e, hide)

hide_write : (c : ℕ) (e : Bytes) → escape_of c ≡ some e → hide c ≡ e
unfolding hide
hide_write c e h = rw (h, hide)

-- With `pre` written and `wait` pending, the loop adds `wait` and the rest escaped.
escape_loop-hide_all :
    (pre wait rest b s : Bytes) (i j : ℕ)
    → s ≡ pre ++ (wait ++ rest)
    → i ≡ length pre + length wait
    → j ≡ length pre
    → escape_loop (length rest) s i j b ≡ b ++ (wait ++ hide_all rest)
unfolding escape_loop hide_all
escape_loop-hide_all pre wait [] b s i j es ei ej =
    rw (es, ej, drop-append_left (length pre) pre (wait ++ []) refl)
escape_loop-hide_all pre wait (c ∷ rest) b s i j es ei ej =
    go (escape_of c) refl (λ pre' wait' b' i' j'. escape_loop-hide_all pre' wait' rest b' s i' j')
  where
    at : get_elem? s i ≡ some c
    at =
        ap (λ t. get_elem? t i) (es ∙ sym (append_assoc pre wait (c ∷ rest)))
        ∙ ap (get_elem? ((pre ++ wait) ++ c ∷ rest)) (ei ∙ sym (length-append pre wait))
        ∙ get_elem?-middle (pre ++ wait) c rest

    pending : slice s j i ≡ wait
    pending =
        let n : i - j ≡ length wait = omega arith in
        rw (es, ej, drop-append_left (length pre) pre (wait ++ c ∷ rest) refl)
          (ap (λ k. take k (wait ++ c ∷ rest)) (rw (← ej) n)
            ∙ take-append_left (length wait) wait (c ∷ rest) refl)

    go :
        (o : Option Bytes)
        → escape_of c ≡ o
        → ((pre' wait' b' : Bytes) (i' j' : ℕ)
            → s ≡ pre' ++ (wait' ++ rest)
            → i' ≡ length pre' + length wait'
            → j' ≡ length pre'
            → escape_loop (length rest) s i' j' b' ≡ b' ++ (wait' ++ hide_all rest))
        → escape_loop (suc (length rest)) s i j b ≡ b ++ (wait ++ (hide c ++ hide_all rest))
    go none e ih =
        escape_loop_copy (length rest) s i j b c at e
        ∙ ih pre (wait ++ c ∷ []) b (i + 1) j
            (es ∙ ap (◌++◌ pre) (sym (append_assoc wait (c ∷ []) rest)))
            (omega (arith, length-append wait (c ∷ []))) ej
        ∙ rw (hide_copy c e, append_assoc wait (c ∷ []) (hide_all rest))
    go (some x) e ih =
        escape_loop_write (length rest) s i j b c x at e
        ∙ ih (pre ++ (wait ++ c ∷ [])) [] ((b ++ slice s j i) ++ x) (i + 1) (i + 1)
            (es
              ∙ sym (
                  append_assoc pre (wait ++ c ∷ []) rest
                  ∙ ap (◌++◌ pre) (append_assoc wait (c ∷ []) rest)))
            (omega (arith, length-append pre (wait ++ c ∷ []), length-append wait (c ∷ [])))
            (omega (arith, length-append pre (wait ++ c ∷ []), length-append wait (c ∷ [])))
        ∙ rw (
          hide_write c x e,
          pending,
          append_assoc (b ++ wait) x (hide_all rest),
          append_assoc b wait (x ++ hide_all rest),
        )

-- The loop of `escapes`, which copies stretches between two indices, appends to the buffer each byte of
-- the text replaced by its own escape.
pub escapes-hide_all : (s b : Bytes) → escapes s b ≡ b ++ hide_all s
unfolding escapes
escapes-hide_all s b = escape_loop-hide_all [] [] s b s 0 0 refl refl refl

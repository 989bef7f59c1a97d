-- ===== src/BaseLoggers/Without.antt =====
-- What WithoutBase leaves of the base loggers.
use xm.Base.{
  ℕ, suc, ◌+◌, ◌-◌, ◌≡◌, refl, ap, ap₂, sym, ◌∙◌, true, false, some, List, [], ◌∷◌, ◌++◌, All,
  length, take, set, get_elem?, ltb, ◌==◌, arith, get_elem?-middle, set-middle, append_assoc,
  append-nil, length-append, length-take, take-append_left,
}
use xm.BaseLoggers.{Loggers, list, swap, remove_at, without_loop, without_base}

-- The loop passes over other loggers.
skip_one :
    (base k i b : ℕ) (s : Loggers)
    → get_elem? s.array i ≡ some b
    → (b == base) ≡ false
    → without_loop base (suc k) i s ≡ without_loop base k (i + 1) s
unfolding without_loop
skip_one base k i b s g n = rw (g, without_loop, n)

abbrev AreOthers : ℕ → List ℕ → Type 0
AreOthers base = All (λ b. (b == base) ≡ false)

skip :
    (base k : ℕ) (pre mid post : List ℕ) (i : ℕ) (s : Loggers)
    → s.array ≡ pre ++ (mid ++ post)
    → i ≡ length pre
    → AreOthers base mid
    → without_loop base (length mid + k) i s ≡ without_loop base k (i + length mid) s
skip base k pre [] post i s e p h =
    ap (λ a. without_loop base a i s) (omega arith)
    ∙ ap (λ j. without_loop base k j s) (omega arith)
skip base k pre (b ∷ mid) post i s e p (h, hs) =
    ap (λ a. without_loop base a i s) (omega arith)
    ∙ skip_one base (length mid + k) i b s
        (ap₂ get_elem? e p ∙ get_elem?-middle pre b (mid ++ post)) h
    ∙ skip base k (pre ++ b ∷ []) mid post (i + 1) s
        (e ∙ sym (append_assoc pre (b ∷ []) (mid ++ post)))
        (omega (arith, length-append pre (b ∷ []))) hs
    ∙ ap (λ j. without_loop base k j s) (omega arith)

skip_start :
    (base k : ℕ) (mid post : List ℕ) (s : Loggers)
    → s.array ≡ mid ++ post
    → AreOthers base mid
    → without_loop base (length mid + k) 0 s ≡ without_loop base k (length mid) s
skip_start base k mid post s e h =
    skip base k [] mid post 0 s e refl h ∙ ap (λ j. without_loop base k j s) (omega arith)

hit :
    (base k i b : ℕ) (s t : Loggers)
    → get_elem? s.array i ≡ some b
    → (b == base) ≡ true
    → remove_at base i s ≡ some t
    → without_loop base (suc k) i s ≡ without_loop base k (i + 1) t
unfolding without_loop
hit base k i b s t g y r = rw (g, without_loop, y, r)

remove_swapped :
    (base i n : ℕ) (a : List ℕ) (s : Loggers)
    → s.len ≡ suc n
    → ltb i (s.len - 1) ≡ true
    → swap i (s.len - 1) s.array ≡ some a
    → remove_at base i s ≡ some (record s { array = a; len = n; removed = s.removed ++ base ∷ [] })
unfolding remove_at
remove_swapped base i n a s e l w = rw (l, w, e)

remove_last :
    (base i n : ℕ) (s : Loggers)
    → s.len ≡ suc n
    → ltb i (s.len - 1) ≡ false
    → remove_at base i s ≡ some (record s { len = n; removed = s.removed ++ base ∷ [] })
unfolding remove_at
remove_last base i n s e l = rw (l, e)

swap_of :
    (i j x y : ℕ) (a : List ℕ)
    → get_elem? a i ≡ some x
    → get_elem? a j ≡ some y
    → swap i j a ≡ some (set (set a i y) j x)
swap_of i j x y a g h = rw (swap, g, h)

swap-ends :
    (x y : ℕ) (pre mid : List ℕ) (i j : ℕ) (a : List ℕ)
    → a ≡ pre ++ x ∷ (mid ++ y ∷ [])
    → i ≡ length pre
    → j ≡ length (pre ++ x ∷ mid)
    → swap i j a ≡ some (pre ++ y ∷ (mid ++ x ∷ []))
swap-ends x y pre mid i j a e p q =
    let e' : a ≡ (pre ++ x ∷ mid) ++ y ∷ [] = e ∙ sym (append_assoc pre (x ∷ mid) (y ∷ [])) in
    let first : set a i y ≡ (pre ++ y ∷ mid) ++ y ∷ [] =
      ap₂ (λ b k. set b k y) e p
      ∙ set-middle pre x y (mid ++ y ∷ [])
      ∙ sym (append_assoc pre (y ∷ mid) (y ∷ [])) in
    let q' : j ≡ length (pre ++ y ∷ mid) =
      omega (arith, q, length-append pre (x ∷ mid), length-append pre (y ∷ mid)) in
    swap_of i j x y a (ap₂ get_elem? e p ∙ get_elem?-middle pre x (mid ++ y ∷ []))
      (ap₂ get_elem? e' q ∙ get_elem?-middle (pre ++ x ∷ mid) y [])
    ∙ ap some (
        ap₂ (λ b k. set b k x) first q'
        ∙ set-middle (pre ++ y ∷ mid) y x []
        ∙ append_assoc pre (y ∷ mid) (x ∷ []))

-- A logger that is in the list once, and not last.
pub record IsInside (base : ℕ) (s : Loggers) : Type 0 where
  pub before : List ℕ
  pub between : List ℕ
  pub final : ℕ
  pub array : s.array ≡ before ++ base ∷ (between ++ final ∷ [])
  pub len : s.len ≡ length s.array
  pub others : AreOthers base before × AreOthers base between × ((final == base) ≡ false)

==-self : (b : ℕ) → (b == b) ≡ true
==-self b = ground arith

after_swap : (base : ℕ) (s : Loggers) → IsInside base s → Loggers
after_swap base s h = record s {
  array = h.before ++ h.final ∷ (h.between ++ base ∷ []);
  len = suc (length h.before + length h.between);
  removed = s.removed ++ base ∷ [];
}

after_loop : (base : ℕ) (s : Loggers) → IsInside base s → Loggers
unfolding after_swap
after_loop base s h = record (after_swap base s h) {
  len = length h.before + length h.between;
  removed = (s.removed ++ base ∷ []) ++ base ∷ [];
}

first_removal :
    (base : ℕ) (s : Loggers) (h : IsInside base s)
    → remove_at base (length h.before) s ≡ some (after_swap base s h)
unfolding after_swap
first_removal base s h =
    let n : s.len ≡ suc (suc (length h.before + length h.between)) =
      h.len
      ∙ ap length h.array
      ∙ omega (
        arith,
        length-append h.before (base ∷ (h.between ++ h.final ∷ [])),
        length-append h.between (h.final ∷ []),
      ) in
    remove_swapped base (length h.before) (suc (length h.before + length h.between)) _ s n
      (ground (arith, n))
      (swap-ends base h.final h.before h.between (length h.before) (s.len - 1) s.array h.array refl
        (omega (arith, n, length-append h.before (base ∷ h.between))))

second_removal :
    (base : ℕ) (s : Loggers) (h : IsInside base s)
    → remove_at base ((length h.before + 1) + length h.between) (after_swap base s h)
      ≡ some (after_loop base s h)
unfolding after_swap after_loop
second_removal base s h =
    remove_last base ((length h.before + 1) + length h.between) (length h.before + length h.between)
      (after_swap base s h) refl (ground arith)

second_look :
    (base : ℕ) (s : Loggers) (h : IsInside base s)
    → get_elem? (after_swap base s h).array ((length h.before + 1) + length h.between) ≡ some base
unfolding after_swap
second_look base s h =
    ap₂ get_elem? (sym (append_assoc h.before (h.final ∷ h.between) (base ∷ [])))
      (omega (arith, length-append h.before (h.final ∷ h.between)))
    ∙ get_elem?-middle (h.before ++ h.final ∷ h.between) base []

loop_ends : (base i : ℕ) (s : Loggers) → without_loop base 0 i s ≡ some s
unfolding without_loop
loop_ends base i s = refl

-- The whole loop: it meets the logger again where the swap has put it.
without_base-after_loop :
    (base : ℕ) (s : Loggers) (h : IsInside base s)
    → without_base base s ≡ some (after_loop base s h)
unfolding without_base
without_base-after_loop base s h =
    let (o1, o2, o3) = h.others in
    let s1 = after_swap base s h in
    let n1 = length h.between + 1 in
    ap (λ k. without_loop base k 0 s) count
    ∙ skip_start base (suc n1) h.before (base ∷ (h.between ++ h.final ∷ [])) s h.array o1
    ∙ hit base n1 (length h.before) base s s1
        (ap (λ a. get_elem? a (length h.before)) h.array
          ∙ get_elem?-middle h.before base (h.between ++ h.final ∷ []))
        (==-self base) (first_removal base s h)
    ∙ skip base 1 (h.before ++ h.final ∷ []) h.between (base ∷ []) (length h.before + 1) s1
        (unfold after_swap in sym (append_assoc h.before (h.final ∷ []) (h.between ++ base ∷ [])))
        (omega (arith, length-append h.before (h.final ∷ []))) o2
    ∙ hit base 0 ((length h.before + 1) + length h.between) base s1 (after_loop base s h)
        (second_look base s h) (==-self base) (second_removal base s h)
    ∙ loop_ends base (((length h.before + 1) + length h.between) + 1) (after_loop base s h)
  where
    count : s.len ≡ length h.before + suc (length h.between + 1)
    count =
        h.len
        ∙ ap length h.array
        ∙ omega (
          arith,
          length-append h.before (base ∷ (h.between ++ h.final ∷ [])),
          length-append h.between (h.final ∷ []),
        )

-- WithoutBase of a logger that is in the list once and not last takes another logger out as
-- well, and notes the removed one twice.
pub without_base_takes_two :
    (base : ℕ) (s : Loggers)
    → IsInside base s
    → (u : Loggers) × (without_base base s ≡ some u)
      × (length (list u) + 2 ≡ length (list s))
      × (u.removed ≡ (s.removed ++ base ∷ []) ++ base ∷ [])
unfolding list after_loop after_swap
without_base_takes_two base s h = (
  after_loop base s h,
  without_base-after_loop base s h,
  omega (
    arith,
    h.len,
    ap length h.array,
    length-take s.len s.array,
    length-take (length h.before + length h.between)
        (h.before ++ h.final ∷ (h.between ++ base ∷ [])),
    length-append h.before (h.final ∷ (h.between ++ base ∷ [])),
    length-append h.between (base ∷ []),
    length-append h.before (base ∷ (h.between ++ h.final ∷ [])),
    length-append h.between (h.final ∷ []),
  ),
  refl,
)

-- WithoutBase of a logger that is not in the list changes nothing.
pub without_base_absent :
    (base : ℕ) (s : Loggers)
    → s.len ≡ length s.array
    → AreOthers base s.array
    → without_base base s ≡ some s
unfolding without_base without_loop
without_base_absent base s n o =
    ap (λ k. without_loop base k 0 s) (n ∙ omega arith)
    ∙ skip base 0 [] s.array [] 0 s (sym (append-nil s.array)) refl o

-- WithoutBase of a logger that is in the list once, at its end, takes out that one and notes it.
pub without_base_last :
    (base : ℕ) (before : List ℕ) (s : Loggers)
    → s.array ≡ before ++ base ∷ []
    → s.len ≡ length s.array
    → AreOthers base before
    → (u : Loggers) × (without_base base s ≡ some u)
      × (list u ≡ before)
      × (u.removed ≡ s.removed ++ base ∷ [])
unfolding without_base without_loop list
without_base_last base before s e n o =
    let k : s.len ≡ suc (length before) =
      n ∙ ap length e ∙ omega (arith, length-append before (base ∷ [])) in
    let u : Loggers = record s { len = length before; removed = s.removed ++ base ∷ [] } in
    (
      u,
      ap (λ k. without_loop base k 0 s) (k ∙ omega arith)
          ∙ skip_start base 1 before (base ∷ []) s e o
          ∙ hit base 0 (length before) base s u
              (ap (λ a. get_elem? a (length before)) e ∙ get_elem?-middle before base [])
              (==-self base)
              (remove_last base (length before) (length before) s k (ground (arith, k))),
      ap (take (length before)) e ∙ take-append_left (length before) before (base ∷ []) refl,
      refl,
    )

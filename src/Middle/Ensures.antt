-- ===== src/Middle/Ensures.antt =====
-- Postconditions of functions that draw random bytes.
use xm.Base.{
  ℕ, ◌≡◌, refl, subst, Bool, true, false, none, some, List, [], ◌∷◌, Bytes, ◌>>=◌, if◌then◌else◌,
  All, AreBytes, length, ◌≤◌, ◌+◌, arith,
}
use xm.Trace.Random.{AreDraws, IsGoodDraw}
use xm.Middle.{Drawn}

-- Of the result, if there is one; the draws that are left are still bytes.
abbrev pub Ensures {ℓ} : {A : Type 0} → (A → Type ℓ) → Drawn A → Type ℓ
Ensures P none = Unit
Ensures P (some p) = P p.0 × AreDraws p.1

pub Ensures-bind {ℓ κ} :
    {A B : Type 0} (P : A → Type ℓ) (Q : B → Type κ) (m : Drawn A) (f : A × List Bytes → Drawn B)
    → Ensures P m
    → ((p : A × List Bytes) → P p.0 → AreDraws p.1 → Ensures Q (f p))
    → Ensures Q (m >>= f)
Ensures-bind P Q none f h k = tt
Ensures-bind P Q (some p) f h k = k p h.0 h.1

pub Ensures-if {ℓ} :
    {A : Type 0} (P : A → Type ℓ) (b : Bool) (m n : Drawn A)
    → (b ≡ true → Ensures P m)
    → (b ≡ false → Ensures P n)
    → Ensures P (if b then m else n)
Ensures-if P true m n h k = h refl
Ensures-if P false m n h k = k refl

pub Ensures-of {ℓ} :
    {A : Type 0} (P : A → Type ℓ) (m : Drawn A)
    → ((x : A) (rest : List Bytes) → m ≡ some (x, rest) → P x × AreDraws rest)
    → Ensures P m
Ensures-of P none h = tt
Ensures-of P (some p) h = h p.0 p.1 refl

pub Ensures-result {ℓ} :
    {A : Type 0} (P : A → Type ℓ) (m : Drawn A) (x : A) (rest : List Bytes)
    → Ensures P m
    → m ≡ some (x, rest)
    → P x
Ensures-result P m x rest h e = (subst (Ensures P) e h).0

-- Draws of which each fills an array of either width with something else than zeros.
abbrev pub AreGood : List Bytes → Type 0
AreGood = All (λ d. AreBytes d × IsGoodDraw 16 d × IsGoodDraw 8 d)

pub AreGood-AreDraws : (draws : List Bytes) → AreGood draws → AreDraws draws
AreGood-AreDraws [] g = tt
AreGood-AreDraws (d ∷ draws) (g, gs) = (g.0, AreGood-AreDraws draws gs)

-- With good draws there is a result, and it takes at most `k` of them.
abbrev pub Ends {ℓ} : {A : Type 0} → (A → Type ℓ) → ℕ → List Bytes → Drawn A → Type ℓ
Ends {A = A} P k draws o =
    (p : A × List Bytes) × (o ≡ some p) × P p.0 × AreGood p.1 × (length draws ≤ length p.1 + k)

pub Ends-now {ℓ} :
    {A : Type 0} (P : A → Type ℓ) (k : ℕ) (draws : List Bytes) (x : A)
    → P x
    → AreGood draws
    → Ends P k draws (some (x, draws))
Ends-now P k draws x h g = ((x, draws), refl, h, g, omega arith)

pub Ends-bind {ℓ κ} :
    {A B : Type 0} (P : A → Type ℓ) (Q : B → Type κ) (j k : ℕ) (draws : List Bytes) (m : Drawn A)
    (f : A × List Bytes → Drawn B)
    → Ends P j draws m
    → ((p : A × List Bytes)
        → P p.0
        → AreGood p.1
        → length draws ≤ length p.1 + j
        → Ends Q k p.1 (f p))
    → Ends Q (j + k) draws (m >>= f)
Ends-bind P Q j k draws m f (p, e, h, g, n) next =
    let (q, e', h', g', n') = next p h g n in (q, rw (e, ◌>>=◌) e', h', g', omega arith)

pub Ends-if {ℓ} :
    {A : Type 0} (P : A → Type ℓ) (k : ℕ) (draws : List Bytes) (b : Bool) (m n : Drawn A)
    → (b ≡ true → Ends P k draws m)
    → (b ≡ false → Ends P k draws n)
    → Ends P k draws (if b then m else n)
Ends-if P k draws true m n h h' = h refl
Ends-if P k draws false m n h h' = h' refl

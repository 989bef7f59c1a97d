-- ===== src/Trace/Random.antt =====
-- The random identifiers: setRandom, SetRandom, RebuildSetNonZero.
use xm.Base.{
  ℕ, ◌≡◌, ◌≢◌, refl, ap, sym, subst, ◌∙◌, true, false, some, inl, inr, List, [], ◌∷◌, ◌++◌,
  replicate, length, Bytes, AreBytes, All, Bool-cases, arith, ◌⊎◌, >>=-eq-some, bytes_eq,
  All-append, All-take, All-drop, take, drop, drop_all, append-nil, length-take, ◌≤◌,
}
use xm.Trace.Hex.{copy}
use xm.Trace.Hex.Fit.{length-copy}
use xm.Trace.Arrays.{HexBytes, is_zero_hex, set_random_hex, read_random, initialize_hex}
use xm.Trace.{Trace, Field, width, get, put, rebuild, initialize, set_random_of}
use xm.Trace.Operations.{get-put_ne}
use xm.Trace.Coherent.{
  IsArray, IsShown, IsCoherent, IsValid, get-put, get-put_self, initialized-put, get-rebuild,
  rebuild-IsCoherent, initialize-IsCoherent,
}

abbrev pub AreDraws : List Bytes → Type 0
AreDraws = All AreBytes

length-read : (x : HexBytes) (d : Bytes) → length (read_random x d).b ≡ length x.b
unfolding read_random
length-read x d = length-copy x.b d

copy-AreBytes : (dest src : Bytes) → AreBytes dest → AreBytes src → AreBytes (copy dest src)
unfolding copy
copy-AreBytes dest src hd hs =
    All-append _ (take (length dest) src) (drop (length src) dest) (All-take _ (length dest) src hs)
      (All-drop _ (length src) dest hd)

read_random-IsArray :
    (n : ℕ) (x : HexBytes) (d : Bytes) → IsArray n x → AreBytes d → IsArray n (read_random x d)
unfolding read_random
read_random-IsArray n x d a hd = record {
  wide = length-copy x.b d ∙ a.wide;
  bytes = copy-AreBytes x.b d a.bytes hd;
}

-- What `setRandom` leaves: an array of the same width that is not zero, with its copy.
pub record IsRandom (n : ℕ) (y : HexBytes) (rest : List Bytes) : Type 0 where
  pub array : IsArray n y
  pub shown : IsShown y
  pub non_zero : is_zero_hex y ≡ false
  pub draws : AreDraws rest

initialize_hex-IsRandom :
    (n : ℕ) (x : HexBytes) (draws : List Bytes)
    → IsArray n x
    → is_zero_hex x ≡ false
    → AreDraws draws
    → IsRandom n (initialize_hex x) draws
unfolding initialize_hex is_zero_hex
initialize_hex-IsRandom n x draws a z hd = record {
  array = record { wide = a.wide; bytes = a.bytes };
  shown = refl;
  non_zero = z;
  draws = hd;
}

set_random_hex_again :
    (x : HexBytes) (d : Bytes) (draws : List Bytes)
    → is_zero_hex (read_random x d) ≡ true
    → set_random_hex x (d ∷ draws) ≡ set_random_hex (read_random x d) draws
unfolding set_random_hex
set_random_hex_again x d draws z = rw z

set_random_hex_done :
    (x : HexBytes) (d : Bytes) (draws : List Bytes)
    → is_zero_hex (read_random x d) ≡ false
    → set_random_hex x (d ∷ draws) ≡ some (initialize_hex (read_random x d), draws)
unfolding set_random_hex
set_random_hex_done x d draws z = rw z

pub set_random_hex-IsRandom :
    (n : ℕ) (x : HexBytes) (draws : List Bytes) (y : HexBytes) (rest : List Bytes)
    → IsArray n x
    → AreDraws draws
    → set_random_hex x draws ≡ some (y, rest)
    → IsRandom n y rest
set_random_hex-IsRandom n x [] y rest a hd e = unfold set_random_hex in cc
set_random_hex-IsRandom n x (d ∷ draws) y rest a (hd, hds) e =
    let a' = read_random-IsArray n x d a hd in
    elim (Bool-cases (is_zero_hex (read_random x d))) [
      | inl again ↦
          set_random_hex-IsRandom n (read_random x d) draws y rest a' hds
            (sym (set_random_hex_again x d draws again) ∙ e)
      | inr done ↦
          let p = sym (set_random_hex_done x d draws done) ∙ e in
          let q : ◌≡◌ {A = HexBytes × List Bytes} (initialize_hex (read_random x d), draws)
              (y, rest) =
            cc in
          subst (λ (r : HexBytes × List Bytes). IsRandom n r.0 r.1) q
            (initialize_hex-IsRandom n (read_random x d) draws a' done hds)
    ]

-- A draw that fills an array of width `n` with something else than zeros.
abbrev pub IsGoodDraw : ℕ → Bytes → Type 0
IsGoodDraw n d = (n ≤ length d) × (bytes_eq (take n d) (replicate n 0) ≡ false)

abbrev pub HasGoodDraw : ℕ → List Bytes → Type 0
HasGoodDraw n [] = ⊥
HasGoodDraw n (d ∷ draws) = IsGoodDraw n d ⊎ HasGoodDraw n draws

good_draw :
    (n : ℕ) (x : HexBytes) (d : Bytes)
    → length x.b ≡ n
    → IsGoodDraw n d
    → is_zero_hex (read_random x d) ≡ false
unfolding is_zero_hex read_random copy
good_draw n x d w (wide, z) =
    let e : take (length x.b) d ++ drop (length d) x.b ≡ take n d =
      rw (w, drop_all (length d) x.b (omega arith)) (append-nil (take n d)) in
    let k : length (take n d) ≡ n = omega (arith, length-take n d) in rw (e, k) z

-- The loop ends at the latest with the first such draw.
pub set_random_hex_ends :
    (n : ℕ) (x : HexBytes) (draws : List Bytes)
    → length x.b ≡ n
    → HasGoodDraw n draws
    → (y : HexBytes) × (rest : List Bytes) × (set_random_hex x draws ≡ some (y, rest))
set_random_hex_ends n x [] w h = absurd h
set_random_hex_ends n x (d ∷ draws) w h = elim (Bool-cases (is_zero_hex (read_random x d))) [
  | inl again ↦
      let (y, rest, e) =
        set_random_hex_ends n (read_random x d) draws (length-read x d ∙ w) (later again h) in
      (y, rest, set_random_hex_again x d draws again ∙ e)
  | inr done ↦ (initialize_hex (read_random x d), draws, set_random_hex_done x d draws done)
]
  where
    later : is_zero_hex (read_random x d) ≡ true → HasGoodDraw n (d ∷ draws) → HasGoodDraw n draws
    later z (inl g) = cc (good_draw n x d w g)
    later z (inr r) = r

-- When SetRandom of a handle ends on a valid trace, the trace is coherent and the field is not zero.
pub set_random_of-IsCoherent :
    (f : Field) (t : Trace) (draws : List Bytes) (u : Trace) (rest : List Bytes)
    → IsValid t
    → AreDraws draws
    → set_random_of f t draws ≡ some (u, rest)
    → IsCoherent u × (is_zero_hex (get f u) ≡ false) × AreDraws rest
unfolding set_random_of
set_random_of-IsCoherent f t draws u rest v hd e =
    let (p, h, e') = >>=-eq-some (set_random_hex (get f (initialize t)) draws) _ e in
    let x = p.0 in
    let rest' = p.1 in
    let q : ◌≡◌ {A = Trace × List Bytes} (rebuild (put f x (initialize t)), rest') (u, rest) = cc in
    subst
      (λ (r : Trace × List Bytes).
        IsCoherent r.0 × (is_zero_hex (get f r.0) ≡ false) × AreDraws r.1)
      q (stored x rest' (set_random_hex-IsRandom (width f) _ draws x rest' (c.arrays f) hd h))
  where
    c : IsCoherent (initialize t)
    c = initialize-IsCoherent t v

    stored :
        (x : HexBytes) (rest' : List Bytes)
        → IsRandom (width f) x rest'
        → IsCoherent (rebuild (put f x (initialize t)))
          × (is_zero_hex (get f (rebuild (put f x (initialize t)))) ≡ false)
          × AreDraws rest'
    stored x rest' r = (
      rebuild-IsCoherent (put f x (initialize t)) (initialized-put f x (initialize t) ∙ c.init)
          (get-put (λ g y. IsArray (width g) y) f x (initialize t) r.array c.arrays)
          (get-put (λ g y. IsShown y) f x (initialize t) r.shown c.shown),
      subst (λ y. is_zero_hex y ≡ false)
          (sym (get-rebuild f (put f x (initialize t)) ∙ get-put_self f x (initialize t)))
          r.non_zero,
      r.draws,
    )

-- SetRandom of a handle on a valid trace ends, when among the draws to come one is as long as the
-- field and not zero there.
pub set_random_of_ends :
    (f : Field) (t : Trace) (draws : List Bytes)
    → IsValid t
    → HasGoodDraw (width f) draws
    → (u : Trace) × (rest : List Bytes) × (set_random_of f t draws ≡ some (u, rest))
unfolding set_random_of
set_random_of_ends f t draws v h =
    let a = (initialize-IsCoherent t v).arrays f in
    let (x, rest, e) = set_random_hex_ends (width f) (get f (initialize t)) draws a.wide h in
    (rebuild (put f x (initialize t)), rest, rw e)

-- A good draw is all that one call takes.
pub set_random_of_good :
    (f : Field) (t : Trace) (d : Bytes) (draws : List Bytes)
    → IsValid t
    → IsGoodDraw (width f) d
    → (u : Trace) × (set_random_of f t (d ∷ draws) ≡ some (u, draws))
unfolding set_random_of
set_random_of_good f t d draws v g =
    let x = get f (initialize t) in
    let w = ((initialize-IsCoherent t v).arrays f).wide in
    (
      rebuild (put f (initialize_hex (read_random x d)) (initialize t)),
      rw (set_random_hex_done x d draws (good_draw (width f) x d w g)),
    )

-- When SetRandom of one handle ends, every other field is as `initialize` has it.
pub set_random_of_ne :
    (f g : Field) (t : Trace) (draws : List Bytes) (u : Trace) (rest : List Bytes)
    → f ≢ g
    → set_random_of f t draws ≡ some (u, rest)
    → get g u ≡ get g (initialize t)
unfolding set_random_of
set_random_of_ne f g t draws u rest n e =
    let (p, h, e') = >>=-eq-some (set_random_hex (get f (initialize t)) draws) _ e in
    let q : rebuild (put f p.0 (initialize t)) ≡ u = cc in
    sym (ap (get g) q)
    ∙ get-rebuild g (put f p.0 (initialize t))
    ∙ get-put_ne f g p.0 (initialize t) n

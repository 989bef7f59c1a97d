-- ===== src/Trace/Header/Match.antt =====
-- What the regular expression accepts, and the groups that it returns.
use xm.Base.{
  ℕ, zero, suc, ◌≡◌, refl, ap, sym, subst, ◌∙◌, true, some, inl, inr, [], ◌∷◌, ◌++◌, length, Bytes,
  All, Bool-cases, arith, >>=-eq-some, if◌then◌else◌, append-nil,
}
use xm.Trace.Hex.{from_hex_char}
use xm.Trace.Hex.Codec.{is_hex, IsDigit}
use xm.Trace.Header.{dash, take_hex, take_dash, take_end, Parts, find_submatch}

abbrev pub AreHex : Bytes → Type 0
AreHex = All (λ c. is_hex c ≡ true)

-- A text of exactly `n` hexadecimal digits.
pub record IsGroup (n : ℕ) (s : Bytes) : Type 0 where
  pub size : length s ≡ n
  pub hex : AreHex s

pub digit-is_hex : (c : ℕ) → IsDigit c → is_hex c ≡ true
unfolding from_hex_char
digit-is_hex c h = ground arith

pub digits-AreHex : (s : Bytes) → All IsDigit s → AreHex s
digits-AreHex [] h = tt
digits-AreHex (c ∷ s) (hc, hs) = (digit-is_hex c hc, digits-AreHex s hs)

pub take_hex-append :
    (n : ℕ) (s rest : Bytes) → IsGroup n s → take_hex n (s ++ rest) ≡ some (s, rest)
unfolding take_hex
take_hex-append zero [] rest g = refl
take_hex-append zero (c ∷ s) rest g = absurd (let e = g.size in omega arith)
take_hex-append (suc n) [] rest g = absurd (let e = g.size in omega arith)
take_hex-append (suc n) (c ∷ s) rest g =
    let e = g.size in
    rw (g.hex.0, take_hex-append n s rest (record { size = omega arith; hex = g.hex.1 }))

take_hex_step :
    (n c : ℕ) (s : Bytes) {p : Bytes × Bytes}
    → take_hex (suc n) (c ∷ s) ≡ some p
    → (is_hex c ≡ true) × ((q : Bytes × Bytes) × (take_hex n s ≡ some q) × ((c ∷ q.0, q.1) ≡ p))
unfolding take_hex
take_hex_step n c s h = elim (Bool-cases (is_hex c)) [
  | inl yes_hex ↦
      let (q, e, e') = >>=-eq-some (take_hex n s) _ (rw (yes_hex, if◌then◌else◌) at h) in
      (yes_hex, (q, e, cc))
  | inr not_hex ↦ cc (rw (not_hex, if◌then◌else◌) at h)
]

pub take_hex-IsGroup :
    (n : ℕ) (s : Bytes) (p : Bytes × Bytes)
    → take_hex n s ≡ some p
    → (s ≡ p.0 ++ p.1) × IsGroup n p.0
take_hex-IsGroup zero s p h =
    let e : ◌≡◌ {A = Bytes × Bytes} ([], s) p = unfold take_hex in cc in
    subst (λ (q : Bytes × Bytes). (s ≡ q.0 ++ q.1) × IsGroup 0 q.0) e
      (refl, record { size = refl; hex = tt })
take_hex-IsGroup (suc n) [] p h = unfold take_hex in cc
take_hex-IsGroup (suc n) (c ∷ s) p h =
    let (hc, (q, e, e')) = take_hex_step n c s h in
    let (split, g) = take_hex-IsGroup n s q e in
    subst (λ (r : Bytes × Bytes). (c ∷ s ≡ r.0 ++ r.1) × IsGroup (suc n) r.0) e'
      (ap (◌∷◌ c) split, record { size = ap suc g.size; hex = (hc, g.hex) })

take_dash-eq-some : (s r : Bytes) → take_dash s ≡ some r → s ≡ dash ∷ r
unfolding take_dash
take_dash-eq-some [] r h = cc
take_dash-eq-some (c ∷ s) r h = ground arith

take_end-eq-some : (s : Bytes) {u : Unit {0}} → take_end s ≡ some u → s ≡ []
unfolding take_end
take_end-eq-some [] h = refl
take_end-eq-some (c ∷ s) h = cc

-- The four groups of a header.
pub record AreGroups (m : Parts) : Type 0 where
  pub version_group : IsGroup 2 m.version_part
  pub trace_id_group : IsGroup 32 m.trace_id_part
  pub span_id_group : IsGroup 16 m.span_id_part
  pub flags_group : IsGroup 2 m.flags_part

abbrev pub spell : Parts → Bytes
spell m =
    m.version_part ++ dash ∷ (m.trace_id_part ++ dash ∷ (m.span_id_part ++ dash ∷ m.flags_part))

-- A header of four groups matches, and gives its groups.
pub find_submatch-spell : (m : Parts) → AreGroups m → find_submatch (spell m) ≡ some m
unfolding find_submatch
find_submatch-spell m g = rw (
  take_hex-append 2 m.version_part
      (dash ∷ (m.trace_id_part ++ dash ∷ (m.span_id_part ++ dash ∷ m.flags_part))) g.version_group,
  take_hex-append 32 m.trace_id_part (dash ∷ (m.span_id_part ++ dash ∷ m.flags_part))
      g.trace_id_group,
  take_hex-append 16 m.span_id_part (dash ∷ m.flags_part) g.span_id_group,
  flags_end,
)
  where
    flags_end : take_hex 2 m.flags_part ≡ some (m.flags_part, [])
    flags_end =
        ap (take_hex 2) (sym (append-nil m.flags_part))
        ∙ take_hex-append 2 m.flags_part [] g.flags_group

-- Only such a text matches.
pub find_submatch-eq-some :
    (s : Bytes) (m : Parts) → find_submatch s ≡ some m → (s ≡ spell m) × AreGroups m
unfolding find_submatch
find_submatch-eq-some s m h =
    let (p1, h1, k1) = >>=-eq-some (take_hex 2 s) _ h in
    let (s2, h2, k2) = >>=-eq-some (take_dash p1.1) _ k1 in
    let (p3, h3, k3) = >>=-eq-some (take_hex 32 s2) _ k2 in
    let (s4, h4, k4) = >>=-eq-some (take_dash p3.1) _ k3 in
    let (p5, h5, k5) = >>=-eq-some (take_hex 16 s4) _ k4 in
    let (s6, h6, k6) = >>=-eq-some (take_dash p5.1) _ k5 in
    let (p7, h7, k7) = >>=-eq-some (take_hex 2 s6) _ k6 in
    let (u, h8, k8) = >>=-eq-some (take_end p7.1) _ k7 in
    let (e1, g1) = take_hex-IsGroup 2 s p1 h1 in
    let (e3, g3) = take_hex-IsGroup 32 s2 p3 h3 in
    let (e5, g5) = take_hex-IsGroup 16 s4 p5 h5 in
    let (e7, g7) = take_hex-IsGroup 2 s6 p7 h7 in
    let parts : Parts = record {
      version_part = p1.0;
      trace_id_part = p3.0;
      span_id_part = p5.0;
      flags_part = p7.0;
    } in
    let q : parts ≡ m = cc in
    let last : s6 ≡ p7.0 = e7 ∙ ap (◌++◌ p7.0) (take_end-eq-some p7.1 h8) ∙ append-nil p7.0 in
    let e6 : p5.1 ≡ dash ∷ p7.0 = take_dash-eq-some p5.1 s6 h6 ∙ ap (◌∷◌ dash) last in
    let e4 : p3.1 ≡ dash ∷ (p5.0 ++ dash ∷ p7.0) =
      take_dash-eq-some p3.1 s4 h4 ∙ ap (◌∷◌ dash) (e5 ∙ ap (◌++◌ p5.0) e6) in
    let e2 : p1.1 ≡ dash ∷ (p3.0 ++ dash ∷ (p5.0 ++ dash ∷ p7.0)) =
      take_dash-eq-some p1.1 s2 h2 ∙ ap (◌∷◌ dash) (e3 ∙ ap (◌++◌ p3.0) e4) in
    subst (λ n. (s ≡ spell n) × AreGroups n) q
      (
        e1 ∙ ap (◌++◌ p1.0) e2,
        record { version_group = g1; trace_id_group = g3; span_id_group = g5; flags_group = g7 },
      )

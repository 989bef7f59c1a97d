-- ===== src/Trace/Stale.antt =====
-- What SetString leaves behind when it refuses its text: the flags byte is set to 1 before
-- `initialize`, which does nothing on a trace that is initialized already.
use xm.Base.{
  ℕ, ◌≡◌, ◌≢◌, refl, ap, sym, subst, set, ◌∙◌, Bool, none, [], ◌∷◌, Bytes, arith, AreBytes,
}
use xm.Trace.Hex.{encode, decode_string}
use xm.Trace.Hex.Codec.{decode_string-encode}
use xm.Trace.{Trace, flags, set_string, sample, string}
use xm.Trace.Header.{find_submatch}
use xm.Trace.Coherent.{IsCoherent, initialize_idle}
use xm.Trace.Canonical.{set_string_refuses}

encode-injective : (a b : Bytes) → AreBytes a → AreBytes b → encode a ≡ encode b → a ≡ b
encode-injective a b ha hb e =
    cc (decode_string-encode a ha, decode_string-encode b hb, ap decode_string e)

refused-sample :
    (s : Bytes) (t : Trace) → IsCoherent t → find_submatch s ≡ none → (set_string s t).0 ≡ sample t
refused-sample s t c e =
    ap (λ (p : Trace × Bool). p.0) (set_string_refuses s t e) ∙ initialize_idle (sample t) c.init

string-sample : (t : Trace) → string (sample t) ≡ string t
unfolding string
string-sample t = refl

-- A coherent trace whose flags are not 01 is no longer coherent after SetString refused a text: its
-- flags byte is 1, and its header still shows the old flags.
pub set_string_stale :
    (s : Bytes) (t : Trace) (b : ℕ)
    → IsCoherent t
    → find_submatch s ≡ none
    → t.flags_hex.b ≡ b ∷ []
    → b ≢ 1
    → (¬ IsCoherent (set_string s t).0)
      × ((set_string s t).0.flags_hex.b ≡ 1 ∷ [])
      × (string (set_string s t).0 ≡ string t)
set_string_stale s t b c e hb n =
    (stale, ap (λ (u : Trace). u.flags_hex.b) k ∙ sampled, ap string k ∙ string-sample t)
  where
    k : (set_string s t).0 ≡ sample t
    k = refused-sample s t c e

    sampled : (sample t).flags_hex.b ≡ 1 ∷ []
    sampled = ap (λ x. set x 0 1) hb

    stale : ¬ IsCoherent (set_string s t).0
    stale d =
        let d' = subst IsCoherent k d in
        let same : encode (b ∷ []) ≡ encode (1 ∷ []) =
          ap encode (sym hb) ∙ sym (c.shown flags) ∙ d'.shown flags ∙ ap encode sampled in
        let bytes = (c.arrays flags).bytes in
        let one = encode-injective (b ∷ []) (1 ∷ []) (subst AreBytes hb bytes) (omega arith) same in
        n (cc)

-- ===== src/Trace/Hex/Fit.antt =====
-- setBytes truncates or pads with zeros, whatever the destination held before.
use xm.Base.{
  zero, suc, ℕ, ◌-◌, ◌≤◌, ◌≡◌, refl, ap, sym, ◌∙◌, none, some, inl, inr, arith, leb, length, Bytes,
  AreBytes, [], ◌++◌, take, drop, replicate, length-append, length-take, length-drop,
  length-replicate, take_all, drop_all, take-append_left, drop-append_left, take-replicate,
  All-append, All-take, All-replicate, Bool-cases, leb→le, Option-cases, append-nil,
}
use xm.Trace.Hex.{copy, set_bytes, set_bytes_from_string, zero_bytes, decode_string}
use xm.Trace.Hex.Codec.{encode-decode_string}

-- The first `n` bytes of `b`, with zeros behind them where `b` is shorter.
abbrev pub fit : ℕ → Bytes → Bytes
fit n b = take n b ++ replicate (n - length b) 0

pub length-copy : (dest src : Bytes) → length (copy dest src) ≡ length dest
unfolding copy
length-copy dest src = omega (
  arith,
  length-append (take (length dest) src) (drop (length src) dest),
  length-take (length dest) src,
  length-drop (length src) dest,
)

pub copy_exact : (dest src : Bytes) → length dest ≡ length src → copy dest src ≡ src
unfolding copy
copy_exact dest src h =
    rw (take_all (length dest) src (omega arith), drop_all (length src) dest (omega arith))
      (append-nil src)

copy_short :
    (dest src : Bytes) → length src ≤ length dest → copy dest src ≡ src ++ drop (length src) dest
unfolding copy
copy_short dest src h = rw (take_all (length dest) src h)

-- `zeroBytes` holds sixteen zeros, which is as wide as a destination gets.
take-zero_bytes : (k : ℕ) → k ≤ 16 → take k zero_bytes ≡ replicate k 0
take-zero_bytes k h = take-replicate k 16 0 h

copy-zeros :
    (dest : Bytes) (k : ℕ)
    → k ≤ 16
    → length dest ≡ k
    → copy dest (take k zero_bytes) ≡ replicate k 0
copy-zeros dest k h e =
    copy_exact dest (take k zero_bytes)
      (rw (take-zero_bytes k h) (omega (arith, length-replicate {A = ℕ} k 0)))
    ∙ take-zero_bytes k h

set_bytes_long :
    (dest b : Bytes)
    → length dest ≤ length b
    → copy dest (take (length dest) b) ≡ fit (length dest) b
set_bytes_long dest b h =
    copy_exact dest (take (length dest) b) (omega (arith, length-take (length dest) b))
    ∙ let e : length dest - length b ≡ 0 = omega arith in
      rw e (sym (append-nil (take (length dest) b)))

set_bytes_short :
    (dest b : Bytes)
    → length dest ≤ 16
    → length b ≤ length dest
    → take (length b) (copy dest b)
        ++ copy (drop (length b) (copy dest b)) (take (length dest - length b) zero_bytes)
      ≡ fit (length dest) b
set_bytes_short dest b h k = rw (
  copy_short dest b k,
  take-append_left (length b) b (drop (length b) dest) refl,
  drop-append_left (length b) b (drop (length b) dest) refl,
  copy-zeros (drop (length b) dest) (length dest - length b) (omega arith)
      (length-drop (length b) dest),
  take_all (length dest) b k,
)

-- The result is the source cut to the width of the destination, or filled up with zeros; nothing
-- of the destination's former bytes stays.
pub set_bytes-fit : (dest b : Bytes) → length dest ≤ 16 → set_bytes dest b ≡ fit (length dest) b
unfolding set_bytes
set_bytes-fit dest b h = elim (Bool-cases (leb (length dest) (length b))) [
  | inl long ↦ rw long (set_bytes_long dest b (leb→le _ _ long))
  | inr short ↦ rw short (set_bytes_short dest b h (ground arith))
]

pub length-fit : (n : ℕ) (b : Bytes) → length (fit n b) ≡ n
length-fit n b = omega (
  arith,
  length-append (take n b) (replicate (n - length b) 0),
  length-take n b,
  length-replicate {A = ℕ} (n - length b) 0,
)

pub fit-AreBytes : (n : ℕ) (b : Bytes) → AreBytes b → AreBytes (fit n b)
fit-AreBytes n b h =
    All-append _ (take n b) (replicate (n - length b) 0) (All-take _ n b h)
      (All-replicate _ (n - length b) 0 (omega arith))

pub fit_exact : (n : ℕ) (b : Bytes) → length b ≡ n → fit n b ≡ b
fit_exact n b h =
    let e : n - length b ≡ 0 = omega arith in rw (take_all n b (omega arith), e) (append-nil b)

fit-nil : (n : ℕ) → fit n [] ≡ replicate n 0
fit-nil zero = refl
fit-nil (suc n) = let e : suc n - 0 ≡ suc n = omega arith in ap (λ k. replicate {A = ℕ} k 0) e

-- The bytes that a text of hexadecimal digits sets; a text that is none sets zeros.
abbrev pub hex_value : Bytes → Bytes
hex_value h = elim (decode_string h) [ none ↦ [] | some b ↦ b ]

pub set_bytes_from_string-fit :
    (dest h : Bytes)
    → length dest ≤ 16
    → set_bytes_from_string dest h ≡ fit (length dest) (hex_value h)
unfolding set_bytes_from_string
set_bytes_from_string-fit dest h k = elim (Option-cases (decode_string h)) [
  | inl e ↦
      rw (e, set_bytes_from_string, hex_value)
        (copy-zeros dest (length dest) k refl ∙ sym (fit-nil (length dest)))
  | inr (b, e) ↦ rw (e, set_bytes_from_string, hex_value) (set_bytes-fit dest b k)
]

pub hex_value-AreBytes : (h : Bytes) → AreBytes (hex_value h)
hex_value-AreBytes h = elim (Option-cases (decode_string h)) [
  | inl e ↦ rw (e, hex_value) tt
  | inr (b, e) ↦ rw (e, hex_value) (encode-decode_string h b e).1
]

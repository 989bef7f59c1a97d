-- ===== src/Trace/Operations.antt =====
-- Every operation of a trace keeps the invariant, and sets the field that it names.
use xm.Base.{
  ℕ, ◌≤◌, ◌≡◌, ◌≢◌, refl, ap, sym, subst, ◌∙◌, replicate, length, Bytes, AreBytes, length-replicate,
  All-replicate, length-set, All-set, arith,
}
use xm.Trace.Hex.{encode, set_bytes, set_bytes_from_string}
use xm.Trace.Hex.Fit.{
  set_bytes-fit, set_bytes_from_string-fit, length-fit, fit-AreBytes, fit, hex_value,
  hex_value-AreBytes,
}
use xm.Trace.Arrays.{HexBytes, zero_array}
use xm.Trace.{
  Trace, Field, version, trace_id, span_id, flags, width, get, put, zero_trace, initialize, sample,
  new_trace, store, set_bytes_of, set_array_of, set_string_of, set_zero_of, set_of,
}
use xm.Trace.Coherent.{
  IsArray, IsShown, IsCoherent, IsValid, get-put, get-put_self, initialized-put, get-rebuild,
  rebuild-IsCoherent, initialize-IsCoherent, store-IsCoherent,
}

pub width_small : (f : Field) → width f ≤ 16
width_small version = omega arith
width_small trace_id = omega arith
width_small span_id = omega arith
width_small flags = omega arith

zero_array-IsArray : (n : ℕ) → IsArray n (zero_array n)
zero_array-IsArray n = record {
  wide = length-replicate n 0;
  bytes = All-replicate _ n 0 (omega arith);
}

pub zero_trace-IsValid : IsValid zero_trace
zero_trace-IsValid = record { sized = sized; coherent = λ e. cc }
  where
    sized : (f : Field) → IsArray (width f) (get f zero_trace)
    sized version = zero_array-IsArray 1
    sized trace_id = zero_array-IsArray 16
    sized span_id = zero_array-IsArray 8
    sized flags = zero_array-IsArray 1

-- What the write `set_bytes` leaves, on a trace that is coherent.
set_bytes-fits :
    (f : Field) (b : Bytes) (t : Trace) → IsCoherent t → set_bytes (get f t).b b ≡ fit (width f) b
set_bytes-fits f b t c =
    let w = (c.arrays f).wide in
    set_bytes-fit (get f t).b b (omega (arith, width_small f)) ∙ ap (λ n. fit n b) w

set_bytes_from_string-fits :
    (f : Field) (h : Bytes) (t : Trace)
    → IsCoherent t
    → set_bytes_from_string (get f t).b h ≡ fit (width f) (hex_value h)
set_bytes_from_string-fits f h t c =
    let w = (c.arrays f).wide in
    set_bytes_from_string-fit (get f t).b h (omega (arith, width_small f))
    ∙ ap (λ n. fit n (hex_value h)) w

-- On a valid trace, SetBytes of a handle is SetArray of the bytes cut, or filled with zeros, to the
-- field's width.
pub set_bytes_of-fit :
    (f : Field) (b : Bytes) (t : Trace)
    → IsValid t
    → set_bytes_of f b t ≡ set_array_of f (fit (width f) b) t
unfolding set_bytes_of set_array_of
set_bytes_of-fit f b t v =
    ap (λ x. store f x (initialize t))
      (set_bytes-fits f b (initialize t) (initialize-IsCoherent t v))

-- On a valid trace, SetString of a handle is SetArray of the decoded bytes cut, or filled with zeros,
-- to the field's width; a text that is not hexadecimal decodes to no bytes.
pub set_string_of-fit :
    (f : Field) (h : Bytes) (t : Trace)
    → IsValid t
    → set_string_of f h t ≡ set_array_of f (fit (width f) (hex_value h)) t
unfolding set_string_of set_array_of
set_string_of-fit f h t v =
    ap (λ x. store f x (initialize t))
      (set_bytes_from_string-fits f h (initialize t) (initialize-IsCoherent t v))

pub set_array_of-IsCoherent :
    (f : Field) (b : Bytes) (t : Trace)
    → length b ≡ width f
    → AreBytes b
    → IsValid t
    → IsCoherent (set_array_of f b t)
unfolding set_array_of
set_array_of-IsCoherent f b t w bs v =
    store-IsCoherent f b (initialize t) w bs (initialize-IsCoherent t v)

pub set_bytes_of-IsCoherent :
    (f : Field) (b : Bytes) (t : Trace) → AreBytes b → IsValid t → IsCoherent (set_bytes_of f b t)
set_bytes_of-IsCoherent f b t bs v = subst IsCoherent (sym (set_bytes_of-fit f b t v)) (
    set_array_of-IsCoherent f (fit (width f) b) t (length-fit (width f) b)
      (fit-AreBytes (width f) b bs) v)

pub set_string_of-IsCoherent :
    (f : Field) (h : Bytes) (t : Trace) → IsValid t → IsCoherent (set_string_of f h t)
set_string_of-IsCoherent f h t v = subst IsCoherent (sym (set_string_of-fit f h t v)) (
    set_array_of-IsCoherent f (fit (width f) (hex_value h)) t (length-fit (width f) (hex_value h))
      (fit-AreBytes (width f) (hex_value h) (hex_value-AreBytes h)) v)

pub set_zero_of-IsCoherent : (f : Field) (t : Trace) → IsValid t → IsCoherent (set_zero_of f t)
unfolding set_zero_of
set_zero_of-IsCoherent f t v =
    store-IsCoherent f (replicate (width f) 0) (initialize t) (length-replicate (width f) 0)
      (All-replicate _ (width f) 0 (omega arith)) (initialize-IsCoherent t v)

pub set_of-IsCoherent :
    (f : Field) (x : HexBytes) (t : Trace)
    → IsArray (width f) x
    → IsShown x
    → IsValid t
    → IsCoherent (set_of f x t)
unfolding set_of
set_of-IsCoherent f x t a s v =
    let t' = initialize t in
    let c = initialize-IsCoherent t v in
    rebuild-IsCoherent (put f x t') (initialized-put f x t' ∙ c.init)
      (get-put (λ g y. IsArray (width g) y) f x t' a c.arrays)
      (get-put (λ g y. IsShown y) f x t' s c.shown)

sample-sized : (t : Trace) → IsValid t → (f : Field) → IsArray (width f) (get f (sample t))
sample-sized t v version = v.sized version
sample-sized t v trace_id = v.sized trace_id
sample-sized t v span_id = v.sized span_id
sample-sized t v flags =
    let a = v.sized flags in
    record {
      wide = length-set t.flags_hex.b 0 1 ∙ a.wide;
      bytes = All-set _ t.flags_hex.b 0 1 (omega arith) a.bytes;
    }

pub new_trace-IsCoherent : IsCoherent new_trace
unfolding new_trace
new_trace-IsCoherent =
    initialize-IsCoherent (sample zero_trace)
      (record { sized = sample-sized zero_trace zero_trace-IsValid; coherent = λ e. cc })

-- What an operation does to the other fields, and to its own.
pub get-store_self : (f : Field) (b : Bytes) (t : Trace) → (get f (store f b t)).b ≡ b
get-store_self f b t =
    let x : HexBytes = record { b = b; h = encode b } in
    ap (λ (y : HexBytes). y.b) (get-rebuild f (put f x t) ∙ get-put_self f x t)

pub get-put_ne : (f g : Field) (x : HexBytes) (t : Trace) → f ≢ g → get g (put f x t) ≡ get g t
get-put_ne version version x t n = absurd (n refl)
get-put_ne trace_id trace_id x t n = absurd (n refl)
get-put_ne span_id span_id x t n = absurd (n refl)
get-put_ne flags flags x t n = absurd (n refl)
get-put_ne _ _ x t n = refl

pub get-store_ne : (f g : Field) (b : Bytes) (t : Trace) → f ≢ g → get g (store f b t) ≡ get g t
get-store_ne f g b t n =
    get-rebuild g (put f (record { b = b; h = encode b }) t)
    ∙ get-put_ne f g (record { b = b; h = encode b }) t n

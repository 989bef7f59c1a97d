-- ===== src/Trace/Coherent.antt =====
-- The invariant of a trace: each array has its width, and once the trace is initialized the
-- hexadecimal copies and the header say what the arrays hold.
use xm.Base.{ℕ, ◌≡◌, refl, sym, subst, ◌∙◌, true, inl, inr, length, Bytes, AreBytes, Bool-cases}
use xm.Trace.Hex.{encode}
use xm.Trace.Arrays.{HexBytes, initialize_hex}
use xm.Trace.{
  Trace, Field, version, trace_id, span_id, flags, width, get, put, header_of, rebuild, initialize,
  store,
}

-- The array holds `n` bytes.
pub record IsArray (n : ℕ) (x : HexBytes) : Type 0 where
  pub wide : length x.b ≡ n
  pub bytes : AreBytes x.b

-- The copy is the array in hexadecimal.
abbrev pub IsShown : HexBytes → Type 0
IsShown x = x.h ≡ encode x.b

pub record IsCoherent (t : Trace) : Type 0 where
  pub init : t.initialized ≡ true
  pub arrays : (f : Field) → IsArray (width f) (get f t)
  pub shown : (f : Field) → IsShown (get f t)
  pub header :
      t.header_string ≡ header_of t.version_hex.h t.trace_id_hex.h t.span_id_hex.h t.flags_hex.h

-- What every reachable trace is: coherent, unless it was never initialized.
pub record IsValid (t : Trace) : Type 0 where
  pub sized : (f : Field) → IsArray (width f) (get f t)
  pub coherent : t.initialized ≡ true → IsCoherent t

pub IsCoherent-IsValid : {t : Trace} → IsCoherent t → IsValid t
IsCoherent-IsValid c = record { sized = c.arrays; coherent = λ _. c }

-- What holds of every array still does when one is replaced by another that has it.
pub get-put {ℓ} :
    (P : Field → HexBytes → Type ℓ) (f : Field) (x : HexBytes) (t : Trace)
    → P f x
    → ((g : Field) → P g (get g t))
    → (g : Field) → P g (get g (put f x t))
get-put P version x t p h version = p
get-put P version x t p h trace_id = h trace_id
get-put P version x t p h span_id = h span_id
get-put P version x t p h flags = h flags
get-put P trace_id x t p h version = h version
get-put P trace_id x t p h trace_id = p
get-put P trace_id x t p h span_id = h span_id
get-put P trace_id x t p h flags = h flags
get-put P span_id x t p h version = h version
get-put P span_id x t p h trace_id = h trace_id
get-put P span_id x t p h span_id = p
get-put P span_id x t p h flags = h flags
get-put P flags x t p h version = h version
get-put P flags x t p h trace_id = h trace_id
get-put P flags x t p h span_id = h span_id
get-put P flags x t p h flags = p

pub get-put_self : (f : Field) (x : HexBytes) (t : Trace) → get f (put f x t) ≡ x
get-put_self version x t = refl
get-put_self trace_id x t = refl
get-put_self span_id x t = refl
get-put_self flags x t = refl

pub initialized-put :
    (f : Field) (x : HexBytes) (t : Trace) → (put f x t).initialized ≡ t.initialized
initialized-put version x t = refl
initialized-put trace_id x t = refl
initialized-put span_id x t = refl
initialized-put flags x t = refl

pub get-rebuild : (g : Field) (t : Trace) → get g (rebuild t) ≡ get g t
unfolding rebuild
get-rebuild version t = refl
get-rebuild trace_id t = refl
get-rebuild span_id t = refl
get-rebuild flags t = refl

-- `rebuild` restores the header, whatever it was.
pub rebuild-IsCoherent :
    (t : Trace)
    → t.initialized ≡ true
    → ((f : Field) → IsArray (width f) (get f t))
    → ((f : Field) → IsShown (get f t))
    → IsCoherent (rebuild t)
unfolding rebuild
rebuild-IsCoherent t i a s = record {
  init = i;
  arrays = λ f. subst (IsArray (width f)) (sym (get-rebuild f t)) (a f);
  shown = λ f. subst IsShown (sym (get-rebuild f t)) (s f);
  header = refl;
}

started : Trace → Trace
started t = record t {
  initialized = true;
  version_hex = initialize_hex t.version_hex;
  trace_id_hex = initialize_hex t.trace_id_hex;
  span_id_hex = initialize_hex t.span_id_hex;
  flags_hex = initialize_hex t.flags_hex;
}

started-sized :
    (t : Trace) (f : Field) → IsArray (width f) (get f t) → IsArray (width f) (get f (started t))
unfolding started initialize_hex
started-sized t version a = record { wide = a.wide; bytes = a.bytes }
started-sized t trace_id a = record { wide = a.wide; bytes = a.bytes }
started-sized t span_id a = record { wide = a.wide; bytes = a.bytes }
started-sized t flags a = record { wide = a.wide; bytes = a.bytes }

started-shown : (t : Trace) (f : Field) → IsShown (get f (started t))
unfolding started initialize_hex
started-shown t version = refl
started-shown t trace_id = refl
started-shown t span_id = refl
started-shown t flags = refl

-- On an initialized trace `initialize` does nothing.
pub initialize_idle : (t : Trace) → t.initialized ≡ true → initialize t ≡ t
unfolding initialize
initialize_idle t i = rw i

pub initialize-IsCoherent : (t : Trace) → IsValid t → IsCoherent (initialize t)
unfolding initialize started
initialize-IsCoherent t v = elim (Bool-cases t.initialized) [
  | inl i ↦ subst IsCoherent (sym (initialize_idle t i)) (v.coherent i)
  | inr n ↦
      rw n
        (rebuild-IsCoherent (started t) refl (λ f. started-sized t f (v.sized f)) (started-shown t))
]

pub store-IsCoherent :
    (f : Field) (b : Bytes) (t : Trace)
    → length b ≡ width f
    → AreBytes b
    → IsCoherent t
    → IsCoherent (store f b t)
store-IsCoherent f b t w bs c =
    let x : HexBytes = record { b = b; h = encode b } in
    rebuild-IsCoherent (put f x t) (initialized-put f x t ∙ c.init)
      (get-put (λ g y. IsArray (width g) y) f x t (record { wide = w; bytes = bs }) c.arrays)
      (get-put (λ g y. IsShown y) f x t refl c.shown)

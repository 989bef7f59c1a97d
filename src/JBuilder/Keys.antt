-- ===== src/JBuilder/Keys.antt =====
-- Keys: the three ways to write one agree.
use xm.Base.{
  ℕ, ◌-◌, ◌≡◌, ap, sym, ◌∙◌, Bool, true, false, Option, some, [], ◌∷◌, ◌++◌, Bytes, length,
  get_elem?, append_assoc, arith,
}
use xm.JBuilder.Escape.{needs_escape}
use xm.JBuilder.Read.{body, add_string_body-body}
use xm.JBuilder.{JBuilder, append_bytes, comma, opens, add_string, add_safe_key, add_key, build_key}

add_string-body :
    (v : Bytes) (j : JBuilder) → (add_string v j).b ≡ j.b ++ b'"' ∷ (body v ++ b'"' ∷ [])
unfolding add_string append_bytes
add_string-body v j =
    rw add_string_body-body
      (append_assoc (j.b ++ b'"' ∷ []) (body v) (b'"' ∷ []) ∙ append_assoc j.b (b'"' ∷ []) _)

body_fast : (v : Bytes) → needs_escape v ≡ false → body v ≡ v
unfolding body
body_fast v n = rw n

comma-fast_keys : (j : JBuilder) (f : Bool) → (comma (record j { fast_keys = f })).b ≡ (comma j).b
unfolding comma append_bytes
comma-fast_keys j f = ground arith

comma_keeps_fast_keys : (j : JBuilder) → (comma j).fast_keys ≡ j.fast_keys
unfolding comma append_bytes
comma_keeps_fast_keys j = ground arith

-- What a key is written as.
unfoldable pub key : Bytes → Bytes
key w = b'"' ∷ (w ++ b'"' ∷ b':' ∷ [])

add_safe_key-key : (v : Bytes) (j : JBuilder) → (add_safe_key v j).b ≡ (comma j).b ++ key v
unfolding add_safe_key append_bytes key
add_safe_key-key v j =
    append_assoc ((comma j).b ++ b'"' ∷ []) v (b'"' ∷ b':' ∷ [])
    ∙ append_assoc (comma j).b (b'"' ∷ []) (v ++ b'"' ∷ b':' ∷ [])

colon : (b w : Bytes) → (b ++ b'"' ∷ (w ++ b'"' ∷ [])) ++ b':' ∷ [] ≡ b ++ key w
unfolding key
colon b w =
    append_assoc b (b'"' ∷ (w ++ b'"' ∷ [])) (b':' ∷ [])
    ∙ ap (λ t. b ++ b'"' ∷ t) (append_assoc w (b'"' ∷ []) (b':' ∷ []))

add_key-key :
    (v : Bytes) (j : JBuilder)
    → (add_key v (record j { fast_keys = false })).b ≡ (comma j).b ++ key (body v)
unfolding add_key append_bytes
add_key-key v j =
    let slow : JBuilder = record j { fast_keys = false } in
    ap (λ t. t ++ b':' ∷ []) (add_string-body v (comma slow))
    ∙ colon (comma slow).b (body v)
    ∙ ap (λ t. t ++ key (body v)) (comma-fast_keys j false)

-- AddKey writes the same with FastKeys as without, when nothing in the key needs an escape.
pub add_key-fast_keys :
    (v : Bytes) (j : JBuilder)
    → needs_escape v ≡ false
    → (add_key v (record j { fast_keys = true })).b ≡ (add_key v (record j { fast_keys = false })).b
unfolding add_key
add_key-fast_keys v j n =
    add_safe_key-key v (record j { fast_keys = true })
    ∙ ap (λ t. t ++ key v) (comma-fast_keys j true)
    ∙ ap (λ t. (comma j).b ++ key t) (sym (body_fast v n))
    ∙ sym (add_key-key v j)

-- The last byte of a buffer.
abbrev pub last : Bytes → Option ℕ
last b = get_elem? b (length b - 1)

comma_writes :
    (c : ℕ) (j : JBuilder) → last j.b ≡ some c → opens c ≡ false → (comma j).b ≡ j.b ++ b',' ∷ []
unfolding comma append_bytes
comma_writes c j e o = rw (e, comma, o)

build_key-key : (v : Bytes) → build_key v ≡ b',' ∷ key (body v)
unfolding build_key append_bytes
build_key-key v =
    let start : JBuilder = record { b = b',' ∷ []; fast_keys = false } in
    ap (λ t. t ++ b':' ∷ []) (add_string-body v start) ∙ colon (b',' ∷ []) (body v)

-- Without FastKeys, what AddKey appends to a buffer whose last byte is not an opening bracket, an
-- opening brace or a colon is what BuildKey returns for the key.
pub add_key-build_key :
    (v : Bytes) (c : ℕ) (j : JBuilder)
    → last j.b ≡ some c
    → opens c ≡ false
    → (add_key v (record j { fast_keys = false })).b ≡ j.b ++ build_key v
add_key-build_key v c j e o =
    add_key-key v j
    ∙ ap (λ t. t ++ key (body v)) (comma_writes c j e o)
    ∙ append_assoc j.b (b',' ∷ []) (key (body v))
    ∙ ap (◌++◌ j.b) (sym (build_key-key v))

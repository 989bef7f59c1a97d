-- ===== src/JBuilder/Tests.antt =====
-- xoputil: the theorems about the JSON builder at concrete inputs.
use xm.Base.{◌≡◌, refl, true, false, none, some, ◌∷◌, ◌++◌, Bytes, codes, arith}
use xm.JBuilder.Escape.{needs_escape, escapes}
use xm.JBuilder.Quote.{hide_all, escapes-hide_all}
use xm.JBuilder.Reader.{read_body}
use xm.JBuilder.Read.{add_string_body-read, add_string_body_invalid, HasControl}
use xm.JBuilder.Keys.{add_key-fast_keys, add_key-build_key}
use xm.JBuilder.{JBuilder, add_string_body, add_key, build_key}

abbrev started : JBuilder
started = record { b = codes "\"a\":1"; fast_keys = false }

abbrev quoted : Bytes
quoted = codes "say \"<hi>\"\n"

escapes-hide_all_example : escapes quoted (codes "x") ≡ codes "x" ++ hide_all quoted
escapes-hide_all_example = escapes-hide_all quoted (codes "x")

add_string_body-read_example :
    (w : Bytes) × ((add_string_body quoted started).b ≡ started.b ++ w)
    × (read_body w ≡ some quoted)
add_string_body-read_example = add_string_body-read quoted started (ground arith)

-- ESC is one of the control characters that the builder lets through.
add_string_body_invalid_example :
    (w : Bytes) × ((add_string_body (27 ∷ codes "[0m") started).b ≡ started.b ++ w)
    × HasControl w
    × (read_body w ≡ none)
add_string_body_invalid_example = add_string_body_invalid (27 ∷ codes "[0m") started (ground arith)

add_key-fast_keys_example :
    (add_key (codes "k") (record started { fast_keys = true })).b
    ≡ (add_key (codes "k") (record started { fast_keys = false })).b
unfolding needs_escape xm.JBuilder.Escape.in_table
add_key-fast_keys_example = add_key-fast_keys (codes "k") started refl

add_key-build_key_example :
    (add_key (codes "k") (record started { fast_keys = false })).b
    ≡ started.b ++ build_key (codes "k")
unfolding xm.JBuilder.opens
add_key-build_key_example = add_key-build_key (codes "k") b'1' started refl refl

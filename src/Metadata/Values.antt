-- ===== src/Metadata/Values.antt =====
-- The values of span attributes, and Go's `==` on those that are keys of a map.
use xm.Base.{◌≡◌, refl, ℕ, ◌/◌, ◌%◌, ◌^◌, Bool, true, false, ◌&&◌, ◌||◌, not, Bytes, bytes_eq, ◌==◌}
use xm.Trace.Arrays.{HexBytes}
use xm.Trace.{Trace}

-- xopbase.ModelArg, less the model itself.
pub record ModelArg : Type 0 where
  pub encoding : ℕ
  pub encoded : Bytes
  pub model_type : Bytes

pub record Enum : Type 0 where
  pub number : ℕ
  pub name : Bytes

-- time.Time has three fields, the last of them a pointer.
pub record TimeValue : Type 0 where
  pub wall : ℕ
  pub ext : ℕ
  pub loc : ℕ

-- An int64 is its 64-bit pattern, and so is a float64.
pub data Scalar : Type 0 where
  any_value : ModelArg → Scalar
  bool_value : Bool → Scalar
  enum_value : Enum → Scalar
  float64_value : ℕ → Scalar
  int64_value : ℕ → Scalar
  link_value : Trace → Scalar
  string_value : Bytes → Scalar
  time_value : TimeValue → Scalar

pub data Key : Type 0 where
  string_key : Bytes → Key
  bool_key : Bool → Key
  float64_key : ℕ → Key
  int64_key : ℕ → Key
  link_key : Trace → Key
  time_key : TimeValue → Key

-- The type of a map's keys.
pub data KeyKind : Type 0 where
  string_keys bool_keys float64_keys int64_keys link_keys time_keys : KeyKind

unfoldable pub kind_eq : KeyKind → KeyKind → Bool
kind_eq string_keys string_keys = true
kind_eq bool_keys bool_keys = true
kind_eq float64_keys float64_keys = true
kind_eq int64_keys int64_keys = true
kind_eq link_keys link_keys = true
kind_eq time_keys time_keys = true
kind_eq _ _ = false

-- A NaN has all bits of the exponent set and some bit of the fraction.
unfoldable pub is_nan : ℕ → Bool
is_nan x = (x / 2 ^ 52) % 2048 == 2047 && not (x % 2 ^ 52 == 0)

-- A NaN is not equal to itself; the two zeros are equal.
unfoldable pub float_eq : ℕ → ℕ → Bool
unfolding is_nan
float_eq a b =
    not (is_nan a) && (not (is_nan b) && (a == b || (a % 2 ^ 63 == 0 && b % 2 ^ 63 == 0)))

bool_eq : Bool → Bool → Bool
bool_eq true b = b
bool_eq false b = not b

hex_eq : HexBytes → HexBytes → Bool
hex_eq x y = bytes_eq x.b y.b && bytes_eq x.h y.h

trace_eq : Trace → Trace → Bool
unfolding hex_eq bool_eq
trace_eq t u =
    hex_eq t.version_hex u.version_hex
    && (hex_eq t.trace_id_hex u.trace_id_hex
        && (hex_eq t.span_id_hex u.span_id_hex
            && (hex_eq t.flags_hex u.flags_hex
                && (bytes_eq t.header_string u.header_string
                    && bool_eq t.initialized u.initialized))))

unfoldable pub key_eq : Key → Key → Bool
unfolding float_eq bool_eq trace_eq
key_eq (string_key a) (string_key b) = bytes_eq a b
key_eq (bool_key a) (bool_key b) = bool_eq a b
key_eq (float64_key a) (float64_key b) = float_eq a b
key_eq (int64_key a) (int64_key b) = a == b
key_eq (link_key a) (link_key b) = trace_eq a b
key_eq (time_key a) (time_key b) = a.wall == b.wall && (a.ext == b.ext && a.loc == b.loc)
key_eq _ _ = false

pub kind_eq_refl : (k : KeyKind) → kind_eq k k ≡ true
unfolding kind_eq
kind_eq_refl string_keys = refl
kind_eq_refl bool_keys = refl
kind_eq_refl float64_keys = refl
kind_eq_refl int64_keys = refl
kind_eq_refl link_keys = refl
kind_eq_refl time_keys = refl

-- ===== src/Config/Variables.antt =====
-- How internal/platform/config/config.go reads the environment.
use Prim.Native.String.{◌++◌}
use backend_golang_task.Prelude.{
  ℕ, ◌*◌, ◌/◌, ◌%◌, String, is_empty, Bool, ◌==◌, if◌then◌else◌, Option, some, none, List, [], ◌∷◌,
}
use backend_golang_task.Prelude.Int.{ℤ, pos}
use backend_golang_task.Prelude.Decimal.{decimal_ℤ}
use backend_golang_task.Prelude.Parse.{atoi, parse_bool}

-- `os.LookupEnv`
abbrev pub Env : Type 0
Env = String → Option String

abbrev unless_empty : String → Option String → String
unless_empty fallback none = fallback
unless_empty fallback (some v) = if is_empty v then fallback else v

abbrev pub get_string : Env → String → String → String
get_string env key fallback = unless_empty fallback (env key)

abbrev pub seconds : ℕ → ℤ
seconds n = pos (n * 1000000000)

abbrev pub millis : ℕ → ℤ
millis n = pos (n * 1000000)

-- What the four other readers share: a variable that is missing or cannot be read.
abbrev pub parsed_or {ℓ} : {A : Type ℓ} → A → Option A → A
parsed_or fallback none = fallback
parsed_or fallback (some a) = a

abbrev pub read_or {ℓ} : {A : Type ℓ} → (String → Option A) → A → Option String → A
read_or parse fallback none = fallback
read_or parse fallback (some v) = parsed_or fallback (parse v)

abbrev pub get_int : Env → String → ℤ → ℤ
get_int env key fallback = read_or atoi fallback (env key)

abbrev pub get_bool : Env → String → Bool → Bool
get_bool env key fallback = read_or parse_bool fallback (env key)

-- `hex.EncodeToString`
abbrev hex_digit : ℕ → String
hex_digit n =
    if n == 10
    then "a"
    else if n == 11
    then "b"
    else if n == 12
    then "c"
    else if n == 13
    then "d"
    else if n == 14
    then "e"
    else if n == 15
    then "f"
    else decimal_ℤ (pos n)

abbrev hex : List ℕ → String
hex [] = ""
hex (b ∷ bs) = hex_digit (b / 16) ++ (hex_digit (b % 16) ++ hex bs)

-- The bytes that `rand.Read` has drawn; `none` is its error.
abbrev pub random_secret : Option (List ℕ) → String
random_secret none = ""
random_secret (some bytes) = hex bytes

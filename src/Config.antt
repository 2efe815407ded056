-- ===== src/Config.antt =====
-- internal/config/config.go, and `newStore` of cmd/server/main.go: the configuration from the
-- environment and the store it selects. `strconv.ParseFloat` is a parameter.
use my_demo_app.Prelude.{
  ℕ, ◌^◌, ◌≡◌, refl, ◌⊎◌, inl, inr, Bool, true, false, ◌||◌, Option, none, some, List, [], ◌∷◌,
  ◌++◌, if◌then◌else◌, Bool-cases, Option-cases,
}
use my_demo_app.Prelude.Int.{ℤ, pos}
use my_demo_app.Text.{Str, lit, str_eq, is_empty}
use my_demo_app.Exec.{Result, ok, err, failed}

-- A `float64` as the fraction `num / den`.
pub record Fraction : Type 0 where
  pub num : ℤ
  pub den : ℕ

pub record Config : Type 0 where
  pub addr : Str
  pub store : Str
  pub sqlite_dsn : Str
  pub api_key : Str
  pub token_signing_secret : Str
  pub otlp_endpoint : Str
  pub log_level : Str
  pub log_pii : Bool
  pub slow_invoice : Bool
  pub carrier_failure_rate : Fraction

abbrev pub api_key_fallback : Str
api_key_fallback = lit "vois-demo-secret-key"

abbrev pub token_signing_secret_fallback : Str
token_signing_secret_fallback = lit "s3cr3t-signing-key"

-- The `float64` that `0.1` is.
abbrev pub default_failure_rate : Fraction
default_failure_rate = record { num = pos 3_602_879_701_896_397; den = 2 ^ 55 }

unfoldable pub is_one_of : Str → List Str → Bool
is_one_of s [] = false
is_one_of s (t ∷ ts) = str_eq s t || is_one_of s ts

-- `strconv.ParseBool`.
unfoldable pub parse_bool : Str → Option Bool
unfolding is_one_of
parse_bool s =
    if is_one_of s (lit "1" ∷ lit "t" ∷ lit "T" ∷ lit "TRUE" ∷ lit "true" ∷ lit "True" ∷ [])
    then some true
    else if is_one_of s (lit "0" ∷ lit "f" ∷ lit "F" ∷ lit "FALSE" ∷ lit "false" ∷ lit "False" ∷ [])
    then some false
    else none

abbrev pub or_fallback : {A : Type 0} → Option A → A → A
or_fallback none fallback = fallback
or_fallback (some a) fallback = a

-- What `os.LookupEnv` gives for a name, parsed; unset, empty and malformed are the fallback.
unfoldable pub get_string : Option Str → Str → Str
get_string none fallback = fallback
get_string (some v) fallback = if is_empty v then fallback else v

unfoldable pub get_parsed : {A : Type 0} → (Str → Option A) → Option Str → A → A
get_parsed parse none fallback = fallback
get_parsed parse (some v) fallback = if is_empty v then fallback else or_fallback (parse v) fallback

unfoldable pub load : (Str → Option Fraction) → (Str → Option Str) → Config
load parse_float env = record {
  addr = get_string (env (lit "ADDR")) (lit ":8080");
  store = get_string (env (lit "STORE")) (lit "memory");
  sqlite_dsn = get_string (env (lit "SQLITE_DSN")) (lit "file:vois-demo.db?cache=shared");
  api_key = get_string (env (lit "API_KEY")) api_key_fallback;
  token_signing_secret =
      get_string (env (lit "TOKEN_SIGNING_SECRET")) token_signing_secret_fallback;
  otlp_endpoint = get_string (env (lit "OTEL_EXPORTER_OTLP_ENDPOINT")) [];
  log_level = get_string (env (lit "LOG_LEVEL")) (lit "info");
  log_pii = get_parsed parse_bool (env (lit "LOG_PII")) false;
  slow_invoice = get_parsed parse_bool (env (lit "SLOW_INVOICE")) false;
  carrier_failure_rate =
      get_parsed parse_float (env (lit "CARRIER_FAILURE_RATE")) default_failure_rate;
}

-- The implementations of the store.
pub data StoreKind : Type 0 where
  sqlite : Str → StoreKind
  memory : StoreKind

unfoldable pub new_store : Config → Result StoreKind
new_store cfg =
    if str_eq cfg.store (lit "sqlite")
    then ok (sqlite cfg.sqlite_dsn)
    else if str_eq cfg.store (lit "memory") || str_eq cfg.store []
    then ok memory
    else err (
        failed (lit "unknown STORE value: " ++ cfg.store ++ lit " (want \"memory\" or \"sqlite\")"))

-- The configured API key is never empty: it is the value of API_KEY, or the built-in key where that
-- is unset or empty.
pub load-api_key :
    (parse_float : Str → Option Fraction) (env : Str → Option Str)
    → let cfg = load parse_float env in
      (is_empty cfg.api_key ≡ false)
      × ((cfg.api_key ≡ api_key_fallback) ⊎ (env (lit "API_KEY") ≡ some cfg.api_key))
unfolding load get_string is_empty
load-api_key parse_float env = elim (Option-cases (env (lit "API_KEY"))) [
  | inl unset ↦ rw unset (refl, inl refl)
  | inr (v, given) ↦ rw given (elim (Bool-cases (is_empty v)) [
    | inl blank ↦ rw blank (refl, inl refl)
    | inr filled ↦ rw filled (filled, inr refl)
  ])
]

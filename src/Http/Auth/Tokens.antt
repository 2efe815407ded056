-- ===== src/Http/Auth/Tokens.antt =====
-- internal/auth/auth.go: which `Authorization` headers the middleware lets through.
use my_demo_app.Prelude.{
  ◌+◌, ◌≡◌, refl, ap, inl, inr, false, ◌++◌, arith, if◌then◌else◌, Bool-cases, length,
  length-append,
}
use my_demo_app.Text.{Str, str_eq, str_eq_iff, str_eq_refl, is_empty, has_prefix}
use my_demo_app.Text.Trim.{IsTrimmed, trim_space_of_IsTrimmed}
use my_demo_app.Http.Auth.{
  trim_prefix, bearer, bearer_token, verdict, no_token, wrong_key, admitted,
}

drop_bearer : (token : Str) → trim_prefix (bearer ++ token) bearer ≡ token
unfolding trim_prefix has_prefix
drop_bearer token = refl

append-length : (p s : Str) → length (p ++ s) ≡ length p + length s
append-length p s = length-append p s

bearer_differs : (token : Str) → str_eq (bearer ++ token) token ≡ false
bearer_differs token = elim (Bool-cases (str_eq (bearer ++ token) token)) [
  | inl same ↦
      let e : length (bearer ++ token) ≡ length token =
        ap length ((str_eq_iff (bearer ++ token) token).0 same) in
      absurd (omega (arith, append-length bearer token))
  | inr other ↦ other
]

-- A header of Bearer and a token that is not empty and has no white space around it is admitted
-- exactly where the token's and the configured key's digests are equal, and has the wrong key
-- otherwise.
pub verdict-bearer :
    (md5_hex : Str → Str) (api_key token : Str)
    → IsTrimmed token
    → is_empty token ≡ false
    → verdict md5_hex api_key (bearer ++ token)
      ≡ (if str_eq (md5_hex token) (md5_hex api_key) then admitted else wrong_key)
unfolding verdict bearer_token
verdict-bearer md5_hex api_key token trimmed filled =
    rw (drop_bearer token, trim_space_of_IsTrimmed token trimmed, filled, bearer_differs token)
      (ground arith)

-- A header with no white space around it that does not begin with Bearer has no token, even if it
-- is the key.
pub verdict_bare :
    (md5_hex : Str → Str) (api_key header : Str)
    → IsTrimmed header
    → has_prefix header bearer ≡ false
    → verdict md5_hex api_key header ≡ no_token
unfolding verdict bearer_token trim_prefix
verdict_bare md5_hex api_key header trimmed bare =
    rw (bare, trim_space_of_IsTrimmed header trimmed, str_eq_refl header) (ground arith)

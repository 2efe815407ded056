-- ===== src/Http/Auth.antt =====
-- internal/auth/auth.go: the check of the API key. `md5_hex` is the hex text of the MD5 digest.
pub mod Tokens
use my_demo_app.Prelude.{ℕ, not, ◌||◌, List, [], ◌∷◌, if◌then◌else◌, length, get_or, drop}
use my_demo_app.Text.{Str, lit, str_eq, is_empty, has_prefix}
use my_demo_app.Text.Trim.{trim_space}
use my_demo_app.Http.{
  get, Call, json_type, Handler, answer, text, set_header, write_header, write, log_line,
  missing_token, invalid_key,
}

-- `strings.TrimPrefix`.
unfoldable pub trim_prefix : Str → Str → Str
trim_prefix s p = if has_prefix s p then drop (length p) s else s

abbrev pub bearer : Str
bearer = lit "Bearer "

unfoldable pub bearer_token : Str → Str
unfolding trim_prefix
bearer_token header = trim_space (trim_prefix header bearer)

abbrev pub write_unauthorized : List Call
write_unauthorized =
    json_type
    ∷ set_header (lit "WWW-Authenticate") (lit "Bearer")
    ∷ write_header 401
    ∷ write (text (lit "{\"error\":\"unauthorized\"}"))
    ∷ []

-- `rand.Intn(16)` has given the numbers that the list holds.
unfoldable pub generate_token : List ℕ → Str
generate_token [] = []
generate_token (n ∷ ns) = get_or (lit "0123456789abcdef") n 0 ∷ generate_token ns

pub data Verdict : Type 0 where
  no_token wrong_key admitted : Verdict

abbrev pub enforce : {S : Type 0} → Verdict → Handler S → Handler S
enforce no_token next r sv = answer write_unauthorized (log_line (missing_token r.path) sv)
enforce wrong_key next r sv = answer write_unauthorized (log_line (invalid_key r.path) sv)
enforce admitted next r sv = next r sv

module _ (md5_hex : Str → Str) where
  abbrev pub hash_key : Str → Str
  hash_key key = md5_hex key

  -- What the middleware does with an `Authorization` header.
  unfoldable pub verdict : Str → Str → Verdict
  unfolding bearer_token
  verdict api_key header =
      let token = bearer_token header in
      if is_empty token || str_eq header token
      then no_token
      else if not (str_eq (hash_key token) (hash_key api_key))
      then wrong_key
      else admitted

  unfoldable pub api_key_middleware : {S : Type 0} → Str → Handler S → Handler S
  api_key_middleware api_key next r =
      enforce (verdict api_key (get (lit "Authorization") r.headers)) next r

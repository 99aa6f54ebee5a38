-- ===== src/Api/Access.antt =====
-- Who makes a request: `GetTokenFromHeaderAndVerify` of cmd/api/auth.go, and `AuthRequired` of
-- cmd/api/middleware.go.
pub mod Bearer
pub mod Kinds
use toomanyhours_api.Prelude.{
  ℕ, Bool, true, false, not, Option, none, some, List, [], ◌∷◌, Result, ok, err, ◌==◌,
  if◌then◌else◌,
}
use toomanyhours_api.Text.{Text, codes, same}
use toomanyhours_api.Validate.{is_empty}
use toomanyhours_api.World.{Outside, Claims}
use toomanyhours_api.World.Exec.{pure, raise, ◌>>=◌, ◌>>◌, time_now}
use toomanyhours_api.Api.{Response, Handler, UserContext, signed_in, error_json, json, passed_on}
use toomanyhours_api.Api.Auth.{Auth}
use toomanyhours_api.Api.Games.{require}

-- A rune before the first of some parts.
abbrev pub onto_first : ℕ → List Text → List Text
onto_first r [] = (r ∷ []) ∷ []
onto_first r (part ∷ parts) = (r ∷ part) ∷ parts

-- `strings.Split(s, " ")`.
unfoldable pub split_spaces : Text → List Text
split_spaces [] = [] ∷ []
split_spaces (r ∷ rs) =
    let rest = split_spaces rs in if r == 0x20 then [] ∷ rest else onto_first r rest

-- The answer of `AuthRequired` to an error.
abbrev pub denied : Response
denied = error_json "invalid authorization header" 401

-- The token of the parts of a header.
unfoldable pub bearer_token : List Text → Handler Text
bearer_token (scheme ∷ token ∷ []) =
    if same scheme (codes "Bearer") then pure token else raise denied
bearer_token [] = raise denied
bearer_token (scheme ∷ []) = raise denied
bearer_token (scheme ∷ token ∷ next ∷ rest) = raise denied

module _ (out : Outside) (auth : Auth) where
  -- The claims of a token that is valid, or the error of the parser.
  unfoldable pub parsed_claims : Text → ℕ → Option Claims → Handler Claims
  parsed_claims token now (some claims) = pure claims
  parsed_claims token now none =
      if out.says_expired auth.secret now token
      then raise (error_json "Token is expired" 401)
      else raise (json 401 passed_on)

  -- `GetTokenFromHeaderAndVerify`, of the header, which is empty if there is none.
  unfoldable pub verify_header : Text → Handler ℕ
  verify_header header = do
    require (not (is_empty header)) (error_json "Authorization header is required" 401)
    token ← bearer_token (split_spaces header)
    now ← time_now out
    claims ← parsed_claims token now (out.parse auth.secret now token)
    require (same claims.issuer auth.issuer) (error_json "Invalid issuer" 401)
    pure claims.user_id

  -- `AuthRequired` before a handler.
  unfoldable pub auth_required : {A : Type 0} → Text → (UserContext → Handler A) → Handler A
  auth_required header handler = do user_id ← verify_header header; handler (signed_in user_id)

-- ===== src/Api/Auth.antt =====
-- cmd/api/auth.go and session.go: the tokens, and the session that a refresh token stands for.
use toomanyhours_api.Prelude.{ℕ, ◌+◌, Option, none, some, [], ◌∷◌}
use toomanyhours_api.Text.{Text}
use toomanyhours_api.Models.{User, RefreshToken}
use toomanyhours_api.World.{Outside, Claims}
use toomanyhours_api.World.Exec.{Exec, pure, raise, ◌>>=◌, ◌>>◌, or_else, time_now, new_token_id}
use toomanyhours_api.Repo.RefreshTokens.{create_refresh_token}
use toomanyhours_api.Api.{TokenPairs}

-- `Auth`, the fields that are read.
pub record Auth : Type 0 where
  pub issuer : Text
  pub audience : Text
  pub secret : Text
  pub token_expiry : ℕ
  pub refresh_token_expiry : ℕ

-- A failure to mint a session: of the random source, the database or the signing.
pub data SessionError : Type 0 where
  no_session : SessionError

abbrev pub or_no_session : {A : Type 0} → Option A → Exec SessionError A
or_no_session none = raise no_session
or_no_session (some a) = pure a

module _ (out : Outside) (auth : Auth) where
  -- The access token's claims: no id.
  unfoldable pub access_claims : ℕ → ℕ → ℕ → Claims
  access_claims user_id issued now = record {
    user_id = user_id;
    id = [];
    subject = out.decimal user_id;
    issuer = auth.issuer;
    audience = auth.audience ∷ [];
    issued_at = issued;
    expires_at = now + auth.token_expiry;
  }

  -- The refresh token's claims: the id is that of a row, and there is no user id and no issuer.
  unfoldable pub refresh_claims : ℕ → Text → ℕ → ℕ → Claims
  refresh_claims user_id refresh_jti issued now = record {
    user_id = 0;
    id = refresh_jti;
    subject = out.decimal user_id;
    issuer = [];
    audience = [];
    issued_at = issued;
    expires_at = now + auth.refresh_token_expiry;
  }

  -- `GenerateTokenPair`.
  unfoldable pub generate_token_pair : ℕ → Text → Exec SessionError TokenPairs
  unfolding access_claims refresh_claims
  generate_token_pair user_id refresh_jti = do
    issued ← time_now out
    now ← time_now out
    signed_access ← or_no_session (out.sign auth.secret (access_claims user_id issued now))
    issued' ← time_now out
    now' ← time_now out
    signed_refresh ←
        or_no_session (out.sign auth.secret (refresh_claims user_id refresh_jti issued' now'))
    pure (record { token = signed_access; refresh_token = signed_refresh })

  -- The family of a new session: the one that is continued, or a new one.
  unfoldable pub session_family : Text → Exec SessionError Text
  session_family [] = do fresh ← new_token_id out; or_no_session fresh
  session_family (r ∷ rs) = pure (r ∷ rs)

  -- The row of a new refresh token. Its id and its creation date are filled in on the way.
  unfoldable pub session_row : Text → Text → ℕ → ℕ → RefreshToken
  session_row jti family_id user_id now = record {
    id = 0;
    jti = jti;
    family_id = family_id;
    user_id = user_id;
    expires_at = now + auth.refresh_token_expiry;
    revoked_at = none;
    created_at = 0;
  }

  -- `issueSession`, from the row on: the row is written before the token is signed.
  unfoldable pub store_session : User → Text → Text → Exec SessionError TokenPairs
  unfolding session_row
  store_session user jti family = do
    now ← time_now out
    or_else (create_refresh_token out (session_row jti family user.id now)) (λ _. no_session)
    generate_token_pair user.id jti

  -- `issueSession`.
  unfoldable pub issue_session : User → Text → Exec SessionError TokenPairs
  issue_session user family_id = do
    fresh ← new_token_id out
    jti ← or_no_session fresh
    family ← session_family family_id
    store_session user jti family

-- ===== src/Api/Session.antt =====
-- `RefreshToken` and `Logout` of cmd/api/handlers.go.
pub mod Steps
pub mod Rows
pub mod Over
pub mod Logout
pub mod Issue
pub mod Rotation
pub mod Race
use toomanyhours_api.Prelude.{
  ℕ, Bool, true, false, Option, none, some, [], ◌∷◌, Result, ok, err, String, if◌then◌else◌,
}
use toomanyhours_api.Text.{Text, same}
use toomanyhours_api.Models.{RefreshToken, User}
use toomanyhours_api.Refresh.{
  State, Decision, accept, reject_unknown, reject_expired, reject_revoked, reuse_detected, decide,
}
use toomanyhours_api.World.{
  World, Outside, Claims, DbError, record_not_found, no_rows, duplicated_key, unavailable,
}
use toomanyhours_api.World.Exec.{Exec, pure, raise, ◌>>=◌, ◌>>◌, attempt, or_else, time_now}
use toomanyhours_api.Repo.RefreshTokens.{
  get_refresh_token, revoke_refresh_token, family_has_active_token, revoke_refresh_family,
}
use toomanyhours_api.Repo.Users.{get_user_by_id}
use toomanyhours_api.Api.{
  or_respond, Response, Handler, TokenPairs, error_json, empty, message, tokens, kept, expired,
  set_to,
}
use toomanyhours_api.Api.Auth.{Auth, issue_session}

-- `endRefreshSession`: the one answer to a token that is not good.
abbrev pub end_refresh_session : Response
end_refresh_session = record { status = 401; cookie = expired; body = message "Unauthorized" }

abbrev pub cookie_not_found : Response
cookie_not_found = error_json "Refresh token not found" 401

abbrev pub could_not_refresh : Response
could_not_refresh = error_json "Could not refresh" 500

-- The answer of `gin.Recovery` to a nil dereference.
abbrev pub recovered : Response
recovered = record { status = 500; cookie = kept; body = empty }

abbrev pub logged_out : Response
logged_out = record { status = 200; cookie = expired; body = message "Logged out" }

-- `refresh.State{}`.
abbrev pub no_state : State
no_state = record { found = false; expires_at = 0; revoked_at = none; family_active = false }

module _ (out : Outside) (auth : Auth) (grace : ℕ) where
  -- The row that a token names, none if there is none. Other errors end the request.
  unfoldable pub row_or_none : Result DbError RefreshToken → Handler (Option RefreshToken)
  row_or_none (ok row) = pure (some row)
  row_or_none (err record_not_found) = pure none
  row_or_none (err no_rows) = raise could_not_refresh
  row_or_none (err duplicated_key) = raise could_not_refresh
  row_or_none (err unavailable) = raise could_not_refresh

  -- Whether the family is alive, asked only of a row that is revoked.
  unfoldable pub ask_family : Text → Option ℕ → Handler Bool
  ask_family family none = pure false
  ask_family family (some at) =
      or_else (family_has_active_token out family) (λ _. could_not_refresh)

  unfoldable pub load_state : Option RefreshToken → Handler State
  unfolding ask_family
  load_state none = pure no_state
  load_state (some row) = do
    active ← ask_family row.family_id row.revoked_at
    pure (record {
      found = true;
      expires_at = row.expires_at;
      revoked_at = row.revoked_at;
      family_active = active;
    })

  -- The rest of `RefreshToken` for an accepted row: the successor.
  unfoldable pub rotate : RefreshToken → Handler Response
  rotate row = do
    user ← or_else (get_user_by_id out row.user_id) (λ _. end_refresh_session)
    or_else (revoke_refresh_token out row.jti) (λ _. could_not_refresh)
    pairs ← or_else (issue_session out auth user row.family_id) (λ _. could_not_refresh)
    pure (record { status = 200; cookie = set_to pairs.refresh_token; body = tokens pairs })

  -- The switch on the decision.
  unfoldable pub act : Option RefreshToken → Decision → Handler Response
  act none reject_unknown = raise end_refresh_session
  act none reject_expired = raise end_refresh_session
  act none reject_revoked = raise end_refresh_session
  act none reuse_detected = raise recovered
  act none accept = raise recovered
  act (some row) reject_unknown = raise end_refresh_session
  act (some row) reject_expired = raise end_refresh_session
  act (some row) reject_revoked = raise end_refresh_session
  act (some row) reuse_detected = do
    attempt (revoke_refresh_family out row.family_id)
    raise end_refresh_session
  act (some row) accept = rotate row

  -- What is decided of the row, and done about it.
  unfoldable pub decide_row : Option RefreshToken → Handler Response
  decide_row row = do state ← load_state row; now ← time_now out; act row (decide state now grace)

  -- `RefreshToken` from the claims on.
  unfoldable pub refresh_claimed : Text → Handler Response
  refresh_claimed jti = do
    found ← attempt (get_refresh_token out jti)
    row ← row_or_none found
    decide_row row

  -- `if claims.ID == ""`: a token with no id, as an access token is, is refused.
  unfoldable pub require_id : Text → Handler Text
  require_id [] = raise end_refresh_session
  require_id (r ∷ rs) = pure (r ∷ rs)

  -- `RefreshToken`, of the refresh cookie, if the request has one.
  unfoldable pub refresh_token : Option Text → Handler Response
  unfolding refresh_claimed require_id
  refresh_token cookie = do
    token ← or_respond cookie cookie_not_found
    at ← time_now out
    claims ← or_respond (out.parse auth.secret at token) end_refresh_session
    jti ← require_id claims.id
    refresh_claimed jti

  -- Ending the session that a token's id names, as far as that works.
  unfoldable pub end_family : Result DbError RefreshToken → Handler (Unit {0})
  end_family (err e) = pure tt
  end_family (ok row) = do attempt (revoke_refresh_family out row.family_id); pure tt

  unfoldable pub end_session : Text → Handler (Unit {0})
  unfolding end_family
  end_session [] = pure tt
  end_session (r ∷ rs) = do found ← attempt (get_refresh_token out (r ∷ rs)); end_family found

  unfoldable pub end_cookie : Option Text → Handler (Unit {0})
  unfolding end_session
  end_cookie none = pure tt
  end_cookie (some token) = do
    at ← time_now out
    elim (out.parse auth.secret at token) [ none ↦ pure tt | some claims ↦ end_session claims.id ]

  -- `Logout`.
  unfoldable pub logout : Option Text → Handler Response
  unfolding end_cookie
  logout cookie = do end_cookie cookie; pure logged_out

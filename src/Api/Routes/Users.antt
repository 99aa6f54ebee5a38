-- ===== src/Api/Routes/Users.antt =====
-- The handlers of cmd/api that do not write to the accounts.
use toomanyhours_api.World.Content.{IsOfContent}
use toomanyhours_api.Prelude.{ℕ, Option, none, some, [], ◌∷◌, Result, ok, err, arith, refl}
use toomanyhours_api.Text.{Text}
use toomanyhours_api.Models.{RefreshToken}
use toomanyhours_api.Refresh.{
  Decision, accept, reject_unknown, reject_expired, reject_revoked, reuse_detected,
}
use toomanyhours_api.World.{Outside, DbError, Claims, Db}
use toomanyhours_api.World.Exec.{pure}
use toomanyhours_api.World.Keeps.{Keeps, keeps_rules, Keeps-bind, Keeps-time_now, Keeps-statement}
use toomanyhours_api.Repo.RefreshTokens.{
  get_refresh_token, revoke_refresh_token, family_has_active_token, revoke_refresh_family,
  delete_expired_refresh_tokens,
}
use toomanyhours_api.Repo.Users.Reads.{get_user_by_id-Keeps}
use toomanyhours_api.Api.{Response}
use toomanyhours_api.Api.Auth.{Auth}
use toomanyhours_api.Api.Session.{
  ask_family, load_state, rotate, act, refresh_claimed, refresh_token, end_family, end_session,
  end_cookie, logout, decide_row,
}
use toomanyhours_api.Api.Session.Steps.{or_respond-Keeps, row_or_none-Keeps, require_id-Keeps}
use toomanyhours_api.Api.Accounts.Stored.{issue_session-Keeps}

module _ {P : Db → Type 0} (p : IsOfContent P) (out : Outside) where
  get_refresh_token-Keeps : (jti : Text) → Keeps P (get_refresh_token out jti)
  unfolding get_refresh_token
  get_refresh_token-Keeps jti = Keeps-statement out _ λ db h. ground (arith, h)

  revoke_refresh_token-Keeps : (jti : Text) → Keeps P (revoke_refresh_token out jti)
  unfolding revoke_refresh_token
  revoke_refresh_token-Keeps jti =
      Keeps-bind _ _ (Keeps-time_now out)
        λ now. Keeps-statement out _ λ db h. p.content db _ refl refl refl h

  family_has_active_token-Keeps : (f : Text) → Keeps P (family_has_active_token out f)
  unfolding family_has_active_token
  family_has_active_token-Keeps f =
      Keeps-bind _ _ (Keeps-time_now out)
        λ now. Keeps-statement out _ λ db h. p.content db _ refl refl refl h

  revoke_refresh_family-Keeps : (f : Text) → Keeps P (revoke_refresh_family out f)
  unfolding revoke_refresh_family
  revoke_refresh_family-Keeps f =
      Keeps-bind _ _ (Keeps-time_now out)
        λ now. Keeps-statement out _ λ db h. p.content db _ refl refl refl h

  pub delete_expired-Keeps : Keeps P (delete_expired_refresh_tokens out)
  unfolding delete_expired_refresh_tokens
  delete_expired-Keeps =
      Keeps-bind _ _ (Keeps-time_now out)
        λ now. Keeps-statement out _ λ db h. p.content db _ refl refl refl h

  module _ (auth : Auth) (grace : ℕ) where
    ask_family-Keeps : (f : Text) (r : Option ℕ) → Keeps P (ask_family out auth grace f r)
    unfolding ask_family
    ask_family-Keeps f none = search keeps_rules
    ask_family-Keeps f (some at) = search (keeps_rules, family_has_active_token-Keeps)

    load_state-Keeps : (r : Option RefreshToken) → Keeps P (load_state out auth grace r)
    unfolding load_state
    load_state-Keeps none = search keeps_rules
    load_state-Keeps (some row) = search (keeps_rules, ask_family-Keeps)

    rotate-Keeps : (row : RefreshToken) → Keeps P (rotate out auth grace row)
    unfolding rotate
    rotate-Keeps row =
        search (keeps_rules, revoke_refresh_token-Keeps, get_user_by_id-Keeps, issue_session-Keeps)
          depth 10

    act-Keeps : (r : Option RefreshToken) (d : Decision) → Keeps P (act out auth grace r d)
    unfolding act
    act-Keeps none reject_unknown = search keeps_rules
    act-Keeps none reject_expired = search keeps_rules
    act-Keeps none reject_revoked = search keeps_rules
    act-Keeps none reuse_detected = search keeps_rules
    act-Keeps none accept = search keeps_rules
    act-Keeps (some row) reject_unknown = search keeps_rules
    act-Keeps (some row) reject_expired = search keeps_rules
    act-Keeps (some row) reject_revoked = search keeps_rules
    act-Keeps (some row) reuse_detected = search (keeps_rules, revoke_refresh_family-Keeps)
    act-Keeps (some row) accept = rotate-Keeps row

    decide_row-Keeps : (r : Option RefreshToken) → Keeps P (decide_row out auth grace r)
    unfolding decide_row
    decide_row-Keeps r = search (keeps_rules, load_state-Keeps, act-Keeps) depth 10

    refresh_claimed-Keeps : (jti : Text) → Keeps P (refresh_claimed out auth grace jti)
    unfolding refresh_claimed
    refresh_claimed-Keeps jti =
        search (keeps_rules, get_refresh_token-Keeps, row_or_none-Keeps, decide_row-Keeps) depth 10

    pub refresh_token-Keeps : (cookie : Option Text) → Keeps P (refresh_token out auth grace cookie)
    unfolding refresh_token
    refresh_token-Keeps cookie =
        search (keeps_rules, or_respond-Keeps, require_id-Keeps, refresh_claimed-Keeps) depth 10

    end_family-Keeps : (r : Result DbError RefreshToken) → Keeps P (end_family out auth grace r)
    unfolding end_family
    end_family-Keeps (err e) = search keeps_rules
    end_family-Keeps (ok row) = search (keeps_rules, revoke_refresh_family-Keeps)

    end_session-Keeps : (id : Text) → Keeps P (end_session out auth grace id)
    unfolding end_session
    end_session-Keeps [] = search keeps_rules
    end_session-Keeps (r ∷ rs) = search (keeps_rules, get_refresh_token-Keeps, end_family-Keeps)

    claims-Keeps :
        (c : Option Claims)
        → Keeps P (elim c [
          | none ↦ pure {E = Response} tt
          | some claims ↦ end_session out auth grace claims.id
        ])
    claims-Keeps none = search keeps_rules
    claims-Keeps (some claims) = end_session-Keeps claims.id

    end_cookie-Keeps : (cookie : Option Text) → Keeps P (end_cookie out auth grace cookie)
    unfolding end_cookie
    end_cookie-Keeps none = search keeps_rules
    end_cookie-Keeps (some token) =
        Keeps-bind _ _ (Keeps-time_now out) λ at. claims-Keeps (out.parse auth.secret at token)

    pub logout-Keeps : (cookie : Option Text) → Keeps P (logout out auth grace cookie)
    unfolding logout
    logout-Keeps cookie = search (keeps_rules, end_cookie-Keeps)

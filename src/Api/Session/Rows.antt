-- ===== src/Api/Session/Rows.antt =====
-- What a refresh or a logout may do to the rows of the tokens.
use toomanyhours_api.Api.Session.Steps.{
  or_no_session-Keeps, or_respond-Keeps, generate_token_pair-Keeps, session_family-Keeps,
  row_or_none-Keeps, require_id-Keeps,
}
use toomanyhours_api.Prelude.{ℕ, Option, none, some, List, [], ◌∷◌, Result, ok, err}
use toomanyhours_api.Text.{Text}
use toomanyhours_api.Models.{RefreshToken, User}
use toomanyhours_api.Refresh.{
  Decision, accept, reject_unknown, reject_expired, reject_revoked, reuse_detected,
}
use toomanyhours_api.World.{World, Outside, DbError, Claims}
use toomanyhours_api.World.Exec.{pure}
use toomanyhours_api.World.Keeps.{Keeps, keeps_rules, Keeps-bind, Keeps-time_now}
use toomanyhours_api.Repo.RefreshTokens.Laws.{
  Extends, Extends-refl, From, create_refresh_token-From, get_refresh_token-From,
  revoke_refresh_token-From, family_has_active_token-From, revoke_refresh_family-From,
  Extends-trans,
}
use toomanyhours_api.Repo.Users.Reads.{get_user_by_id-Keeps}
use toomanyhours_api.Api.{Handler, Response}
use toomanyhours_api.Api.Auth.{Auth, issue_session, store_session}
use toomanyhours_api.Api.Session.{
  ask_family, load_state, rotate, act, refresh_claimed, refresh_token, end_family, end_session,
  end_cookie, logout, decide_row,
}

module _ (out : Outside) (auth : Auth) (ts : List RefreshToken) where
  store_session-From : (u : User) (jti f : Text) → Keeps (From ts) (store_session out auth u jti f)
  unfolding store_session
  store_session-From u jti f =
      search (keeps_rules, create_refresh_token-From, generate_token_pair-Keeps) depth 10

  pub issue_session-From : (u : User) (f : Text) → Keeps (From ts) (issue_session out auth u f)
  unfolding issue_session
  issue_session-From u f =
      search (keeps_rules, or_no_session-Keeps, session_family-Keeps, store_session-From) depth 10

module _ (out : Outside) (auth : Auth) (grace : ℕ) (ts : List RefreshToken) where
  ask_family-From : (f : Text) (r : Option ℕ) → Keeps (From ts) (ask_family out auth grace f r)
  unfolding ask_family
  ask_family-From f none = search keeps_rules
  ask_family-From f (some at) = search (keeps_rules, family_has_active_token-From)

  load_state-From : (r : Option RefreshToken) → Keeps (From ts) (load_state out auth grace r)
  unfolding load_state
  load_state-From none = search keeps_rules
  load_state-From (some row) = search (keeps_rules, ask_family-From)

  rotate-From : (row : RefreshToken) → Keeps (From ts) (rotate out auth grace row)
  unfolding rotate
  rotate-From row =
      search (keeps_rules, revoke_refresh_token-From, get_user_by_id-Keeps, issue_session-From)
        depth 10

  act-From : (r : Option RefreshToken) (d : Decision) → Keeps (From ts) (act out auth grace r d)
  unfolding act
  act-From none reject_unknown = search keeps_rules
  act-From none reject_expired = search keeps_rules
  act-From none reject_revoked = search keeps_rules
  act-From none reuse_detected = search keeps_rules
  act-From none accept = search keeps_rules
  act-From (some row) reject_unknown = search keeps_rules
  act-From (some row) reject_expired = search keeps_rules
  act-From (some row) reject_revoked = search keeps_rules
  act-From (some row) reuse_detected = search (keeps_rules, revoke_refresh_family-From)
  act-From (some row) accept = rotate-From row

  decide_row-From : (r : Option RefreshToken) → Keeps (From ts) (decide_row out auth grace r)
  unfolding decide_row
  decide_row-From r = search (keeps_rules, load_state-From, act-From) depth 10

  refresh_claimed-From : (jti : Text) → Keeps (From ts) (refresh_claimed out auth grace jti)
  unfolding refresh_claimed
  refresh_claimed-From jti =
      search (keeps_rules, get_refresh_token-From, row_or_none-Keeps, decide_row-From) depth 10

  refresh_token-From :
      (cookie : Option Text) → Keeps (From ts) (refresh_token out auth grace cookie)
  unfolding refresh_token
  refresh_token-From cookie =
      search (keeps_rules, or_respond-Keeps, require_id-Keeps, refresh_claimed-From) depth 10

  end_family-From :
      (r : Result DbError RefreshToken) → Keeps (From ts) (end_family out auth grace r)
  unfolding end_family
  end_family-From (err e) = search keeps_rules
  end_family-From (ok row) = search (keeps_rules, revoke_refresh_family-From)

  end_session-From : (id : Text) → Keeps (From ts) (end_session out auth grace id)
  unfolding end_session
  end_session-From [] = search keeps_rules
  end_session-From (r ∷ rs) = search (keeps_rules, get_refresh_token-From, end_family-From)

  end_cookie-From : (cookie : Option Text) → Keeps (From ts) (end_cookie out auth grace cookie)
  unfolding end_cookie
  end_cookie-From none = search keeps_rules
  end_cookie-From (some token) =
      Keeps-bind _ _ (Keeps-time_now out) (λ at. parsed (out.parse auth.secret at token))
    where
      parsed :
          (c : Option Claims)
          → Keeps (From ts) (elim c [
            | none ↦ pure {E = Response} tt
            | some claims ↦ end_session out auth grace claims.id
          ])
      parsed none = search keeps_rules
      parsed (some claims) = end_session-From claims.id

  logout-From : (cookie : Option Text) → Keeps (From ts) (logout out auth grace cookie)
  unfolding logout
  logout-From cookie = search (keeps_rules, end_cookie-From)

-- A request that works on sessions.
pub data Request : Type 0 where
  refreshes logs_out : Option Text → Request

unfoldable pub serve : Outside → Auth → ℕ → Request → Handler Response
serve out auth grace (refreshes cookie) = refresh_token out auth grace cookie
serve out auth grace (logs_out cookie) = logout out auth grace cookie

-- Requests one after another, whatever each of them answers.
unfoldable pub serve_all : Outside → Auth → ℕ → List Request → World → World
serve_all out auth grace [] w = w
serve_all out auth grace (r ∷ rs) w = serve_all out auth grace rs (serve out auth grace r w).1

-- Refreshes and logouts, failing or not, lose no row of the token table and change of a row its
-- revocation date alone, once, from null: a consumed token's grace window never moves. New rows
-- stand behind the old ones.
pub serve_all-Extends :
    (out : Outside) (auth : Auth) (grace : ℕ) (rs : List Request) (w : World)
    → Extends w.db.tokens (serve_all out auth grace rs w).db.tokens
unfolding serve_all
serve_all-Extends out auth grace [] w = Extends-refl w.db.tokens
serve_all-Extends out auth grace (r ∷ rs) w =
    Extends-trans w.db.tokens (serve out auth grace r w).1.db.tokens _ (first r)
      (serve_all-Extends out auth grace rs (serve out auth grace r w).1)
  where
    first : (q : Request) → Extends w.db.tokens (serve out auth grace q w).1.db.tokens
    first (refreshes cookie) =
        unfold serve in
        (refresh_token-From out auth grace w.db.tokens cookie).at w (Extends-refl w.db.tokens)
    first (logs_out cookie) =
        unfold serve in
        (logout-From out auth grace w.db.tokens cookie).at w (Extends-refl w.db.tokens)

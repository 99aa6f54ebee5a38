-- ===== src/Api/Session/Rotation.antt =====
-- A refresh that is accepted: the presented token is consumed, and its successor takes its place.
use toomanyhours_api.Api.Session.Logout.{get_refresh_token-found}
use toomanyhours_api.Prelude.{
  ℕ, suc, ◌<◌, ◌≡◌, ◌≢◌, refl, ◌∙◌, Bool, true, false, ◌&&◌, none, some, List, [], ◌∷◌, ◌++◌, ok,
  arith, find, any, update, ◌==◌, ◌+◌,
}
use toomanyhours_api.Text.{Text}
use toomanyhours_api.Models.{User, RefreshToken}
use toomanyhours_api.Refresh.{decide, accept}
use toomanyhours_api.World.{World, Outside}
use toomanyhours_api.World.Exec.{time_now, statement}
use toomanyhours_api.Repo.RefreshTokens.{has_jti, is_active, revoke, revoke_refresh_token}
use toomanyhours_api.Repo.Users.{get_user_by_id, first_user}
use toomanyhours_api.Api.{Response, TokenPairs, set_to, tokens}
use toomanyhours_api.Api.Auth.{Auth}
use toomanyhours_api.Api.Session.Issue.{IsSuccessor, three, IsPairFor, IsUp, issue_session-ok, next}
use toomanyhours_api.Api.Session.{
  rotate, refresh_claimed, decide_row, load_state, act, row_or_none, ask_family,
}

module _ (out : Outside) (auth : Auth) (grace : ℕ) where
  any-revoke :
      (jti : Text) (p : RefreshToken → Bool) (now : ℕ) (ts : List RefreshToken)
      → any (has_jti jti) (update p (revoke now) ts) ≡ any (has_jti jti) ts
  unfolding any update
  any-revoke jti p now [] = refl
  any-revoke jti p now (t ∷ ts) = ground (arith, any-revoke jti p now ts)

  -- The token table with the presented token consumed.
  abbrev pub consumed_in : Text → ℕ → List RefreshToken → List RefreshToken
  consumed_in jti now ts = update (λ t. has_jti jti t && is_active t) (revoke now) ts

  abbrev revoked_world : RefreshToken → World → World
  revoked_world row w = record w {
    db = record w.db { tokens = consumed_in row.jti (out.clock (suc w.effects)) w.db.tokens };
    effects = suc (suc (suc w.effects));
  }

  -- The answer to a refresh that succeeds.
  abbrev pub refreshed : TokenPairs → Response
  refreshed pairs = record {
    status = 200;
    cookie = set_to pairs.refresh_token;
    body = tokens pairs;
  }

  get_user_by_id-found :
      (id : ℕ) (u : User) (w : World)
      → out.outage w.effects ≡ false
      → find (λ v. v.id == id) w.db.users ≡ some u
      → get_user_by_id out id w ≡ (ok u, next w)
  unfolding get_user_by_id first_user statement
  get_user_by_id-found id u w up e = rw (up, first_user, e) refl

  revoke_refresh_token-done :
      (row : RefreshToken) (w : World)
      → out.outage (suc (suc w.effects)) ≡ false
      → revoke_refresh_token out row.jti (next w) ≡ (ok tt, revoked_world row w)
  unfolding revoke_refresh_token time_now statement
  revoke_refresh_token-done row w up = rw (revoke_refresh_token, statement, up) refl

  pub rotate-ok :
      (row : RefreshToken) (u : User) (jti : Text) (w : World)
      → IsUp out auth
      → row.family_id ≢ []
      → find (λ v. v.id == row.user_id) w.db.users ≡ some u
      → out.random (suc (suc (suc w.effects))) ≡ some jti
      → any (has_jti jti) w.db.tokens ≡ false
      → (pairs : TokenPairs) × (t : RefreshToken) × ((rotate out auth grace row w).0
          ≡ ok (refreshed pairs))
        × ((rotate out auth grace row w).1.db.tokens
            ≡ consumed_in row.jti (out.clock (suc w.effects)) w.db.tokens ++ t ∷ [])
        × IsSuccessor jti row.family_id u.id
            (out.clock (suc (three w.effects)) + auth.refresh_token_expiry)
            t
        × IsPairFor out auth jti u.id (suc (three (three w.effects))) pairs
  unfolding rotate
  rotate-ok row u jti w h named found drawn fresh =
      let at = out.clock (suc w.effects) in
      let (pairs, t, e, added, successor, signed) =
        issue_session-ok out auth u jti row.family_id (revoked_world row w) h named drawn
          (any-revoke jti (λ t. has_jti row.jti t && is_active t) at w.db.tokens ∙ fresh) in
      let reads = get_user_by_id-found row.user_id u w (h.up w.effects) found in
      let revokes = revoke_refresh_token-done row w (h.up (suc (suc w.effects))) in
      (
        pairs,
        t,
        ground (arith, reads, revokes, e),
        ground (arith, reads, revokes, added),
        successor,
        signed,
      )

  load_state-active :
      (row : RefreshToken) (w : World)
      → row.revoked_at ≡ none
      → load_state out auth grace (some row) w ≡ (
        ok (record {
          found = true;
          expires_at = row.expires_at;
          revoked_at = row.revoked_at;
          family_active = false;
        }),
        w,
      )
  unfolding load_state ask_family
  load_state-active row w e = ground (arith, e)

  decide-active :
      (row : RefreshToken) (now : ℕ)
      → row.revoked_at ≡ none
      → now < row.expires_at
      → decide
          (record {
            found = true;
            expires_at = row.expires_at;
            revoked_at = row.revoked_at;
            family_active = false;
          })
          now
          grace
        ≡ accept
  unfolding decide
  decide-active row now e h = ground (arith, e)

  decide_row-rotate :
      (row : RefreshToken) (w : World)
      → row.revoked_at ≡ none
      → out.clock w.effects < row.expires_at
      → decide_row out auth grace (some row) w ≡ rotate out auth grace row (next w)
  unfolding decide_row time_now act
  decide_row-rotate row w e h =
      ground (arith, load_state-active row w e, decide-active row (out.clock w.effects) e h)

  refresh_claimed-rotate :
      (jti : Text) (row : RefreshToken) (w : World)
      → out.outage w.effects ≡ false
      → find (has_jti jti) w.db.tokens ≡ some row
      → row.revoked_at ≡ none
      → out.clock (suc w.effects) < row.expires_at
      → refresh_claimed out auth grace jti w ≡ rotate out auth grace row (next (next w))
  unfolding refresh_claimed row_or_none
  refresh_claimed-rotate jti row w up e active young = ground (
    arith,
    get_refresh_token-found out auth grace jti row w e up,
    decide_row-rotate row (next w) active young,
  )

  -- Refreshing with an active token that has not expired works while nothing of the outside fails:
  -- it answers 200, and afterwards the token table is the old one with the presented token revoked
  -- and one active row added, of the same family and the row's user, lasting as long as the
  -- configuration says, under the identifier that is drawn, which is taken not to be in use. The
  -- cookie is a token signed with the identifier of that row, and the body has it with an access
  -- token of that user, both under the program's secret and with their configured lifetimes.
  pub refresh_claimed-rotates :
      (jti fresh : Text) (row : RefreshToken) (u : User) (w : World)
      → IsUp out auth
      → find (has_jti jti) w.db.tokens ≡ some row
      → row.revoked_at ≡ none
      → out.clock (suc w.effects) < row.expires_at
      → row.family_id ≢ []
      → find (λ v. v.id == row.user_id) w.db.users ≡ some u
      → out.random (suc (suc (suc (suc (suc w.effects))))) ≡ some fresh
      → any (has_jti fresh) w.db.tokens ≡ false
      → (pairs : TokenPairs) × (t : RefreshToken) × ((refresh_claimed out auth grace jti w).0
          ≡ ok (refreshed pairs))
        × ((refresh_claimed out auth grace jti w).1.db.tokens
            ≡ consumed_in row.jti (out.clock (suc (suc (suc w.effects)))) w.db.tokens ++ t ∷ [])
        × IsSuccessor fresh row.family_id u.id
            (out.clock (three (three w.effects)) + auth.refresh_token_expiry)
            t
        × IsPairFor out auth fresh u.id (three (three (three w.effects))) pairs
  refresh_claimed-rotates jti fresh row u w h e active young named user drawn unused =
      rw (refresh_claimed-rotate jti row w (h.up w.effects) e active young)
        (rotate-ok row u fresh (next (next w)) h named user drawn unused)

-- ===== src/Api/Session/Logout.antt =====
-- Logging out ends the session for good, and so does the replay of a consumed token.
use toomanyhours_api.Prelude.{
  ℕ, ◌+◌, ◌<◌, ◌≡◌, ◌≢◌, refl, ◌⊎◌, inl, inr, true, false, Option, none, some, List, [], ◌∷◌,
  Result, ok, err, Bool-cases, arith, find, any, suc,
}
use toomanyhours_api.Text.{Text, same_refl}
use toomanyhours_api.Models.{RefreshToken}
use toomanyhours_api.Refresh.{decide, decide_revoked}
use toomanyhours_api.World.{World, Outside, Claims, DbError}
use toomanyhours_api.World.Exec.{pure, time_now, statement}
use toomanyhours_api.World.Keeps.{Keeps, keeps_rules, Keeps-bind, Keeps-time_now}
use toomanyhours_api.Repo.RefreshTokens.{
  family_has_active_token, get_refresh_token, is_active, is_live, has_jti, revoke_refresh_family,
}
use toomanyhours_api.Repo.RefreshTokens.Family.{
  IsOver, OverIn, IsOver-find, IsOver-any_live, update-IsOver_family, get_refresh_token-OverIn,
  revoke_refresh_family-OverIn,
}
use toomanyhours_api.Api.{Response}
use toomanyhours_api.Api.Auth.{Auth}
use toomanyhours_api.Api.Session.{
  row_or_none, ask_family, load_state, act, decide_row, refresh_claimed, refresh_token, end_family,
  end_session, end_cookie, logout, end_refresh_session, could_not_refresh,
}
use toomanyhours_api.Api.Session.Steps.{or_respond-Keeps, require_id-Keeps}
use toomanyhours_api.Api.Session.Rows.{Request, refreshes, logs_out, serve, serve_all}
use toomanyhours_api.Api.Session.Over.{IsFresh, refresh_claimed-OverIn}

module _ (f : Text) (out : Outside) (auth : Auth) (grace : ℕ) where
  refresh_token-OverIn :
      (cookie : Option Text)
      → IsFresh out f
      → Keeps (OverIn f) (refresh_token out auth grace cookie)
  unfolding refresh_token
  refresh_token-OverIn cookie fresh =
      search (keeps_rules, or_respond-Keeps, require_id-Keeps, refresh_claimed-OverIn) depth 10

  end_family-OverIn :
      (r : Result DbError RefreshToken) → Keeps (OverIn f) (end_family out auth grace r)
  unfolding end_family
  end_family-OverIn (err e) = search keeps_rules
  end_family-OverIn (ok row) = search (keeps_rules, revoke_refresh_family-OverIn)

  end_session-OverIn : (id : Text) → Keeps (OverIn f) (end_session out auth grace id)
  unfolding end_session
  end_session-OverIn [] = search keeps_rules
  end_session-OverIn (r ∷ rs) = search (keeps_rules, get_refresh_token-OverIn, end_family-OverIn)

  end_cookie-OverIn : (cookie : Option Text) → Keeps (OverIn f) (end_cookie out auth grace cookie)
  unfolding end_cookie
  end_cookie-OverIn none = search keeps_rules
  end_cookie-OverIn (some token) =
      Keeps-bind _ _ (Keeps-time_now out) (λ at. parsed (out.parse auth.secret at token))
    where
      parsed :
          (c : Option Claims)
          → Keeps (OverIn f) (elim c [
            | none ↦ pure {E = Response} tt
            | some claims ↦ end_session out auth grace claims.id
          ])
      parsed none = search keeps_rules
      parsed (some claims) = end_session-OverIn claims.id

  logout-OverIn : (cookie : Option Text) → Keeps (OverIn f) (logout out auth grace cookie)
  unfolding logout
  logout-OverIn cookie = search (keeps_rules, end_cookie-OverIn)

  serve-OverIn :
      (r : Request) (w : World)
      → IsFresh out f
      → OverIn f w.db
      → OverIn f (serve out auth grace r w).1.db
  unfolding serve
  serve-OverIn (refreshes cookie) w fresh h = (refresh_token-OverIn cookie fresh).at w h
  serve-OverIn (logs_out cookie) w fresh h = (logout-OverIn cookie).at w h

  -- No sequence of refreshes and logouts gives a family without an active token an active one,
  -- as long as the random source does not draw the family's identifier.
  pub serve_all-IsOver :
      (rs : List Request) (w : World)
      → IsFresh out f
      → IsOver f w.db.tokens
      → IsOver f (serve_all out auth grace rs w).db.tokens
  unfolding serve_all
  serve_all-IsOver [] w fresh h = h
  serve_all-IsOver (r ∷ rs) w fresh h =
      serve_all-IsOver rs (serve out auth grace r w).1 fresh (serve-OverIn r w fresh h)

-- What a refresh answers a token whose session is over: it never mints a new pair.
abbrev pub IsRefused : {A : Type 0} → Result Response A → Type 0
IsRefused r = (r ≡ err end_refresh_session) ⊎ (r ≡ err could_not_refresh)

module _ (out : Outside) (auth : Auth) (grace : ℕ) where
  decide_row-IsRefused :
      (row : RefreshToken) (at : ℕ) (w : World)
      → row.revoked_at ≡ some at
      → IsOver row.family_id w.db.tokens
      → IsRefused (decide_row out auth grace (some row) w).0
  unfolding decide_row load_state ask_family family_has_active_token time_now statement act decide
      decide_revoked
  decide_row-IsRefused row at w e over =
      ground (arith, IsOver-any_live row.family_id (out.clock w.effects) w.db.tokens over)

  -- The row that the token names, while the database answers.
  pub get_refresh_token-found :
      (jti : Text) (row : RefreshToken) (w : World)
      → find (has_jti jti) w.db.tokens ≡ some row
      → out.outage w.effects ≡ false
      → get_refresh_token out jti w ≡ (ok row, record w { effects = suc w.effects })
  unfolding get_refresh_token statement
  get_refresh_token-found jti row w e up = rw (up, e) refl

  -- A token of a family that is over is refused.
  pub refresh_claimed-IsRefused :
      (jti : Text) (row : RefreshToken) (w : World)
      → find (has_jti jti) w.db.tokens ≡ some row
      → IsOver row.family_id w.db.tokens
      → IsRefused (refresh_claimed out auth grace jti w).0
  unfolding refresh_claimed get_refresh_token row_or_none statement
  refresh_claimed-IsRefused jti row w e over = elim (Bool-cases (out.outage w.effects)) [
    | inl down ↦ rw down (inr refl)
    | inr up ↦
        let (at, revoked) = revoked_of (
          IsOver-find row.family_id (has_jti jti) w.db.tokens row over e
            (same_refl row.family_id)) in
        rw (up, e) (decide_row-IsRefused row at (record w { effects = suc w.effects }) revoked over)
  ]
    where
      revoked_of : is_active row ≡ false → (at : ℕ) × (row.revoked_at ≡ some at)
      revoked_of h = ground arith

  end_family_ends :
      (row : RefreshToken) (w : World)
      → out.outage (suc w.effects) ≡ false
      → IsOver row.family_id (end_family out auth grace (ok row) w).1.db.tokens
  unfolding end_family revoke_refresh_family time_now statement
  end_family_ends row w up =
      rw up (update-IsOver_family row.family_id (out.clock w.effects) w.db.tokens)

  end_session_ends :
      (id : Text) (row : RefreshToken) (w : World)
      → out.outage w.effects ≡ false
      → out.outage (suc (suc w.effects)) ≡ false
      → id ≢ []
      → find (has_jti id) w.db.tokens ≡ some row
      → IsOver row.family_id (end_session out auth grace id w).1.db.tokens
  unfolding end_session
  end_session_ends [] row w reads writes named e = absurd (named refl)
  end_session_ends (r ∷ rs) row w reads writes named e =
      rw (get_refresh_token-found (r ∷ rs) row w e reads)
        (end_family_ends row (record w { effects = suc w.effects }) writes)

  logout-world :
      (token : Text) (claims : Claims) (w : World)
      → out.parse auth.secret (out.clock w.effects) token ≡ some claims
      → (logout out auth grace (some token) w).1
        ≡ (end_session out auth grace claims.id (record w { effects = suc w.effects })).1
  unfolding logout end_cookie time_now
  logout-world token claims w parsed = ground arith

  -- The database answers the two statements of a logout: reading the row, and revoking the family.
  pub record Answers (w : World) : Type 0 where
    pub reads : out.outage (suc w.effects) ≡ false
    pub writes : out.outage (suc (suc (suc w.effects))) ≡ false

  -- Logging out with the cookie of a session ends the session's whole family.
  pub logout_ends :
      (token : Text) (claims : Claims) (row : RefreshToken) (w : World)
      → Answers w
      → out.parse auth.secret (out.clock w.effects) token ≡ some claims
      → claims.id ≢ []
      → find (has_jti claims.id) w.db.tokens ≡ some row
      → IsOver row.family_id (logout out auth grace (some token) w).1.db.tokens
  logout_ends token claims row w up parsed named e = rw (logout-world token claims w parsed) (
      end_session_ends claims.id row (record w { effects = suc w.effects }) up.reads up.writes named
        e)

  -- The world after a logout and then other requests.
  abbrev pub after_logout : Text → World → List Request → World
  after_logout token w rs = serve_all out auth grace rs (logout out auth grace (some token) w).1

  -- Logging out is final, if it works. Log out with the cookie of a session, a valid token whose row
  -- is stored, while the database answers the two statements of this logout. Then serve any
  -- refreshes and logouts, during which the database may fail at any statement: a refresh with any
  -- token whose row is of the session's family is refused, whether the database answers it or not.
  -- The random source is taken not to draw the family's identifier.
  pub logout_final :
      (token : Text) (claims : Claims) (row : RefreshToken) (w : World) (rs : List Request)
      → Answers w
      → IsFresh out row.family_id
      → out.parse auth.secret (out.clock w.effects) token ≡ some claims
      → claims.id ≢ []
      → find (has_jti claims.id) w.db.tokens ≡ some row
      → (jti : Text) (later : RefreshToken)
      → find (has_jti jti) (after_logout token w rs).db.tokens ≡ some later
      → later.family_id ≡ row.family_id
      → IsRefused (refresh_claimed out auth grace jti (after_logout token w rs)).0
  logout_final token claims row w rs up fresh parsed named e jti later found family =
      refresh_claimed-IsRefused jti later (after_logout token w rs) found (
        rw family (
          serve_all-IsOver row.family_id out auth grace rs (logout out auth grace (some token) w).1
            fresh (logout_ends token claims row w up parsed named e)))

  decide_row_replayed :
      (row : RefreshToken) (at : ℕ) (w : World)
      → out.outage (suc w.effects) ≡ false
      → out.outage (suc (suc (suc (suc w.effects)))) ≡ false
      → at + grace < out.clock (suc (suc w.effects))
      → out.clock (suc (suc w.effects)) < row.expires_at
      → row.revoked_at ≡ some at
      → any (is_live row.family_id (out.clock w.effects)) w.db.tokens ≡ true
      → let (r, w') = decide_row out auth grace (some row) w in
        (r ≡ err end_refresh_session) × IsOver row.family_id w'.db.tokens
  unfolding decide_row load_state ask_family family_has_active_token time_now statement act decide
      decide_revoked revoke_refresh_family
  decide_row_replayed row at w asks writes late young revoked alive =
      let n = w.effects in
      ground (
        arith,
        asks,
        writes,
        update-IsOver_family row.family_id (out.clock (suc (suc (suc n)))) w.db.tokens,
      )

  -- Replaying a consumed token that has not expired, after the grace and while its family is alive,
  -- is answered 401 like a token that is unknown and ends the whole family, if the database answers
  -- the request's three statements: reading the row, asking for the family, and revoking it. The
  -- family's query reads the clock at the second effect of the request, and the decision, which
  -- compares the expiry and the grace with it, at the fourth.
  pub replay_ends :
      (jti : Text) (row : RefreshToken) (at : ℕ) (w : World)
      → out.outage w.effects ≡ false
      → out.outage (suc (suc w.effects)) ≡ false
      → out.outage (suc (suc (suc (suc (suc w.effects))))) ≡ false
      → at + grace < out.clock (suc (suc (suc w.effects)))
      → out.clock (suc (suc (suc w.effects))) < row.expires_at
      → find (has_jti jti) w.db.tokens ≡ some row
      → row.revoked_at ≡ some at
      → any (is_live row.family_id (out.clock (suc w.effects))) w.db.tokens ≡ true
      → let (r, w') = refresh_claimed out auth grace jti w in
        (r ≡ err end_refresh_session) × IsOver row.family_id w'.db.tokens
  unfolding refresh_claimed row_or_none
  replay_ends jti row at w reads asks writes late young e revoked alive =
      rw (get_refresh_token-found jti row w e reads) (
        decide_row_replayed row at (record w { effects = suc w.effects }) asks writes late young
          revoked alive)

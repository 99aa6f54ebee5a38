-- ===== src/Api/Session/Issue.antt =====
-- A session that is issued while nothing fails: the row, and the tokens that name it.
use toomanyhours_api.Prelude.{
  ℕ, suc, ◌≡◌, ◌≢◌, refl, false, none, some, [], ◌∷◌, ◌++◌, ok, arith, any, ◌+◌,
}
use toomanyhours_api.Text.{Text}
use toomanyhours_api.Models.{User, RefreshToken}
use toomanyhours_api.World.{World, Outside, Claims}
use toomanyhours_api.World.Exec.{time_now, statement, new_token_id}
use toomanyhours_api.Repo.RefreshTokens.{has_jti, create_refresh_token, insert_token}
use toomanyhours_api.Api.{TokenPairs}
use toomanyhours_api.Api.Auth.{
  Auth, issue_session, store_session, session_family, session_row, generate_token_pair,
  access_claims, refresh_claims,
}

-- A row that a rotation may add: active, of the family and the user, until the given time.
pub record IsSuccessor (jti family : Text) (user_id expires_at : ℕ) (t : RefreshToken)
    : Type 0 where
  pub named : t.jti ≡ jti
  pub continued : t.family_id ≡ family
  pub owned : t.user_id ≡ user_id
  pub active : t.revoked_at ≡ none
  pub lasts : t.expires_at ≡ expires_at

-- One effect later, and three.
abbrev pub next : World → World
next w = record w { effects = suc w.effects }

abbrev pub three : ℕ → ℕ
three n = suc (suc (suc n))

-- Tokens that are signed under the program's secret: one of access for the user, issued by the
-- program, and one of refreshing that names a row, and the user as its subject only. The clock is
-- read for them from the effect `k` on.
pub record IsPairFor (out : Outside) (auth : Auth) (jti : Text) (user_id k : ℕ) (pairs : TokenPairs)
    : Type 0 where
  pub access : Claims
  pub access_signed : out.sign auth.secret access ≡ some (pairs.token)
  pub access_owner : access.user_id ≡ user_id
  pub access_id : access.id ≡ []
  pub access_audience : access.audience ≡ auth.audience ∷ []
  pub access_subject : access.subject ≡ out.decimal user_id
  pub access_issuer : access.issuer ≡ auth.issuer
  pub access_lasts : access.expires_at ≡ out.clock (suc k) + auth.token_expiry
  pub refreshing : Claims
  pub refreshing_signed : out.sign auth.secret refreshing ≡ some (pairs.refresh_token)
  pub refreshing_names : refreshing.id ≡ jti
  pub refreshing_subject : refreshing.subject ≡ out.decimal user_id
  pub refreshing_issuer : refreshing.issuer ≡ []
  pub refreshing_lasts : refreshing.expires_at ≡ out.clock (three k) + auth.refresh_token_expiry

module _ (out : Outside) (auth : Auth) where
  -- Nothing of the outside fails.
  pub record IsUp : Type 0 where
    pub up : (n : ℕ) → out.outage n ≡ false
    pub signs : (c : Claims) → (t : Text) × (out.sign auth.secret c ≡ some t)

  generate_token_pair-ok :
      (id : ℕ) (jti : Text) (w : World)
      → IsUp
      → (pairs : TokenPairs) × ((generate_token_pair out auth id jti w).0 ≡ ok pairs)
        × ((generate_token_pair out auth id jti w).1.db ≡ w.db)
        × IsPairFor out auth jti id w.effects pairs
  unfolding generate_token_pair access_claims refresh_claims time_now
  generate_token_pair-ok id jti w h =
      let n = w.effects in
      let (a, ea) = h.signs (access_claims out auth id (out.clock n) (out.clock (suc n))) in
      let (b, eb) = h.signs (
        refresh_claims out auth id jti (out.clock (suc (suc n))) (out.clock (suc (suc (suc n))))) in
      (
        record { token = a; refresh_token = b },
        ground (arith, ea, eb),
        ground (arith, ea, eb),
        record {
          access = access_claims out auth id (out.clock n) (out.clock (suc n));
          access_signed = ea;
          access_owner = refl;
          access_id = refl;
          access_audience = refl;
          access_subject = refl;
          access_issuer = refl;
          access_lasts = refl;
          refreshing =
              refresh_claims out auth id jti (out.clock (suc (suc n)))
                (out.clock (suc (suc (suc n))));
          refreshing_signed = eb;
          refreshing_names = refl;
          refreshing_subject = refl;
          refreshing_issuer = refl;
          refreshing_lasts = refl;
        },
      )

  -- The successor's row, and the world after its insertion.
  abbrev new_row : User → Text → Text → World → RefreshToken
  new_row u jti family w = record (session_row out auth jti family u.id (out.clock w.effects)) {
    id = w.db.next_id;
    created_at = out.clock (suc w.effects);
  }

  abbrev inserted : RefreshToken → World → World
  inserted t w = record w {
    db = record w.db { tokens = w.db.tokens ++ t ∷ []; next_id = suc w.db.next_id };
    effects = suc (suc (suc w.effects));
  }

  store_session-ok :
      (u : User) (jti family : Text) (w : World)
      → IsUp
      → any (has_jti jti) w.db.tokens ≡ false
      → (pairs : TokenPairs) × (t : RefreshToken) × ((store_session out auth u jti family w).0
          ≡ ok pairs)
        × ((store_session out auth u jti family w).1.db.tokens ≡ w.db.tokens ++ t ∷ [])
        × IsSuccessor jti family u.id (out.clock w.effects + auth.refresh_token_expiry) t
        × IsPairFor out auth jti u.id (three w.effects) pairs
  unfolding store_session create_refresh_token insert_token time_now statement session_row
  store_session-ok u jti family w h fresh =
      let t = new_row u jti family w in
      let (pairs, e, same_db, signed) = generate_token_pair-ok u.id jti (inserted t w) h in
      (
        pairs,
        t,
        ground (arith, h.up (suc (suc w.effects)), fresh, e),
        ground (arith, h.up (suc (suc w.effects)), fresh, same_db),
        record { named = refl; continued = refl; owned = refl; active = refl; lasts = refl },
        signed,
      )

  pub issue_session-ok :
      (u : User) (jti family : Text) (w : World)
      → IsUp
      → family ≢ []
      → out.random w.effects ≡ some jti
      → any (has_jti jti) w.db.tokens ≡ false
      → (pairs : TokenPairs) × (t : RefreshToken) × ((issue_session out auth u family w).0
          ≡ ok pairs)
        × ((issue_session out auth u family w).1.db.tokens ≡ w.db.tokens ++ t ∷ [])
        × IsSuccessor jti family u.id (out.clock (suc w.effects) + auth.refresh_token_expiry) t
        × IsPairFor out auth jti u.id (suc (three w.effects)) pairs
  unfolding issue_session session_family new_token_id
  issue_session-ok u jti [] w h named drawn fresh = absurd (named refl)
  issue_session-ok u jti (f ∷ fs) w h named drawn fresh =
      let w' = record w { effects = suc w.effects } in
      let (pairs, t, e, added, successor, signed) = store_session-ok u jti (f ∷ fs) w' h fresh in
      (pairs, t, ground (arith, drawn, e), ground (arith, drawn, added), successor, signed)

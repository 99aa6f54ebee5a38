-- ===== src/Api/Session/Over.antt =====
-- A session that is over stays over: no refresh brings a family without an active token back.
use mathlib.Core.Path.{subst}
use toomanyhours_api.Prelude.{
  ℕ, ◌≡◌, refl, ◌⊎◌, inl, inr, Bool, true, false, Option, none, some, [], ◌∷◌, Result, ok, err,
  Option-cases, Bool-cases, arith, is_some, find,
}
use toomanyhours_api.Text.{Text, same, same→eq}
use toomanyhours_api.Models.{RefreshToken, User}
use toomanyhours_api.Refresh.{
  State, Decision, accept, reject_unknown, reject_expired, reject_revoked, reuse_detected, decide,
  decide_revoked,
}
use toomanyhours_api.World.{
  World, Outside, DbError, record_not_found, no_rows, duplicated_key, unavailable,
}
use toomanyhours_api.World.Exec.{◌>>=◌, or_else, time_now, statement, new_token_id, attempt}
use toomanyhours_api.World.Keeps.{
  Keeps, keeps_rules, Keeps-bind, Keeps-time_now, Keeps-bind_yields, Keeps-new_token_id,
  Keeps-attempt,
}
use toomanyhours_api.Repo.RefreshTokens.{
  family_has_active_token, get_refresh_token, is_active, has_jti, create_refresh_token,
}
use toomanyhours_api.Repo.RefreshTokens.Family.{
  OverIn, IsOver-find, create_refresh_token-OverIn, get_refresh_token-OverIn,
  revoke_refresh_token-OverIn, family_has_active_token-OverIn, revoke_refresh_family-OverIn,
  family_has_active_token-false,
}
use toomanyhours_api.Repo.Users.Reads.{get_user_by_id-Keeps}
use toomanyhours_api.Api.{Response}
use toomanyhours_api.Api.Auth.{Auth, issue_session, session_family, session_row, store_session}
use toomanyhours_api.Api.Session.{
  row_or_none, ask_family, load_state, rotate, act, refresh_claimed, could_not_refresh, decide_row,
}
use toomanyhours_api.Api.Session.Steps.{
  or_no_session-Keeps, generate_token_pair-Keeps, session_family-Keeps, row_or_none-Keeps,
}

-- The random source never draws the identifier of the family.
abbrev pub IsFresh : Outside → Text → Type 0
IsFresh out f = (n : ℕ) (x : Text) → out.random n ≡ some x → same x f ≡ false

module _ (f : Text) (out : Outside) (auth : Auth) (grace : ℕ) where
  row-OverIn :
      (jti g : Text) (id now : ℕ)
      → same g f ≡ false
      → Keeps (OverIn f) (create_refresh_token out (session_row out auth jti g id now))
  row-OverIn jti g id now h = create_refresh_token-OverIn f out _ (unfold session_row in h)

  -- The family of a new session is not the one that is over.
  session_family-other :
      (g : Text)
      → IsFresh out f
      → same g f ≡ false
      → (w : World) (x : Text) → (session_family out auth g w).0 ≡ ok x
      → same x f ≡ false
  unfolding session_family new_token_id
  session_family-other [] fresh h w x e = ground (arith, fresh w.effects x)
  session_family-other (r ∷ rs) fresh h w x e = ground arith

  store_session-OverIn :
      (u : User) (jti g : Text)
      → same g f ≡ false
      → Keeps (OverIn f) (store_session out auth u jti g)
  unfolding store_session
  store_session-OverIn u jti g h =
      search (keeps_rules, row-OverIn, generate_token_pair-Keeps) depth 10

  -- A session that is issued in another family, or in a fresh one, leaves the family over.
  pub issue_session-OverIn :
      (u : User) (g : Text)
      → IsFresh out f
      → same g f ≡ false
      → Keeps (OverIn f) (issue_session out auth u g)
  unfolding issue_session
  issue_session-OverIn u g fresh h = Keeps-bind _ _ (Keeps-new_token_id out) λ new.
      Keeps-bind _ _ (or_no_session-Keeps new) λ jti.
        Keeps-bind_yields (λ x. same x f ≡ false) (session_family out auth g)
          (store_session out auth u jti) (session_family-Keeps out auth g)
          (λ w x over e. session_family-other g fresh h w x e)
          (λ x other. store_session-OverIn u jti x other)

  rotate-OverIn :
      (row : RefreshToken)
      → IsFresh out f
      → same row.family_id f ≡ false
      → Keeps (OverIn f) (rotate out auth grace row)
  unfolding rotate
  rotate-OverIn row fresh h =
      search (keeps_rules, revoke_refresh_token-OverIn, get_user_by_id-Keeps, issue_session-OverIn)
        depth 10

  ask_family-OverIn : (g : Text) (r : Option ℕ) → Keeps (OverIn f) (ask_family out auth grace g r)
  unfolding ask_family
  ask_family-OverIn g none = search keeps_rules
  ask_family-OverIn g (some at) = search (keeps_rules, family_has_active_token-OverIn)

  load_state-OverIn : (r : Option RefreshToken) → Keeps (OverIn f) (load_state out auth grace r)
  unfolding load_state
  load_state-OverIn none = search keeps_rules
  load_state-OverIn (some row) = search (keeps_rules, ask_family-OverIn)

  -- The state of a row that may go on: it is in another family, or revoked in a dead one.
  abbrev IsStopped : State → Type 0
  IsStopped s = (s.found ≡ true) × (is_some s.revoked_at ≡ true) × (s.family_active ≡ false)

  IsStopped-decide :
      (s : State) (now : ℕ)
      → IsStopped s
      → (decide s now grace ≡ reject_expired) ⊎ (decide s now grace ≡ reject_revoked)
  unfolding decide decide_revoked
  IsStopped-decide s now h = ground arith

  ask_family-false :
      (g : Text) (at : ℕ) (w : World) (b : Bool)
      → same g f ≡ true
      → OverIn f w.db
      → (ask_family out auth grace g (some at) w).0 ≡ ok b
      → b ≡ false
  unfolding ask_family
  ask_family-false g at w b h over e =
      family_has_active_token-false f out w b over (rw (← same→eq g f h) (asked g e))
    where
      asked :
          (j : Text)
          → (or_else {F = Response} (family_has_active_token out j) (λ _. could_not_refresh) w).0
            ≡ ok b
          → (family_has_active_token out j w).0 ≡ ok b
      asked j k = ground arith

  load_state-IsStopped :
      (row : RefreshToken) (w : World) (s : State)
      → same row.family_id f ≡ true
      → is_active row ≡ false
      → OverIn f w.db
      → (load_state out auth grace (some row) w).0 ≡ ok s
      → IsStopped s
  unfolding load_state
  load_state-IsStopped row w s h k over e = elim (Option-cases row.revoked_at) [
    | inl active ↦ ground arith
    | inr (at, revoked) ↦ ground (arith, ask_family-false row.family_id at w s.family_active h over)
  ]

  -- A row that the database holds: if it is of the family, it is revoked.
  abbrev IsSettled : RefreshToken → Type 0
  IsSettled row = same row.family_id f ≡ true → is_active row ≡ false

  abbrev SettledResult : Result DbError RefreshToken → Type 0
  SettledResult (ok row) = IsSettled row
  SettledResult (err e) = Unit

  abbrev SettledOption : Option RefreshToken → Type 0
  SettledOption (some row) = IsSettled row
  SettledOption none = Unit

  get_refresh_token-settled :
      (jti : Text) (w : World) → OverIn f w.db → SettledResult (get_refresh_token out jti w).0
  unfolding get_refresh_token statement
  get_refresh_token-settled jti w over = elim (Bool-cases (out.outage w.effects)) [
    | inl down ↦ rw (down, get_refresh_token, statement) tt
    | inr up ↦ elim (Option-cases (find (has_jti jti) w.db.tokens)) [
      | inl e ↦ rw (up, e, get_refresh_token, statement) tt
      | inr (row, e) ↦
          rw (up, e, get_refresh_token, statement)
            (IsOver-find f (has_jti jti) w.db.tokens row over e)
    ]
  ]

  row_or_none-settled :
      (r : Result DbError RefreshToken) (w : World) (row : Option RefreshToken)
      → SettledResult r
      → (row_or_none out auth grace r w).0 ≡ ok row
      → SettledOption row
  unfolding row_or_none
  row_or_none-settled (ok t) w row h e = let p : some t ≡ row = cc in subst SettledOption p h
  row_or_none-settled (err record_not_found) w row h e =
      let p : none ≡ row = cc in subst SettledOption p tt
  row_or_none-settled (err no_rows) w row h e = cc
  row_or_none-settled (err duplicated_key) w row h e = cc
  row_or_none-settled (err unavailable) w row h e = cc

  act-OverIn :
      (row : Option RefreshToken) (d : Decision)
      → IsFresh out f
      → ((r : RefreshToken) → row ≡ some r → d ≡ accept → same r.family_id f ≡ false)
      → Keeps (OverIn f) (act out auth grace row d)
  unfolding act
  act-OverIn none reject_unknown fresh h = search keeps_rules
  act-OverIn none reject_expired fresh h = search keeps_rules
  act-OverIn none reject_revoked fresh h = search keeps_rules
  act-OverIn none reuse_detected fresh h = search keeps_rules
  act-OverIn none accept fresh h = search keeps_rules
  act-OverIn (some row) reject_unknown fresh h = search keeps_rules
  act-OverIn (some row) reject_expired fresh h = search keeps_rules
  act-OverIn (some row) reject_revoked fresh h = search keeps_rules
  act-OverIn (some row) reuse_detected fresh h = search (keeps_rules, revoke_refresh_family-OverIn)
  act-OverIn (some row) accept fresh h = rotate-OverIn row fresh (h row refl refl)

  load_state-settles :
      (row : Option RefreshToken) (w : World) (s : State)
      → SettledOption row
      → OverIn f w.db
      → (load_state out auth grace row w).0 ≡ ok s
      → (r : RefreshToken) → row ≡ some r
      → same r.family_id f ≡ true
      → IsStopped s
  load_state-settles none w s h over e r p k = absurd (cc)
  load_state-settles (some t) w s h over e r p k =
      let q : r ≡ t = cc in
      let k' : same t.family_id f ≡ true = rw (← q) k in load_state-IsStopped t w s k' (h k') over e

  decide_row-OverIn :
      (row : Option RefreshToken)
      → IsFresh out f
      → SettledOption row
      → Keeps (OverIn f) (decide_row out auth grace row)
  unfolding decide_row
  decide_row-OverIn row fresh h =
      Keeps-bind_yields
        (λ s. (r : RefreshToken) → row ≡ some r → same r.family_id f ≡ true → IsStopped s)
        (load_state out auth grace row)
        (λ s. time_now out >>= λ now. act out auth grace row (decide s now grace))
        (load_state-OverIn row) (λ w s over e. load_state-settles row w s h over e)
        (λ s stopped. Keeps-bind _ _ (Keeps-time_now out) λ now.
          act-OverIn row (decide s now grace) fresh
            (λ r p accepted. other s now stopped r p accepted))
    where
      other :
          (s : State) (now : ℕ)
          → ((r : RefreshToken) → row ≡ some r → same r.family_id f ≡ true → IsStopped s)
          → (r : RefreshToken) → row ≡ some r
          → decide s now grace ≡ accept
          → same r.family_id f ≡ false
      other s now stopped r p accepted = elim (Bool-cases (same r.family_id f)) [
        | inl k ↦ elim (IsStopped-decide s now (stopped r p k)) [
          | inl e ↦ absurd (cc)
          | inr e ↦ absurd (cc)
        ]
        | inr k ↦ k
      ]

  pub refresh_claimed-OverIn :
      (jti : Text) → IsFresh out f → Keeps (OverIn f) (refresh_claimed out auth grace jti)
  unfolding refresh_claimed
  refresh_claimed-OverIn jti fresh =
      Keeps-bind_yields SettledResult (attempt {F = Response} (get_refresh_token out jti))
        (λ found. row_or_none out auth grace found >>= decide_row out auth grace)
        (Keeps-attempt _ (get_refresh_token-OverIn f out jti))
        (λ w found over e.
          let p : (get_refresh_token out jti w).0 ≡ found = cc in
          subst SettledResult p (get_refresh_token-settled jti w over))
        (λ found settled.
          Keeps-bind_yields SettledOption (row_or_none out auth grace found)
            (decide_row out auth grace) (row_or_none-Keeps out auth grace found)
            (λ w row over e. row_or_none-settled found w row settled e)
            (λ row h. decide_row-OverIn row fresh h))

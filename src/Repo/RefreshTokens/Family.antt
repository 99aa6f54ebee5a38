-- ===== src/Repo/RefreshTokens/Family.antt =====
-- A family of refresh tokens with no active token, and what the queries make of it.
use toomanyhours_api.Prelude.{
  ℕ, ◌≡◌, refl, Bool, true, false, ◌&&◌, some, List, [], ◌∷◌, ◌++◌, ok, arith, update, any, find,
  select,
}
use toomanyhours_api.Text.{Text, same}
use toomanyhours_api.Models.{RefreshToken}
use toomanyhours_api.World.{World, Db, Outside}
use toomanyhours_api.World.Exec.{statement, time_now}
use toomanyhours_api.World.Keeps.{Keeps, Keeps-bind, Keeps-time_now, Keeps-statement}
use toomanyhours_api.Repo.RefreshTokens.{
  is_active, is_live, revoke, insert_token, create_refresh_token, get_refresh_token,
  revoke_refresh_token, family_has_active_token, revoke_refresh_family,
  delete_expired_refresh_tokens,
}

-- Some token of the family is not revoked.
unfoldable pub has_active : Text → List RefreshToken → Bool
has_active f = any (λ t. same t.family_id f && is_active t)

-- The family is over.
abbrev pub IsOver : Text → List RefreshToken → Type 0
IsOver f ts = has_active f ts ≡ false

module _ (f : Text) where
  -- Revoking the family ends it.
  pub update-IsOver_family :
      (now : ℕ) (ts : List RefreshToken)
      → IsOver f (update (λ t. same t.family_id f && is_active t) (revoke now) ts)
  unfolding has_active any update
  update-IsOver_family now [] = refl
  update-IsOver_family now (t ∷ ts) = ground (arith, update-IsOver_family now ts)

  -- Revoking any tokens makes none active.
  pub update-IsOver :
      (p : RefreshToken → Bool) (now : ℕ) (ts : List RefreshToken)
      → IsOver f ts
      → IsOver f (update p (revoke now) ts)
  unfolding has_active any update
  update-IsOver p now [] h = refl
  update-IsOver p now (t ∷ ts) h = ground (arith, update-IsOver p now ts)

  pub append-IsOver :
      (ts : List RefreshToken) (t : RefreshToken)
      → IsOver f ts
      → same t.family_id f ≡ false
      → IsOver f (ts ++ t ∷ [])
  unfolding has_active any
  append-IsOver [] t h k = ground arith
  append-IsOver (u ∷ ts) t h k = ground (arith, append-IsOver ts t)

  pub select-IsOver :
      (p : RefreshToken → Bool) (ts : List RefreshToken) → IsOver f ts → IsOver f (select p ts)
  unfolding has_active any select
  select-IsOver p [] h = refl
  select-IsOver p (t ∷ ts) h = ground (arith, select-IsOver p ts)

  -- Nothing in it is alive.
  pub IsOver-any_live :
      (now : ℕ) (ts : List RefreshToken) → IsOver f ts → any (is_live f now) ts ≡ false
  unfolding has_active any
  IsOver-any_live now [] h = refl
  IsOver-any_live now (t ∷ ts) h = ground (arith, IsOver-any_live now ts)

  -- A row of it is revoked.
  pub IsOver-find :
      (p : RefreshToken → Bool) (ts : List RefreshToken) (row : RefreshToken)
      → IsOver f ts
      → find p ts ≡ some row
      → same row.family_id f ≡ true
      → is_active row ≡ false
  unfolding has_active any find
  IsOver-find p [] row h e k = ground arith
  IsOver-find p (t ∷ ts) row h e k = ground (arith, IsOver-find p ts row)

  -- The database has the family over.
  abbrev pub OverIn : Db → Type 0
  OverIn db = IsOver f db.tokens

  module _ (out : Outside) where
    pub create_refresh_token-OverIn :
        (t : RefreshToken) → same t.family_id f ≡ false → Keeps OverIn (create_refresh_token out t)
    unfolding create_refresh_token insert_token
    create_refresh_token-OverIn t k = Keeps-bind _ _ (Keeps-time_now out) λ now.
        Keeps-statement out _ λ db h.
          ground
            (arith, append-IsOver db.tokens (record t { created_at = now; id = db.next_id }) h k)

    pub get_refresh_token-OverIn : (jti : Text) → Keeps OverIn (get_refresh_token out jti)
    unfolding get_refresh_token
    get_refresh_token-OverIn jti = Keeps-statement out _ (λ db h. ground arith)

    pub revoke_refresh_token-OverIn : (jti : Text) → Keeps OverIn (revoke_refresh_token out jti)
    unfolding revoke_refresh_token
    revoke_refresh_token-OverIn jti =
        Keeps-bind _ _ (Keeps-time_now out)
          λ now. Keeps-statement out _ λ db h. update-IsOver _ now db.tokens h

    pub family_has_active_token-OverIn : (g : Text) → Keeps OverIn (family_has_active_token out g)
    unfolding family_has_active_token
    family_has_active_token-OverIn g =
        Keeps-bind _ _ (Keeps-time_now out) λ now. Keeps-statement out _ (λ db h. h)

    pub revoke_refresh_family-OverIn : (g : Text) → Keeps OverIn (revoke_refresh_family out g)
    unfolding revoke_refresh_family
    revoke_refresh_family-OverIn g =
        Keeps-bind _ _ (Keeps-time_now out)
          λ now. Keeps-statement out _ λ db h. update-IsOver _ now db.tokens h

    pub delete_expired-OverIn : Keeps OverIn (delete_expired_refresh_tokens out)
    unfolding delete_expired_refresh_tokens
    delete_expired-OverIn =
        Keeps-bind _ _ (Keeps-time_now out)
          λ now. Keeps-statement out _ λ db h. select-IsOver _ db.tokens h

    -- A family that is over is not alive to the query.
    pub family_has_active_token-false :
        (w : World) (b : Bool)
        → OverIn w.db
        → (family_has_active_token out f w).0 ≡ ok b
        → b ≡ false
    unfolding family_has_active_token time_now statement
    family_has_active_token-false w b h e =
        ground (arith, IsOver-any_live (out.clock w.effects) w.db.tokens h)

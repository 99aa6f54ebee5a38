-- ===== src/Repo/RefreshTokens.antt =====
-- internal/repository/dbrepo/refresh_tokens.go.
pub mod Laws
pub mod Family
use toomanyhours_api.Prelude.{
  ℕ, suc, ◌++◌, Bool, not, ◌&&◌, Option, none, some, List, [], ◌∷◌, Result, ok, err, ltb,
  if◌then◌else◌, is_some, find, select, update, any,
}
use toomanyhours_api.Text.{Text, same}
use toomanyhours_api.Models.{RefreshToken}
use toomanyhours_api.World.{World, Db, Outside, DbError, record_not_found, duplicated_key}
use toomanyhours_api.World.Exec.{Query, pure, ◌>>=◌, statement, time_now}

-- `jti = ?`.
abbrev pub has_jti : Text → RefreshToken → Bool
has_jti jti t = same t.jti jti

-- `revoked_at IS NULL`.
abbrev pub is_active : RefreshToken → Bool
is_active t = not (is_some t.revoked_at)

-- `family_id = ? AND revoked_at IS NULL AND expires_at > ?`.
abbrev pub is_live : Text → ℕ → RefreshToken → Bool
is_live family now t = same t.family_id family && is_active t && ltb now t.expires_at

-- `SET revoked_at = ?`.
abbrev pub revoke : ℕ → RefreshToken → RefreshToken
revoke now t = record t { revoked_at = some now }

-- The insertion, under the unique constraint on `jti`.
unfoldable pub insert_token : RefreshToken → Db → Result DbError (Unit {0}) × Db
insert_token t db = if any (has_jti t.jti) db.tokens then (err duplicated_key, db) else (
  ok tt,
  record db { tokens = db.tokens ++ record t { id = db.next_id } ∷ []; next_id = suc db.next_id },
)

module _ (out : Outside) where
  -- `CreateRefreshToken`. GORM fills in `created_at`.
  unfoldable pub create_refresh_token : RefreshToken → Query (Unit {0})
  unfolding insert_token
  create_refresh_token t = do
    now ← time_now out
    statement out (insert_token (record t { created_at = now }))

  -- `GetRefreshToken`.
  unfoldable pub get_refresh_token : Text → Query RefreshToken
  get_refresh_token jti = statement out λ db. (elim (find (has_jti jti) db.tokens) [
    | none ↦ (err record_not_found, db)
    | some t ↦ (ok t, db)
  ])

  -- `RevokeRefreshToken`.
  unfoldable pub revoke_refresh_token : Text → Query (Unit {0})
  revoke_refresh_token jti = do
    now ← time_now out
    statement out λ db. (
      ok tt,
      record db { tokens = update (λ t. has_jti jti t && is_active t) (revoke now) db.tokens },
    )

  -- `FamilyHasActiveToken`.
  unfoldable pub family_has_active_token : Text → Query Bool
  family_has_active_token family = do
    now ← time_now out
    statement out λ db. (ok (any (is_live family now) db.tokens), db)

  -- `RevokeRefreshFamily`.
  unfoldable pub revoke_refresh_family : Text → Query (Unit {0})
  revoke_refresh_family family = do
    now ← time_now out
    statement out λ db. (
      ok tt,
      record db {
        tokens = update (λ t. same t.family_id family && is_active t) (revoke now) db.tokens;
      },
    )

  -- `DeleteExpiredRefreshTokens`.
  unfoldable pub delete_expired_refresh_tokens : Query (Unit {0})
  delete_expired_refresh_tokens = do
    now ← time_now out
    statement out
        λ db. (ok tt, record db { tokens = select (λ t. not (ltb t.expires_at now)) db.tokens })

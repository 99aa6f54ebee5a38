-- ===== src/Repo/Avatars.antt =====
-- internal/repository/dbrepo/avatars.go: the photos of the users.
use toomanyhours_api.Prelude.{
  ℕ, ◌++◌, Bool, not, none, some, List, [], ◌∷◌, Result, ok, err, ◌==◌, if◌then◌else◌, any, find,
  update, select,
}
use toomanyhours_api.Text.{Text}
use toomanyhours_api.Models.{UserAvatar}
use toomanyhours_api.World.{Db, Outside, DbError, no_rows}
use toomanyhours_api.World.Exec.{Query, ◌>>=◌, statement, time_now}

abbrev pub is_avatar_of : ℕ → UserAvatar → Bool
is_avatar_of user_id a = a.user_id == user_id

-- The insertion, which replaces the row of the same user.
unfoldable pub upsert_avatar : UserAvatar → Db → Result DbError (Unit {0}) × Db
upsert_avatar row db = (
  ok tt,
  record db {
    avatars =
        if any (is_avatar_of row.user_id) db.avatars
        then update (is_avatar_of row.user_id)
            (λ a. record a { bytes = row.bytes; hash = row.hash; updated_at = row.updated_at })
            db.avatars
        else db.avatars ++ row ∷ [];
  },
)

-- `First`, with `gorm.ErrRecordNotFound` turned into `sql.ErrNoRows`.
unfoldable pub first_avatar : ℕ → Db → Result DbError UserAvatar × Db
first_avatar user_id db = elim (find (is_avatar_of user_id) db.avatars) [
  | none ↦ (err no_rows, db)
  | some a ↦ (ok a, db)
]

unfoldable pub drop_avatar : ℕ → Db → Result DbError (Unit {0}) × Db
drop_avatar user_id db =
    (ok tt, record db { avatars = select (λ a. not (is_avatar_of user_id a)) db.avatars })

module _ (out : Outside) where
  -- `SetUserAvatar`.
  unfoldable pub set_user_avatar : ℕ → List ℕ → Text → Query (Unit {0})
  set_user_avatar user_id bytes hash = do
    now ← time_now out
    statement out
        (upsert_avatar (record { user_id = user_id; bytes = bytes; hash = hash; updated_at = now }))

  -- `GetUserAvatar`.
  unfoldable pub get_user_avatar : ℕ → Query UserAvatar
  get_user_avatar user_id = statement out (first_avatar user_id)

  -- `DeleteUserAvatar`.
  unfoldable pub delete_user_avatar : ℕ → Query (Unit {0})
  delete_user_avatar user_id = statement out (drop_avatar user_id)

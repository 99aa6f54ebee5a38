-- ===== src/Repo/Users.antt =====
-- internal/repository/dbrepo/postgres_dbrepol.go: the accounts.
pub mod Reads
use toomanyhours_api.Prelude.{
  ℕ, suc, ◌++◌, Bool, not, ◌&&◌, ◌||◌, Option, none, some, List, [], ◌∷◌, Result, ok, err, ◌==◌,
  if◌then◌else◌, find, update, any,
}
use toomanyhours_api.Text.{Text, same}
use toomanyhours_api.Models.{User}
use toomanyhours_api.World.{World, Db, Outside, DbError, no_rows, record_not_found, duplicated_key}
use toomanyhours_api.World.Exec.{Query, pure, ◌>>=◌, statement, time_now}

-- `First`, with `gorm.ErrRecordNotFound` turned into `sql.ErrNoRows`.
unfoldable pub first_user : (User → Bool) → Db → Result DbError User × Db
first_user p db = elim (find p db.users) [ none ↦ (err no_rows, db) | some u ↦ (ok u, db) ]

module _ (out : Outside) where
  open out use {sql_lower}

  -- The indexes users_username_lower_idx and users_email_lower_idx.
  abbrev pub same_username : Text → User → Bool
  same_username name u = same (sql_lower u.username) (sql_lower name)

  abbrev pub same_email : Text → User → Bool
  same_email addr u = same (sql_lower u.email) (sql_lower addr)

  -- `GetUserByEmail`.
  unfoldable pub get_user_by_email : Text → Query User
  unfolding first_user
  get_user_by_email email = statement out (first_user λ u. same u.email email)

  -- `GetUserByUsername`.
  unfoldable pub get_user_by_username : Text → Query User
  unfolding first_user
  get_user_by_username username =
      statement out (first_user λ u. same (sql_lower u.username) username)

  -- `GetUserByID`.
  unfoldable pub get_user_by_id : ℕ → Query User
  unfolding first_user
  get_user_by_id id = statement out (first_user λ u. u.id == id)

  -- The insertion, under the two unique indexes.
  unfoldable pub insert_user : User → Db → Result DbError User × Db
  insert_user u db =
      if any (λ v. same_username u.username v || same_email u.email v) db.users
      then (err duplicated_key, db)
      else (
        ok (record u { id = db.next_id }),
        record db {
          users = db.users ++ record u { id = db.next_id } ∷ [];
          next_id = suc db.next_id;
        },
      )

  -- `CreateUser`, with the row as GORM completes it.
  unfoldable pub create_user : User → Query User
  unfolding insert_user
  create_user u = do
    now ← time_now out
    statement out (insert_user (record u { created_at = now; updated_at = now }))

  -- `UPDATE users SET username, visibility, bio, updated_at WHERE id = ?`.
  abbrev pub update_row : User → ℕ → User → User
  update_row u now v = record v {
    username = u.username;
    visibility = u.visibility;
    bio = u.bio;
    updated_at = now;
  }

  unfoldable pub write_user : User → ℕ → Db → Result DbError (Unit {0}) × Db
  write_user u now db =
      if not (any (λ v. v.id == u.id) db.users)
      then (err record_not_found, db)
      else if any (λ v. not (v.id == u.id) && same_username u.username v) db.users
      then (err duplicated_key, db)
      else (ok tt, record db { users = update (λ v. v.id == u.id) (update_row u now) db.users })

  -- `UpdateUser`.
  unfoldable pub update_user : User → Query (Unit {0})
  unfolding write_user
  update_user u = do now ← time_now out; statement out (write_user u now)

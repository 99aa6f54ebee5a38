-- ===== src/Repo/Users/Reads.antt =====
-- Reading an account changes no table.
use toomanyhours_api.Prelude.{ℕ, ◌≡◌, arith, Bool, ◌==◌}
use toomanyhours_api.Models.{User}
use toomanyhours_api.World.{Db, Outside}
use toomanyhours_api.World.Keeps.{Keeps, Keeps-statement}
use toomanyhours_api.Repo.Users.{first_user, get_user_by_id}

first_user-db : (p : User → Bool) (db : Db) → (first_user p db).1 ≡ db
unfolding first_user
first_user-db p db = ground arith

module _ {P : Db → Type 0} (out : Outside) where
  pub get_user_by_id-Keeps : (id : ℕ) → Keeps P (get_user_by_id out id)
  unfolding get_user_by_id
  get_user_by_id-Keeps id =
      Keeps-statement out _ (λ db h. rw (first_user-db (λ u. u.id == id) db) h)

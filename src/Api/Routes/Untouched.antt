-- ===== src/Api/Routes/Untouched.antt =====
-- The handlers of cmd/api outside of the sessions that do not write to the accounts.
use toomanyhours_api.Repo.Catalog.Lists.{IsApart}
use toomanyhours_api.World.Content.{IsOfContent, IsOfPeople}
use toomanyhours_api.Prelude.{ℕ, Option, none, some, Result, ok, err, arith}
use toomanyhours_api.Text.{Text}
use toomanyhours_api.Validate.Rating.{Float64}
use toomanyhours_api.Models.{User, UserGameUpdate, UserGame}
use toomanyhours_api.World.{Db, Outside, DbError}
use toomanyhours_api.World.Exec.{statement, time_now}
use toomanyhours_api.World.Keeps.{
  Keeps, keeps_rules, Keeps-bind, Keeps-time_now, Keeps-statement, Keeps-either,
}
use toomanyhours_api.Igdb.Client.{Config}
use toomanyhours_api.Repo.UserGames.{
  add_user_game, update_user_game, delete_user_game, insert_entry, write_entry, drop_entry,
  new_entry,
}
use toomanyhours_api.Api.{UserContext}
use toomanyhours_api.Api.Auth.{Auth}
use toomanyhours_api.Api.Accounts.{
  LoginPayload, check_ip, check_email, login_blocked, record_login_failure, reset_login,
  refuse_login, log_in, check_password, attempt_login, authenticate,
}
use toomanyhours_api.Api.Accounts.Stored.{issue_session-Keeps}
use toomanyhours_api.Api.Games.{
  PostPayload, PatchPayload, post_entry, post_my_game, patch_game, patch_entry, patch_my_game,
  delete_entry, delete_my_game,
}
use toomanyhours_api.Api.Games.Rules.{
  current_user_id-Keeps, or_respond-Keeps, or_invalid-Keeps, first_id-Keeps, require-Keeps,
  first_entry-Keeps, checked_patch-Keeps, import_igdb_games-apart,
}
use toomanyhours_api.Api.Routes.Reads.{get_user_by_email-Keeps, or_recover-Keeps}
use toomanyhours_api.Api.Routes.Users.{delete_expired-Keeps}

-- The limiters of logins are not of the database.
module _ {P : Db → Type 0} (out : Outside) where
  check_ip-Keeps : (auth : Auth) (key : Text) → Keeps P (check_ip out auth key)
  unfolding check_ip
  check_ip-Keeps auth key = record { at = λ w h. (or_recover-Keeps {P = P} out _).at _ h }

  check_email-Keeps : (auth : Auth) (key : Text) → Keeps P (check_email out auth key)
  unfolding check_email
  check_email-Keeps auth key = record { at = λ w h. (or_recover-Keeps {P = P} out _).at _ h }

  login_blocked-Keeps : (auth : Auth) (ip key : Text) → Keeps P (login_blocked out auth ip key)
  unfolding login_blocked
  login_blocked-Keeps auth ip key = search (keeps_rules, check_ip-Keeps, check_email-Keeps) depth 10

  refuse_login-Keeps : (auth : Auth) (ip key : Text) → Keeps P (refuse_login out auth ip key)
  unfolding refuse_login record_login_failure time_now
  refuse_login-Keeps auth ip key = record { at = λ w h. h }

  reset_login-Keeps : (auth : Auth) (ip key : Text) → Keeps P (reset_login out auth ip key)
  unfolding reset_login
  reset_login-Keeps auth ip key = record { at = λ w h. h }

module _ {P : Db → Type 0} (p : IsOfContent P) (out : Outside) where
  module _ (auth : Auth) where
    log_in-Keeps : (u : User) (ip key : Text) → Keeps P (log_in out auth u ip key)
    unfolding log_in
    log_in-Keeps u ip key =
        search (keeps_rules, reset_login-Keeps, delete_expired-Keeps, issue_session-Keeps) depth 14

    check_password-Keeps :
        (r : Result DbError User) (p ip key : Text) → Keeps P (check_password out auth r p ip key)
    unfolding check_password
    check_password-Keeps (err e) p ip key = refuse_login-Keeps out auth ip key
    check_password-Keeps (ok u) p ip key =
        Keeps-either _ _ _ (log_in-Keeps u ip key) (refuse_login-Keeps out auth ip key)

    attempt_login-Keeps :
        (l : LoginPayload) (ip : Text) (o : Option ℕ) → Keeps P (attempt_login out auth l ip o)
    unfolding attempt_login
    attempt_login-Keeps l ip none =
        search (keeps_rules, get_user_by_email-Keeps, check_password-Keeps) depth 10
    attempt_login-Keeps l ip (some d) = search keeps_rules

    pub authenticate-Keeps :
        (ip : Text) (o : Option LoginPayload) → Keeps P (authenticate out auth ip o)
    unfolding authenticate
    authenticate-Keeps ip o =
        search (keeps_rules, or_respond-Keeps, login_blocked-Keeps, attempt_login-Keeps) depth 10

module _ {P : Db → Type 0} (p : IsOfPeople P) (out : Outside) where
  people-IsApart : IsApart P
  people-IsApart = record { apart = λ old new same h. p.people old new same.users same.avatars h }

  -- The lists.
  add_user_game-Keeps :
      (u g : ℕ) (c : Text) (r : Option Float64) (t : Option Text)
      → Keeps P (add_user_game out u g c r t)
  unfolding add_user_game
  add_user_game-Keeps u g c r t =
      Keeps-bind _ _ (Keeps-time_now out)
        λ now. Keeps-bind _ _ (inserted (new_entry u g c r t now)) λ _. first_entry-Keeps out u g
    where
      inserted : (e : UserGame) → Keeps P (statement out (insert_entry e))
      inserted e =
          Keeps-statement out _
            λ db h. unfold insert_entry in p.people db _ (ground arith) (ground arith) h

  update_user_game-Keeps : (u g : ℕ) (upd : UserGameUpdate) → Keeps P (update_user_game out u g upd)
  unfolding update_user_game
  update_user_game-Keeps u g upd =
      Keeps-bind _ _ (Keeps-time_now out)
        λ now. Keeps-bind _ _ (written now) λ _. first_entry-Keeps out u g
    where
      written : (now : ℕ) → Keeps P (statement out (write_entry u g now upd))
      written now =
          Keeps-statement out _
            λ db h. unfold write_entry in p.people db _ (ground arith) (ground arith) h

  delete_user_game-Keeps : (u g : ℕ) → Keeps P (delete_user_game out u g)
  unfolding delete_user_game
  delete_user_game-Keeps u g =
      Keeps-statement out _
        λ db h. unfold drop_entry in p.people db _ (ground arith) (ground arith) h

  post_entry-Keeps :
      (client : Option Config) (o : Option PostPayload) (u : ℕ)
      → Keeps P (post_entry out client o u)
  unfolding post_entry
  post_entry-Keeps client o u =
      search
        (
          keeps_rules, or_respond-Keeps, or_invalid-Keeps, require-Keeps, first_id-Keeps,
          import_igdb_games-apart, people-IsApart, add_user_game-Keeps,
        )
        depth 24

  patch_game-Keeps : (o : Option PatchPayload) (u g : ℕ) → Keeps P (patch_game out o u g)
  unfolding patch_game
  patch_game-Keeps o u g =
      search
        (keeps_rules, or_respond-Keeps, require-Keeps, checked_patch-Keeps, update_user_game-Keeps)
        depth 24

  patch_entry-Keeps :
      (id : Option ℕ) (o : Option PatchPayload) (u : ℕ) → Keeps P (patch_entry out id o u)
  unfolding patch_entry
  patch_entry-Keeps id o u = search (keeps_rules, or_respond-Keeps, patch_game-Keeps)

  delete_entry-Keeps : (id : Option ℕ) (u : ℕ) → Keeps P (delete_entry out id u)
  unfolding delete_entry
  delete_entry-Keeps id u = search (keeps_rules, or_respond-Keeps, delete_user_game-Keeps) depth 10

  pub post_my_game-Keeps :
      (client : Option Config) (c : UserContext) (o : Option PostPayload)
      → Keeps P (post_my_game out client c o)
  unfolding post_my_game
  post_my_game-Keeps client c o =
      Keeps-bind _ _ (current_user_id-Keeps c) λ id. post_entry-Keeps client o id

  pub patch_my_game-Keeps :
      (c : UserContext) (id : Option ℕ) (o : Option PatchPayload)
      → Keeps P (patch_my_game out c id o)
  unfolding patch_my_game
  patch_my_game-Keeps c id o =
      Keeps-bind _ _ (current_user_id-Keeps c) λ u. patch_entry-Keeps id o u

  pub delete_my_game-Keeps : (c : UserContext) (id : Option ℕ) → Keeps P (delete_my_game out c id)
  unfolding delete_my_game
  delete_my_game-Keeps c id = Keeps-bind _ _ (current_user_id-Keeps c) λ u. delete_entry-Keeps id u

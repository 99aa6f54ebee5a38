-- ===== src/Api/Routes/Reads.antt =====
-- The handlers of cmd/api that write to no table.
use toomanyhours_api.Prelude.{ℕ, Option, none, some, Result, ok, err, arith}
use toomanyhours_api.Prelude.Int.{ℤ}
use toomanyhours_api.Text.{Text}
use toomanyhours_api.Validate.{Error}
use toomanyhours_api.Models.{User}
use toomanyhours_api.Ratelimit.{Answer, allowed, refused, panics}
use toomanyhours_api.World.{Db, Outside}
use toomanyhours_api.World.Exec.{time_now}
use toomanyhours_api.World.Keeps.{Keeps, keeps_rules, Keeps-attempt, Keeps-statement}
use toomanyhours_api.Igdb.Client.{Config}
use toomanyhours_api.Igdb.Rules.{search_games-Keeps, get_dlcs-Keeps}
use toomanyhours_api.Repo.Users.{get_user_by_email, get_user_by_username, first_user}
use toomanyhours_api.Repo.UserGames.{get_user_games, list_entries}
use toomanyhours_api.Api.Accounts.{or_recover}
use toomanyhours_api.Api.Games.Rules.{or_respond-Keeps, require-Keeps}
use toomanyhours_api.Api.Catalog.{search_games_handler, search_limit, get_game_dlcs}
use toomanyhours_api.Api.Me.{home, ping}
use toomanyhours_api.Api.Me.Rules.{get_user_avatar-Keeps}
use toomanyhours_api.Api.Profiles.{show_profile, get_profile, show_photo, get_profile_avatar}
use toomanyhours_api.Api.Usernames.{
  check_checks, record_check, unless_refused, username_check_blocked, look_up_name, answer_check,
  check_username,
}

-- Reads, for any property of the database.
module _ {P : Db → Type 0} (out : Outside) where
  pub get_user_by_email-Keeps : (t : Text) → Keeps P (get_user_by_email out t)
  unfolding get_user_by_email first_user
  get_user_by_email-Keeps t = Keeps-statement out _ λ db h. ground (arith, h)

  pub get_user_by_username-Keeps : (t : Text) → Keeps P (get_user_by_username out t)
  unfolding get_user_by_username first_user
  get_user_by_username-Keeps t = Keeps-statement out _ λ db h. ground (arith, h)

  pub get_user_games-Keeps : (id : ℕ) → Keeps P (get_user_games out id)
  unfolding get_user_games list_entries
  get_user_games-Keeps id = Keeps-statement out _ λ db h. h

  ping-Keeps : Keeps P (ping out)
  unfolding ping
  ping-Keeps = Keeps-attempt _ (Keeps-statement out _ λ db h. h)

  pub home-Keeps : (client : Option Config) → Keeps P (home out client)
  unfolding home
  home-Keeps client = search (keeps_rules, ping-Keeps)

  pub show_profile-Keeps : (u : User) → Keeps P (show_profile out u)
  unfolding show_profile
  show_profile-Keeps u =
      search (keeps_rules, require-Keeps, get_user_games-Keeps, get_user_avatar-Keeps) depth 14

  pub get_profile-Keeps : (t : Text) → Keeps P (get_profile out t)
  unfolding get_profile
  get_profile-Keeps t =
      search (keeps_rules, require-Keeps, get_user_by_username-Keeps, show_profile-Keeps) depth 14

  show_photo-Keeps : (t : Text) (u : User) → Keeps P (show_photo out t u)
  unfolding show_photo
  show_photo-Keeps t u = search (keeps_rules, require-Keeps, get_user_avatar-Keeps) depth 14

  pub get_profile_avatar-Keeps : (t v : Text) → Keeps P (get_profile_avatar out t v)
  unfolding get_profile_avatar
  get_profile_avatar-Keeps t v =
      search (keeps_rules, require-Keeps, get_user_by_username-Keeps, show_photo-Keeps) depth 14

  -- The limiters are not of the database.
  pub or_recover-Keeps : (a : Answer) → Keeps P (or_recover a)
  or_recover-Keeps allowed = search keeps_rules
  or_recover-Keeps (refused d) = search keeps_rules
  or_recover-Keeps panics = search keeps_rules

  check_checks-Keeps : (ip : Text) → Keeps P (check_checks out ip)
  unfolding check_checks
  check_checks-Keeps ip = record { at = λ w h. (or_recover-Keeps _).at _ h }

  record_check-Keeps : (ip : Text) → Keeps P (record_check out ip)
  unfolding record_check time_now
  record_check-Keeps ip = record { at = λ w h. h }

  unless_refused-Keeps : (ip : Text) (a : Answer) → Keeps P (unless_refused out ip a)
  unfolding unless_refused
  unless_refused-Keeps ip allowed = search (keeps_rules, record_check-Keeps)
  unless_refused-Keeps ip (refused d) = search keeps_rules
  unless_refused-Keeps ip panics = search keeps_rules

  pub username_check_blocked-Keeps : (ip : Text) → Keeps P (username_check_blocked out ip)
  unfolding username_check_blocked
  username_check_blocked-Keeps ip = search (keeps_rules, check_checks-Keeps, unless_refused-Keeps)

  look_up_name-Keeps : (r : Result Error Text) → Keeps P (look_up_name out r)
  unfolding look_up_name
  look_up_name-Keeps (err e) = search keeps_rules
  look_up_name-Keeps (ok n) = search (keeps_rules, get_user_by_username-Keeps) depth 10

  answer_check-Keeps : (t : Text) (o : Option ℕ) → Keeps P (answer_check out t o)
  unfolding answer_check
  answer_check-Keeps t none = look_up_name-Keeps _
  answer_check-Keeps t (some d) = search keeps_rules

  pub check_username-Keeps : (ip t : Text) → Keeps P (check_username out ip t)
  unfolding check_username
  check_username-Keeps ip t = search (keeps_rules, username_check_blocked-Keeps, answer_check-Keeps)

  search_limit-Keeps : (o : Option (Option ℤ)) → Keeps P (search_limit o)
  unfolding search_limit
  search_limit-Keeps none = search keeps_rules
  search_limit-Keeps (some r) = search (keeps_rules, or_respond-Keeps) depth 10

  pub search_games_handler-Keeps :
      (client : Option Config) (q : Text) (o : Option (Option ℤ))
      → Keeps P (search_games_handler out client q o)
  unfolding search_games_handler
  search_games_handler-Keeps client q o =
      search (keeps_rules, or_respond-Keeps, require-Keeps, search_limit-Keeps, search_games-Keeps)
        depth 14

  pub get_game_dlcs-Keeps :
      (client : Option Config) (o : Option ℤ) → Keeps P (get_game_dlcs out client o)
  unfolding get_game_dlcs
  get_game_dlcs-Keeps client o = search (keeps_rules, or_respond-Keeps, get_dlcs-Keeps) depth 14

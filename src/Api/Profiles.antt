-- ===== src/Api/Profiles.antt =====
-- What strangers read: cmd/api/profile_handlers.go and `GetProfileAvatar`.
pub mod Shown
pub mod Photos
use toomanyhours_api.Prelude.{
  ℕ, Bool, true, false, not, ◌&&◌, ◌||◌, Option, none, some, List, [], Result, ok, err, ltb,
  if◌then◌else◌,
}
use toomanyhours_api.Text.{Text, same, byte_len, to_lower}
use toomanyhours_api.Text.Trim.{trim_space}
use toomanyhours_api.Validate.{is_empty}
use toomanyhours_api.Models.{User, UserAvatar, Entry}
use toomanyhours_api.World.{
  Outside, DbError, record_not_found, no_rows, duplicated_key, unavailable,
}
use toomanyhours_api.World.Exec.{pure, raise, ◌>>=◌, ◌>>◌, attempt, or_else}
use toomanyhours_api.Repo.Users.{get_user_by_username}
use toomanyhours_api.Repo.UserGames.{get_user_games}
use toomanyhours_api.Repo.Avatars.{get_user_avatar}
use toomanyhours_api.Api.{Response, Handler, PublicProfile, error_json, json, public_profile, photo}
use toomanyhours_api.Api.Games.{require}
use toomanyhours_api.Api.Me.{visibility_public}

-- `maxUsernameLookup`.
abbrev pub max_username_lookup : ℕ
max_username_lookup = 64

abbrev pub no_such_profile : Response
no_such_profile = error_json "No such profile" 404

abbrev pub profile_is_private : Response
profile_is_private = error_json "This profile is private" 403

abbrev pub could_not_load : Response
could_not_load = error_json "Could not load that profile" 500

-- The answers to the errors of the queries.
abbrev pub profile_failure : DbError → Response
profile_failure no_rows = no_such_profile
profile_failure record_not_found = could_not_load
profile_failure duplicated_key = could_not_load
profile_failure unavailable = could_not_load

abbrev pub photo_failure : DbError → Response
photo_failure no_rows = error_json "No photo" 404
photo_failure record_not_found = error_json "Could not load that photo" 500
photo_failure duplicated_key = error_json "Could not load that photo" 500
photo_failure unavailable = error_json "Could not load that photo" 500

-- Whether a name is looked up at all.
unfoldable pub is_lookup : Text → Bool
is_lookup name = not (is_empty name) && not (ltb max_username_lookup (byte_len name))

-- `user.Visibility == "public"`.
unfoldable pub is_public : User → Bool
is_public u = same u.visibility visibility_public

-- The hash of a photo that is read.
unfoldable pub hash_of : Result DbError UserAvatar → Option Text
hash_of (ok a) = some (a.hash)
hash_of (err e) = none

-- The profile that is shown: the fields that a stranger sees.
unfoldable pub profile_of : User → List Entry → Option Text → PublicProfile
profile_of u listed avatar_hash = record {
  username = u.username;
  bio = u.bio;
  avatar_hash = avatar_hash;
  created_at = u.created_at;
  entries = listed;
}

module _ (out : Outside) where
  -- The name of a path, brought into normal form.
  unfoldable pub lookup_name : Text → Text
  lookup_name raw = to_lower out.wide (trim_space raw)

  -- `GetProfile`, of an account that is found.
  unfoldable pub show_profile : User → Handler Response
  show_profile u = do
    require (is_public u) profile_is_private
    listed ← or_else (get_user_games out u.id) (λ _. could_not_load)
    found ← attempt (get_user_avatar out u.id)
    pure (json 200 (public_profile (profile_of u listed (hash_of found))))

  -- `GetProfile`.
  unfoldable pub get_profile : Text → Handler Response
  get_profile param = do
    require (is_lookup (lookup_name param)) no_such_profile
    u ← or_else (get_user_by_username out (lookup_name param)) profile_failure
    show_profile u

  -- `GetProfileAvatar`, of an account that is found, for the version that is asked for.
  unfoldable pub show_photo : Text → User → Handler Response
  show_photo version u = do
    require (is_public u) profile_is_private
    found ← or_else (get_user_avatar out u.id) photo_failure
    pure (json 200 (photo found.bytes found.hash (same version found.hash)))

  -- `GetProfileAvatar`: here every error of the lookup is a missing profile.
  unfoldable pub get_profile_avatar : Text → Text → Handler Response
  get_profile_avatar param version = do
    require (is_lookup (lookup_name param)) no_such_profile
    u ← or_else (get_user_by_username out (lookup_name param)) (λ _. no_such_profile)
    show_photo version u

-- ===== src/Api/Me.antt =====
-- The signed-in user's own account: cmd/api/handlers.go and cmd/api/avatar_handlers.go.
--
-- A payload is given as the decoder leaves it, none if it refuses the body.
pub mod Rules
pub mod Isolation
pub mod Stored
pub mod Photos
use toomanyhours_api.Prelude.{
  ℕ, Bool, true, false, not, ◌&&◌, ◌||◌, Option, none, some, List, [], ◌++◌, Result, ok, err,
  if◌then◌else◌, is_some,
}
use toomanyhours_api.Text.{Text, codes, same}
use toomanyhours_api.Text.Bytes.{base64}
use toomanyhours_api.Validate.{username, bio}
use toomanyhours_api.Models.{User, ApiUser, UserAvatar}
use toomanyhours_api.Images.{ImageError, not_an_image, too_large, not_processed, avatar, hash}
use toomanyhours_api.World.{
  World, Outside, DbError, record_not_found, no_rows, duplicated_key, unavailable,
}
use toomanyhours_api.World.Exec.{Exec, pure, raise, ◌>>=◌, ◌>>◌, attempt, or_else, statement}
use toomanyhours_api.Repo.Users.{get_user_by_id, update_user}
use toomanyhours_api.Repo.Avatars.{get_user_avatar, set_user_avatar, delete_user_avatar}
use toomanyhours_api.Igdb.Client.{Config}
use toomanyhours_api.Api.{
  Response, Handler, UserContext, current_user_id, or_respond, error_json, json, bad_request, user,
  health_report,
}
use toomanyhours_api.Api.Games.{or_invalid, require}

-- The payload of `PatchMe`.
pub record MePayload : Type 0 where
  pub username : Option Text
  pub visibility : Option Text
  pub bio : Option Text

-- What becomes of the form of `PutMyAvatar`: no file within the limit, a file that does not open,
-- or its bytes, if reading them does not break off.
pub data Upload : Type 0 where
  no_file cannot_open : Upload
  opened : Option (List ℕ) → Upload

abbrev pub unknown_user : Response
unknown_user = error_json "Unknown user" 404

-- `avatarDataURI`.
unfoldable pub avatar_data_uri : List ℕ → Text
unfolding base64
avatar_data_uri bytes = codes "data:image/jpeg;base64," ++ base64 bytes

-- The photo that `avatarFor` has read.
unfoldable pub inline_avatar : Result DbError UserAvatar → Option Text
unfolding avatar_data_uri
inline_avatar (ok a) = some (avatar_data_uri a.bytes)
inline_avatar (err e) = none

-- The answer of `respondWithUser`.
unfoldable pub api_user : User → Option Text → ApiUser
api_user u avatar = record {
  id = u.id;
  username = u.username;
  email = u.email;
  visibility = u.visibility;
  bio = u.bio;
  avatar = avatar;
  created_at = u.created_at;
  updated_at = u.updated_at;
}

abbrev pub visibility_public : Text
visibility_public = codes "public"

abbrev pub visibility_private : Text
visibility_private = codes "private"

-- The two values of a visibility.
unfoldable pub is_visibility : Text → Bool
is_visibility v = same v visibility_public || same v visibility_private

-- The third part of `PatchMe`: the biography, cleared by an empty text.
unfoldable pub patched_bio : Option Text → User → Handler User
patched_bio none u = pure u
patched_bio (some raw) u = do
  stored ← or_invalid "bio" (bio (some raw))
  pure (record u { bio = stored })

-- The second part: the visibility.
unfoldable pub patched_visibility : Option Text → User → Handler User
unfolding is_visibility
patched_visibility none u = pure u
patched_visibility (some v) u = do
  require (is_visibility v) (error_json "visibility must be public or private" 400)
  pure (record u { visibility = v })

abbrev pub update_failure : DbError → Response
update_failure duplicated_key = error_json "username or email already taken" 409
update_failure record_not_found = error_json "Could not update account" 500
update_failure no_rows = error_json "Could not update account" 500
update_failure unavailable = error_json "Could not update account" 500

-- The bytes of an upload.
abbrev pub or_upload : Upload → Handler (Option (List ℕ))
or_upload no_file = raise (error_json "Expected an image in the avatar field, at most 2MB" 400)
or_upload cannot_open = raise (error_json "Could not read the uploaded file" 400)
or_upload (opened bytes) = pure bytes

abbrev pub image_failure : ImageError → Response
image_failure not_an_image = error_json "That file is not a JPEG, PNG or GIF image" 400
image_failure too_large = error_json "That image is too large to process" 400
image_failure not_processed = error_json "Could not process that image" 500

abbrev pub or_image : Result ImageError (List ℕ) → Handler (List ℕ)
or_image (ok bytes) = pure bytes
or_image (err e) = raise (image_failure e)

module _ (out : Outside) where
  -- The ping of `Home`.
  unfoldable pub ping : Handler (Result DbError (Unit {0}))
  ping = attempt (statement out λ db. (ok tt, db))

  -- The answer of `Home`.
  unfoldable pub report : Bool → Result DbError (Unit {0}) → Response
  report configured (ok _) = json 200 (health_report true configured)
  report configured (err e) = json 503 (health_report false configured)

  -- `Home`.
  unfoldable pub home : Option Config → Handler Response
  home client = do database ← ping; pure (report (is_some client) database)

  -- `respondWithUser`.
  unfoldable pub respond_with_user : ℕ → Handler Response
  unfolding api_user inline_avatar
  respond_with_user user_id = do
    u ← or_else (get_user_by_id out user_id) (λ _. unknown_user)
    found ← attempt (get_user_avatar out u.id)
    pure (json 200 (user (api_user u (inline_avatar found))))

  -- `MeHandler`.
  unfoldable pub me_handler : UserContext → Handler Response
  me_handler context = current_user_id context >>= respond_with_user

  -- The first part of `PatchMe`: the username.
  unfoldable pub patched_username : Option Text → User → Handler User
  patched_username none u = pure u
  patched_username (some raw) u = do
    name ← or_invalid "username" (username out.wide out.is_profane raw)
    pure (record u { username = name })

  -- The account as `PatchMe` leaves it.
  unfoldable pub patched_user : MePayload → User → Handler User
  patched_user payload u = do
    named ← patched_username payload.username u
    shown ← patched_visibility payload.visibility named
    patched_bio payload.bio shown

  -- `PatchMe`, of a user.
  unfoldable pub patch_account : Option MePayload → ℕ → Handler Response
  patch_account decoded user_id = do
    payload ← or_respond decoded bad_request
    require (is_some payload.username || is_some payload.visibility || is_some payload.bio)
        (error_json "nothing to update" 400)
    u ← or_else (get_user_by_id out user_id) (λ _. unknown_user)
    patched ← patched_user payload u
    or_else (update_user out patched) update_failure
    respond_with_user user_id

  -- `PatchMe`.
  unfoldable pub patch_me : Option MePayload → UserContext → Handler Response
  patch_me decoded context = current_user_id context >>= patch_account decoded

  -- `PutMyAvatar`, of a user.
  unfoldable pub store_avatar : Upload → ℕ → Handler Response
  store_avatar upload user_id = do
    raw ← or_upload upload
    encoded ← or_image (avatar out raw)
    or_else (set_user_avatar out user_id encoded (hash out encoded))
        (λ _. error_json "Could not save that image" 500)
    respond_with_user user_id

  -- `PutMyAvatar`.
  unfoldable pub put_my_avatar : Upload → UserContext → Handler Response
  put_my_avatar upload context = current_user_id context >>= store_avatar upload

  -- `DeleteMyAvatar`, of a user.
  unfoldable pub remove_avatar : ℕ → Handler Response
  remove_avatar user_id = do
    or_else (delete_user_avatar out user_id) (λ _. error_json "Could not remove that image" 500)
    respond_with_user user_id

  -- `DeleteMyAvatar`.
  unfoldable pub delete_my_avatar : UserContext → Handler Response
  delete_my_avatar context = current_user_id context >>= remove_avatar

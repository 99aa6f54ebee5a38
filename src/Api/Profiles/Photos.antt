-- ===== src/Api/Profiles/Photos.antt =====
-- Whose photo `GetProfileAvatar` of cmd/api/avatar_handlers.go shows to strangers.
use toomanyhours_api.Prelude.{◌≡◌, refl, some, ok, arith, find, ℕ}
use toomanyhours_api.Text.{Text, same}
use toomanyhours_api.Models.{User, UserAvatar}
use toomanyhours_api.World.{World, Db, Outside}
use toomanyhours_api.World.Keeps.{Keeps-or_else}
use toomanyhours_api.World.Yields.{
  Yields, Yields-pure, Yields-bind, Yields-or_else, Yields-statement,
}
use toomanyhours_api.Repo.Users.{get_user_by_username}
use toomanyhours_api.Repo.Avatars.{get_user_avatar, first_avatar, is_avatar_of}
use toomanyhours_api.Api.{Response, json, photo}
use toomanyhours_api.Api.Me.{visibility_public}
use toomanyhours_api.Api.Me.Rules.{get_user_avatar-Keeps}
use toomanyhours_api.Api.Profiles.{
  is_public, is_lookup, lookup_name, show_photo, get_profile_avatar, profile_is_private,
  no_such_profile, photo_failure,
}
use toomanyhours_api.Api.Profiles.Shown.{
  Here, IsNamed, require-Yields, get_user_by_username-IsNamed, public_visibility,
}
use toomanyhours_api.Api.Routes.Reads.{get_user_by_username-Keeps}

-- A photo that is shown: the stored one of the account that has the name, which is public.
pub record IsPhotoShown (out : Outside) (db : Db) (param version : Text) (r : Response)
    : Type 0 where
  pub owner : User
  pub stored : UserAvatar
  pub named :
      find (λ v. same (out.sql_lower v.username) (lookup_name out param)) db.users ≡ some owner
  pub is_open : owner.visibility ≡ visibility_public
  pub owned : find (is_avatar_of owner.id) db.avatars ≡ some stored
  pub answer : r ≡ json 200 (photo stored.bytes stored.hash (same version stored.hash))

module _ (out : Outside) (db : Db) (param version : Text) where
  get_user_avatar-owned :
      (id : ℕ)
      → Yields
          (Here out db param)
          (λ a. find (is_avatar_of id) db.avatars ≡ some a)
          (get_user_avatar out id)
  unfolding get_user_avatar
  get_user_avatar-owned id = Yields-statement out _ λ d a h e.
      let stored : find (is_avatar_of id) d.avatars ≡ some a =
        unfold first_avatar in ground (arith, e) in
      rw (← h) stored

  show_photo-IsPhotoShown :
      (u : User)
      → IsNamed out db param u
      → Yields (Here out db param) (IsPhotoShown out db param version) (show_photo out version u)
  unfolding show_photo
  show_photo-IsPhotoShown u named = require-Yields (is_public u) profile_is_private _ λ opens.
      Yields-bind _ _
        (Keeps-or_else (get_user_avatar out u.id) photo_failure (get_user_avatar-Keeps out u.id))
        (Yields-or_else (get_user_avatar out u.id) photo_failure (get_user_avatar-owned u.id))
        λ a owned. Yields-pure (json 200 (photo a.bytes a.hash (same version a.hash))) (record {
          owner = u;
          stored = a;
          named = named;
          is_open = public_visibility u opens;
          owned = owned;
          answer = refl;
        })

  get_profile_avatar-Yields :
      Yields
        (Here out db param)
        (IsPhotoShown out db param version)
        (get_profile_avatar out param version)
  unfolding get_profile_avatar
  get_profile_avatar-Yields =
      require-Yields (is_lookup (lookup_name out param)) no_such_profile _ λ _.
        Yields-bind _ _
          (Keeps-or_else (get_user_by_username out (lookup_name out param)) (λ _. no_such_profile)
            (get_user_by_username-Keeps out (lookup_name out param)))
          (Yields-or_else (get_user_by_username out (lookup_name out param)) (λ _. no_such_profile)
            (get_user_by_username-IsNamed out db param))
          λ u named. show_photo-IsPhotoShown u named

-- A photo that is shown is the stored one of the account which the database finds under the name,
-- and this account is public. The answer has its bytes and its hash, and says whether the version
-- that was asked for is this hash.
pub get_profile_avatar-IsPhotoShown :
    (out : Outside) (param version : Text) (w : World) (r : Response)
    → (get_profile_avatar out param version w).0 ≡ ok r
    → IsPhotoShown out w.db param version r
get_profile_avatar-IsPhotoShown out param version w r e =
    (get_profile_avatar-Yields out w.db param version).at w r refl e

-- ===== src/Api/Me/Isolation.antt =====
-- Whose rows the handlers of Api/Me write: cmd/api/handlers.go and cmd/api/avatar_handlers.go.
use toomanyhours_api.Prelude.{
  ℕ, ◌≡◌, ◌≢◌, refl, ◌||◌, ◌++◌, not, Option, none, some, List, [], ◌∷◌, arith, find, update,
  select, ◌==◌, is_some,
}
use toomanyhours_api.Text.{Text}
use toomanyhours_api.Validate.{username, bio}
use toomanyhours_api.Models.{User, UserAvatar}
use toomanyhours_api.World.{Outside}
use toomanyhours_api.World.Content.{OfUsers, OfAvatars}
use toomanyhours_api.World.Keeps.{
  Keeps, keeps_rules, Keeps-bind, Keeps-or_else, Keeps-time_now, Keeps-statement, Keeps-bind_yields,
}
use toomanyhours_api.World.Yields.{
  Yields, Known, Yields-pure, Yields-bind, Yields-or_else, Yields-statement, Yields-any,
}
use toomanyhours_api.Repo.Users.{get_user_by_id, update_user, write_user, first_user, update_row}
use toomanyhours_api.Repo.Users.Reads.{get_user_by_id-Keeps}
use toomanyhours_api.Repo.Avatars.{
  set_user_avatar, delete_user_avatar, upsert_avatar, drop_avatar, is_avatar_of,
}
use toomanyhours_api.Api.{signed_in, bad_request, error_json, current_user_id}
use toomanyhours_api.Api.Games.Rules.{or_respond-Keeps, require-Keeps, or_invalid-Yields}
use toomanyhours_api.Api.Me.{
  MePayload, Upload, unknown_user, patched_username, patched_visibility, patched_bio, patched_user,
  patch_account, patch_me, update_failure, is_visibility, store_avatar, remove_avatar,
  put_my_avatar, delete_my_avatar,
}
use toomanyhours_api.Api.Me.Rules.{
  respond_with_user-Keeps, patched_user-Keeps, patched_username-Keeps, patched_visibility-Keeps,
  or_upload-Keeps, or_image-Keeps,
}

-- The rows of the accounts with an id, and of the photos of a user.
abbrev pub account_of : ℕ → List User → List User
account_of id us = select (λ u. u.id == id) us

abbrev pub photo_of : ℕ → List UserAvatar → List UserAvatar
photo_of id xs = select (is_avatar_of id) xs

abbrev pub SameAccount : ℕ → List User → List User → Type 0
SameAccount id before us = account_of id us ≡ before

abbrev pub SamePhoto : ℕ → List UserAvatar → List UserAvatar → Type 0
SamePhoto id before xs = photo_of id xs ≡ before

found_id : (id : ℕ) (us : List User) (u : User) → find (λ u. u.id == id) us ≡ some u → u.id ≡ id
unfolding find
found_id id [] u e = ground arith
found_id id (v ∷ us) u e = ground (arith, e, found_id id us u)

module _ (v : ℕ) where
  account_of-update :
      (out : Outside) (u : User) (now : ℕ) (us : List User)
      → u.id ≢ v
      → account_of v (update (λ x. x.id == u.id) (update_row out u now) us) ≡ account_of v us
  unfolding select update
  account_of-update out u now [] h = refl
  account_of-update out u now (x ∷ us) h = ground (arith, account_of-update out u now us h)

  photo_of-append :
      (xs : List UserAvatar) (a : UserAvatar)
      → a.user_id ≢ v
      → photo_of v (xs ++ a ∷ []) ≡ photo_of v xs
  unfolding select
  photo_of-append [] a h = ground arith
  photo_of-append (x ∷ xs) a h = ground (arith, photo_of-append xs a h)

  photo_of-update :
      (u : ℕ) (row : UserAvatar) (xs : List UserAvatar)
      → u ≢ v
      → photo_of v (
          update
            (is_avatar_of u)
            (λ a. record a { bytes = row.bytes; hash = row.hash; updated_at = row.updated_at })
            xs)
        ≡ photo_of v xs
  unfolding select update
  photo_of-update u row [] h = refl
  photo_of-update u row (x ∷ xs) h = ground (arith, photo_of-update u row xs h)

  photo_of-drop :
      (u : ℕ) (xs : List UserAvatar)
      → u ≢ v
      → photo_of v (select (λ a. not (is_avatar_of u a)) xs) ≡ photo_of v xs
  unfolding select
  photo_of-drop u [] h = refl
  photo_of-drop u (x ∷ xs) h = ground (arith, photo_of-drop u xs h)

-- The account of `v` is as before, whatever the user `u` patches of their own.
module _ (out : Outside) (u v : ℕ) (apart : u ≢ v) (before : List User) where
  abbrev HasId : User → Type 0
  HasId x = x.id ≡ u

  get_user_by_id-HasId : Yields (OfUsers (SameAccount v before)) HasId (get_user_by_id out u)
  unfolding get_user_by_id
  get_user_by_id-HasId =
      Yields-statement out _
        λ db x h e. found_id u db.users x (unfold first_user in ground (arith, e))

  patched_username-HasId :
      (p : Option Text) (x : User)
      → HasId x
      → Yields (OfUsers (SameAccount v before)) HasId (patched_username out p x)
  unfolding patched_username
  patched_username-HasId none x h = Yields-pure x h
  patched_username-HasId (some raw) x h =
      or_invalid-Yields "username" (username out.wide out.is_profane raw) _
        λ name _. Yields-pure (record x { username = name }) h

  patched_visibility-HasId :
      (p : Option Text) (x : User)
      → HasId x
      → Yields (OfUsers (SameAccount v before)) HasId (patched_visibility p x)
  unfolding patched_visibility
  patched_visibility-HasId none x h = Yields-pure x h
  patched_visibility-HasId (some shown) x h =
      Yields-bind {R = Known} _ _
        (require-Keeps (is_visibility shown)
          (error_json "visibility must be public or private" 400))
        (Yields-any _) λ _ _. Yields-pure (record x { visibility = shown }) h

  patched_bio-HasId :
      (p : Option Text) (x : User)
      → HasId x
      → Yields (OfUsers (SameAccount v before)) HasId (patched_bio p x)
  unfolding patched_bio
  patched_bio-HasId none x h = Yields-pure x h
  patched_bio-HasId (some raw) x h =
      or_invalid-Yields "bio" (bio (some raw)) _ λ b _. Yields-pure (record x { bio = b }) h

  patched_user-HasId :
      (p : MePayload) (x : User)
      → HasId x
      → Yields (OfUsers (SameAccount v before)) HasId (patched_user out p x)
  unfolding patched_user
  patched_user-HasId p x h =
      Yields-bind {R = HasId} _ _ (patched_username-Keeps out p.username x)
        (patched_username-HasId p.username x h)
        λ named k.
          Yields-bind {R = HasId} _ _ (patched_visibility-Keeps out p.visibility named)
            (patched_visibility-HasId p.visibility named k)
            λ shown l. patched_bio-HasId p.bio shown l

  update_user-Apart :
      (x : User) → HasId x → Keeps (OfUsers (SameAccount v before)) (update_user out x)
  unfolding update_user write_user
  update_user-Apart x k = Keeps-bind _ _ (Keeps-time_now out) λ now.
      Keeps-statement out _
        λ db h. ground (arith, h, k, account_of-update v out x now db.users (rw k apart))

  patch_account-Apart :
      (decoded : Option MePayload)
      → Keeps (OfUsers (SameAccount v before)) (patch_account out decoded u)
  unfolding patch_account
  patch_account-Apart decoded = Keeps-bind _ _ (or_respond-Keeps decoded bad_request) λ payload.
      Keeps-bind _ _
        (require-Keeps
          (is_some payload.username || is_some payload.visibility || is_some payload.bio)
          (error_json "nothing to update" 400))
        λ _.
          Keeps-bind_yields HasId _ _
            (Keeps-or_else (get_user_by_id out u) (λ _. unknown_user) (get_user_by_id-Keeps out u))
            (Yields-or_else (get_user_by_id out u) (λ _. unknown_user) get_user_by_id-HasId).at
            λ x named.
              Keeps-bind_yields HasId _ _ (patched_user-Keeps out payload x)
                (patched_user-HasId payload x named).at
                λ patched own.
                  Keeps-bind _ _
                    (Keeps-or_else (update_user out patched) update_failure
                      (update_user-Apart patched own))
                    λ _. respond_with_user-Keeps out u

  pub patch_me-Apart :
      (decoded : Option MePayload)
      → Keeps (OfUsers (SameAccount v before)) (patch_me out decoded (signed_in u))
  unfolding patch_me current_user_id
  patch_me-Apart decoded = record { at = λ w h. (patch_account-Apart decoded).at w h }

-- So is their photo, whatever the user `u` uploads or deletes.
module _ (out : Outside) (u v : ℕ) (apart : u ≢ v) (before : List UserAvatar) where
  set_user_avatar-Apart :
      (bytes : List ℕ) (h : Text)
      → Keeps (OfAvatars (SamePhoto v before)) (set_user_avatar out u bytes h)
  unfolding set_user_avatar upsert_avatar
  set_user_avatar-Apart bytes h = Keeps-bind _ _ (Keeps-time_now out) λ now.
      Keeps-statement out _ λ db k.
        let row : UserAvatar = record { user_id = u; bytes = bytes; hash = h; updated_at = now } in
        ground (
          arith,
          k,
          photo_of-update v u row db.avatars apart,
          photo_of-append v db.avatars row apart,
        )

  delete_user_avatar-Apart : Keeps (OfAvatars (SamePhoto v before)) (delete_user_avatar out u)
  unfolding delete_user_avatar drop_avatar
  delete_user_avatar-Apart =
      Keeps-statement out _ λ db k. ground (arith, k, photo_of-drop v u db.avatars apart)

  store_avatar-Apart :
      (upload : Upload) → Keeps (OfAvatars (SamePhoto v before)) (store_avatar out upload u)
  unfolding store_avatar
  store_avatar-Apart upload =
      search
        (
          keeps_rules, or_upload-Keeps, or_image-Keeps, set_user_avatar-Apart,
          respond_with_user-Keeps,
        )
        depth 14

  remove_avatar-Apart : Keeps (OfAvatars (SamePhoto v before)) (remove_avatar out u)
  unfolding remove_avatar
  remove_avatar-Apart =
      search (keeps_rules, delete_user_avatar-Apart, respond_with_user-Keeps) depth 10

  pub put_my_avatar-Apart :
      (upload : Upload)
      → Keeps (OfAvatars (SamePhoto v before)) (put_my_avatar out upload (signed_in u))
  unfolding put_my_avatar current_user_id
  put_my_avatar-Apart upload = record { at = λ w h. (store_avatar-Apart upload).at w h }

  pub delete_my_avatar-Apart :
      Keeps (OfAvatars (SamePhoto v before)) (delete_my_avatar out (signed_in u))
  unfolding delete_my_avatar current_user_id
  delete_my_avatar-Apart = record { at = λ w h. remove_avatar-Apart.at w h }

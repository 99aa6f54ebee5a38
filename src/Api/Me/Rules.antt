-- ===== src/Api/Me/Rules.antt =====
-- The parts of the handlers of Api/Me and of `Register`, for properties of what they do not write.
use toomanyhours_api.Prelude.{ℕ, refl, Option, none, some, List, Result, ok, err, arith}
use toomanyhours_api.Text.{Text}
use toomanyhours_api.Models.{User}
use toomanyhours_api.Images.{ImageError}
use toomanyhours_api.World.{Db, Outside}
use toomanyhours_api.World.Content.{IsOfContent, IsOfItems, IsOfRows}
use toomanyhours_api.World.Keeps.{
  Keeps, keeps_rules, Keeps-bind, Keeps-pure, Keeps-or_else, Keeps-attempt, Keeps-time_now,
  Keeps-statement,
}
use toomanyhours_api.Repo.Users.{get_user_by_id, update_user, write_user, create_user, insert_user}
use toomanyhours_api.Repo.Users.Reads.{get_user_by_id-Keeps}
use toomanyhours_api.Repo.Avatars.{
  get_user_avatar, set_user_avatar, delete_user_avatar, upsert_avatar, first_avatar, drop_avatar,
}
use toomanyhours_api.Api.{UserContext, json, user}
use toomanyhours_api.Api.Auth.{Auth}
use toomanyhours_api.Api.Games.Rules.{
  or_respond-Keeps, or_invalid-Keeps, require-Keeps, current_user_id-Keeps,
}
use toomanyhours_api.Api.Accounts.{RegisterPayload, register}
use toomanyhours_api.Api.Accounts.Stored.{issue_session-Keeps, require_password-Keeps}
use toomanyhours_api.Api.Me.{
  MePayload, Upload, no_file, cannot_open, opened, or_upload, or_image, unknown_user,
  respond_with_user, patched_username, patched_visibility, patched_bio, patched_user, patch_account,
  patch_me, api_user, inline_avatar, store_avatar, put_my_avatar, remove_avatar, delete_my_avatar,
  me_handler,
}

module _ {P : Db → Type 0} (out : Outside) where
  pub get_user_avatar-Keeps : (id : ℕ) → Keeps P (get_user_avatar out id)
  unfolding get_user_avatar first_avatar
  get_user_avatar-Keeps id = Keeps-statement out _ λ db h. ground (arith, h)

  pub respond_with_user-Keeps : (id : ℕ) → Keeps P (respond_with_user out id)
  unfolding respond_with_user
  respond_with_user-Keeps id =
      Keeps-bind _ _
        (Keeps-or_else (get_user_by_id out id) (λ _. unknown_user) (get_user_by_id-Keeps out id))
        λ u.
          Keeps-bind _ _ (Keeps-attempt (get_user_avatar out u.id) (get_user_avatar-Keeps u.id))
            λ found. Keeps-pure (json 200 (user (api_user u (inline_avatar found))))

  pub me_handler-Keeps : (c : UserContext) → Keeps P (me_handler out c)
  unfolding me_handler
  me_handler-Keeps c = Keeps-bind _ _ (current_user_id-Keeps c) λ id. respond_with_user-Keeps id

  pub patched_username-Keeps : (o : Option Text) (u : User) → Keeps P (patched_username out o u)
  unfolding patched_username
  patched_username-Keeps none u = search keeps_rules
  patched_username-Keeps (some raw) u = search (keeps_rules, or_invalid-Keeps) depth 10

  pub patched_visibility-Keeps : (o : Option Text) (u : User) → Keeps P (patched_visibility o u)
  unfolding patched_visibility
  patched_visibility-Keeps none u = search keeps_rules
  patched_visibility-Keeps (some v) u = search (keeps_rules, require-Keeps) depth 10

  patched_bio-Keeps : (o : Option Text) (u : User) → Keeps P (patched_bio o u)
  unfolding patched_bio
  patched_bio-Keeps none u = search keeps_rules
  patched_bio-Keeps (some raw) u = search (keeps_rules, or_invalid-Keeps) depth 10

  pub patched_user-Keeps : (m : MePayload) (u : User) → Keeps P (patched_user out m u)
  unfolding patched_user
  patched_user-Keeps m u =
      search (keeps_rules, patched_username-Keeps, patched_visibility-Keeps, patched_bio-Keeps)
        depth 10

  pub or_upload-Keeps : (u : Upload) → Keeps P (or_upload u)
  or_upload-Keeps no_file = search keeps_rules
  or_upload-Keeps cannot_open = search keeps_rules
  or_upload-Keeps (opened bytes) = search keeps_rules

  pub or_image-Keeps : (r : Result ImageError (List ℕ)) → Keeps P (or_image r)
  or_image-Keeps (ok bytes) = search keeps_rules
  or_image-Keeps (err e) = search keeps_rules

-- Photos, for a property of the accounts and the lists.
module _ {P : Db → Type 0} (p : IsOfRows P) (out : Outside) where
  set_user_avatar-Keeps :
      (id : ℕ) (bytes : List ℕ) (h : Text) → Keeps P (set_user_avatar out id bytes h)
  unfolding set_user_avatar upsert_avatar
  set_user_avatar-Keeps id bytes h =
      Keeps-bind _ _ (Keeps-time_now out)
        λ now. Keeps-statement out _ λ db k. p.rows db _ refl refl k

  delete_user_avatar-Keeps : (id : ℕ) → Keeps P (delete_user_avatar out id)
  unfolding delete_user_avatar drop_avatar
  delete_user_avatar-Keeps id = Keeps-statement out _ λ db k. p.rows db _ refl refl k

  store_avatar-Keeps : (u : Upload) (id : ℕ) → Keeps P (store_avatar out u id)
  unfolding store_avatar
  store_avatar-Keeps u id =
      search
        (
          keeps_rules, or_upload-Keeps, or_image-Keeps, set_user_avatar-Keeps,
          respond_with_user-Keeps,
        )
        depth 14

  pub put_my_avatar-Keeps : (u : Upload) (c : UserContext) → Keeps P (put_my_avatar out u c)
  unfolding put_my_avatar
  put_my_avatar-Keeps u c = Keeps-bind _ _ (current_user_id-Keeps c) λ id. store_avatar-Keeps u id

  remove_avatar-Keeps : (id : ℕ) → Keeps P (remove_avatar out id)
  unfolding remove_avatar
  remove_avatar-Keeps id =
      search (keeps_rules, delete_user_avatar-Keeps, respond_with_user-Keeps) depth 10

  pub delete_my_avatar-Keeps : (c : UserContext) → Keeps P (delete_my_avatar out c)
  unfolding delete_my_avatar
  delete_my_avatar-Keeps c = Keeps-bind _ _ (current_user_id-Keeps c) λ id. remove_avatar-Keeps id

-- Accounts, for a property of the lists and the photos.
module _ {P : Db → Type 0} (p : IsOfItems P) (out : Outside) where
  items-IsOfContent : IsOfContent P
  items-IsOfContent = record { content = λ old new u e a h. p.items old new e a h }

  update_user-Keeps : (u : User) → Keeps P (update_user out u)
  unfolding update_user
  update_user-Keeps u = Keeps-bind _ _ (Keeps-time_now out) λ now.
      Keeps-statement out _
        λ db h. unfold write_user in p.items db _ (ground arith) (ground arith) h

  create_user-Keeps : (u : User) → Keeps P (create_user out u)
  unfolding create_user
  create_user-Keeps u = Keeps-bind _ _ (Keeps-time_now out) λ now.
      Keeps-statement out _
        λ db h. unfold insert_user in p.items db _ (ground arith) (ground arith) h

  patch_account-Keeps : (o : Option MePayload) (id : ℕ) → Keeps P (patch_account out o id)
  unfolding patch_account
  patch_account-Keeps o id =
      search
        (
          keeps_rules, or_respond-Keeps, require-Keeps, get_user_by_id-Keeps, patched_user-Keeps,
          update_user-Keeps, respond_with_user-Keeps,
        )
        depth 20

  pub patch_me-Keeps_items : (o : Option MePayload) (c : UserContext) → Keeps P (patch_me out o c)
  unfolding patch_me
  patch_me-Keeps_items o c = Keeps-bind _ _ (current_user_id-Keeps c) λ id. patch_account-Keeps o id

  pub register-Keeps : (auth : Auth) (o : Option RegisterPayload) → Keeps P (register out auth o)
  unfolding register
  register-Keeps auth o =
      search
        (
          keeps_rules, or_respond-Keeps, or_invalid-Keeps, require_password-Keeps,
          create_user-Keeps, issue_session-Keeps, items-IsOfContent,
        )
        depth 30

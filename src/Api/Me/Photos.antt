-- ===== src/Api/Me/Photos.antt =====
-- What `PutMyAvatar` of cmd/api/avatar_handlers.go stores, by internal/images/avatar.go.
use toomanyhours_api.Prelude.{
  ℕ, ◌≡◌, refl, Bool, true, Option, none, some, List, [], ◌∷◌, ◌++◌, Result, ok, err, arith, All,
  any, update, select, Bool-cases, Option-cases, inl, inr,
}
use toomanyhours_api.Prelude.Int.{ℤ}
use toomanyhours_api.Models.{UserAvatar}
use toomanyhours_api.Images.{
  ImageError, image_dimensions, cover_rect, avatar_size, jpeg_quality, redraw, avatar, hash,
}
use toomanyhours_api.Images.Shapes.{Image}
use toomanyhours_api.World.{Db, Outside}
use toomanyhours_api.World.Exec.{◌>>=◌}
use toomanyhours_api.World.Keeps.{
  Keeps, keeps_rules, Keeps-bind, Keeps-or_else, Keeps-time_now, Keeps-statement,
}
use toomanyhours_api.Repo.Avatars.{
  set_user_avatar, upsert_avatar, is_avatar_of, delete_user_avatar, drop_avatar,
}
use toomanyhours_api.Api.{Handler, UserContext, error_json}
use toomanyhours_api.Api.Games.Rules.{current_user_id-Keeps}
use toomanyhours_api.Api.Me.{
  Upload, or_image, store_avatar, put_my_avatar, remove_avatar, delete_my_avatar,
}
use toomanyhours_api.Api.Me.Rules.{respond_with_user-Keeps, or_upload-Keeps}

-- Bytes that were drawn here: of an image within the bounds, cropped to the square in its middle.
pub record IsDrawn (out : Outside) (bytes : List ℕ) : Type 0 where
  pub raw : List ℕ
  pub size : ℤ × ℤ
  pub source : Image
  pub declared : out.decode_config raw ≡ some size
  pub in_bounds : image_dimensions size.0 size.1 ≡ true
  pub decoded : out.decode_image raw ≡ some source
  pub drawn :
      out.draw_and_encode source (cover_rect source.bounds) avatar_size jpeg_quality ≡ some bytes

-- A photo that may be stored: drawn here, under its own hash.
pub record IsPhoto (out : Outside) (a : UserAvatar) : Type 0 where
  pub content : IsDrawn out a.bytes
  pub fingerprint : a.hash ≡ hash out a.bytes

abbrev pub AllPhotos : Outside → List UserAvatar → Type 0
AllPhotos out = All (IsPhoto out)

avatar-IsDrawn :
    (out : Outside) (upload : Option (List ℕ)) (bytes : List ℕ)
    → avatar out upload ≡ ok bytes
    → IsDrawn out bytes
unfolding avatar redraw
avatar-IsDrawn out none bytes e = ground arith
avatar-IsDrawn out (some raw) bytes e = elim (Option-cases (out.decode_config raw)) [
  | inl h ↦ ground (arith, h, e)
  | inr (size, h) ↦ elim (Bool-cases (image_dimensions size.0 size.1)) [
    | inl k ↦ elim (Option-cases (out.decode_image raw)) [
      | inl l ↦ ground (arith, h, k, l, e)
      | inr (src, l) ↦
          elim (Option-cases
            (out.draw_and_encode src (cover_rect src.bounds) avatar_size jpeg_quality)) [
              | inl m ↦ ground (arith, h, k, l, m, e)
              | inr (b, m) ↦ record {
                raw = raw;
                size = size;
                source = src;
                declared = h;
                in_bounds = k;
                decoded = l;
                drawn = ground (arith, h, k, l, m, e);
              }
            ]
    ]
    | inr k ↦ ground (arith, h, k, e)
  ]
]

AllPhotos-append :
    (out : Outside) (xs : List UserAvatar) (a : UserAvatar)
    → AllPhotos out xs
    → IsPhoto out a
    → AllPhotos out (xs ++ a ∷ [])
AllPhotos-append out [] a h k = (k, tt)
AllPhotos-append out (x ∷ xs) a (hx, h) k = (hx, AllPhotos-append out xs a h k)

AllPhotos-update :
    (out : Outside) (p : UserAvatar → Bool) (row : UserAvatar) (xs : List UserAvatar)
    → AllPhotos out xs
    → IsPhoto out row
    → AllPhotos out (
        update p
          (λ a. record a { bytes = row.bytes; hash = row.hash; updated_at = row.updated_at })
          xs)
unfolding update
AllPhotos-update out p row [] h k = tt
AllPhotos-update out p row (x ∷ xs) (hx, h) k = elim (Bool-cases (p x)) [
  | inl e ↦ rw e (
    record { content = k.content; fingerprint = k.fingerprint },
    AllPhotos-update out p row xs h k,
  )
  | inr e ↦ rw e (hx, AllPhotos-update out p row xs h k)
]

AllPhotos-select :
    (out : Outside) (p : UserAvatar → Bool) (xs : List UserAvatar)
    → AllPhotos out xs
    → AllPhotos out (select p xs)
unfolding select
AllPhotos-select out p [] h = tt
AllPhotos-select out p (x ∷ xs) (hx, h) = elim (Bool-cases (p x)) [
  | inl e ↦ rw e (hx, AllPhotos-select out p xs h)
  | inr e ↦ rw e (AllPhotos-select out p xs h)
]

module _ (out : Outside) where
  abbrev pub AllPhotosIn : Db → Type 0
  AllPhotosIn db = AllPhotos out db.avatars

  upsert_avatar-AllPhotos :
      (row : UserAvatar) (db : Db)
      → IsPhoto out row
      → AllPhotosIn db
      → AllPhotosIn (upsert_avatar row db).1
  unfolding upsert_avatar
  upsert_avatar-AllPhotos row db k h =
      elim (Bool-cases (any (is_avatar_of row.user_id) db.avatars)) [
        | inl e ↦ rw e (AllPhotos-update out (is_avatar_of row.user_id) row db.avatars h k)
        | inr e ↦ rw e (AllPhotos-append out db.avatars row h k)
      ]

  set_user_avatar-Keeps :
      (id : ℕ) (bytes : List ℕ)
      → IsDrawn out bytes
      → Keeps AllPhotosIn (set_user_avatar out id bytes (hash out bytes))
  unfolding set_user_avatar
  set_user_avatar-Keeps id bytes drawn = Keeps-bind _ _ (Keeps-time_now out) λ now.
      Keeps-statement out _ λ db h.
        upsert_avatar-AllPhotos
          (record { user_id = id; bytes = bytes; hash = hash out bytes; updated_at = now }) db
          (record { content = drawn; fingerprint = refl }) h

  or_image-then :
      {B : Type 0} (r : Result ImageError (List ℕ)) (k : List ℕ → Handler B)
      → ((bytes : List ℕ) → r ≡ ok bytes → Keeps AllPhotosIn (k bytes))
      → Keeps AllPhotosIn (or_image r >>= k)
  or_image-then (ok bytes) k h = record { at = λ w p. (h bytes refl).at w p }
  or_image-then (err e) k h = record { at = λ w p. p }

  store_avatar-Keeps : (u : Upload) (id : ℕ) → Keeps AllPhotosIn (store_avatar out u id)
  unfolding store_avatar
  store_avatar-Keeps u id = Keeps-bind _ _ (or_upload-Keeps out u) λ raw.
      or_image-then (avatar out raw) _ λ bytes e.
        Keeps-bind _ _
          (Keeps-or_else (set_user_avatar out id bytes (hash out bytes))
            (λ _. error_json "Could not save that image" 500)
            (set_user_avatar-Keeps id bytes (avatar-IsDrawn out raw bytes e)))
          λ _. respond_with_user-Keeps out id

  delete_user_avatar-Keeps : (id : ℕ) → Keeps AllPhotosIn (delete_user_avatar out id)
  unfolding delete_user_avatar drop_avatar
  delete_user_avatar-Keeps id = Keeps-statement out _ λ db h. AllPhotos-select out _ db.avatars h

  remove_avatar-Keeps : (id : ℕ) → Keeps AllPhotosIn (remove_avatar out id)
  unfolding remove_avatar
  remove_avatar-Keeps id =
      search (keeps_rules, delete_user_avatar-Keeps, respond_with_user-Keeps) depth 10

  pub delete_photo-Keeps : (c : UserContext) → Keeps AllPhotosIn (delete_my_avatar out c)
  unfolding delete_my_avatar
  delete_photo-Keeps c = Keeps-bind _ _ (current_user_id-Keeps c) λ id. remove_avatar-Keeps id

  pub put_photo-Keeps : (u : Upload) (c : UserContext) → Keeps AllPhotosIn (put_my_avatar out u c)
  unfolding put_my_avatar
  put_photo-Keeps u c = Keeps-bind _ _ (current_user_id-Keeps c) λ id. store_avatar-Keeps u id

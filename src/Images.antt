-- ===== src/Images.antt =====
-- internal/images/avatar.go: the bytes worth storing of an uploaded image.
--
-- Decoding, scaling and encoding are of Go's image packages, and parameters.
pub mod Shapes
pub mod Crop
use toomanyhours_api.Prelude.{
  ℕ, zero, suc, ◌/◌, ◌-◌, Bool, ◌||◌, Option, none, some, List, [], ◌∷◌, Result, ok, err, ltb, not,
  if◌then◌else◌,
}
use toomanyhours_api.Prelude.Int.{ℤ, pos, pos_part, ltb_ℤ, ◌+ℤ◌, ◌-ℤ◌, half}
use toomanyhours_api.Text.{Text}
use toomanyhours_api.Text.Bytes.{hex}
use toomanyhours_api.World.{Outside}
use Shapes.{Image, Rectangle}

-- `maxImagePixels` of internal/validate/image.go.
abbrev pub max_image_pixels : ℕ
max_image_pixels = 20000000

-- `ImageDimensions` of internal/validate/image.go: whether a size is accepted. Both are positive
-- where one is divided by.
unfoldable pub image_dimensions : ℤ → ℤ → Bool
image_dimensions width height =
    if not (ltb_ℤ (pos 0) width) || not (ltb_ℤ (pos 0) height)
    then Bool.false
    else not (ltb (max_image_pixels / pos_part height) (pos_part width))

-- `avatarSize` and `jpegQuality`.
abbrev pub avatar_size : ℕ
avatar_size = 256

abbrev pub jpeg_quality : ℕ
jpeg_quality = 85

abbrev pub min_ℤ : ℤ → ℤ → ℤ
min_ℤ a b = if ltb_ℤ b a then b else a

-- `image.Rect`: the corners in order.
abbrev pub rect : ℤ → ℤ → ℤ → ℤ → Rectangle
rect x0 y0 x1 y1 = record {
  min_x = if ltb_ℤ x1 x0 then x1 else x0;
  min_y = if ltb_ℤ y1 y0 then y1 else y0;
  max_x = if ltb_ℤ x1 x0 then x0 else x1;
  max_y = if ltb_ℤ y1 y0 then y0 else y1;
}

-- `coverRect`.
unfoldable pub cover_rect : Rectangle → Rectangle
cover_rect b =
    let w = b.max_x -ℤ b.min_x in
    let h = b.max_y -ℤ b.min_y in
    let side = min_ℤ w h in
    let x = b.min_x +ℤ half (w -ℤ side) in
    let y = b.min_y +ℤ half (h -ℤ side) in rect x y (x +ℤ side) (y +ℤ side)

-- The errors of `Avatar`: `ErrNotAnImage`, `ErrRange`, and those of reading and encoding.
pub data ImageError : Type 0 where
  not_an_image too_large not_processed : ImageError

module _ (out : Outside) where
  -- `Avatar`, once the size is accepted.
  unfoldable pub redraw : List ℕ → Result ImageError (List ℕ)
  unfolding cover_rect
  redraw raw = elim (out.decode_image raw) [
    | none ↦ err not_an_image
    | some src ↦ elim (out.draw_and_encode src (cover_rect src.bounds) avatar_size jpeg_quality) [
      | none ↦ err not_processed
      | some bytes ↦ ok bytes
    ]
  ]

  -- `Avatar`, of the bytes that are read, if they can be read.
  unfoldable pub avatar : Option (List ℕ) → Result ImageError (List ℕ)
  unfolding image_dimensions redraw
  avatar none = err not_processed
  avatar (some raw) = elim (out.decode_config raw) [
    | none ↦ err not_an_image
    | some size ↦ if image_dimensions size.0 size.1 then redraw raw else err too_large
  ]

  -- The first characters of a text.
  unfoldable pub prefix : ℕ → Text → Text
  prefix zero t = []
  prefix (suc n) [] = []
  prefix (suc n) (r ∷ rs) = r ∷ prefix n rs

  -- `Hash`.
  unfoldable pub hash : List ℕ → Text
  unfolding prefix hex
  hash bytes = prefix 12 (hex (out.sha256 bytes))

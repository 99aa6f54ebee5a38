-- ===== src/Tests/Images.antt =====
-- The images at concrete inputs.
use toomanyhours_api.Prelude.{◌≡◌, ◌≤◌, ◌*◌, ◌↔◌, refl, true, some, [], ◌∷◌, arith}
use toomanyhours_api.Prelude.Int.{pos, ◌≤ℤ◌, pos_part, ◌+ℤ◌, ◌-ℤ◌, half}
use toomanyhours_api.Text.{codes}
use toomanyhours_api.Text.Bytes.{base64, hex}
use toomanyhours_api.World.{Outside}
use toomanyhours_api.Images.{image_dimensions, max_image_pixels, cover_rect}
use toomanyhours_api.Images.Shapes.{Rectangle}
use toomanyhours_api.Images.Crop.{IsOrdered, IsCover, cover_rect-IsCover, image_dimensions_iff}
use toomanyhours_api.Tests.Sessions.{outside}

abbrev wide_photo : Rectangle
wide_photo = record { min_x = pos 0; min_y = pos 0; max_x = pos 400; max_y = pos 301 }

-- The crop of 400 by 301 points.
crop :
    cover_rect wide_photo
    ≡ record { min_x = pos 49; min_y = pos 0; max_x = pos 350; max_y = pos 301 }
unfolding cover_rect ◌+ℤ◌ ◌-ℤ◌ half
crop = refl

wide_photo-IsOrdered : IsOrdered wide_photo
wide_photo-IsOrdered = record { across = omega arith; down = omega arith }

cover_rect-IsCover_example : IsCover wide_photo (cover_rect wide_photo)
cover_rect-IsCover_example = cover_rect-IsCover wide_photo wide_photo-IsOrdered

image_dimensions_iff_example : (image_dimensions (pos 5000) (pos 4000) ≡ true) ↔ (
    (pos 1 ≤ℤ pos 5000)
    × (pos 1 ≤ℤ pos 4000)
    × (pos_part (pos 5000) * pos_part (pos 4000) ≤ max_image_pixels))
image_dimensions_iff_example = image_dimensions_iff (pos 5000) (pos 4000)

-- "Man", and a text that needs padding.
encoded :
    (base64 (77 ∷ 97 ∷ 110 ∷ []) ≡ codes "TWFu")
    × (base64 (77 ∷ 97 ∷ []) ≡ codes "TWE=")
    × (hex (0 ∷ 175 ∷ []) ≡ codes "00af")
unfolding base64 hex
encoded = (refl, refl, refl)

-- Every upload is a photo of these dimensions here, and is drawn as one byte.
abbrev painter : Outside
painter = record outside {
  decode_config = λ b. some (pos 400, pos 301);
  decode_image = λ b. some (record { bounds = wide_photo; colour_at = λ x y. 0 });
  draw_and_encode = λ i r side quality. some (7 ∷ []);
}

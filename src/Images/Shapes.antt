-- ===== src/Images/Shapes.antt =====
-- The rectangles and the images of Go's package `image`, as internal/images/avatar.go uses them.
use toomanyhours_api.Prelude.{ℕ}
use toomanyhours_api.Prelude.Int.{ℤ}

-- `image.Rectangle`, by its two corners.
pub record Rectangle : Type 0 where
  pub min_x : ℤ
  pub min_y : ℤ
  pub max_x : ℤ
  pub max_y : ℤ

-- A decoded image.
pub record Image : Type 0 where
  pub bounds : Rectangle
  pub colour_at : ℤ → ℤ → ℕ

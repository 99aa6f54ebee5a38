-- ===== src/Images/Crop.antt =====
-- The size rule of internal/validate/image.go, and the crop of internal/images/avatar.go.
use native.Mathlib.Nat.{le-div_iff_mul-le}
use toomanyhours_api.Prelude.{◌*◌, ◌≤◌, ◌≡◌, ◌↔◌, refl, true, arith, false, zero, suc}
use toomanyhours_api.Prelude.Int.{
  ℤ, pos, negsuc, pos_part, ◌≤ℤ◌, ◌+ℤ◌, ◌-ℤ◌, ltb_ℤ, half, int_laws, +ℤ_parts,
}
use toomanyhours_api.Images.{image_dimensions, max_image_pixels, cover_rect, min_ℤ, rect}
use toomanyhours_api.Images.Shapes.{Rectangle}

-- Half of what is not negative leaves the same half again, or one more.
half_parts :
    (a : ℤ)
    → pos 0 ≤ℤ a
    → (pos 0 ≤ℤ half a) × (half a +ℤ half a ≤ℤ a) × (a ≤ℤ half a +ℤ half a +ℤ pos 1)
unfolding half ◌+ℤ◌
half_parts (pos n) h = ground arith
half_parts (negsuc n) h = ground arith

-- A rectangle with its corners in order.
pub record IsOrdered (b : Rectangle) : Type 0 where
  pub across : b.min_x ≤ℤ b.max_x
  pub down : b.min_y ≤ℤ b.max_y

-- A span that a span lies inside of, with the same room on both sides up to one point.
pub record IsCentred (low high inner_low inner_high : ℤ) : Type 0 where
  pub starts : low ≤ℤ inner_low
  pub ends : inner_high ≤ℤ high
  pub left : inner_low -ℤ low ≤ℤ high -ℤ inner_high
  pub right : high -ℤ inner_high ≤ℤ inner_low -ℤ low +ℤ pos 1

centred :
    (low high side : ℤ)
    → side ≤ℤ high -ℤ low
    → let start = low +ℤ half (high -ℤ low -ℤ side) in IsCentred low high start (start +ℤ side)
centred low high side h =
    let (a, b, c) = half_parts (high -ℤ low -ℤ side) (omega int_laws) in
    record {
      starts = omega (int_laws, a);
      ends = omega (int_laws, b, a);
      left = omega (int_laws, b);
      right = omega (int_laws, c);
    }

-- A rectangle inside another: a square, as large as fits, in the middle.
pub record IsCover (b r : Rectangle) : Type 0 where
  pub in_width : IsCentred b.min_x b.max_x r.min_x r.max_x
  pub in_height : IsCentred b.min_y b.max_y r.min_y r.max_y
  pub width : r.max_x -ℤ r.min_x ≡ min_ℤ (b.max_x -ℤ b.min_x) (b.max_y -ℤ b.min_y)
  pub height : r.max_y -ℤ r.min_y ≡ min_ℤ (b.max_x -ℤ b.min_x) (b.max_y -ℤ b.min_y)

min_bounds :
    (a b : ℤ) → pos 0 ≤ℤ a → pos 0 ≤ℤ b → (pos 0 ≤ℤ min_ℤ a b) × (min_ℤ a b ≤ℤ a) × (min_ℤ a b ≤ℤ b)
min_bounds a b h k = ground arith

-- Corners in order stay as they are.
rect-ordered :
    (x y side : ℤ)
    → pos 0 ≤ℤ side
    → rect x y (x +ℤ side) (y +ℤ side)
      ≡ record { min_x = x; min_y = y; max_x = x +ℤ side; max_y = y +ℤ side }
rect-ordered x y side h =
    let across : ltb_ℤ (x +ℤ side) x ≡ false = ground (arith, +ℤ_parts x side) in
    let down : ltb_ℤ (y +ℤ side) y ≡ false = ground (arith, +ℤ_parts y side) in
    rw (across, down) refl

-- The crop of an image is the largest square in the middle of it: it lies inside, its sides have
-- the length of the image's shorter side, and the room before and after it differs by a point at
-- most.
pub cover_rect-IsCover : (b : Rectangle) → IsOrdered b → IsCover b (cover_rect b)
unfolding cover_rect
cover_rect-IsCover b h =
    let w = b.max_x -ℤ b.min_x in
    let v = b.max_y -ℤ b.min_y in
    let (pos_side, le_w, le_v) =
      min_bounds w v (omega (int_laws, h.across)) (omega (int_laws, h.down)) in
    let side = min_ℤ w v in
    rw (rect-ordered (b.min_x +ℤ half (w -ℤ side)) (b.min_y +ℤ half (v -ℤ side)) side pos_side)
      (record {
        in_width = centred b.min_x b.max_x side le_w;
        in_height = centred b.min_y b.max_y side le_v;
        width = omega int_laws;
        height = omega int_laws;
      })

-- A declared size is accepted exactly if both sides are positive and there are at most twenty
-- million points.
pub image_dimensions_iff :
    (width height : ℤ)
    → (image_dimensions width height ≡ true) ↔ (
        (pos 1 ≤ℤ width)
        × (pos 1 ≤ℤ height)
        × (pos_part width * pos_part height ≤ max_image_pixels))
unfolding image_dimensions
image_dimensions_iff (negsuc a) k = ground arith
image_dimensions_iff (pos zero) k = ground arith
image_dimensions_iff (pos (suc a)) (negsuc b) = ground arith
image_dimensions_iff (pos (suc a)) (pos zero) = ground arith
image_dimensions_iff (pos (suc a)) (pos (suc b)) =
    let (to, of) = le-div_iff_mul-le {k = suc b} {x = suc a} {y = max_image_pixels} (omega arith) in
    ground (arith, to, of)

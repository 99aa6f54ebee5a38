-- ===== src/Validate/Rating.antt =====
-- `Rating` of internal/validate/listentry.go, over the finite values of `float64`.
use toomanyhours_api.Prelude.{
  ℕ, ◌*◌, ◌%◌, ◌<◌, ◌≤◌, ◌≡◌, ◌↔◌, Bool, false, not, ◌||◌, Option, none, some, Result, ok, err,
  arith, ltb, ◌==◌, if◌then◌else◌, ◌&&◌, ◌/◌,
}
use Prim.Native.Nat.{◌^◌}
use toomanyhours_api.Validate.{Error, out_of_range}
use native.Mathlib.Nat.{div-add-mod', one-le-pow, mul-mod_left}

-- A finite `float64`: the numerator over two to the scale, with a sign. Every finite value has
-- this form, and the values that a JSON number decodes to are finite.
pub record Float64 : Type 0 where
  pub negative : Bool
  pub numerator : ℕ
  pub scale : ℕ

-- The denominator of a value.
unfoldable pub denominator : Float64 → ℕ
denominator x = 2 ^ x.scale

-- `x < 0.5`.
unfoldable pub below_half : Float64 → Bool
below_half x = x.negative || ltb (2 * x.numerator) (denominator x)

-- `x > 10`.
unfoldable pub above_ten : Float64 → Bool
above_ten x = not x.negative && ltb (10 * denominator x) x.numerator

-- `x * 2`, which is exact in the range where it is asked.
unfoldable pub double : Float64 → Float64
double x = record x { numerator = 2 * x.numerator }

-- `x == math.Trunc(x)`.
unfoldable pub is_whole : Float64 → Bool
is_whole x = x.numerator % denominator x == 0

-- `x != 0`, which is false of minus zero too.
unfoldable pub is_nonzero : Float64 → Bool
is_nonzero x = not (x.numerator == 0)

-- `Rating`.
unfoldable pub rating : Option Float64 → Result Error (Unit {0})
rating none = ok tt
rating (some x) =
    if below_half x || above_ten x
    then err out_of_range
    else if not (is_whole (double x))
    then err out_of_range
    else ok tt

-- A value is a number of half steps: `n` halves.
abbrev pub IsHalves : ℕ → Float64 → Type 0
IsHalves n x = (x.negative ≡ false) × (2 * x.numerator ≡ n * denominator x)

-- A score that the program may store: one to twenty halves.
abbrev pub IsScore : Float64 → Type 0
IsScore x = (n : ℕ) × (1 ≤ n) × (n ≤ 20) × IsHalves n x

denominator_pos : (x : Float64) → 0 < denominator x
unfolding denominator
denominator_pos x = one-le-pow x.scale 2 (omega arith)

rating→score_core :
    (m d : ℕ)
    → 0 < d
    → d ≤ 2 * m
    → m ≤ 10 * d
    → 2 * m % d ≡ 0
    → (n : ℕ) × (1 ≤ n) × (n ≤ 20) × (2 * m ≡ n * d)
rating→score_core m d pos low high whole = (
  2 * m / d,
  grind (arith, div-add-mod' (2 * m) d),
  grind (arith, div-add-mod' (2 * m) d),
  omega (arith, div-add-mod' (2 * m) d),
)

score→rating_core :
    (m d n : ℕ)
    → 0 < d
    → 1 ≤ n
    → n ≤ 20
    → 2 * m ≡ n * d
    → (d ≤ 2 * m) × (m ≤ 10 * d) × (2 * m % d ≡ 0)
score→rating_core m d n pos low high e = (grind arith, grind arith, rw e (mul-mod_left n d))

rating_facts :
    (x : Float64)
    → (rating (some x) ≡ ok tt) ↔ (
        (x.negative ≡ false)
        × (denominator x ≤ 2 * x.numerator)
        × (x.numerator ≤ 10 * denominator x)
        × (2 * x.numerator % denominator x ≡ 0))
unfolding rating below_half above_ten is_whole double denominator
rating_facts x = (ground arith, ground arith)

-- A score is accepted exactly when it is a whole number of half steps from 0.5 to 10.
pub rating-IsScore : (x : Float64) → (rating (some x) ≡ ok tt) ↔ IsScore x
rating-IsScore x =
    let pos = denominator_pos x in
    (
      λ h.
          let (sign, low, high, whole) = (rating_facts x).0 h in
          let (n, one, twenty, e) =
            rating→score_core x.numerator (denominator x) pos low high whole in
          (n, one, twenty, (sign, e)),
      λ (n, one, twenty, (sign, e)).
          let (low, high, whole) =
            score→rating_core x.numerator (denominator x) n pos one twenty e in
          (rating_facts x).1 (sign, low, high, whole),
    )

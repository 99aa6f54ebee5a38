-- ===== src/Text.antt =====
-- Go strings, and what the program uses of the packages `strings`, `unicode` and `unicode/utf8`.
-- A string is the list of its runes. Its length in bytes is counted by their UTF-8 widths.
pub mod Trim
pub mod Case
pub mod Bytes
use toomanyhours_api.Prelude.{
  ℕ, ◌+◌, ◌≡◌, refl, ◌↔◌, Bool, true, false, ◌&&◌, ◌||◌, List, [], ◌∷◌, map, arith, ltb, leb, ◌==◌,
  ==_iff, if◌then◌else◌, String, ◌≤◌,
}
use Prim.Native.Char.{code}
use Prim.Native.String

abbrev pub Text : Type 0
Text = List ℕ

-- The runes of a literal.
abbrev pub codes : String → Text
codes String.[] = []
codes (String.◌∷◌ c s) = code c ∷ codes s

-- `a == b` on strings.
unfoldable pub same : Text → Text → Bool
same [] [] = true
same [] (y ∷ ys) = false
same (x ∷ xs) [] = false
same (x ∷ xs) (y ∷ ys) = x == y && same xs ys

pub same→eq : (a b : Text) → same a b ≡ true → a ≡ b
unfolding same
same→eq [] [] h = refl
same→eq [] (y ∷ ys) h = ground arith
same→eq (x ∷ xs) [] h = ground arith
same→eq (x ∷ xs) (y ∷ ys) h = ground (arith, same→eq xs ys)

pub same_refl : (a : Text) → same a a ≡ true
unfolding same
same_refl [] = refl
same_refl (x ∷ xs) = ground (arith, same_refl xs)

pub same_iff : (a b : Text) → (same a b ≡ true) ↔ (a ≡ b)
same_iff a b = (same→eq a b, λ e. cc (same_refl a, e))

-- The bytes of one rune in UTF-8.
unfoldable pub rune_len : ℕ → ℕ
rune_len r = if ltb r 0x80 then 1 else if ltb r 0x800 then 2 else if ltb r 0x10000 then 3 else 4

-- `len(s)`: bytes.
unfoldable pub byte_len : Text → ℕ
unfolding rune_len
byte_len [] = 0
byte_len (r ∷ rs) = rune_len r + byte_len rs

-- `unicode.IsSpace`: the ASCII and Latin-1 spaces, and those of Unicode's White_Space beyond.
unfoldable pub is_space : ℕ → Bool
is_space r =
    (leb 0x09 r && leb r 0x0d)
    || r == 0x20
    || r == 0x85
    || r == 0xa0
    || r == 0x1680
    || (leb 0x2000 r && leb r 0x200a)
    || r == 0x2028
    || r == 0x2029
    || r == 0x202f
    || r == 0x205f
    || r == 0x3000

-- `unicode.ToLower`.
unfoldable pub to_lower_rune : (ℕ → ℕ) → ℕ → ℕ
to_lower_rune wide r =
    if ltb r 0x80 then (if leb b'A' r && leb r b'Z' then r + 32 else r) else wide r

-- What the program relies on of Unicode's case table past ASCII, which the Go library ships as
-- data: a lower-case form is its own lower-case form, and changing case makes no space.
pub record IsCaseTable (wide : ℕ → ℕ) : Type 0 where
  pub lower_stable : (r : ℕ) → 0x80 ≤ r → to_lower_rune wide (wide r) ≡ wide r
  pub lower_spaces : (r : ℕ) → 0x80 ≤ r → is_space (wide r) ≡ is_space r

-- `strings.ToLower`.
unfoldable pub to_lower : (ℕ → ℕ) → Text → Text
to_lower wide = map (to_lower_rune wide)

-- ===== src/Text/Bytes.antt =====
-- Bytes written as text: what the program uses of `encoding/base64` and `encoding/hex`.
use toomanyhours_api.Prelude.{ℕ, ◌+◌, ◌-◌, ◌*◌, ◌/◌, ◌%◌, List, [], ◌∷◌, ltb, ◌==◌, if◌then◌else◌}
use toomanyhours_api.Text.{Text}

-- The character of a group of six bits in the standard alphabet.
unfoldable pub sextet : ℕ → ℕ
sextet v =
    if ltb v 26
    then 65 + v
    else if ltb v 52
    then 71 + v
    else if ltb v 62
    then v - 4
    else if v == 62
    then 43
    else 47

-- The padding.
abbrev pub padding : ℕ
padding = 61

-- `base64.StdEncoding.EncodeToString`: four characters for every three bytes.
unfoldable pub base64 : List ℕ → Text
unfolding sextet
base64 [] = []
base64 (a ∷ []) = sextet (a / 4) ∷ sextet (a % 4 * 16) ∷ padding ∷ padding ∷ []
base64 (a ∷ b ∷ []) =
    sextet (a / 4) ∷ sextet (a % 4 * 16 + b / 16) ∷ sextet (b % 16 * 4) ∷ padding ∷ []
base64 (a ∷ b ∷ c ∷ rest) =
    sextet (a / 4)
    ∷ sextet (a % 4 * 16 + b / 16)
    ∷ sextet (b % 16 * 4 + c / 64)
    ∷ sextet (c % 64)
    ∷ base64 rest

-- A hexadecimal digit.
unfoldable pub hex_digit : ℕ → ℕ
hex_digit v = if ltb v 10 then 48 + v else 87 + v

-- `hex.EncodeToString`.
unfoldable pub hex : List ℕ → Text
unfolding hex_digit
hex [] = []
hex (b ∷ bs) = hex_digit (b / 16) ∷ hex_digit (b % 16) ∷ hex bs

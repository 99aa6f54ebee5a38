-- ===== src/Validate.antt =====
-- The input rules of internal/validate: user.go and listentry.go.
pub mod Rating
pub mod Account
pub mod Entry
use toomanyhours_api.Prelude.{
  ℕ, ◌+◌, ◌≡◌, Bool, true, false, not, ◌&&◌, ◌||◌, List, [], ◌∷◌, Option, none, some, Result, ok,
  err, ltb, leb, ◌==◌, if◌then◌else◌, length, any,
}
use toomanyhours_api.Text.{Text, codes, same, byte_len, to_lower}
use toomanyhours_api.Text.Trim.{trim_space}

-- `ErrLength`, `ErrFormat`, `ErrReserved`, `ErrProfane` and `ErrRange`.
pub data Error : Type 0 where
  wrong_length invalid_format reserved profane out_of_range : Error

abbrev pub username_min_len : ℕ
username_min_len = 3

abbrev pub username_max_len : ℕ
username_max_len = 16

abbrev pub password_min_len : ℕ
password_min_len = 8

abbrev pub password_max_bytes : ℕ
password_max_bytes = 72

abbrev pub bio_max_runes : ℕ
bio_max_runes = 500

abbrev pub review_max_runes : ℕ
review_max_runes = 8000

-- `reservedUsernames`, a set.
unfoldable pub reserved_usernames : List Text
reserved_usernames =
    codes "admin"
    ∷ codes "api"
    ∷ codes "me"
    ∷ codes "settings"
    ∷ codes "login"
    ∷ codes "logout"
    ∷ codes "register"
    ∷ codes "support"
    ∷ codes "about"
    ∷ codes "help"
    ∷ codes "root"
    ∷ codes "u"
    ∷ []

-- `_, taken := set[name]`.
unfoldable pub is_member : Text → List Text → Bool
is_member name set = any (same name) set

-- A rune that a username may hold.
unfoldable pub is_name_rune : ℕ → Bool
is_name_rune r = (leb b'a' r && leb r b'z') || (leb b'0' r && leb r b'9') || r == b'_'

-- The loop over the runes of a name: false at the first that is not allowed.
unfoldable pub charset_ok : Text → Bool
unfolding is_name_rune
charset_ok [] = true
charset_ok (r ∷ rs) = is_name_rune r && charset_ok rs

-- `strings.ToLower(strings.TrimSpace(raw))`, over the case table.
unfoldable pub normalize : (ℕ → ℕ) → Text → Text
normalize wide raw = to_lower wide (trim_space raw)

-- `Username`, over the profanity filter of go-away.
unfoldable pub username : (ℕ → ℕ) → (Text → Bool) → Text → Result Error Text
username wide is_profane raw =
    let name = normalize wide raw in
    if ltb (byte_len name) username_min_len || ltb username_max_len (byte_len name)
    then err wrong_length
    else if not (charset_ok name)
    then err invalid_format
    else if is_member name reserved_usernames
    then err reserved
    else if is_profane name
    then err profane
    else ok name

-- `Email`, over `mail.ParseAddress`, of which only the success counts.
unfoldable pub email : (ℕ → ℕ) → (Text → Bool) → Text → Result Error Text
email wide parses_address raw =
    let addr = normalize wide raw in if parses_address addr then ok addr else err invalid_format

-- `Password`.
unfoldable pub password : Text → Result Error (Unit {0})
password raw =
    if ltb (length raw) password_min_len
    then err wrong_length
    else if ltb password_max_bytes (byte_len raw)
    then err wrong_length
    else ok tt

-- `trimmed == ""`.
abbrev pub is_empty : Text → Bool
is_empty [] = true
is_empty (r ∷ rs) = false

-- `Bio`.
unfoldable pub bio : Option Text → Result Error (Option Text)
bio none = ok none
bio (some raw) =
    let trimmed = trim_space raw in
    if is_empty trimmed
    then ok none
    else if ltb bio_max_runes (length trimmed)
    then err wrong_length
    else ok (some trimmed)

-- `CategoryFinished`.
abbrev pub category_finished : Text
category_finished = codes "finished"

-- `categories`, a set.
unfoldable pub categories : List Text
categories = category_finished ∷ codes "currently_playing" ∷ codes "want_to_play" ∷ []

-- `Category`.
unfoldable pub category : (ℕ → ℕ) → Text → Result Error Text
category wide raw =
    let c = normalize wide raw in if is_member c categories then ok c else err invalid_format

-- `ResultingCategory`.
unfoldable pub resulting_category : Text → Option Text → Text
resulting_category current none = current
resulting_category current (some patch) = patch

-- `RatingAllowed`.
unfoldable pub rating_allowed : Text → Bool
rating_allowed c = same c category_finished

-- `Review`.
unfoldable pub review : Option Text → Result Error (Option Text)
review none = ok none
review (some raw) =
    let trimmed = trim_space raw in
    if is_empty trimmed
    then ok none
    else if ltb review_max_runes (length trimmed)
    then err wrong_length
    else ok (some trimmed)

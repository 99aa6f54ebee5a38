-- ===== src/Tests/Validation.antt =====
-- internal/validate and internal/models at concrete inputs.
use toomanyhours_api.Prelude.{
  ℕ, ◌≡◌, ◌↔◌, ◌≤◌, refl, Bool, true, false, Option, none, some, [], ◌∷◌, ok, err, arith, length,
  any,
}
use toomanyhours_api.Text.{
  Text, codes, same, byte_len, to_lower, to_lower_rune, is_space, IsCaseTable,
}
use toomanyhours_api.Text.Trim.{trim_space, trim_right, trim_left, cons_trimmed}
use toomanyhours_api.Validate.{
  username, email, bio, review, category, password, normalize, reserved, invalid_format,
  bio_max_runes, review_max_runes, charset_ok, is_member, reserved_usernames,
}
use toomanyhours_api.Validate.Rating.{Float64, rating, IsScore, rating-IsScore}
use toomanyhours_api.Validate.Account.{
  IsUsername, username-IsUsername, username-length, username_idem, email_idem, password_iff,
  IsStored, bio-IsStored, review-IsStored,
}
use toomanyhours_api.Validate.Entry.{IsCategory, category-IsCategory}
use toomanyhours_api.Models.Catalog.{IgdbGame}

-- A case table that changes nothing past ASCII.
abbrev plain : ℕ → ℕ
plain r = r

abbrev nobody : Text → Bool
nobody name = false

abbrev anything : Text → Bool
anything addr = true

abbrev raw_name : Text
raw_name = codes "  Gordon_F "

abbrev stored_name : Text
stored_name = codes "gordon_f"

accepts : username plain nobody raw_name ≡ ok stored_name
unfolding username byte_len normalize to_lower trim_space trim_right trim_left is_space cons_trimmed
    to_lower_rune charset_ok is_member any reserved_usernames same
accepts = refl

refuses_reserved : username plain nobody (codes "Admin") ≡ err reserved
unfolding username byte_len normalize to_lower trim_space trim_right trim_left is_space cons_trimmed
    to_lower_rune charset_ok is_member any reserved_usernames same
refuses_reserved = refl

refuses_format : username plain nobody (codes "a-b-c") ≡ err invalid_format
unfolding username byte_len normalize to_lower trim_space trim_right trim_left is_space cons_trimmed
    to_lower_rune charset_ok
refuses_format = refl

username-IsUsername_example :
    (username plain nobody raw_name ≡ ok stored_name)
    ↔ ((normalize plain raw_name ≡ stored_name) × IsUsername nobody stored_name)
username-IsUsername_example = username-IsUsername plain nobody raw_name stored_name

username-length_example :
    (3 ≤ length stored_name)
    × (length stored_name ≤ 16)
    × (byte_len stored_name ≡ length stored_name)
username-length_example = username-length plain nobody raw_name stored_name accepts

username_idem_example : username plain nobody stored_name ≡ ok stored_name
username_idem_example = username_idem plain plain nobody raw_name stored_name accepts

plain-IsCaseTable : IsCaseTable plain
unfolding to_lower_rune
plain-IsCaseTable = record { lower_stable = λ r h. ground arith; lower_spaces = λ r h. refl }

accepts_email : email plain anything (codes " Ann@Example.COM") ≡ ok (codes "ann@example.com")
unfolding email normalize to_lower trim_space trim_right trim_left is_space cons_trimmed
    to_lower_rune
accepts_email = refl

email_idem_example : email plain anything (codes "ann@example.com") ≡ ok (codes "ann@example.com")
email_idem_example =
    email_idem plain anything (codes " Ann@Example.COM") (codes "ann@example.com") plain-IsCaseTable
      accepts_email

password_iff_example :
    (password (codes "devpassword") ≡ ok tt)
    ↔ ((8 ≤ length (codes "devpassword")) × (byte_len (codes "devpassword") ≤ 72))
password_iff_example = password_iff (codes "devpassword")

accepts_bio : bio (some (codes "  hi ")) ≡ ok (some (codes "hi"))
unfolding bio trim_space trim_right trim_left is_space cons_trimmed
accepts_bio = refl

bio-IsStored_example :
    IsStored bio_max_runes (some (codes "hi")) × (bio (some (codes "hi")) ≡ ok (some (codes "hi")))
bio-IsStored_example = bio-IsStored (some (codes "  hi ")) (some (codes "hi")) accepts_bio

accepts_review : review (some (codes " good ")) ≡ ok (some (codes "good"))
unfolding review trim_space trim_right trim_left is_space cons_trimmed
accepts_review = refl

review-IsStored_example :
    IsStored review_max_runes (some (codes "good"))
    × (review (some (codes "good")) ≡ ok (some (codes "good")))
review-IsStored_example =
    review-IsStored (some (codes " good ")) (some (codes "good")) accepts_review

category-IsCategory_example :
    (category plain (codes " Finished ") ≡ ok (codes "finished"))
    ↔ ((normalize plain (codes " Finished ") ≡ codes "finished") × IsCategory (codes "finished"))
category-IsCategory_example = category-IsCategory plain (codes " Finished ") (codes "finished")

-- 6.5 as the binary fraction 13 / 2.
abbrev six_and_a_half : Float64
six_and_a_half = record { negative = false; numerator = 13; scale = 1 }

rating-IsScore_example : (rating (some six_and_a_half) ≡ ok tt) ↔ IsScore six_and_a_half
rating-IsScore_example = rating-IsScore six_and_a_half

abbrev fetched : IgdbGame
fetched = record {
  igdb_id = 1942;
  title = codes "The Witcher 3";
  kind = codes "main_game";
  parent_igdb_id = none;
  summary = none;
  image = none;
  release_date = some (codes "2015-05-19");
  genres = record { igdb_id = 12; name = codes "RPG" } ∷ [];
  themes = record { igdb_id = 1; name = codes "Action" } ∷ [];
  game_modes = [];
}

abbrev no_date : Text → Option ℕ
no_date d = none

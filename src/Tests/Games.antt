-- ===== src/Tests/Games.antt =====
-- The list of cmd/api/user_games_handlers.go at concrete inputs.
use toomanyhours_api.Prelude.{
  ℕ, ◌≡◌, ◌⊎◌, refl, true, Option, some, none, [], ◌∷◌, ok, err, arith, find, is_some, inl, inr,
  Bool,
}
use toomanyhours_api.Text.{Text, codes}
use toomanyhours_api.Validate.Rating.{Float64, denominator}
use toomanyhours_api.Models.{UserGame}
use toomanyhours_api.World.{World}
use toomanyhours_api.Repo.UserGames.{is_entry}
use toomanyhours_api.Api.{signed_in, json, empty}
use toomanyhours_api.Igdb.Client.{Config}
use toomanyhours_api.Api.Games.{
  PostPayload, PatchPayload, patch_my_game, delete_my_game, not_in_your_list,
}
use toomanyhours_api.Api.Games.Stored.{IsRow}
use toomanyhours_api.Api.Games.Gate.{IsGated, patch_my_game-IsGated}
use toomanyhours_api.Api.Games.Answers.{delete_my_game-cases}
use toomanyhours_api.Tests.Sessions.{outside, alive, up}

-- Eight and a half, which is 17 halves.
abbrev high : Float64
high = record { negative = Bool.false; numerator = 17; scale = 1 }

abbrev entry_of : ℕ → ℕ → Text → Option Float64 → UserGame
entry_of user_id game_id category rating = record {
  id = 1;
  user_id = user_id;
  game_id = game_id;
  category = category;
  rating = rating;
  review = none;
  hours = none;
  created_at = 0;
  updated_at = 0;
}

abbrev played : UserGame
played = entry_of 7 3 (codes "finished") (some high)

abbrev playing : UserGame
playing = entry_of 8 3 (codes "currently_playing") none

abbrev pub listed : World
listed = record alive { db = record alive.db { entries = playing ∷ played ∷ [] } }

abbrev rated : PatchPayload
rated = record { category = none; rating = some high; review = none }

abbrev posted : PostPayload
posted = record { igdb_id = 1942; category = codes "finished"; rating = some high; review = none }

abbrev silent : Config
silent = record {
  client_id = codes "id";
  client_secret = codes "s3cret";
  token_url = [];
  api_url = [];
}

pub playing-IsRow : IsRow playing
playing-IsRow = record { kind = inr (inl refl); score = tt; words = tt }

pub played-IsRow : IsRow played
unfolding denominator
played-IsRow = record {
  kind = inl refl;
  score = (17, ground arith, ground arith, (refl, refl));
  words = tt;
}

playing-found : find (is_entry 8 3) listed.db.entries ≡ some playing
unfolding find
playing-found = refl

patch_my_game-IsGated_example :
    (new : UserGame) × (find
        (is_entry 8 3)
        (patch_my_game outside (signed_in 8) (some 3) (some rated) listed).1.db.entries
      ≡ some new)
    × IsGated playing new
patch_my_game-IsGated_example =
    patch_my_game-IsGated outside 8 3 (some rated) playing listed playing-found

delete_my_game-cases_example :
    let (r, w') = delete_my_game outside (signed_in 7) (some 3) listed in
    ((is_some (find (is_entry 7 3) listed.db.entries) ≡ true)
      × (r ≡ ok (json 204 empty))
      × (find (is_entry 7 3) w'.db.entries ≡ none))
    ⊎ ((find (is_entry 7 3) listed.db.entries ≡ none)
        × (r ≡ err not_in_your_list)
        × (w'.db ≡ listed.db))
delete_my_game-cases_example = delete_my_game-cases outside 7 3 listed up

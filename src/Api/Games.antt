-- ===== src/Api/Games.antt =====
-- cmd/api/user_games_handlers.go: the signed-in user's list.
--
-- A payload is given as the decoder leaves it, none if it refuses the body. A game id of a path
-- is given as `strconv.Atoi` reads it, none if it is not a number. A negative id, which names no
-- row, is not represented.
pub mod Rules
pub mod Isolation
pub mod Stored
pub mod Gate
pub mod Answers
use toomanyhours_api.Prelude.{
  ℕ, Bool, true, false, not, ◌&&◌, ◌||◌, Option, none, some, List, [], ◌∷◌, Result, ok, err, String,
  if◌then◌else◌, is_some,
}
use toomanyhours_api.Text.{Text}
use toomanyhours_api.Validate.{Error, category, rating_allowed, resulting_category, review}
use toomanyhours_api.Validate.Rating.{Float64, rating, is_nonzero}
use toomanyhours_api.Models.{Entry, UserGameUpdate}
use toomanyhours_api.World.{
  World, Outside, DbError, record_not_found, no_rows, duplicated_key, unavailable,
}
use toomanyhours_api.World.Exec.{Exec, pure, raise, ◌>>=◌, ◌>>◌, or_else}
use toomanyhours_api.Repo.UserGames.{
  get_user_games, add_user_game, get_user_game_category, update_user_game, delete_user_game,
}
use toomanyhours_api.Api.{
  Response, Handler, UserContext, current_user_id, or_respond, error_json, json, bad_request,
  invalid, entry, entries, empty,
}
use toomanyhours_api.Igdb.Client.{Config}
use toomanyhours_api.Api.Import.{import_igdb_games}

-- The payload of `PostMyGame`.
pub record PostPayload : Type 0 where
  pub igdb_id : ℕ
  pub category : Text
  pub rating : Option Float64
  pub review : Option Text

-- The payload of `PatchMyGame`.
pub record PatchPayload : Type 0 where
  pub category : Option Text
  pub rating : Option Float64
  pub review : Option Text

-- A value that a rule accepts, or the answer to its error.
abbrev pub or_invalid : {A : Type 0} → String → Result Error A → Handler A
or_invalid field (ok a) = pure a
or_invalid field (err e) = raise (invalid field e)

-- The first of `importIGDBGames`'s ids: indexing an empty slice panics, and gin answers 500.
abbrev pub first_id : List ℕ → Handler ℕ
first_id [] = raise (json 500 empty)
first_id (id ∷ ids) = pure id

abbrev pub require : Bool → Response → Handler (Unit {0})
require true r = pure tt
require false r = raise r

-- The answers to the errors of the queries.
abbrev pub add_failure : DbError → Response
add_failure duplicated_key = error_json "That game is already in your list" 409
add_failure record_not_found = error_json "Could not add to your list" 500
add_failure no_rows = error_json "Could not add to your list" 500
add_failure unavailable = error_json "Could not add to your list" 500

abbrev pub not_in_your_list : Response
not_in_your_list = error_json "Not in your list" 404

-- 404 for a row that is not there, and a failure of the given text for the rest.
abbrev pub entry_failure : String → DbError → Response
entry_failure text record_not_found = not_in_your_list
entry_failure text no_rows = error_json text 500
entry_failure text duplicated_key = error_json text 500
entry_failure text unavailable = error_json text 500

abbrev pub could_not_update : String
could_not_update = "Could not update your list"

abbrev pub could_not_remove : String
could_not_remove = "Could not remove from your list"

abbrev pub only_finished : Response
only_finished = error_json "only a finished game can be rated or reviewed" 400

abbrev pub only_what_you_finished : Response
only_what_you_finished = error_json "You can only rate and review games you have finished" 400

abbrev pub invalid_game_id : Response
invalid_game_id = error_json "Invalid game id" 400

abbrev pub nothing_to_update : Response
nothing_to_update = error_json "nothing to update" 400

-- The new rating of a patch: whether it is set, and to what. A zero clears it.
unfoldable pub patched_rating : Option Float64 → Handler (Bool × Option Float64)
patched_rating none = pure (false, none)
patched_rating (some x) =
    if is_nonzero x
    then (or_invalid "rating" (rating (some x)) >> pure (true, some x))
    else pure (true, none)

-- The new review of a patch. A blank one clears it.
unfoldable pub patched_review : Option Text → Handler (Bool × Option Text)
patched_review none = pure (false, none)
patched_review (some raw) = do stored ← or_invalid "review" (review (some raw)); pure (true, stored)

-- The payload of an insertion passes the rule on ratings and reviews.
abbrev pub may_rate : Option Float64 → Option Text → Text → Bool
may_rate rating review category = not (is_some rating || is_some review) || rating_allowed category

-- A patch that changes something.
abbrev pub has_change : PatchPayload → Bool
has_change payload = is_some payload.category || is_some payload.rating || is_some payload.review

-- The update of the values that a patch sets.
abbrev pub update_of : Option Text → Bool × Option Float64 → Bool × Option Text → UserGameUpdate
update_of category rating review = record {
  category = category;
  set_rating = rating.0;
  rating = rating.1;
  set_review = review.0;
  review = review.1;
}

module _ (out : Outside) where
  -- `GetMyGames`.
  unfoldable pub get_my_games : UserContext → Handler Response
  unfolding current_user_id
  get_my_games context = do
    user_id ← current_user_id context
    list ← or_else (get_user_games out user_id) (λ _. error_json "Could not load your list" 500)
    pure (json 200 (entries list))

  -- `PostMyGame` for the user who is signed in.
  unfoldable pub post_entry : Option Config → Option PostPayload → ℕ → Handler Response
  post_entry client decoded user_id = do
    payload ← or_respond decoded bad_request
    category ← or_invalid "category" (category out.wide payload.category)
    require (not (is_some payload.rating || is_some payload.review) || rating_allowed category)
        only_finished
    or_invalid "rating" (rating payload.rating)
    review ← or_invalid "review" (review payload.review)
    game_ids ← import_igdb_games out client (payload.igdb_id ∷ [])
    game_id ← first_id game_ids
    added ← or_else (add_user_game out user_id game_id category payload.rating review) add_failure
    pure (json 201 (entry added))

  -- `PostMyGame`.
  unfoldable pub post_my_game : Option Config → UserContext → Option PostPayload → Handler Response
  unfolding current_user_id post_entry
  post_my_game client context decoded = current_user_id context >>= post_entry client decoded

  -- The category that a patch names, validated.
  unfoldable pub patched_category : Option Text → Handler (Option Text)
  patched_category none = pure none
  patched_category (some raw) = do c ← or_invalid "category" (category out.wide raw); pure (some c)

  -- The rule on ratings and reviews, asked only of a patch that has one.
  unfoldable pub gate_rating : ℕ → ℕ → PatchPayload → Option Text → Handler (Unit {0})
  gate_rating user_id game_id payload patch =
      if is_some payload.rating || is_some payload.review
      then (or_else (get_user_game_category out user_id game_id) (entry_failure could_not_update)
          >>= λ current.
              require (rating_allowed (resulting_category current patch)) only_what_you_finished)
      else pure tt

  -- The update that `PatchMyGame` makes of a payload, with every check on the way.
  unfoldable pub checked_patch : ℕ → ℕ → PatchPayload → Handler UserGameUpdate
  unfolding patched_category gate_rating patched_rating patched_review
  checked_patch user_id game_id payload = do
    category ← patched_category payload.category
    gate_rating user_id game_id payload category
    rating ← patched_rating payload.rating
    review ← patched_review payload.review
    pure (update_of category rating review)

  -- `PatchMyGame` for the user who is signed in, and a game.
  unfoldable pub patch_game : Option PatchPayload → ℕ → ℕ → Handler Response
  unfolding checked_patch
  patch_game decoded user_id game_id = do
    payload ← or_respond decoded bad_request
    require (has_change payload) nothing_to_update
    upd ← checked_patch user_id game_id payload
    patched ← or_else (update_user_game out user_id game_id upd) (entry_failure could_not_update)
    pure (json 200 (entry patched))

  unfoldable pub patch_entry : Option ℕ → Option PatchPayload → ℕ → Handler Response
  unfolding patch_game
  patch_entry param decoded user_id =
      or_respond param invalid_game_id >>= patch_game decoded user_id

  -- `PatchMyGame`.
  unfoldable pub patch_my_game : UserContext → Option ℕ → Option PatchPayload → Handler Response
  unfolding current_user_id patch_entry
  patch_my_game context param decoded = current_user_id context >>= patch_entry param decoded

  -- `DeleteMyGame` for the user who is signed in.
  unfoldable pub delete_entry : Option ℕ → ℕ → Handler Response
  delete_entry param user_id = do
    game_id ← or_respond param invalid_game_id
    or_else (delete_user_game out user_id game_id) (entry_failure could_not_remove)
    pure (json 204 empty)

  -- `DeleteMyGame`.
  unfoldable pub delete_my_game : UserContext → Option ℕ → Handler Response
  unfolding current_user_id delete_entry
  delete_my_game context param = current_user_id context >>= delete_entry param

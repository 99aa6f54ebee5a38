-- ===== src/Api/Catalog.antt =====
-- `SearchGames` and `GetGameDLCs` of cmd/api/igdb_handlers.go.
--
-- A number of a path or a query is given as `strconv.Atoi` reads it, none if it does not.
use toomanyhours_api.Prelude.{
  ℕ, Bool, not, ◌||◌, Option, none, some, ltb, length, min, if◌then◌else◌,
}
use toomanyhours_api.Prelude.Int.{ℤ, pos, pos_part, ltb_ℤ}
use toomanyhours_api.Text.{Text}
use toomanyhours_api.Text.Trim.{trim_space}
use toomanyhours_api.World.{Outside}
use toomanyhours_api.World.Exec.{pure, ◌>>=◌, ◌>>◌, or_else}
use toomanyhours_api.Igdb.Throttle.{ClientError, not_configured, upstream, context_done}
use toomanyhours_api.Igdb.Client.{Config}
use toomanyhours_api.Igdb.Games.{search_games, get_dlcs}
use toomanyhours_api.Api.{Response, Handler, or_respond, error_json, json, igdb_games}
use toomanyhours_api.Api.Games.{require}

abbrev pub search_min_runes : ℕ
search_min_runes = 2

abbrev pub search_max_runes : ℕ
search_max_runes = 100

abbrev pub search_default_limit : ℕ
search_default_limit = 20

abbrev pub search_max_limit : ℕ
search_max_limit = 50

abbrev pub search_not_configured : Response
search_not_configured = error_json "Game search is not configured on this server" 503

abbrev pub data_not_configured : Response
data_not_configured = error_json "Game data is not configured on this server" 503

-- The answers to the errors of the client.
abbrev pub search_failure : ClientError → Response
search_failure not_configured = search_not_configured
search_failure upstream = error_json "Game search is unavailable right now" 502
search_failure context_done = error_json "Game search is unavailable right now" 502

abbrev pub data_failure : ClientError → Response
data_failure not_configured = data_not_configured
data_failure upstream = error_json "Game data is unavailable right now" 502
data_failure context_done = error_json "Game data is unavailable right now" 502

-- Whether a trimmed query has an acceptable length in runes.
unfoldable pub is_query : Text → Bool
is_query query = not (ltb (length query) search_min_runes || ltb search_max_runes (length query))

-- A number that is read and at least 1.
unfoldable pub positive : Option ℤ → Option ℕ
positive none = none
positive (some n) = if ltb_ℤ n (pos 1) then none else some (pos_part n)

-- The limit of a search: none stands for a request that gives none.
unfoldable pub search_limit : Option (Option ℤ) → Handler ℕ
unfolding positive
search_limit none = pure search_default_limit
search_limit (some raw) = do
  n ← or_respond (positive raw) (error_json "limit must be a positive integer" 400)
  pure (min n search_max_limit)

module _ (out : Outside) where
  -- `SearchGames`, of the client that is configured, if one is.
  unfoldable pub search_games_handler : Option Config → Text → Option (Option ℤ) → Handler Response
  search_games_handler client q limit_param = do
    cfg ← or_respond client search_not_configured
    require (is_query (trim_space q)) (error_json "q must be between 2 and 100 characters" 400)
    limit ← search_limit limit_param
    found ← or_else (search_games out cfg (trim_space q) limit) search_failure
    pure (json 200 (igdb_games found))

  -- `GetGameDLCs`.
  unfoldable pub get_game_dlcs : Option Config → Option ℤ → Handler Response
  get_game_dlcs client param = do
    cfg ← or_respond client data_not_configured
    igdb_id ← or_respond (positive param) (error_json "Invalid game id" 400)
    found ← or_else (get_dlcs out cfg igdb_id) data_failure
    pure (json 200 (igdb_games found))

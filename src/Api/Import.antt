-- ===== src/Api/Import.antt =====
-- `importIGDBGames` of cmd/api/igdb_handlers.go: local ids for games that IGDB names.
use toomanyhours_api.Prelude.{
  ℕ, ◌++◌, not, Option, none, some, List, [], ◌∷◌, ◌==◌, length, if◌then◌else◌, is_some, select,
  map,
}
use toomanyhours_api.Models.Catalog.{from_igdb}
use toomanyhours_api.Igdb.Client.{Config}
use toomanyhours_api.Igdb.Games.{get_by_ids}
use toomanyhours_api.World.{Outside}
use toomanyhours_api.World.Exec.{pure, raise, ◌>>=◌, or_else}
use toomanyhours_api.Repo.Catalog.{IdMap, local_id, games_by_igdb_ids, import_games}
use toomanyhours_api.Api.{Handler, error_json, or_respond}

-- The ids that the catalog does not know.
unfoldable pub missing_ids : IdMap → List ℕ → List ℕ
missing_ids known ids = select (λ id. not (is_some (local_id id known))) ids

-- `known[id]`, the zero value of a missing key included.
unfoldable pub id_or_zero : IdMap → ℕ → ℕ
id_or_zero known id = elim (local_id id known) [ none ↦ 0 | some v ↦ v ]

module _ (out : Outside) where
  -- Fetching and storing what is missing: the ids that were stored.
  unfoldable pub store_missing : Config → List ℕ → Handler IdMap
  store_missing cfg [] = pure []
  store_missing cfg (id ∷ ids) = do
    fetched ← or_else (get_by_ids out cfg (id ∷ ids)) (λ _. error_json "Could not reach IGDB" 502)
    if length fetched == length (id ∷ ids)
        then or_else (import_games out (map (from_igdb out.parse_date) fetched))
            (λ _. error_json "Could not add those games to the catalog" 500)
        else raise (error_json "Unknown game" 404)

  -- `importIGDBGames`, of the client that is configured, if one is.
  unfoldable pub import_igdb_games : Option Config → List ℕ → Handler (List ℕ)
  unfolding missing_ids id_or_zero store_missing
  import_igdb_games client igdb_ids = do
    cfg ←
        or_respond client (error_json "Adding games from IGDB is not configured on this server" 503)
    known ←
        or_else (games_by_igdb_ids out igdb_ids) (λ _. error_json "Could not check the catalog" 500)
    stored ← store_missing cfg (missing_ids known igdb_ids)
    pure (map (id_or_zero (stored ++ known)) igdb_ids)

-- ===== src/Backfill.antt =====
-- cmd/backfill/main.go: re-importing every game of the catalog from IGDB.
--
-- The flags are the configuration. Opening the database is not represented: the run starts with it.
pub mod Safe
use toomanyhours_api.Prelude.{ℕ, List, [], ◌∷◌, map, ok, length, leb, if◌then◌else◌}
use toomanyhours_api.Text.{Text}
use toomanyhours_api.Models.Catalog.{Game, from_igdb}
use toomanyhours_api.Igdb.Client.{Config}
use toomanyhours_api.Igdb.Games.{get_by_ids}
use toomanyhours_api.World.{Outside}
use toomanyhours_api.World.Exec.{Exec, Query, pure, raise, ◌>>=◌, ◌>>◌, or_else, statement}
use toomanyhours_api.Repo.Catalog.{import_games}

-- Why the program ends with `log.Fatal`.
pub data Fatal : Type 0 where
  no_credentials cannot_read cannot_fetch cannot_import : Fatal

-- What it logs at its end: how many games it asked for, and how many it stored.
pub data Report : Type 0 where
  nothing_to_do : Report
  reimported : ℕ → ℕ → Report

-- `Order("igdb_id")`.
unfoldable pub place_id : ℕ → List ℕ → List ℕ
place_id id [] = id ∷ []
place_id id (i ∷ ids) = let rest = place_id id ids in if leb id i then id ∷ i ∷ ids else i ∷ rest

unfoldable pub ascending : List ℕ → List ℕ
ascending [] = []
ascending (id ∷ ids) = place_id id (ascending ids)

module _ (out : Outside) where
  -- `AllGameIGDBIDs`.
  unfoldable pub all_game_igdb_ids : Query (List ℕ)
  all_game_igdb_ids = statement out λ db. (ok (ascending (map (λ g. g.igdb_id) db.games)), db)

  -- `main` from the ids on.
  unfoldable pub reimport : Config → List ℕ → Exec Fatal Report
  reimport cfg [] = pure nothing_to_do
  reimport cfg (id ∷ ids) = do
    fetched ← or_else (get_by_ids out cfg (id ∷ ids)) (λ _. cannot_fetch)
    or_else (import_games out (map (from_igdb out.parse_date) fetched)) (λ _. cannot_import)
    pure (reimported (length (id ∷ ids)) (length fetched))

  -- `main`, of credentials that are there.
  unfoldable pub refill : Config → Exec Fatal Report
  refill cfg = do ids ← or_else all_game_igdb_ids (λ _. cannot_read); reimport cfg ids

  -- `main`, of the id and the secret of the client.
  unfoldable pub backfill : Text → Text → Exec Fatal Report
  backfill [] secret = raise no_credentials
  backfill (r ∷ rs) [] = raise no_credentials
  backfill (r ∷ rs) (s ∷ ss) =
      refill (record { client_id = r ∷ rs; client_secret = s ∷ ss; token_url = []; api_url = [] })

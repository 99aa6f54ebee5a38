-- ===== src/Repo/Catalog.antt =====
-- internal/repository/dbrepo/catalog.go: the games and their tags.
pub mod Lists
pub mod Ids
use toomanyhours_api.Prelude.{
  ℕ, suc, ◌+◌, ◌++◌, Bool, not, ◌&&◌, Option, none, some, List, [], ◌∷◌, Result, ok, err, ◌==◌,
  if◌then◌else◌, find, select, update, any, map,
}
use toomanyhours_api.Text.{Text, same}
use toomanyhours_api.Models.Catalog.{Game, Tag}
use toomanyhours_api.World.{World, Db, Outside, DbError}
use toomanyhours_api.World.Exec.{Query, pure, ◌>>=◌, ◌>>◌, statement, time_now, transaction}

-- A Go map from IGDB ids to local ids, the newest binding first.
abbrev pub IdMap : Type 0
IdMap = List (ℕ × ℕ)

-- `id, ok := m[key]`.
unfoldable pub local_id : ℕ → IdMap → Option ℕ
local_id key [] = none
local_id key ((k, v) ∷ m) = let rest = local_id key m in if k == key then some v else rest

-- `igdb_id IN ?`.
unfoldable pub is_asked : List ℕ → ℕ → Bool
is_asked ids id = any (λ i. i == id) ids

abbrev pub ids_of : Game → ℕ × ℕ
ids_of g = (g.igdb_id, g.id)

-- The row of a game in the table, which holds no associations.
unfoldable pub game_row : Game → Game
game_row g = record g { tags = []; genres = []; themes = []; game_modes = [] }

-- The columns that `ON CONFLICT (igdb_id) DO UPDATE` assigns.
unfoldable pub refresh_game : Game → Game → Game
refresh_game new old = record old {
  title = new.title;
  image = new.image;
  kind = new.kind;
  release_date = new.release_date;
  parent_igdb_id = new.parent_igdb_id;
  summary = new.summary;
  updated_at = new.updated_at;
}

-- The upsert of a game: the id of its row comes back.
unfoldable pub upsert_game : Game → Db → Result DbError ℕ × Db
unfolding game_row refresh_game
upsert_game g db = elim (find (λ h. h.igdb_id == g.igdb_id) db.games) [
  | none ↦ (
    ok db.next_id,
    record db {
      games = db.games ++ record (game_row g) { id = db.next_id } ∷ [];
      next_id = suc db.next_id;
    },
  )
  | some h ↦ (
    ok h.id,
    record db { games = update (λ h. h.igdb_id == g.igdb_id) (refresh_game g) db.games },
  )
]

-- The key of a tag, `(facet, igdb_id)`.
abbrev pub same_tag : Tag → Tag → Bool
same_tag t u = same t.facet u.facet && t.igdb_id == u.igdb_id

abbrev pub refresh_tag : Tag → Tag → Tag
refresh_tag new old = record old { name = new.name; updated_at = new.updated_at }

-- The upsert of a tag.
unfoldable pub upsert_tag : Tag → Db → Result DbError ℕ × Db
upsert_tag t db = elim (find (same_tag t) db.tags) [
  | none ↦ (
    ok db.next_id,
    record db { tags = db.tags ++ record t { id = db.next_id } ∷ []; next_id = suc db.next_id },
  )
  | some u ↦ (ok u.id, record db { tags = update (same_tag t) (refresh_tag t) db.tags })
]

abbrev pub is_link : ℕ → ℕ → ℕ × ℕ → Bool
is_link game_id tag_id (g, t) = g == game_id && t == tag_id

-- `INSERT INTO games_tags … ON CONFLICT DO NOTHING`.
unfoldable pub link_tag : ℕ → ℕ → Db → Result DbError (Unit {0}) × Db
link_tag game_id tag_id db =
    if any (is_link game_id tag_id) db.games_tags
    then (ok tt, db)
    else (ok tt, record db { games_tags = db.games_tags ++ (game_id, tag_id) ∷ [] })

-- `DELETE FROM games_tags WHERE game_id = ?`.
unfoldable pub unlink_tags : ℕ → Db → Result DbError (Unit {0}) × Db
unlink_tags game_id db =
    (ok tt, record db { games_tags = select (λ (g, t). not (g == game_id)) db.games_tags })

-- The rows that the catalog has of the games that are asked for.
unfoldable pub known_games : List ℕ → Db → Result DbError IdMap × Db
known_games ids db = (ok (map ids_of (select (λ g. is_asked ids g.igdb_id) db.games)), db)

module _ (out : Outside) where
  -- `GamesByIGDBIDs`.
  unfoldable pub games_by_igdb_ids : List ℕ → Query IdMap
  games_by_igdb_ids [] = pure []
  games_by_igdb_ids (id ∷ ids) = statement out (known_games (id ∷ ids))

  -- The loop over the tags of a game. A date that is zero is filled in by GORM.
  unfoldable pub import_tags : List Tag → Query (List ℕ)
  import_tags [] = pure []
  import_tags (t ∷ ts) = do
    now ← time_now out
    created ← time_now out
    id ← statement out (upsert_tag (record t { updated_at = now; created_at = created }))
    ids ← import_tags ts
    pure (id ∷ ids)

  -- The loop that writes the links of a game.
  unfoldable pub link_tags : ℕ → List ℕ → Query (Unit {0})
  link_tags game_id [] = pure tt
  link_tags game_id (id ∷ ids) = do statement out (link_tag game_id id); link_tags game_id ids

  -- One round of the loop over the games.
  unfoldable pub import_game : Game → Query ℕ
  import_game g = do
    now ← time_now out
    created ← time_now out
    id ← statement out (upsert_game (record g { updated_at = now; created_at = created }))
    tag_ids ← import_tags g.tags
    statement out (unlink_tags id)
    link_tags id tag_ids
    pure id

  unfoldable pub import_loop : List Game → IdMap → Query IdMap
  import_loop [] imported = pure imported
  import_loop (g ∷ gs) imported = do id ← import_game g; import_loop gs ((g.igdb_id, id) ∷ imported)

  -- `ImportGames`.
  unfoldable pub import_games : List Game → Query IdMap
  import_games [] = pure []
  import_games (g ∷ gs) = transaction (import_loop (g ∷ gs) [])

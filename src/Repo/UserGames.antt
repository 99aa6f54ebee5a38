-- ===== src/Repo/UserGames.antt =====
-- internal/repository/dbrepo/user_games.go: the entries of the users' lists.
--
-- A query and its preloads are one statement here, which fails if one of them does. Rows that a
-- preload finds stand in the order of their table.
use toomanyhours_api.Prelude.{
  ℕ, suc, ◌++◌, Bool, not, ◌&&◌, Option, none, some, List, [], ◌∷◌, Result, ok, err, ◌==◌, ltb,
  if◌then◌else◌, find, select, update, any, map,
}
use toomanyhours_api.Text.{Text}
use toomanyhours_api.Validate.Rating.{Float64}
use toomanyhours_api.Models.{UserGame, Entry, UserGameUpdate}
use toomanyhours_api.Models.Catalog.{Game, split_tags}
use toomanyhours_api.World.{Db, Outside, DbError, record_not_found, duplicated_key}
use toomanyhours_api.World.Exec.{Query, ◌>>=◌, ◌>>◌, statement, time_now}
use toomanyhours_api.Repo.Catalog.{is_link}

-- `user_id = ?`, the condition of `scopedToUser`.
abbrev pub is_of_user : ℕ → UserGame → Bool
is_of_user user_id e = e.user_id == user_id

-- `user_id = ? AND game_id = ?`.
abbrev pub is_entry : ℕ → ℕ → UserGame → Bool
is_entry user_id game_id e = e.user_id == user_id && e.game_id == game_id

-- `Preload("Game.Tags")`.
unfoldable pub with_tags : Db → Game → Game
with_tags db g = record g { tags = select (λ t. any (is_link g.id t.id) db.games_tags) db.tags }

-- `Preload("Game")`, and then `SplitTags` of the game that is found.
unfoldable pub preload : Db → UserGame → Entry
unfolding with_tags
preload db e = record {
  row = e;
  game = elim (find (λ g. g.id == e.game_id) db.games) [
    | none ↦ none
    | some g ↦ some (split_tags (with_tags db g))
  ];
}

-- `ORDER BY created_at DESC`.
unfoldable pub place_newest : UserGame → List UserGame → List UserGame
place_newest e [] = e ∷ []
place_newest e (f ∷ es) =
    let rest = place_newest e es in if ltb e.created_at f.created_at then f ∷ rest else e ∷ f ∷ es

unfoldable pub newest_first : List UserGame → List UserGame
unfolding place_newest
newest_first [] = []
newest_first (e ∷ es) = place_newest e (newest_first es)

-- The insertion, under the unique constraint on the user and the game.
unfoldable pub insert_entry : UserGame → Db → Result DbError (Unit {0}) × Db
insert_entry e db =
    if any (is_entry e.user_id e.game_id) db.entries then (err duplicated_key, db) else (
      ok tt,
      record db {
        entries = db.entries ++ record e { id = db.next_id } ∷ [];
        next_id = suc db.next_id;
      },
    )

-- The map of columns that `UpdateUserGame` writes.
unfoldable pub apply_update : ℕ → UserGameUpdate → UserGame → UserGame
apply_update now upd e = record e {
  updated_at = now;
  category = elim upd.category [ none ↦ e.category | some c ↦ c ];
  rating = if upd.set_rating then upd.rating else e.rating;
  review = if upd.set_review then upd.review else e.review;
}

-- The update. No row affected is an error of the method.
unfoldable pub write_entry : ℕ → ℕ → ℕ → UserGameUpdate → Db → Result DbError (Unit {0}) × Db
unfolding apply_update
write_entry user_id game_id now upd db =
    if not (any (is_entry user_id game_id) db.entries) then (err record_not_found, db) else (
      ok tt,
      record db { entries = update (is_entry user_id game_id) (apply_update now upd) db.entries },
    )

unfoldable pub drop_entry : ℕ → ℕ → Db → Result DbError (Unit {0}) × Db
drop_entry user_id game_id db =
    if not (any (is_entry user_id game_id) db.entries)
    then (err record_not_found, db)
    else (ok tt, record db { entries = select (λ e. not (is_entry user_id game_id e)) db.entries })

-- `First` with the preloads, and without them.
unfoldable pub first_entry : ℕ → ℕ → Db → Result DbError Entry × Db
unfolding preload
first_entry user_id game_id db = elim (find (is_entry user_id game_id) db.entries) [
  | none ↦ (err record_not_found, db)
  | some e ↦ (ok (preload db e), db)
]

unfoldable pub first_category : ℕ → ℕ → Db → Result DbError Text × Db
first_category user_id game_id db = elim (find (is_entry user_id game_id) db.entries) [
  | none ↦ (err record_not_found, db)
  | some e ↦ (ok e.category, db)
]

unfoldable pub list_entries : ℕ → Db → Result DbError (List Entry) × Db
list_entries user_id db =
    (ok (map (preload db) (newest_first (select (is_of_user user_id) db.entries))), db)

-- The row of `AddUserGame`, with the dates that GORM fills in.
unfoldable pub new_entry : ℕ → ℕ → Text → Option Float64 → Option Text → ℕ → UserGame
new_entry user_id game_id category rating review now = record {
  id = 0;
  user_id = user_id;
  game_id = game_id;
  category = category;
  rating = rating;
  review = review;
  hours = none;
  created_at = now;
  updated_at = now;
}

module _ (out : Outside) where
  -- `GetUserGames`.
  unfoldable pub get_user_games : ℕ → Query (List Entry)
  unfolding list_entries
  get_user_games user_id = statement out (list_entries user_id)

  -- `AddUserGame`.
  unfoldable pub add_user_game : ℕ → ℕ → Text → Option Float64 → Option Text → Query Entry
  unfolding new_entry insert_entry first_entry
  add_user_game user_id game_id category rating review = do
    now ← time_now out
    statement out (insert_entry (new_entry user_id game_id category rating review now))
    statement out (first_entry user_id game_id)

  -- `GetUserGameCategory`.
  unfoldable pub get_user_game_category : ℕ → ℕ → Query Text
  unfolding first_category
  get_user_game_category user_id game_id = statement out (first_category user_id game_id)

  -- `UpdateUserGame`.
  unfoldable pub update_user_game : ℕ → ℕ → UserGameUpdate → Query Entry
  unfolding write_entry first_entry
  update_user_game user_id game_id upd = do
    now ← time_now out
    statement out (write_entry user_id game_id now upd)
    statement out (first_entry user_id game_id)

  -- `DeleteUserGame`.
  unfoldable pub delete_user_game : ℕ → ℕ → Query (Unit {0})
  unfolding drop_entry
  delete_user_game user_id game_id = statement out (drop_entry user_id game_id)

-- ===== src/Repo/Catalog/Ids.antt =====
-- The ids of the games under the imports of internal/repository/dbrepo/catalog.go.
use toomanyhours_api.Prelude.{
  ◌≡◌, refl, ◌++◌, Bool, List, [], ◌∷◌, arith, ◌==◌, find, update, map, Option-cases, inl, inr, ap,
  ◌∙◌,
}
use toomanyhours_api.Models.Catalog.{Game}
use toomanyhours_api.World.{Db, Outside}
use toomanyhours_api.World.Keeps.{Keeps}
use toomanyhours_api.Repo.Catalog.{
  IdMap, ids_of, upsert_game, upsert_tag, link_tag, unlink_tags, game_row, refresh_game,
  import_games,
}
use toomanyhours_api.Repo.Catalog.Lists.{ImportKeeps, import_games-Kept}

-- The games of `before` stand first, under the same ids.
abbrev pub KeepsIds : IdMap → Db → Type 0
KeepsIds before db = (added : IdMap) × (map ids_of db.games ≡ before ++ added)

ids_of-update :
    (p : Game → Bool) (g : Game) (gs : List Game)
    → map ids_of (update p (refresh_game g) gs) ≡ map ids_of gs
unfolding update refresh_game
ids_of-update p g [] = refl
ids_of-update p g (h ∷ gs) = ground (arith, ids_of-update p g gs)

ids_of-append :
    (gs : List Game) (g : Game) → map ids_of (gs ++ g ∷ []) ≡ map ids_of gs ++ ids_of g ∷ []
ids_of-append [] g = refl
ids_of-append (h ∷ gs) g = ap (λ m. ids_of h ∷ m) (ids_of-append gs g)

append_assoc : (a b c : IdMap) → (a ++ b) ++ c ≡ a ++ (b ++ c)
append_assoc [] b c = refl
append_assoc (x ∷ a) b c = ap (λ m. x ∷ m) (append_assoc a b c)

upsert_game-KeepsIds :
    (before : IdMap) (g : Game) (db : Db)
    → KeepsIds before db
    → KeepsIds before (upsert_game g db).1
unfolding upsert_game
upsert_game-KeepsIds before g db (added, e) =
    elim (Option-cases (find (λ h. h.igdb_id == g.igdb_id) db.games)) [
      | inl free ↦
          rw (free, upsert_game)
            (let row = record (game_row g) { id = db.next_id } in
              (
                added ++ ids_of row ∷ [],
                ids_of-append db.games row
                    ∙ ap (λ m. m ++ ids_of row ∷ []) e
                    ∙ append_assoc before added (ids_of row ∷ []),
              ))
      | inr (h, taken) ↦
          (added, ground (arith, taken, e, ids_of-update (λ h. h.igdb_id == g.igdb_id) g db.games))
    ]

ids-ImportKeeps : (before : IdMap) → ImportKeeps (KeepsIds before)
ids-ImportKeeps before = record {
  upserting = λ g db h. upsert_game-KeepsIds before g db h;
  tagging = λ t db h. unfold upsert_tag in (h.0, ground (arith, h.1));
  linking = λ g t db h. unfold link_tag in (h.0, ground (arith, h.1));
  unlinking = λ g db h. unfold unlink_tags in h;
}

pub import_games-KeepsIds :
    (before : IdMap) (out : Outside) (gs : List Game)
    → Keeps (KeepsIds before) (import_games out gs)
import_games-KeepsIds before out gs =
    import_games-Kept (KeepsIds before) (ids-ImportKeeps before) out gs

pub append_none : (m : IdMap) → m ++ [] ≡ m
append_none [] = refl
append_none (x ∷ m) = ap (λ m. x ∷ m) (append_none m)

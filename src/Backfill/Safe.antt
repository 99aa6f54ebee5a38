-- ===== src/Backfill/Safe.antt =====
-- What a run of cmd/backfill leaves alone.
use toomanyhours_api.Prelude.{ℕ, refl, List, [], ◌∷◌, map, sym, ◌∙◌}
use toomanyhours_api.Text.{Text}
use toomanyhours_api.Igdb.Client.{Config}
use toomanyhours_api.Igdb.Rules.{get_by_ids-Keeps}
use toomanyhours_api.World.{World, Db, Outside}
use toomanyhours_api.World.Keeps.{Keeps, keeps_rules, Keeps-statement}
use toomanyhours_api.Models.Catalog.{Game}
use toomanyhours_api.Repo.Catalog.{ids_of, import_games}
use toomanyhours_api.Repo.Catalog.Ids.{KeepsIds, import_games-KeepsIds, append_none}
use toomanyhours_api.Repo.Catalog.Lists.{SameRest, IsApart, import_games-Keeps}
use toomanyhours_api.Backfill.{all_game_igdb_ids, reimport, refill, backfill}

module _ {P : Db → Type 0} (out : Outside)
    (imports : (gs : List Game) → Keeps P (import_games out gs)) where
  all_game_igdb_ids-Keeps : Keeps P (all_game_igdb_ids out)
  unfolding all_game_igdb_ids
  all_game_igdb_ids-Keeps = Keeps-statement out _ λ db h. h

  reimport-Keeps : (cfg : Config) (ids : List ℕ) → Keeps P (reimport out cfg ids)
  unfolding reimport
  reimport-Keeps cfg [] = search keeps_rules
  reimport-Keeps cfg (id ∷ ids) = search (keeps_rules, get_by_ids-Keeps, imports) depth 14

  refill-Keeps : (cfg : Config) → Keeps P (refill out cfg)
  unfolding refill
  refill-Keeps cfg = search (keeps_rules, all_game_igdb_ids-Keeps, reimport-Keeps) depth 10

  backfill-Keeps : (id secret : Text) → Keeps P (backfill out id secret)
  unfolding backfill
  backfill-Keeps [] secret = search keeps_rules
  backfill-Keeps (r ∷ rs) [] = search keeps_rules
  backfill-Keeps (r ∷ rs) (s ∷ ss) = refill-Keeps _

SameRest-IsApart : (old : Db) → IsApart (SameRest old)
SameRest-IsApart old = record {
  apart = λ a b same h. record {
    users = same.users ∙ h.users;
    tokens = same.tokens ∙ h.tokens;
    entries = same.entries ∙ h.entries;
    avatars = same.avatars ∙ h.avatars;
  };
}

-- However a run of the backfill ends, and whatever IGDB answers to it, the accounts, the sessions,
-- the lists and the photos are as they were, and the games of the catalog are still there in their order
-- and under the same ids, before any that were added.
pub backfill-KeepsIds :
    (out : Outside) (client_id client_secret : Text) (w : World)
    → SameRest w.db (backfill out client_id client_secret w).1.db
      × KeepsIds (map ids_of w.db.games) (backfill out client_id client_secret w).1.db
backfill-KeepsIds out client_id client_secret w = (
  (backfill-Keeps out (import_games-Keeps (SameRest w.db) (SameRest-IsApart w.db) out) client_id
        client_secret).at
      w (record { users = refl; tokens = refl; entries = refl; avatars = refl }),
  (backfill-Keeps out (import_games-KeepsIds (map ids_of w.db.games) out) client_id
        client_secret).at
      w ([], sym (append_none (map ids_of w.db.games))),
)

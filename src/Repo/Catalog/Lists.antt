-- ===== src/Repo/Catalog/Lists.antt =====
-- What the catalog's queries leave alone: the accounts, the sessions, the lists and the photos.
use toomanyhours_api.Prelude.{ℕ, ◌≡◌, refl, List, [], ◌∷◌, arith}
use toomanyhours_api.Models.{UserGame}
use toomanyhours_api.Models.Catalog.{Game, Tag}
use toomanyhours_api.World.{Db, Outside}
use toomanyhours_api.World.Content.{OfEntries}
use toomanyhours_api.World.Exec.{statement}
use toomanyhours_api.World.Keeps.{
  Keeps, keeps_rules, Keeps-statement, Keeps-bind, Keeps-time_now, Keeps-pure,
}
use toomanyhours_api.Repo.Catalog.{
  upsert_game, upsert_tag, link_tag, unlink_tags, known_games, IdMap, games_by_igdb_ids,
  import_tags, link_tags, import_game, import_loop, import_games,
}

-- The tables that are not the catalog's are the same.
pub record SameRest (old new : Db) : Type 0 where
  pub users : new.users ≡ old.users
  pub tokens : new.tokens ≡ old.tokens
  pub entries : new.entries ≡ old.entries
  pub avatars : new.avatars ≡ old.avatars

-- A property that does not depend on the tables of the catalog.
pub record IsApart (P : Db → Type 0) : Type 0 where
  pub apart : (old new : Db) → SameRest old new → P old → P new

pub OfEntries-IsApart : (Q : List UserGame → Type 0) → IsApart (OfEntries Q)
OfEntries-IsApart Q = record { apart = λ old new same h. rw same.entries h }

upsert_game-SameRest : (g : Game) (db : Db) → SameRest db (upsert_game g db).1
unfolding upsert_game
upsert_game-SameRest g db = record {
  users = ground arith;
  tokens = ground arith;
  entries = ground arith;
  avatars = ground arith;
}

upsert_tag-SameRest : (t : Tag) (db : Db) → SameRest db (upsert_tag t db).1
unfolding upsert_tag
upsert_tag-SameRest t db = record {
  users = ground arith;
  tokens = ground arith;
  entries = ground arith;
  avatars = ground arith;
}

link_tag-SameRest : (g t : ℕ) (db : Db) → SameRest db (link_tag g t db).1
unfolding link_tag
link_tag-SameRest g t db = record {
  users = ground arith;
  tokens = ground arith;
  entries = ground arith;
  avatars = ground arith;
}

unlink_tags-SameRest : (g : ℕ) (db : Db) → SameRest db (unlink_tags g db).1
unfolding unlink_tags
unlink_tags-SameRest g db = record { users = refl; tokens = refl; entries = refl; avatars = refl }

-- A property that each statement of an import keeps.
pub record ImportKeeps (P : Db → Type 0) : Type 0 where
  pub upserting : (g : Game) (db : Db) → P db → P (upsert_game g db).1
  pub tagging : (t : Tag) (db : Db) → P db → P (upsert_tag t db).1
  pub linking : (g t : ℕ) (db : Db) → P db → P (link_tag g t db).1
  pub unlinking : (g : ℕ) (db : Db) → P db → P (unlink_tags g db).1

-- An import keeps it.
module _ (P : Db → Type 0) (p : ImportKeeps P) where
  module _ (out : Outside) where
    import_tags-Keeps : (ts : List Tag) → Keeps P (import_tags out ts)
    unfolding import_tags
    import_tags-Keeps [] = search keeps_rules
    import_tags-Keeps (t ∷ ts) = Keeps-bind _ _ (Keeps-time_now out) λ now.
        Keeps-bind _ _ (Keeps-time_now out) λ created.
          Keeps-bind _ _ (written _) λ id. Keeps-bind _ _ (import_tags-Keeps ts) λ ids. Keeps-pure _
      where
        written : (t : Tag) → Keeps P (statement out (upsert_tag t))
        written t = Keeps-statement out _ λ db h. p.tagging t db h

    link_tags-Keeps : (g : ℕ) (ids : List ℕ) → Keeps P (link_tags out g ids)
    unfolding link_tags
    link_tags-Keeps g [] = search keeps_rules
    link_tags-Keeps g (t ∷ ids) = Keeps-bind _ _ (written t) λ _. link_tags-Keeps g ids
      where
        written : (t : ℕ) → Keeps P (statement out (link_tag g t))
        written t = Keeps-statement out _ λ db h. p.linking g t db h

    import_game-Keeps : (g : Game) → Keeps P (import_game out g)
    unfolding import_game
    import_game-Keeps g =
        search (keeps_rules, import_tags-Keeps, link_tags-Keeps, written, unlinked) depth 14
      where
        written : (g : Game) → Keeps P (statement out (upsert_game g))
        written g = Keeps-statement out _ λ db h. p.upserting g db h

        unlinked : (id : ℕ) → Keeps P (statement out (unlink_tags id))
        unlinked id = Keeps-statement out _ λ db h. p.unlinking id db h

    import_loop-Keeps : (gs : List Game) (m : IdMap) → Keeps P (import_loop out gs m)
    unfolding import_loop
    import_loop-Keeps [] m = search keeps_rules
    import_loop-Keeps (g ∷ gs) m = search (keeps_rules, import_game-Keeps, import_loop-Keeps gs)

    pub import_games-Kept : (gs : List Game) → Keeps P (import_games out gs)
    unfolding import_games
    import_games-Kept [] = search keeps_rules
    import_games-Kept (g ∷ gs) = search (keeps_rules, import_loop-Keeps)

module _ (P : Db → Type 0) (p : IsApart P) where
  apart-ImportKeeps : ImportKeeps P
  apart-ImportKeeps = record {
    upserting = λ g db h. p.apart db _ (upsert_game-SameRest g db) h;
    tagging = λ t db h. p.apart db _ (upsert_tag-SameRest t db) h;
    linking = λ g t db h. p.apart db _ (link_tag-SameRest g t db) h;
    unlinking = λ g db h. p.apart db _ (unlink_tags-SameRest g db) h;
  }

  module _ (out : Outside) where
    pub import_games-Keeps : (gs : List Game) → Keeps P (import_games out gs)
    import_games-Keeps gs = import_games-Kept P apart-ImportKeeps out gs

    pub games_by_igdb_ids-Keeps : (ids : List ℕ) → Keeps P (games_by_igdb_ids out ids)
    unfolding games_by_igdb_ids
    games_by_igdb_ids-Keeps [] = search keeps_rules
    games_by_igdb_ids-Keeps (id ∷ ids) = Keeps-statement out _ λ db h. unfold known_games in h

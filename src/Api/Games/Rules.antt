-- ===== src/Api/Games/Rules.antt =====
-- The parts of the list's handlers that do not write to the lists.
use toomanyhours_api.World.Yields.{Yields}
use toomanyhours_api.Prelude.{
  ℕ, ◌≡◌, refl, Bool, true, false, Option, none, some, List, [], ◌∷◌, Result, ok, err, String,
  arith,
}
use toomanyhours_api.Text.{Text}
use toomanyhours_api.Models.{UserGame}
use toomanyhours_api.Validate.{Error}
use toomanyhours_api.Validate.Rating.{Float64}
use toomanyhours_api.World.Content.{OfEntries}
use toomanyhours_api.World.{Db, Outside}
use toomanyhours_api.World.Exec.{◌>>=◌, statement}
use toomanyhours_api.World.Keeps.{Keeps, keeps_rules, Keeps-statement}
use toomanyhours_api.Repo.Catalog.Lists.{
  IsApart, OfEntries-IsApart, import_games-Keeps, games_by_igdb_ids-Keeps,
}
use toomanyhours_api.Repo.UserGames.{
  get_user_games, get_user_game_category, list_entries, first_category, first_entry,
}
use toomanyhours_api.Api.{
  Response, Handler, UserContext, missing, not_an_int, signed_in, current_user_id, or_respond,
}
use toomanyhours_api.Igdb.Client.{Config}
use toomanyhours_api.Igdb.Rules.{get_by_ids-Keeps}
use toomanyhours_api.Api.Import.{store_missing, import_igdb_games}
use toomanyhours_api.Api.Games.{
  PatchPayload, or_invalid, first_id, require, patched_rating, patched_review, patched_category,
  gate_rating, checked_patch, get_my_games,
}

first_category-db : (u g : ℕ) (db : Db) → (first_category u g db).1 ≡ db
unfolding first_category
first_category-db u g db = ground arith

first_entry-db : (u g : ℕ) (db : Db) → (first_entry u g db).1 ≡ db
unfolding first_entry
first_entry-db u g db = ground arith

module _ {P : Db → Type 0} where
  pub current_user_id-Keeps : (c : UserContext) → Keeps P (current_user_id c)
  unfolding current_user_id
  current_user_id-Keeps missing = search keeps_rules
  current_user_id-Keeps not_an_int = search keeps_rules
  current_user_id-Keeps (signed_in id) = search keeps_rules

  pub or_respond-Keeps : {A : Type 0} (o : Option A) (r : Response) → Keeps P (or_respond o r)
  or_respond-Keeps none r = search keeps_rules
  or_respond-Keeps (some a) r = search keeps_rules

  pub or_invalid-Keeps :
      {A : Type 0} (field : String) (r : Result Error A) → Keeps P (or_invalid field r)
  or_invalid-Keeps field (ok a) = search keeps_rules
  or_invalid-Keeps field (err e) = search keeps_rules

  -- What follows a rule may use that the rule accepts.
  pub or_invalid-then :
      {A B : Type 0} (field : String) (r : Result Error A) (f : A → Handler B)
      → ((a : A) → r ≡ ok a → Keeps P (f a))
      → Keeps P (or_invalid field r >>= f)
  or_invalid-then field (ok a) f k = record { at = λ w h. (k a refl).at w h }
  or_invalid-then field (err e) f k = record { at = λ w h. h }

  pub or_invalid-Yields :
      {A B : Type 0} {Q : B → Type 0} (field : String) (r : Result Error A) (f : A → Handler B)
      → ((a : A) → r ≡ ok a → Yields P Q (f a))
      → Yields P Q (or_invalid field r >>= f)
  or_invalid-Yields field (ok a) f k = record { at = λ w b h e. (k a refl).at w b h e }
  or_invalid-Yields field (err x) f k = record { at = λ w b h e. ground arith }

  pub first_id-Keeps : (ids : List ℕ) → Keeps P (first_id ids)
  first_id-Keeps [] = search keeps_rules
  first_id-Keeps (id ∷ ids) = search keeps_rules

  pub require-Keeps : (b : Bool) (r : Response) → Keeps P (require b r)
  require-Keeps true r = search keeps_rules
  require-Keeps false r = search keeps_rules

  pub patched_rating-Keeps : (r : Option Float64) → Keeps P (patched_rating r)
  unfolding patched_rating
  patched_rating-Keeps none = search keeps_rules
  patched_rating-Keeps (some x) = search (keeps_rules, or_invalid-Keeps) depth 10

  pub patched_review-Keeps : (r : Option Text) → Keeps P (patched_review r)
  unfolding patched_review
  patched_review-Keeps none = search keeps_rules
  patched_review-Keeps (some x) = search (keeps_rules, or_invalid-Keeps) depth 10

  module _ (out : Outside) where
    pub get_user_game_category-Keeps : (u g : ℕ) → Keeps P (get_user_game_category out u g)
    unfolding get_user_game_category
    get_user_game_category-Keeps u g = Keeps-statement out _ λ db h. rw (first_category-db u g db) h

    pub first_entry-Keeps : (u g : ℕ) → Keeps P (statement out (first_entry u g))
    first_entry-Keeps u g = Keeps-statement out _ λ db h. rw (first_entry-db u g db) h

    get_user_games-Keeps : (u : ℕ) → Keeps P (get_user_games out u)
    unfolding get_user_games list_entries
    get_user_games-Keeps u = Keeps-statement out _ λ db h. h

    pub get_my_games-Keeps : (c : UserContext) → Keeps P (get_my_games out c)
    unfolding get_my_games
    get_my_games-Keeps c =
        search (keeps_rules, current_user_id-Keeps, get_user_games-Keeps) depth 10

    pub patched_category-Keeps : (c : Option Text) → Keeps P (patched_category out c)
    unfolding patched_category
    patched_category-Keeps none = search keeps_rules
    patched_category-Keeps (some raw) = search (keeps_rules, or_invalid-Keeps) depth 10

    pub gate_rating-Keeps :
        (u g : ℕ) (p : PatchPayload) (c : Option Text) → Keeps P (gate_rating out u g p c)
    unfolding gate_rating
    gate_rating-Keeps u g p c =
        search (keeps_rules, get_user_game_category-Keeps, require-Keeps) depth 10

    pub checked_patch-Keeps : (u g : ℕ) (p : PatchPayload) → Keeps P (checked_patch out u g p)
    unfolding checked_patch
    checked_patch-Keeps u g p =
        search
          (
            keeps_rules, patched_category-Keeps, gate_rating-Keeps, patched_rating-Keeps,
            patched_review-Keeps,
          )
          depth 14

module _ (P : Db → Type 0) (p : IsApart P) (out : Outside) where
  store_missing-Keeps : (cfg : Config) (ids : List ℕ) → Keeps P (store_missing out cfg ids)
  unfolding store_missing
  store_missing-Keeps cfg [] = search keeps_rules
  store_missing-Keeps cfg (id ∷ ids) =
      search (keeps_rules, get_by_ids-Keeps, import_games-Keeps) depth 14

  pub import_igdb_games-apart :
      (client : Option Config) (ids : List ℕ) → Keeps P (import_igdb_games out client ids)
  unfolding import_igdb_games
  import_igdb_games-apart client ids =
      search (keeps_rules, or_respond-Keeps, games_by_igdb_ids-Keeps, store_missing-Keeps) depth 14

pub import_igdb_games-Keeps :
    (Q : List UserGame → Type 0) (out : Outside) (client : Option Config) (ids : List ℕ)
    → Keeps (OfEntries Q) (import_igdb_games out client ids)
import_igdb_games-Keeps Q out client ids =
    import_igdb_games-apart (OfEntries Q) (OfEntries-IsApart Q) out client ids

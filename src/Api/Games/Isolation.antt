-- ===== src/Api/Games/Isolation.antt =====
-- No request on one user's list touches another user's.
use toomanyhours_api.Validate.{category, review}
use toomanyhours_api.Prelude.{
  ℕ, ◌≡◌, ◌≢◌, refl, not, Option, List, [], ◌∷◌, ◌++◌, arith, select, update,
}
use toomanyhours_api.Text.{Text}
use toomanyhours_api.Models.{UserGame, UserGameUpdate}
use toomanyhours_api.Validate.Rating.{Float64, rating}
use toomanyhours_api.World.{Db, Outside}
use toomanyhours_api.World.Exec.{statement}
use toomanyhours_api.World.Keeps.{
  Keeps, keeps_rules, Keeps-statement, Keeps-bind, Keeps-or_else, Keeps-pure,
}
use toomanyhours_api.World.Content.{OfEntries}
use toomanyhours_api.Repo.UserGames.{
  is_of_user, is_entry, insert_entry, write_entry, drop_entry, apply_update, new_entry,
  add_user_game, update_user_game, delete_user_game,
}
use toomanyhours_api.Api.{
  Response, Handler, UserContext, signed_in, current_user_id, bad_request, json, entry, empty,
}
use toomanyhours_api.Igdb.Client.{Config}
use toomanyhours_api.Api.Games.{
  PostPayload, PatchPayload, get_my_games, post_my_game, patch_my_game, delete_my_game, post_entry,
  patch_entry, patch_game, delete_entry, may_rate, has_change, only_finished, invalid_game_id,
  nothing_to_update, could_not_remove, could_not_update, add_failure, entry_failure,
}
use toomanyhours_api.Api.Games.Rules.{
  or_respond-Keeps, or_invalid-Keeps, require-Keeps, first_id-Keeps, first_entry-Keeps,
  get_my_games-Keeps, checked_patch-Keeps, import_igdb_games-Keeps,
}

-- A request on the list of the user of its context.
pub data Request : Type 0 where
  lists : Request
  posts : Option PostPayload → Request
  patches : Option ℕ → Option PatchPayload → Request
  deletes : Option ℕ → Request

unfoldable pub serve : Outside → Option Config → UserContext → Request → Handler Response
serve out client context lists = get_my_games out context
serve out client context (posts payload) = post_my_game out client context payload
serve out client context (patches id payload) = patch_my_game out context id payload
serve out client context (deletes id) = delete_my_game out context id

-- The rows of a user's list.
abbrev pub list_of : ℕ → List UserGame → List UserGame
list_of user_id es = select (is_of_user user_id) es

module _ (v : ℕ) where
  list_of-append :
      (es : List UserGame) (e : UserGame) → e.user_id ≢ v → list_of v (es ++ e ∷ []) ≡ list_of v es
  unfolding select
  list_of-append [] e h = ground arith
  list_of-append (f ∷ es) e h = ground (arith, list_of-append es e h)

  list_of-update :
      (u g now : ℕ) (upd : UserGameUpdate) (es : List UserGame)
      → u ≢ v
      → list_of v (update (is_entry u g) (apply_update now upd) es) ≡ list_of v es
  unfolding select update apply_update
  list_of-update u g now upd [] h = refl
  list_of-update u g now upd (f ∷ es) h = ground (arith, list_of-update u g now upd es h)

  list_of-drop :
      (u g : ℕ) (es : List UserGame)
      → u ≢ v
      → list_of v (select (λ e. not (is_entry u g e)) es) ≡ list_of v es
  unfolding select
  list_of-drop u g [] h = refl
  list_of-drop u g (f ∷ es) h = ground (arith, list_of-drop u g es h)

  module _ (before : List UserGame) where
    abbrev pub SameList : List UserGame → Type 0
    SameList es = list_of v es ≡ before

    abbrev Apart : Db → Type 0
    Apart = OfEntries SameList

    module _ (out : Outside) (u : ℕ) (apart : u ≢ v) where
      insert_entry-Apart :
          (g : ℕ) (c : Text) (r : Option Float64) (t : Option Text) (now : ℕ)
          → Keeps Apart (statement out (insert_entry (new_entry u g c r t now)))
      insert_entry-Apart g c r t now = Keeps-statement out _ λ db h.
          unfold insert_entry new_entry in
          ground (
            arith,
            list_of-append db.entries (record (new_entry u g c r t now) { id = db.next_id }),
          )

      write_entry-Apart :
          (g now : ℕ) (upd : UserGameUpdate) → Keeps Apart (statement out (write_entry u g now upd))
      write_entry-Apart g now upd =
          Keeps-statement out _ λ db h.
            unfold write_entry in ground (arith, list_of-update u g now upd db.entries apart)

      delete_user_game-Apart : (g : ℕ) → Keeps Apart (delete_user_game out u g)
      unfolding delete_user_game drop_entry
      delete_user_game-Apart g =
          Keeps-statement out _ λ db h. ground (arith, list_of-drop u g db.entries apart)

      add_user_game-Apart :
          (g : ℕ) (c : Text) (r : Option Float64) (t : Option Text)
          → Keeps Apart (add_user_game out u g c r t)
      unfolding add_user_game
      add_user_game-Apart g c r t =
          search (keeps_rules, insert_entry-Apart, first_entry-Keeps) depth 10

      update_user_game-Apart :
          (g : ℕ) (upd : UserGameUpdate) → Keeps Apart (update_user_game out u g upd)
      unfolding update_user_game
      update_user_game-Apart g upd =
          search (keeps_rules, write_entry-Apart, first_entry-Keeps) depth 10

      post_entry-Apart :
          (client : Option Config) (decoded : Option PostPayload)
          → Keeps Apart (post_entry out client decoded u)
      unfolding post_entry
      post_entry-Apart client decoded =
          Keeps-bind _ _ (or_respond-Keeps decoded bad_request) λ payload.
            Keeps-bind _ _ (or_invalid-Keeps "category" (category out.wide payload.category)) λ c.
              Keeps-bind _ _
                (require-Keeps (may_rate payload.rating payload.review c) only_finished)
                λ _. Keeps-bind _ _ (or_invalid-Keeps "rating" (rating payload.rating)) λ _.
                  Keeps-bind _ _ (or_invalid-Keeps "review" (review payload.review)) λ t.
                    Keeps-bind _ _
                      (import_igdb_games-Keeps SameList out client (payload.igdb_id ∷ []))
                      λ ids. Keeps-bind _ _ (first_id-Keeps ids) λ id.
                        Keeps-bind _ _
                          (Keeps-or_else _ add_failure (add_user_game-Apart id c payload.rating t))
                          λ e. Keeps-pure (json 201 (entry e))

      patch_entry-Apart :
          (param : Option ℕ) (decoded : Option PatchPayload)
          → Keeps Apart (patch_entry out param decoded u)
      unfolding patch_entry patch_game
      patch_entry-Apart param decoded =
          Keeps-bind _ _ (or_respond-Keeps param invalid_game_id) λ id.
            Keeps-bind _ _ (or_respond-Keeps decoded bad_request) λ payload.
              Keeps-bind _ _ (require-Keeps (has_change payload) nothing_to_update) λ _.
                Keeps-bind _ _ (checked_patch-Keeps out u id payload) λ upd.
                  Keeps-bind _ _
                    (Keeps-or_else _ (entry_failure could_not_update)
                      (update_user_game-Apart id upd))
                    λ e. Keeps-pure (json 200 (entry e))

      delete_entry-Apart : (param : Option ℕ) → Keeps Apart (delete_entry out param u)
      unfolding delete_entry
      delete_entry-Apart param = Keeps-bind _ _ (or_respond-Keeps param invalid_game_id) λ id.
          Keeps-bind _ _
            (Keeps-or_else _ (entry_failure could_not_remove) (delete_user_game-Apart id))
            λ _. Keeps-pure (json 204 empty)

      pub serve-Apart :
          (client : Option Config) (r : Request) → Keeps Apart (serve out client (signed_in u) r)
      unfolding serve post_my_game patch_my_game delete_my_game current_user_id
      serve-Apart client lists = get_my_games-Keeps out (signed_in u)
      serve-Apart client (posts decoded) = record {
        at = λ w h. (post_entry-Apart client decoded).at w h;
      }
      serve-Apart client (patches param decoded) = record {
        at = λ w h. (patch_entry-Apart param decoded).at w h;
      }
      serve-Apart client (deletes param) = record { at = λ w h. (delete_entry-Apart param).at w h }

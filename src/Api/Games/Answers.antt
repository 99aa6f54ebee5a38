-- ===== src/Api/Games/Answers.antt =====
-- What a deletion answers and does.
use toomanyhours_api.Prelude.{
  ℕ, ◌≡◌, refl, ◌⊎◌, inl, inr, true, false, not, none, some, List, [], ◌∷◌, ok, err, arith, find,
  select, any, Bool-cases, is_some, sym, ◌∙◌,
}
use toomanyhours_api.Models.{UserGame}
use toomanyhours_api.World.{World, Outside, record_not_found}
use toomanyhours_api.World.Exec.{statement}
use toomanyhours_api.Repo.UserGames.{is_entry, drop_entry, delete_user_game}
use toomanyhours_api.Api.{signed_in, current_user_id, json, empty}
use toomanyhours_api.Api.Games.{delete_my_game, delete_entry, not_in_your_list}

find-select-not :
    (u g : ℕ) (es : List UserGame)
    → find (is_entry u g) (select (λ e. not (is_entry u g e)) es) ≡ none
unfolding find select
find-select-not u g [] = refl
find-select-not u g (e ∷ es) = ground (arith, find-select-not u g es)

any-find : (u g : ℕ) (es : List UserGame) → any (is_entry u g) es ≡ is_some (find (is_entry u g) es)
unfolding any find
any-find u g [] = refl
any-find u g (e ∷ es) = ground (arith, any-find u g es)

module _ (out : Outside) (u g : ℕ) (w : World) where
  delete_user_game-there :
      out.outage w.effects ≡ false
      → any (is_entry u g) w.db.entries ≡ true
      → ((delete_user_game out u g w).0 ≡ ok tt)
        × ((delete_user_game out u g w).1.db.entries
            ≡ select (λ e. not (is_entry u g e)) w.db.entries)
  unfolding delete_user_game drop_entry statement
  delete_user_game-there up there = (ground (arith, up, there), ground (arith, up, there))

  delete_user_game-gone :
      out.outage w.effects ≡ false
      → any (is_entry u g) w.db.entries ≡ false
      → ((delete_user_game out u g w).0 ≡ err record_not_found)
        × ((delete_user_game out u g w).1.db ≡ w.db)
  unfolding delete_user_game drop_entry statement
  delete_user_game-gone up gone = (ground (arith, up, gone), ground (arith, up, gone))

  delete_my_game-world :
      (delete_my_game out (signed_in u) (some g) w).1 ≡ (delete_user_game out u g w).1
  unfolding delete_my_game delete_entry current_user_id
  delete_my_game-world = ground arith

  delete_my_game-ok :
      (delete_user_game out u g w).0 ≡ ok tt
      → (delete_my_game out (signed_in u) (some g) w).0 ≡ ok (json 204 empty)
  unfolding delete_my_game delete_entry current_user_id
  delete_my_game-ok e = ground (arith, e)

  delete_my_game-err :
      (delete_user_game out u g w).0 ≡ err record_not_found
      → (delete_my_game out (signed_in u) (some g) w).0 ≡ err not_in_your_list
  unfolding delete_my_game delete_entry current_user_id
  delete_my_game-err e = ground (arith, e)

-- While the database answers, deleting a game that is in the user's list answers 204, and the
-- game is in the list no more; deleting one that is not answers 404, and the tables are as before.
-- It makes no difference to the answer whether another user has the game.
pub delete_my_game-cases :
    (out : Outside) (u g : ℕ) (w : World)
    → ((n : ℕ) → out.outage n ≡ false)
    → let (r, w') = delete_my_game out (signed_in u) (some g) w in
      ((is_some (find (is_entry u g) w.db.entries) ≡ true)
        × (r ≡ ok (json 204 empty))
        × (find (is_entry u g) w'.db.entries ≡ none))
      ⊎ ((find (is_entry u g) w.db.entries ≡ none) × (r ≡ err not_in_your_list) × (w'.db ≡ w.db))
delete_my_game-cases out u g w up = elim (Bool-cases (any (is_entry u g) w.db.entries)) [
  | inl there ↦
      let (answer, left) = delete_user_game-there out u g w (up w.effects) there in
      inl (
        sym (any-find u g w.db.entries) ∙ there,
        delete_my_game-ok out u g w answer,
        rw (delete_my_game-world out u g w, left) (find-select-not u g w.db.entries),
      )
  | inr gone ↦
      let (answer, same_db) = delete_user_game-gone out u g w (up w.effects) gone in
      inr (
        ground (arith, any-find u g w.db.entries),
        delete_my_game-err out u g w answer,
        rw (delete_my_game-world out u g w) same_db,
      )
]

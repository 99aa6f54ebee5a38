-- ===== src/Api/Games/Gate.antt =====
-- A patch writes a rating or a review only of a game that is then finished.
use toomanyhours_api.Prelude.{
  ℕ, ◌≡◌, refl, ◌⊎◌, inl, inr, Bool, true, false, ◌||◌, Option, none, some, List, [], ◌∷◌, arith,
  find, update, any, is_some, Bool-cases,
}
use toomanyhours_api.Text.{Text}
use toomanyhours_api.Models.{UserGame, UserGameUpdate}
use toomanyhours_api.Validate.{category_finished, rating_allowed, resulting_category}
use toomanyhours_api.Validate.Rating.{Float64}
use toomanyhours_api.Validate.Entry.{rating_allowed_iff}
use toomanyhours_api.World.{World, Db, Outside}
use toomanyhours_api.World.Exec.{time_now}
use toomanyhours_api.World.Keeps.{Keeps-time_now, Keeps-pure, Keeps-or_else}
use toomanyhours_api.World.Yields.{
  Yields, Yields-bind, Yields-pure, Yields-any, Yields-or_else, Yields-statement, Known, Leads,
  Leads-bind, Leads-then, Leads-or_else, Leads-statement,
}
use toomanyhours_api.Repo.UserGames.{
  is_entry, write_entry, apply_update, update_user_game, first_category, get_user_game_category,
}
use toomanyhours_api.Api.{
  signed_in, current_user_id, bad_request, json, entry, Response, or_respond, Handler,
}
use toomanyhours_api.Api.Games.{
  PatchPayload, patch_my_game, patch_entry, checked_patch, gate_rating, patched_rating,
  patched_review, patched_category, has_change, nothing_to_update, could_not_update, entry_failure,
  require, only_what_you_finished, update_of, patch_game,
}
use toomanyhours_api.Api.Games.Rules.{
  or_respond-Keeps, require-Keeps, checked_patch-Keeps, patched_category-Keeps, gate_rating-Keeps,
  patched_rating-Keeps, patched_review-Keeps, first_entry-Keeps, get_user_game_category-Keeps,
}

-- Of an entry before and after: the rating and the review are the same, or the game is finished.
abbrev pub IsGated : UserGame → UserGame → Type 0
IsGated old new =
    ((new.rating ≡ old.rating) × (new.review ≡ old.review)) ⊎ (new.category ≡ category_finished)

module _ (u g : ℕ) (row : UserGame) where
  -- The entry of the user and the game is the given row.
  abbrev Holds : Db → Type 0
  Holds db = find (is_entry u g) db.entries ≡ some row

  -- It is one that the rule allows after the row.
  abbrev Follows : Db → Type 0
  Follows db = (new : UserGame) × (find (is_entry u g) db.entries ≡ some new) × IsGated row new

  -- An update that the rule allows of the row.
  abbrev IsAllowed : UserGameUpdate → Type 0
  IsAllowed upd =
      ((upd.set_rating ≡ false) × (upd.set_review ≡ false))
      ⊎ (resulting_category row.category upd.category ≡ category_finished)

  Holds-Follows : (db : Db) → Holds db → Follows db
  Holds-Follows db h = (row, h, inl (refl, refl))

  find-update :
      (now : ℕ) (upd : UserGameUpdate) (es : List UserGame)
      → find (is_entry u g) es ≡ some row
      → find (is_entry u g) (update (is_entry u g) (apply_update now upd) es)
        ≡ some (apply_update now upd row)
  unfolding find update apply_update
  find-update now upd [] h = ground arith
  find-update now upd (e ∷ es) h = ground (arith, find-update now upd es)

  apply_update-IsGated :
      (now : ℕ) (upd : UserGameUpdate) → IsAllowed upd → IsGated row (apply_update now upd row)
  unfolding apply_update resulting_category
  apply_update-IsGated now upd k = ground (arith, k)

  module _ (out : Outside) where
    write_entry-Follows :
        (now : ℕ) (upd : UserGameUpdate) (db : Db)
        → IsAllowed upd
        → Holds db
        → Follows (write_entry u g now upd db).1
    unfolding write_entry
    write_entry-Follows now upd db k h = elim (Bool-cases (any (is_entry u g) db.entries)) [
      | inl there ↦ rw there (
        apply_update now upd row,
        find-update now upd db.entries h,
        apply_update-IsGated now upd k,
      )
      | inr gone ↦ rw gone (Holds-Follows db h)
    ]

    update_user_game-Follows :
        (upd : UserGameUpdate) → IsAllowed upd → Leads Holds Follows (update_user_game out u g upd)
    unfolding update_user_game
    update_user_game-Follows upd k =
        Leads-bind _ _ Holds-Follows (Keeps-time_now out) (Yields-any (time_now out)) λ now _.
          Leads-then _ _
            (Leads-statement out (write_entry u g now upd) Holds-Follows
              (λ db h. write_entry-Follows now upd db k h))
            λ _. first_entry-Keeps out u g

    -- What the gate has established when a patch passes it.
    abbrev IsOpen : PatchPayload → Option Text → Type 0
    IsOpen payload c =
        ((payload.rating ≡ none) × (payload.review ≡ none))
        ⊎ (resulting_category row.category c ≡ category_finished)

    category-row : Yields Holds (λ c. c ≡ row.category) (get_user_game_category out u g)
    unfolding get_user_game_category
    category-row = Yields-statement out _ λ db c h e. unfold first_category in ground (arith, h)

    require-Yields : (b : Bool) (r : Response) → Yields Holds (λ _. b ≡ true) (require b r)
    require-Yields true r = Yields-pure tt refl
    require-Yields false r = record { at = λ w a h e. ground arith }

    -- The rest of the gate, for the category that the row has.
    abbrev pass_gate : Option Text → Text → Handler (Unit {0})
    pass_gate c current =
        require (rating_allowed (resulting_category current c)) only_what_you_finished

    pass_gate-IsOpen :
        (payload : PatchPayload) (c : Option Text) (current : Text)
        → current ≡ row.category
        → Yields Holds (λ _. IsOpen payload c) (pass_gate c current)
    pass_gate-IsOpen payload c current e = record {
      at = λ w a h k.
          let passed : rating_allowed (resulting_category current c) ≡ true =
            (require-Yields (rating_allowed (resulting_category current c))
                only_what_you_finished).at
              w a h k in
          let still : rating_allowed (resulting_category row.category c) ≡ true = rw (← e) passed in
          inr ((rating_allowed_iff (resulting_category row.category c)).0 still);
    }

    gate_rating-IsOpen :
        (payload : PatchPayload) (c : Option Text)
        → Yields Holds (λ _. IsOpen payload c) (gate_rating out u g payload c)
    unfolding gate_rating
    gate_rating-IsOpen payload c =
        elim (Bool-cases (is_some payload.rating || is_some payload.review)) [
          | inl asks ↦ rw asks (
              Yields-bind _ (pass_gate c)
                (Keeps-or_else _ (entry_failure could_not_update)
                  (get_user_game_category-Keeps out u g))
                (Yields-or_else _ (entry_failure could_not_update) category-row)
                (λ current e. pass_gate-IsOpen payload c current e))
          | inr silent ↦ rw silent (Yields-pure tt (inl (ground arith)))
        ]

    -- What a patch of the rating and the review sets, it has been asked to.
    patched_rating-set :
        (r : Option Float64) → Yields Holds (λ p. r ≡ none → p.0 ≡ false) (patched_rating r)
    unfolding patched_rating
    patched_rating-set none = Yields-pure (false, none) (λ _. refl)
    patched_rating-set (some x) = record { at = λ w a h e k. ground arith }

    patched_review-set :
        (t : Option Text) → Yields Holds (λ p. t ≡ none → p.0 ≡ false) (patched_review t)
    unfolding patched_review
    patched_review-set none = Yields-pure (false, none) (λ _. refl)
    patched_review-set (some t) = record { at = λ w a h e k. ground arith }

    patched_category-any : (c : Option Text) → Yields Holds Known (patched_category out c)
    patched_category-any c = Yields-any (patched_category out c)

    checked_patch-IsAllowed : (p : PatchPayload) → Yields Holds IsAllowed (checked_patch out u g p)
    unfolding checked_patch
    checked_patch-IsAllowed p =
        Yields-bind _ _ (patched_category-Keeps out p.category) (patched_category-any p.category)
          λ c _. Yields-bind _ _ (gate_rating-Keeps out u g p c) (gate_rating-IsOpen p c) λ _ gate.
            Yields-bind _ _ (patched_rating-Keeps p.rating) (patched_rating-set p.rating) λ r rated.
              Yields-bind _ _ (patched_review-Keeps p.review) (patched_review-set p.review)
                λ t reviewed. Yields-pure (update_of c r t) (elim gate [
                  | inl (a, b) ↦ inl (rated a, reviewed b)
                  | inr finished ↦ inr finished
                ])

    patch_game-Follows :
        (decoded : Option PatchPayload) → Leads Holds Follows (patch_game out decoded u g)
    unfolding patch_game
    patch_game-Follows decoded =
        Leads-bind _ _ Holds-Follows (or_respond-Keeps decoded bad_request)
          (Yields-any (or_respond decoded bad_request))
          λ payload _.
            Leads-bind _ _ Holds-Follows (require-Keeps (has_change payload) nothing_to_update)
              (Yields-any (require (has_change payload) nothing_to_update))
              λ _ _.
                Leads-bind _ _ Holds-Follows (checked_patch-Keeps out u g payload)
                  (checked_patch-IsAllowed payload)
                  λ upd allowed.
                    Leads-then _ _
                      (Leads-or_else _ (entry_failure could_not_update)
                        (update_user_game-Follows upd allowed))
                      λ e. Keeps-pure (json 200 (entry e))

-- Whatever a patch of an entry asks and answers, the entry is still there, and its rating and
-- review are as they were unless its category is then `finished`.
pub patch_my_game-IsGated :
    (out : Outside) (u g : ℕ) (decoded : Option PatchPayload) (row : UserGame) (w : World)
    → find (is_entry u g) w.db.entries ≡ some row
    → (new : UserGame) × (find
          (is_entry u g)
          (patch_my_game out (signed_in u) (some g) decoded w).1.db.entries
        ≡ some new)
      × IsGated row new
unfolding patch_my_game patch_entry current_user_id
patch_my_game-IsGated out u g decoded row w h = (patch_game-Follows u g row out decoded).at w h

-- ===== src/Api/Games/Stored.antt =====
-- Every entry that a request stores is one that the tables' checks allow.
use toomanyhours_api.Prelude.{
  ℕ, ◌≡◌, Bool, true, false, not, Option, none, some, List, [], ◌∷◌, ◌++◌, ok, select, update, any,
  if◌then◌else◌, All, Bool-cases, inl, inr,
}
use toomanyhours_api.Text.{Text}
use toomanyhours_api.Models.{UserGame, UserGameUpdate}
use toomanyhours_api.Validate.{category, review, review_max_runes}
use toomanyhours_api.Validate.Rating.{Float64, rating, IsScore, rating-IsScore, is_nonzero}
use toomanyhours_api.Validate.Account.{IsStored, review-IsStored}
use toomanyhours_api.Validate.Entry.{IsCategory, category-IsCategory}
use toomanyhours_api.World.{Db, Outside}
use toomanyhours_api.World.Keeps.{
  Keeps, Keeps-statement, Keeps-bind, Keeps-or_else, Keeps-pure, Keeps-bind_yields, Keeps-time_now,
}
use toomanyhours_api.World.Yields.{Yields, Yields-bind, Yields-pure, Yields-any}
use toomanyhours_api.World.Content.{OfEntries}
use toomanyhours_api.Repo.UserGames.{
  is_entry, insert_entry, write_entry, drop_entry, apply_update, new_entry, add_user_game,
  update_user_game, delete_user_game,
}
use toomanyhours_api.Api.{signed_in, current_user_id, bad_request, json, entry, empty}
use toomanyhours_api.Igdb.Client.{Config}
use toomanyhours_api.Api.Games.{
  PostPayload, PatchPayload, post_my_game, patch_my_game, delete_my_game, post_entry, patch_entry,
  patch_game, delete_entry, patched_category, patched_rating, patched_review, checked_patch,
  gate_rating, may_rate, has_change, only_finished, invalid_game_id, nothing_to_update,
  could_not_remove, could_not_update, add_failure, entry_failure, update_of,
}
use toomanyhours_api.Api.Games.Rules.{
  or_respond-Keeps, require-Keeps, first_id-Keeps, first_entry-Keeps, get_my_games-Keeps,
  checked_patch-Keeps, import_igdb_games-Keeps, patched_category-Keeps, gate_rating-Keeps,
  patched_rating-Keeps, patched_review-Keeps, or_invalid-then, or_invalid-Yields,
}
use toomanyhours_api.Api.Games.Isolation.{Request, lists, posts, patches, deletes, serve}

-- A rating that may be stored: none, or one to twenty halves.
abbrev pub IsRating : Option Float64 → Type 0
IsRating none = Unit
IsRating (some x) = IsScore x

abbrev pub IsPatched : Option Text → Type 0
IsPatched none = Unit
IsPatched (some c) = IsCategory c

pub record IsRow (e : UserGame) : Type 0 where
  pub kind : IsCategory e.category
  pub score : IsRating e.rating
  pub words : IsStored review_max_runes e.review

-- What an update may set.
record IsUpdate (u : UserGameUpdate) : Type 0 where
  kind : IsPatched u.category
  score : IsRating u.rating
  words : IsStored review_max_runes u.review

abbrev pub AllRows : List UserGame → Type 0
AllRows es = All IsRow es

AllRows-append : (es : List UserGame) (e : UserGame) → AllRows es → IsRow e → AllRows (es ++ e ∷ [])
AllRows-append [] e h k = (k, tt)
AllRows-append (f ∷ es) e (a, h) k = (a, AllRows-append es e h k)

AllRows-select : (p : UserGame → Bool) (es : List UserGame) → AllRows es → AllRows (select p es)
unfolding select
AllRows-select p [] h = tt
AllRows-select p (f ∷ es) (a, h) = elim (Bool-cases (p f)) [
  | inl hit ↦ rw hit (a, AllRows-select p es h)
  | inr miss ↦ rw miss (AllRows-select p es h)
]

IsPatched-IsCategory :
    (c : Option Text) (old : Text)
    → IsPatched c
    → IsCategory old
    → IsCategory (elim c [ none ↦ old | some c ↦ c ])
IsPatched-IsCategory none old p h = h
IsPatched-IsCategory (some c) old p h = p

either-IsRating :
    (set : Bool) (new old : Option Float64)
    → IsRating new
    → IsRating old
    → IsRating (if set then new else old)
either-IsRating true new old h k = h
either-IsRating false new old h k = k

either-IsStored :
    (set : Bool) (new old : Option Text)
    → IsStored review_max_runes new
    → IsStored review_max_runes old
    → IsStored review_max_runes (if set then new else old)
either-IsStored true new old h k = h
either-IsStored false new old h k = k

apply_update-IsRow :
    (now : ℕ) (u : UserGameUpdate) (e : UserGame)
    → IsUpdate u
    → IsRow e
    → IsRow (apply_update now u e)
unfolding apply_update
apply_update-IsRow now u e k h = record {
  kind = IsPatched-IsCategory u.category e.category k.kind h.kind;
  score = either-IsRating u.set_rating u.rating e.rating k.score h.score;
  words = either-IsStored u.set_review u.review e.review k.words h.words;
}

AllRows-update :
    (p : UserGame → Bool) (now : ℕ) (u : UserGameUpdate) (es : List UserGame)
    → IsUpdate u
    → AllRows es
    → AllRows (update p (apply_update now u) es)
unfolding update
AllRows-update p now u [] k h = tt
AllRows-update p now u (f ∷ es) k (a, h) = elim (Bool-cases (p f)) [
  | inl hit ↦ rw hit (apply_update-IsRow now u f k a, AllRows-update p now u es k h)
  | inr miss ↦ rw miss (a, AllRows-update p now u es k h)
]

rating-IsRating : (r : Option Float64) → rating r ≡ ok tt → IsRating r
rating-IsRating none h = tt
rating-IsRating (some x) h = (rating-IsScore x).0 h

-- The database's entries are rows that its checks allow.
abbrev pub AllRowsIn : Db → Type 0
AllRowsIn = OfEntries AllRows

patched_rating-IsRating :
    (r : Option Float64) → Yields AllRowsIn (λ p. IsRating p.1) (patched_rating r)
unfolding patched_rating
patched_rating-IsRating none = Yields-pure (false, none) tt
patched_rating-IsRating (some x) = elim (Bool-cases (is_nonzero x)) [
  | inl set ↦ rw set (
      or_invalid-Yields "rating" (rating (some x)) _
        λ _ e. Yields-pure (true, some x) (rating-IsRating (some x) e))
  | inr zero ↦ rw zero (Yields-pure (true, none) tt)
]

patched_review-IsStored :
    (t : Option Text) → Yields AllRowsIn (λ p. IsStored review_max_runes p.1) (patched_review t)
unfolding patched_review
patched_review-IsStored none = Yields-pure (false, none) tt
patched_review-IsStored (some raw) =
    or_invalid-Yields "review" (review (some raw)) _
      λ t e. Yields-pure (true, t) (review-IsStored (some raw) t e).0

module _ (out : Outside) where
  insert_entry-AllRows :
      (e : UserGame) (db : Db) → IsRow e → AllRowsIn db → AllRowsIn (insert_entry e db).1
  unfolding insert_entry
  insert_entry-AllRows e db k h =
      elim (Bool-cases (any (is_entry e.user_id e.game_id) db.entries)) [
        | inl taken ↦ rw taken h
        | inr free ↦ rw free (
            AllRows-append db.entries (record e { id = db.next_id }) h
              (record { kind = k.kind; score = k.score; words = k.words }))
      ]

  write_entry-AllRows :
      (u g now : ℕ) (upd : UserGameUpdate) (db : Db)
      → IsUpdate upd
      → AllRowsIn db
      → AllRowsIn (write_entry u g now upd db).1
  unfolding write_entry
  write_entry-AllRows u g now upd db k h = elim (Bool-cases (any (is_entry u g) db.entries)) [
    | inl there ↦ rw there (AllRows-update (is_entry u g) now upd db.entries k h)
    | inr gone ↦ rw gone h
  ]

  drop_entry-AllRows : (u g : ℕ) (db : Db) → AllRowsIn db → AllRowsIn (drop_entry u g db).1
  unfolding drop_entry
  drop_entry-AllRows u g db h = elim (Bool-cases (any (is_entry u g) db.entries)) [
    | inl there ↦ rw there (AllRows-select (λ e. not (is_entry u g e)) db.entries h)
    | inr gone ↦ rw gone h
  ]

  add_user_game-AllRows :
      (u g : ℕ) (c : Text) (r : Option Float64) (t : Option Text)
      → IsCategory c
      → IsRating r
      → IsStored review_max_runes t
      → Keeps AllRowsIn (add_user_game out u g c r t)
  unfolding add_user_game
  add_user_game-AllRows u g c r t a b d = Keeps-bind _ _ (Keeps-time_now out) λ now.
      Keeps-bind _ _
        (Keeps-statement out _
          (λ db h. insert_entry-AllRows (new_entry u g c r t now) db (new_entry-IsRow now) h))
        λ _. first_entry-Keeps out u g
    where
      new_entry-IsRow : (now : ℕ) → IsRow (new_entry u g c r t now)
      new_entry-IsRow now = unfold new_entry in record { kind = a; score = b; words = d }

  update_user_game-AllRows :
      (u g : ℕ) (upd : UserGameUpdate)
      → IsUpdate upd
      → Keeps AllRowsIn (update_user_game out u g upd)
  unfolding update_user_game
  update_user_game-AllRows u g upd k = Keeps-bind _ _ (Keeps-time_now out) λ now.
      Keeps-bind _ _ (Keeps-statement out _ (λ db h. write_entry-AllRows u g now upd db k h))
        λ _. first_entry-Keeps out u g

  patched_category-IsPatched :
      (c : Option Text) → Yields AllRowsIn IsPatched (patched_category out c)
  unfolding patched_category
  patched_category-IsPatched none = Yields-pure none tt
  patched_category-IsPatched (some raw) =
      or_invalid-Yields _ _ _
        λ c e. Yields-pure (some c) ((category-IsCategory out.wide raw c).0 e).1

  checked_patch-IsUpdate :
      (u g : ℕ) (p : PatchPayload) → Yields AllRowsIn IsUpdate (checked_patch out u g p)
  unfolding checked_patch
  checked_patch-IsUpdate u g p =
      Yields-bind _ _ (patched_category-Keeps out p.category)
        (patched_category-IsPatched p.category)
        λ c kind.
          Yields-bind _ _ (gate_rating-Keeps out u g p c) (Yields-any (gate_rating out u g p c))
            λ _ _.
              Yields-bind _ _ (patched_rating-Keeps p.rating) (patched_rating-IsRating p.rating)
                λ r score.
                  Yields-bind _ _ (patched_review-Keeps p.review) (patched_review-IsStored p.review)
                    λ t words.
                      Yields-pure (update_of c r t)
                        (record { kind = kind; score = score; words = words })

  post_entry-AllRows :
      (client : Option Config) (decoded : Option PostPayload) (u : ℕ)
      → Keeps AllRowsIn (post_entry out client decoded u)
  unfolding post_entry
  post_entry-AllRows client decoded u =
      Keeps-bind _ _ (or_respond-Keeps decoded bad_request) λ payload.
        or_invalid-then "category" (category out.wide payload.category) _ λ c kind.
          Keeps-bind _ _ (require-Keeps (may_rate payload.rating payload.review c) only_finished)
            λ _. or_invalid-then "rating" (rating payload.rating) _ λ _ score.
              or_invalid-then "review" (review payload.review) _ λ t words.
                Keeps-bind _ _ (import_igdb_games-Keeps AllRows out client (payload.igdb_id ∷ []))
                  λ ids. Keeps-bind _ _ (first_id-Keeps ids) λ id.
                    Keeps-bind _ _
                      (Keeps-or_else _ add_failure (
                        add_user_game-AllRows u id c payload.rating t
                          ((category-IsCategory out.wide payload.category c).0 kind).1
                          (rating-IsRating payload.rating score)
                          (review-IsStored payload.review t words).0))
                      λ e. Keeps-pure (json 201 (entry e))

  patch_entry-AllRows :
      (param : Option ℕ) (decoded : Option PatchPayload) (u : ℕ)
      → Keeps AllRowsIn (patch_entry out param decoded u)
  unfolding patch_entry patch_game
  patch_entry-AllRows param decoded u =
      Keeps-bind _ _ (or_respond-Keeps param invalid_game_id) λ id.
        Keeps-bind _ _ (or_respond-Keeps decoded bad_request) λ payload.
          Keeps-bind _ _ (require-Keeps (has_change payload) nothing_to_update) λ _.
            Keeps-bind_yields IsUpdate (checked_patch out u id payload) _
              (checked_patch-Keeps out u id payload) (checked_patch-IsUpdate u id payload).at
              λ upd k.
                Keeps-bind _ _
                  (Keeps-or_else _ (entry_failure could_not_update)
                    (update_user_game-AllRows u id upd k))
                  λ e. Keeps-pure (json 200 (entry e))

  delete_entry-AllRows : (param : Option ℕ) (u : ℕ) → Keeps AllRowsIn (delete_entry out param u)
  unfolding delete_entry
  delete_entry-AllRows param u = Keeps-bind _ _ (or_respond-Keeps param invalid_game_id) λ id.
      Keeps-bind _ _ (Keeps-or_else _ (entry_failure could_not_remove) (dropped id))
        λ _. Keeps-pure (json 204 empty)
    where
      dropped : (id : ℕ) → Keeps AllRowsIn (delete_user_game out u id)
      dropped id =
          unfold delete_user_game in Keeps-statement out _ (λ db h. drop_entry-AllRows u id db h)

  pub serve-AllRowsIn :
      (client : Option Config) (u : ℕ) (r : Request)
      → Keeps AllRowsIn (serve out client (signed_in u) r)
  unfolding serve post_my_game patch_my_game delete_my_game current_user_id
  serve-AllRowsIn client u lists = get_my_games-Keeps out (signed_in u)
  serve-AllRowsIn client u (posts decoded) = record {
    at = λ w h. (post_entry-AllRows client decoded u).at w h;
  }
  serve-AllRowsIn client u (patches param decoded) = record {
    at = λ w h. (patch_entry-AllRows param decoded u).at w h;
  }
  serve-AllRowsIn client u (deletes param) = record {
    at = λ w h. (delete_entry-AllRows param u).at w h;
  }

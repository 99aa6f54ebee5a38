-- ===== src/Api/Me/Stored.antt =====
-- What the handlers of Api/Me leave stored: cmd/api/handlers.go and cmd/api/avatar_handlers.go.
use toomanyhours_api.Prelude.{
  ℕ, ◌≡◌, ◌||◌, Bool, Option, none, some, List, [], ◌∷◌, ok, arith, find, update, ◌==◌, Bool-cases,
  inl, inr, is_some,
}
use toomanyhours_api.Text.{Text}
use toomanyhours_api.Validate.{username, bio}
use toomanyhours_api.Validate.Account.{IsUsername, username-IsUsername}
use toomanyhours_api.Models.{User}
use toomanyhours_api.World.{Db, Outside}
use toomanyhours_api.World.Keeps.{
  Keeps, Keeps-bind, Keeps-or_else, Keeps-time_now, Keeps-statement, Keeps-bind_yields,
}
use toomanyhours_api.World.Yields.{
  Yields, Known, Yields-pure, Yields-bind, Yields-or_else, Yields-statement, Yields-any,
}
use toomanyhours_api.Repo.Users.{get_user_by_id, update_user, write_user, first_user, update_row}
use toomanyhours_api.Repo.Users.Reads.{get_user_by_id-Keeps}
use toomanyhours_api.Api.{UserContext, bad_request, error_json}
use toomanyhours_api.Api.Games.Rules.{
  or_respond-Keeps, require-Keeps, current_user_id-Keeps, or_invalid-Yields,
}
use toomanyhours_api.Api.Accounts.Stored.{IsAccount, AllAccounts}
use toomanyhours_api.Api.Me.Rules.{
  respond_with_user-Keeps, patched_user-Keeps, patched_username-Keeps, patched_visibility-Keeps,
}
use toomanyhours_api.Api.Me.{
  MePayload, unknown_user, patched_username, patched_visibility, patched_bio, patched_user,
  patch_account, patch_me, update_failure, is_visibility,
}

-- An account of a table whose accounts are all good.
AllAccounts-find :
    (out : Outside) (p : User → Bool) (us : List User) (u : User)
    → AllAccounts out us
    → find p us ≡ some u
    → IsAccount out u
unfolding find
AllAccounts-find out p [] u h e = ground arith
AllAccounts-find out p (v ∷ us) u (a, h) e = elim (Bool-cases (p v)) [
  | inl k ↦ ground (arith, k, e, a)
  | inr k ↦ AllAccounts-find out p us u h (ground (arith, k, e))
]

-- Renaming the rows that a query selects, to a good name.
AllAccounts-update :
    (out : Outside) (p : User → Bool) (u : User) (now : ℕ) (us : List User)
    → IsUsername out.is_profane u.username
    → AllAccounts out us
    → AllAccounts out (update p (update_row out u now) us)
unfolding update
AllAccounts-update out p u now [] good h = tt
AllAccounts-update out p u now (v ∷ us) good (a, h) =
    let rest = AllAccounts-update out p u now us good h in
    elim (Bool-cases (p v)) [
      | inl k ↦ rw k (record { name = good; address = a.address }, rest)
      | inr k ↦ rw k (a, rest)
    ]

module _ (out : Outside) where
  abbrev pub AllAccountsIn : Db → Type 0
  AllAccountsIn db = AllAccounts out db.users

  abbrev HasName : User → Type 0
  HasName u = IsUsername out.is_profane u.username

  get_user_by_id-HasName : (id : ℕ) → Yields AllAccountsIn HasName (get_user_by_id out id)
  unfolding get_user_by_id
  get_user_by_id-HasName id = Yields-statement out _ named
    where
      named :
          (db : Db) (u : User)
          → AllAccountsIn db
          → (first_user (λ u. u.id == id) db).0 ≡ ok u
          → HasName u
      named db u h e =
          let found : find (λ u. u.id == id) db.users ≡ some u =
            unfold first_user in ground (arith, e) in
          (AllAccounts-find out (λ u. u.id == id) db.users u h found).name

  patched_username-HasName :
      (p : Option Text) (u : User)
      → HasName u
      → Yields AllAccountsIn HasName (patched_username out p u)
  unfolding patched_username
  patched_username-HasName none u h = Yields-pure u h
  patched_username-HasName (some raw) u h =
      or_invalid-Yields "username" (username out.wide out.is_profane raw) _ λ name good.
        Yields-pure (record u { username = name })
          ((username-IsUsername out.wide out.is_profane raw name).0 good).1

  patched_visibility-HasName :
      (p : Option Text) (u : User)
      → HasName u
      → Yields AllAccountsIn HasName (patched_visibility p u)
  unfolding patched_visibility
  patched_visibility-HasName none u h = Yields-pure u h
  patched_visibility-HasName (some v) u h =
      Yields-bind {R = Known} _ _
        (require-Keeps (is_visibility v) (error_json "visibility must be public or private" 400))
        (Yields-any _) λ _ _. Yields-pure (record u { visibility = v }) h

  patched_bio-HasName :
      (p : Option Text) (u : User) → HasName u → Yields AllAccountsIn HasName (patched_bio p u)
  unfolding patched_bio
  patched_bio-HasName none u h = Yields-pure u h
  patched_bio-HasName (some raw) u h =
      or_invalid-Yields "bio" (bio (some raw)) _ λ b good. Yields-pure (record u { bio = b }) h

  patched_user-HasName :
      (p : MePayload) (u : User) → HasName u → Yields AllAccountsIn HasName (patched_user out p u)
  unfolding patched_user
  patched_user-HasName p u h =
      Yields-bind {R = HasName} _ _ (patched_username-Keeps out p.username u)
        (patched_username-HasName p.username u h)
        λ named k.
          Yields-bind {R = HasName} _ _ (patched_visibility-Keeps out p.visibility named)
            (patched_visibility-HasName p.visibility named k)
            λ shown l. patched_bio-HasName p.bio shown l

  write_user-AllAccounts :
      (u : User) (now : ℕ) (db : Db)
      → HasName u
      → AllAccountsIn db
      → AllAccountsIn (write_user out u now db).1
  unfolding write_user
  write_user-AllAccounts u now db good h =
      ground (arith, h, AllAccounts-update out (λ v. v.id == u.id) u now db.users good h)

  update_user-Keeps : (u : User) → HasName u → Keeps AllAccountsIn (update_user out u)
  unfolding update_user
  update_user-Keeps u good =
      Keeps-bind _ _ (Keeps-time_now out)
        λ now. Keeps-statement out _ λ db h. write_user-AllAccounts u now db good h

  patch_account-Keeps :
      (decoded : Option MePayload) (id : ℕ) → Keeps AllAccountsIn (patch_account out decoded id)
  unfolding patch_account
  patch_account-Keeps decoded id = Keeps-bind _ _ (or_respond-Keeps decoded bad_request) λ payload.
      Keeps-bind _ _
        (require-Keeps
          (is_some payload.username || is_some payload.visibility || is_some payload.bio)
          (error_json "nothing to update" 400))
        λ _.
          Keeps-bind_yields HasName _ _
            (Keeps-or_else (get_user_by_id out id) (λ _. unknown_user)
              (get_user_by_id-Keeps out id))
            (Yields-or_else (get_user_by_id out id) (λ _. unknown_user)
              (get_user_by_id-HasName id)).at
            λ u named.
              Keeps-bind_yields HasName _ _ (patched_user-Keeps out payload u)
                (patched_user-HasName payload u named).at
                λ patched good.
                  Keeps-bind _ _
                    (Keeps-or_else (update_user out patched) update_failure
                      (update_user-Keeps patched good))
                    λ _. respond_with_user-Keeps out id

  pub patch_me-Keeps :
      (p : Option MePayload) (c : UserContext) → Keeps AllAccountsIn (patch_me out p c)
  unfolding patch_me
  patch_me-Keeps p c = Keeps-bind _ _ (current_user_id-Keeps c) λ id. patch_account-Keeps p id

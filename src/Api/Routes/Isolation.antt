-- ===== src/Api/Routes/Isolation.antt =====
-- Whose rows a request to a protected route of cmd/api/routes.go may change.
use toomanyhours_api.Prelude.{
  ℕ, ◌≡◌, ◌≢◌, ◌⊎◌, refl, false, Option, arith, ◌==◌, ==_iff, Bool-cases, inl, inr, ap,
}
use toomanyhours_api.Text.{Text}
use toomanyhours_api.World.{World, Db, Outside, Claims}
use toomanyhours_api.World.Content.{
  OfUsers, OfEntries, OfAvatars, OfUsers-IsOfPeople, OfUsers-IsOfRows, OfEntries-IsOfItems,
  OfEntries-IsOfRows, OfAvatars-IsOfItems, OfAvatars-IsOfPeople,
}
use toomanyhours_api.Igdb.Client.{Config}
use toomanyhours_api.Api.{signed_in}
use toomanyhours_api.Api.Auth.{Auth}
use toomanyhours_api.Api.Access.Bearer.{IsSigned, clock_read}
use toomanyhours_api.Api.Games.Isolation.{list_of, SameList, serve-Apart}
use toomanyhours_api.Api.Me.Isolation.{
  account_of, photo_of, SameAccount, SamePhoto, patch_me-Apart, put_my_avatar-Apart,
  delete_my_avatar-Apart,
}
use toomanyhours_api.Api.Me.Rules.{
  patch_me-Keeps_items, put_my_avatar-Keeps, delete_my_avatar-Keeps,
}
use toomanyhours_api.Api.Routes.{ProtectedCall, protected_call, serve_protected, serve_request}
use toomanyhours_api.Api.Routes.Guard.{serve_request-guarded}
use toomanyhours_api.Api.Routes.Sound.{listing-Keeps}
use toomanyhours_api.Api.Routes.Writers.{UserWritersKeep, serve_protected-Keeps}

-- The account, the list and the photo of a user are the same rows.
pub record SameRows (v : ℕ) (old new : Db) : Type 0 where
  pub account : account_of v new.users ≡ account_of v old.users
  pub list : list_of v new.entries ≡ list_of v old.entries
  pub photo : photo_of v new.avatars ≡ photo_of v old.avatars

module _ (out : Outside) (client : Option Config) (u v : ℕ) (apart : u ≢ v) (old : Db) where
  account-writers : UserWritersKeep (OfUsers (SameAccount v (account_of v old.users))) out client u
  account-writers =
      let same = SameAccount v (account_of v old.users) in
      record {
        patching_me = λ payload. patch_me-Apart out u v apart (account_of v old.users) payload;
        putting = λ upload. put_my_avatar-Keeps (OfUsers-IsOfRows same) out upload (signed_in u);
        deleting_avatar = delete_my_avatar-Keeps (OfUsers-IsOfRows same) out (signed_in u);
        listing = λ r. listing-Keeps (OfUsers-IsOfPeople same) out client u r;
      }

  list-writers : UserWritersKeep (OfEntries (SameList v (list_of v old.entries))) out client u
  list-writers =
      let same = SameList v (list_of v old.entries) in
      record {
        patching_me =
            λ payload. patch_me-Keeps_items (OfEntries-IsOfItems same) out payload (signed_in u);
        putting = λ upload. put_my_avatar-Keeps (OfEntries-IsOfRows same) out upload (signed_in u);
        deleting_avatar = delete_my_avatar-Keeps (OfEntries-IsOfRows same) out (signed_in u);
        listing = λ r. serve-Apart v (list_of v old.entries) out u apart client r;
      }

  photo-writers : UserWritersKeep (OfAvatars (SamePhoto v (photo_of v old.avatars))) out client u
  photo-writers =
      let same = SamePhoto v (photo_of v old.avatars) in
      record {
        patching_me =
            λ payload. patch_me-Keeps_items (OfAvatars-IsOfItems same) out payload (signed_in u);
        putting = λ upload. put_my_avatar-Apart out u v apart (photo_of v old.avatars) upload;
        deleting_avatar = delete_my_avatar-Apart out u v apart (photo_of v old.avatars);
        listing = λ r. listing-Keeps (OfAvatars-IsOfPeople same) out client u r;
      }

-- A handler that runs as one user.
serve_protected-SameRows :
    (out : Outside) (auth : Auth) (grace : ℕ) (client : Option Config) (u v : ℕ) (c : ProtectedCall)
    (w : World)
    → u ≢ v
    → SameRows v w.db (serve_protected out auth grace client (signed_in u) c w).1.db
serve_protected-SameRows out auth grace client u v c w apart = record {
  account =
      (serve_protected-Keeps out auth grace client u (account-writers out client u v apart w.db)
          c).at
        w refl;
  list =
      (serve_protected-Keeps out auth grace client u (list-writers out client u v apart w.db) c).at
        w refl;
  photo =
      (serve_protected-Keeps out auth grace client u (photo-writers out client u v apart w.db) c).at
        w refl;
}

-- A request to a protected route leaves the account, the list and the photo of a user as they were,
-- or its header carries a token of that user, valid now, signed under this program's secret and of
-- this program's issuer.
pub serve_request-SameRows :
    (out : Outside) (auth : Auth) (grace : ℕ) (client : Option Config) (header : Text)
    (c : ProtectedCall) (v : ℕ) (w : World)
    → SameRows v w.db (serve_request out auth grace client false (protected_call header c) w).1.db
      ⊎ ((claims : Claims) × IsSigned out auth header (out.clock w.effects) claims
          × (claims.user_id ≡ v))
serve_request-SameRows out auth grace client header c v w =
    let answer = serve_request out auth grace client false (protected_call header c) w in
    elim (serve_request-guarded out auth grace client header c w) [
      | inl denied ↦
          let same : answer.1.db ≡ w.db = denied.same_db in
          inl (record {
            account = ap (λ db. account_of v db.users) same;
            list = ap (λ db. list_of v db.entries) same;
            photo = ap (λ db. photo_of v db.avatars) same;
          })
      | inr (claims, signed, runs) ↦ elim (Bool-cases (claims.user_id == v)) [
        | inl own ↦ inr (claims, signed, (==_iff claims.user_id v).0 own)
        | inr other ↦ inl (
            rw runs (
              serve_protected-SameRows out auth grace client claims.user_id v c
                (clock_read out auth w) (λ e. ground (arith, e, other))))
      ]
    ]

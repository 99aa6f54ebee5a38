-- ===== src/Api/Routes/Sound.antt =====
-- Accounts, lists and photos under every route of cmd/api/routes.go.
use toomanyhours_api.Prelude.{ℕ, Bool, Option}
use toomanyhours_api.Text.{IsCaseTable}
use toomanyhours_api.World.{World, Db, Outside}
use toomanyhours_api.World.Content.{
  OfUsers, OfEntries, OfAvatars, IsOfPeople, OfUsers-IsOfContent, OfUsers-IsOfPeople,
  OfUsers-IsOfRows, OfEntries-IsOfContent, OfEntries-IsOfItems, OfEntries-IsOfRows,
  OfAvatars-IsOfContent, OfAvatars-IsOfItems, OfAvatars-IsOfPeople,
}
use toomanyhours_api.World.Keeps.{Keeps}
use toomanyhours_api.Igdb.Client.{Config}
use toomanyhours_api.Api.{signed_in}
use toomanyhours_api.Api.Auth.{Auth}
use toomanyhours_api.Api.Games.Isolation.{Request, lists, posts, patches, deletes, serve}
use toomanyhours_api.Api.Games.Rules.{get_my_games-Keeps}
use toomanyhours_api.Api.Games.Stored.{AllRows, serve-AllRowsIn}
use toomanyhours_api.Api.Accounts.Stored.{AllAccounts, register-AllAccountsIn}
use toomanyhours_api.Api.Me.Stored.{patch_me-Keeps}
use toomanyhours_api.Api.Me.Photos.{AllPhotos, put_photo-Keeps, delete_photo-Keeps}
use toomanyhours_api.Api.Me.Rules.{
  register-Keeps, patch_me-Keeps_items, put_my_avatar-Keeps, delete_my_avatar-Keeps,
}
use toomanyhours_api.Api.Routes.{RouteCall, serve_request}
use toomanyhours_api.Api.Routes.Untouched.{
  post_my_game-Keeps, patch_my_game-Keeps, delete_my_game-Keeps,
}
use toomanyhours_api.Api.Routes.Writers.{WritersKeep, serve_request-Keeps}

-- The handlers of a list, for a property that does not depend on the lists.
pub listing-Keeps :
    {P : Db → Type 0} (p : IsOfPeople P) (out : Outside) (client : Option Config) (id : ℕ)
    (r : Request)
    → Keeps P (serve out client (signed_in id) r)
unfolding serve
listing-Keeps p out client id lists = get_my_games-Keeps out (signed_in id)
listing-Keeps p out client id (posts payload) =
    post_my_game-Keeps p out client (signed_in id) payload
listing-Keeps p out client id (patches param payload) =
    patch_my_game-Keeps p out (signed_in id) param payload
listing-Keeps p out client id (deletes param) = delete_my_game-Keeps p out (signed_in id) param

module _ (out : Outside) (auth : Auth) (client : Option Config) where
  AllAccounts-writers :
      IsCaseTable out.wide → WritersKeep (OfUsers (AllAccounts out)) out auth client
  AllAccounts-writers table =
      let rows = OfUsers-IsOfRows (AllAccounts out) in
      record {
        registering = λ payload. register-AllAccountsIn out auth payload table;
        of_user = λ id. record {
          patching_me = λ payload. patch_me-Keeps out payload (signed_in id);
          putting = λ upload. put_my_avatar-Keeps rows out upload (signed_in id);
          deleting_avatar = delete_my_avatar-Keeps rows out (signed_in id);
          listing = λ r. listing-Keeps (OfUsers-IsOfPeople (AllAccounts out)) out client id r;
        };
      }

  AllRows-writers : WritersKeep (OfEntries AllRows) out auth client
  AllRows-writers =
      let items = OfEntries-IsOfItems AllRows in
      let rows = OfEntries-IsOfRows AllRows in
      record {
        registering = λ payload. register-Keeps items out auth payload;
        of_user = λ id. record {
          patching_me = λ payload. patch_me-Keeps_items items out payload (signed_in id);
          putting = λ upload. put_my_avatar-Keeps rows out upload (signed_in id);
          deleting_avatar = delete_my_avatar-Keeps rows out (signed_in id);
          listing = λ r. serve-AllRowsIn out client id r;
        };
      }

  AllPhotos-writers : WritersKeep (OfAvatars (AllPhotos out)) out auth client
  AllPhotos-writers =
      let items = OfAvatars-IsOfItems (AllPhotos out) in
      record {
        registering = λ payload. register-Keeps items out auth payload;
        of_user = λ id. record {
          patching_me = λ payload. patch_me-Keeps_items items out payload (signed_in id);
          putting = λ upload. put_photo-Keeps out upload (signed_in id);
          deleting_avatar = delete_photo-Keeps out (signed_in id);
          listing = λ r. listing-Keeps (OfAvatars-IsOfPeople (AllPhotos out)) out client id r;
        };
      }

-- What every stored row satisfies: accounts, entries of the lists, and photos.
pub record IsSound (out : Outside) (db : Db) : Type 0 where
  pub accounts : AllAccounts out db.users
  pub rows : AllRows db.entries
  pub photos : AllPhotos out db.avatars

-- If every stored account has a good username and an address in its normal form, every entry one of
-- the three categories with a rating and a review that may be stored, and every photo was drawn here
-- and stands under its own hash, then so they do after a request to any route, whatever it asks,
-- whoever sends it and however it ends.
pub serve_request-IsSound :
    (out : Outside) (auth : Auth) (grace : ℕ) (client : Option Config) (is_options : Bool)
    (c : RouteCall) (w : World)
    → IsCaseTable out.wide
    → IsSound out w.db
    → IsSound out (serve_request out auth grace client is_options c w).1.db
serve_request-IsSound out auth grace client is_options c w table h = record {
  accounts =
      (serve_request-Keeps (OfUsers-IsOfContent (AllAccounts out)) out auth grace client
          (AllAccounts-writers out auth client table) is_options c).at
        w h.accounts;
  rows =
      (serve_request-Keeps (OfEntries-IsOfContent AllRows) out auth grace client
          (AllRows-writers out auth client) is_options c).at
        w h.rows;
  photos =
      (serve_request-Keeps (OfAvatars-IsOfContent (AllPhotos out)) out auth grace client
          (AllPhotos-writers out auth client) is_options c).at
        w h.photos;
}

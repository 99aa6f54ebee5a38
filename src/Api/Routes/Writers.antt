-- ===== src/Api/Routes/Writers.antt =====
-- Every route of cmd/api/routes.go, from the seven handlers that write to accounts, lists or photos.
use toomanyhours_api.Prelude.{ℕ, Bool, true, false, Option, List, [], ◌∷◌, none, some}
use toomanyhours_api.Text.{Text}
use toomanyhours_api.World.{Db, Outside, Claims}
use toomanyhours_api.World.Keeps.{Keeps, Keeps-bind, Keeps-raise, keeps_rules}
use toomanyhours_api.Igdb.Client.{Config}
use toomanyhours_api.Api.{signed_in}
use toomanyhours_api.Api.Auth.{Auth}
use toomanyhours_api.Api.Access.{bearer_token, parsed_claims, verify_header, auth_required}
use toomanyhours_api.Api.Games.Rules.{require-Keeps}
use toomanyhours_api.Api.Accounts.{RegisterPayload, register}
use toomanyhours_api.Api.Games.Isolation.{Request, lists, posts, patches, deletes, serve}
use toomanyhours_api.Api.Me.{MePayload, Upload, patch_me, put_my_avatar, delete_my_avatar}
use toomanyhours_api.Api.Me.Rules.{me_handler-Keeps}
use toomanyhours_api.World.Content.{IsOfContent}
use toomanyhours_api.Api.Routes.{
  PublicCall, pings, registers, authenticates, refreshes, logs_out, views_profile, views_photo,
  checks_username, ProtectedCall, reads_me, deletes_avatar, lists_games, patches_me, puts_avatar,
  posts_game, patches_game, deletes_game, searches_games, lists_dlcs, RouteCall, public_call,
  protected_call, serve_public, serve_protected, serve_call, serve_request,
}
use toomanyhours_api.Api.Routes.Users.{refresh_token-Keeps, logout-Keeps}
use toomanyhours_api.Api.Routes.Reads.{
  home-Keeps, get_profile-Keeps, get_profile_avatar-Keeps, check_username-Keeps,
  search_games_handler-Keeps, get_game_dlcs-Keeps,
}
use toomanyhours_api.Api.Routes.Untouched.{authenticate-Keeps}

module _ {P : Db → Type 0} (out : Outside) (auth : Auth) where
  bearer_token-Keeps : (parts : List Text) → Keeps P (bearer_token parts)
  unfolding bearer_token
  bearer_token-Keeps [] = search keeps_rules
  bearer_token-Keeps (scheme ∷ []) = search keeps_rules
  bearer_token-Keeps (scheme ∷ token ∷ []) = search keeps_rules
  bearer_token-Keeps (scheme ∷ token ∷ next ∷ rest) = search keeps_rules

  parsed_claims-Keeps :
      (token : Text) (now : ℕ) (o : Option Claims) → Keeps P (parsed_claims out auth token now o)
  unfolding parsed_claims
  parsed_claims-Keeps token now none = search keeps_rules
  parsed_claims-Keeps token now (some claims) = search keeps_rules

  verify_header-Keeps : (header : Text) → Keeps P (verify_header out auth header)
  unfolding verify_header
  verify_header-Keeps header =
      search (keeps_rules, require-Keeps, bearer_token-Keeps, parsed_claims-Keeps) depth 14

-- The handlers that write for a user who is signed in keep a property of the database.
pub record UserWritersKeep (P : Db → Type 0) (out : Outside) (client : Option Config) (id : ℕ)
    : Type 0 where
  pub patching_me : (payload : Option MePayload) → Keeps P (patch_me out payload (signed_in id))
  pub putting : (upload : Upload) → Keeps P (put_my_avatar out upload (signed_in id))
  pub deleting_avatar : Keeps P (delete_my_avatar out (signed_in id))
  pub listing : (r : Request) → Keeps P (serve out client (signed_in id) r)

-- So do those of every user, and the registration.
pub record WritersKeep (P : Db → Type 0) (out : Outside) (auth : Auth) (client : Option Config)
    : Type 0 where
  pub registering : (payload : Option RegisterPayload) → Keeps P (register out auth payload)
  pub of_user : (id : ℕ) → UserWritersKeep P out client id

module _ {P : Db → Type 0} (out : Outside) (auth : Auth) (grace : ℕ) (client : Option Config)
    (id : ℕ) (writers : UserWritersKeep P out client id) where
  pub serve_protected-Keeps :
      (c : ProtectedCall) → Keeps P (serve_protected out auth grace client (signed_in id) c)
  unfolding serve_protected serve
  serve_protected-Keeps reads_me = me_handler-Keeps out (signed_in id)
  serve_protected-Keeps deletes_avatar = writers.deleting_avatar
  serve_protected-Keeps lists_games = writers.listing lists
  serve_protected-Keeps (patches_me payload) = writers.patching_me payload
  serve_protected-Keeps (puts_avatar upload) = writers.putting upload
  serve_protected-Keeps (posts_game payload) = writers.listing (posts payload)
  serve_protected-Keeps (patches_game param payload) = writers.listing (patches param payload)
  serve_protected-Keeps (deletes_game param) = writers.listing (deletes param)
  serve_protected-Keeps (searches_games q limit) = search_games_handler-Keeps out client q limit
  serve_protected-Keeps (lists_dlcs param) = get_game_dlcs-Keeps out client param

-- A property of accounts, lists and photos that they keep is kept by every route.
module _ {P : Db → Type 0} (p : IsOfContent P) (out : Outside) (auth : Auth) (grace : ℕ)
    (client : Option Config) (writers : WritersKeep P out auth client) where
  serve_public-Keeps : (c : PublicCall) → Keeps P (serve_public out auth grace client c)
  unfolding serve_public
  serve_public-Keeps pings = home-Keeps out client
  serve_public-Keeps (registers payload) = writers.registering payload
  serve_public-Keeps (authenticates ip payload) = authenticate-Keeps p out auth ip payload
  serve_public-Keeps (refreshes cookie) = refresh_token-Keeps p out auth grace cookie
  serve_public-Keeps (logs_out cookie) = logout-Keeps p out auth grace cookie
  serve_public-Keeps (views_profile param) = get_profile-Keeps out param
  serve_public-Keeps (views_photo param version) = get_profile_avatar-Keeps out param version
  serve_public-Keeps (checks_username ip param) = check_username-Keeps out ip param

  serve_call-Keeps : (c : RouteCall) → Keeps P (serve_call out auth grace client c)
  unfolding serve_call auth_required
  serve_call-Keeps (public_call c) = serve_public-Keeps c
  serve_call-Keeps (protected_call header c) =
      Keeps-bind _ _ (verify_header-Keeps out auth header)
        λ id. serve_protected-Keeps out auth grace client id (writers.of_user id) c

  pub serve_request-Keeps :
      (is_options : Bool) (c : RouteCall)
      → Keeps P (serve_request out auth grace client is_options c)
  unfolding serve_request
  serve_request-Keeps true c = Keeps-raise _
  serve_request-Keeps false c = serve_call-Keeps c

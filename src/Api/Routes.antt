-- ===== src/Api/Routes.antt =====
-- cmd/api/routes.go: which handler answers a request, and behind which middleware.
--
-- A request is given as the route that gin selects for it, with what the handler reads of it. The
-- client of IGDB is the application's, none if it is not configured.
pub mod Guard
pub mod Users
pub mod Reads
pub mod Untouched
pub mod Writers
pub mod Sound
pub mod Isolation
use toomanyhours_api.Prelude.{ℕ, Bool, Option, Result, ok, err, if◌then◌else◌}
use toomanyhours_api.Prelude.Int.{ℤ}
use toomanyhours_api.Text.{Text}
use toomanyhours_api.World.{World, Outside}
use toomanyhours_api.World.Exec.{pure, raise, ◌>>=◌}
use toomanyhours_api.Igdb.Client.{Config}
use toomanyhours_api.Api.{Response, Handler, UserContext, json, empty}
use toomanyhours_api.Api.Auth.{Auth}
use toomanyhours_api.Api.Access.{auth_required}
use toomanyhours_api.Api.Session.{refresh_token, logout}
use toomanyhours_api.Api.Accounts.{RegisterPayload, LoginPayload, register, authenticate}
use toomanyhours_api.Api.Me.{
  MePayload, Upload, home, me_handler, patch_me, put_my_avatar, delete_my_avatar,
}
use toomanyhours_api.Api.Profiles.{get_profile, get_profile_avatar}
use toomanyhours_api.Api.Usernames.{check_username}
use toomanyhours_api.Api.Games.{
  PostPayload, PatchPayload, get_my_games, post_my_game, patch_my_game, delete_my_game,
}
use toomanyhours_api.Api.Catalog.{search_games_handler, get_game_dlcs}

-- The routes that anyone may use.
pub data PublicCall : Type 0 where
  pings : PublicCall
  registers : Option RegisterPayload → PublicCall
  authenticates : Text → Option LoginPayload → PublicCall
  refreshes logs_out : Option Text → PublicCall
  views_profile : Text → PublicCall
  views_photo : Text → Text → PublicCall
  checks_username : Text → Text → PublicCall

-- The routes of the group behind `AuthRequired`.
pub data ProtectedCall : Type 0 where
  reads_me deletes_avatar lists_games : ProtectedCall
  patches_me : Option MePayload → ProtectedCall
  puts_avatar : Upload → ProtectedCall
  posts_game : Option PostPayload → ProtectedCall
  patches_game : Option ℕ → Option PatchPayload → ProtectedCall
  deletes_game : Option ℕ → ProtectedCall
  searches_games : Text → Option (Option ℤ) → ProtectedCall
  lists_dlcs : Option ℤ → ProtectedCall

-- A request for a route, with its Authorization header, which is empty if there is none.
pub data RouteCall : Type 0 where
  public_call : PublicCall → RouteCall
  protected_call : Text → ProtectedCall → RouteCall

module _ (out : Outside) (auth : Auth) (grace : ℕ) (client : Option Config) where
  unfoldable pub serve_public : PublicCall → Handler Response
  serve_public pings = home out client
  serve_public (registers payload) = register out auth payload
  serve_public (authenticates client_ip payload) = authenticate out auth client_ip payload
  serve_public (refreshes cookie) = refresh_token out auth grace cookie
  serve_public (logs_out cookie) = logout out auth grace cookie
  serve_public (views_profile param) = get_profile out param
  serve_public (views_photo param version) = get_profile_avatar out param version
  serve_public (checks_username client_ip param) = check_username out client_ip param

  unfoldable pub serve_protected : UserContext → ProtectedCall → Handler Response
  serve_protected context reads_me = me_handler out context
  serve_protected context deletes_avatar = delete_my_avatar out context
  serve_protected context lists_games = get_my_games out context
  serve_protected context (patches_me payload) = patch_me out payload context
  serve_protected context (puts_avatar upload) = put_my_avatar out upload context
  serve_protected context (posts_game payload) = post_my_game out client context payload
  serve_protected context (patches_game id payload) = patch_my_game out context id payload
  serve_protected context (deletes_game id) = delete_my_game out context id
  serve_protected context (searches_games q limit) = search_games_handler out client q limit
  serve_protected context (lists_dlcs param) = get_game_dlcs out client param

  -- The router without the middleware that it uses for all routes.
  unfoldable pub serve_call : RouteCall → Handler Response
  serve_call (public_call c) = serve_public c
  serve_call (protected_call header c) =
      auth_required out auth header (λ context. serve_protected context c)

  -- The router behind `enableCORS`: a request of the method OPTIONS goes no further.
  unfoldable pub serve_request : Bool → RouteCall → Handler Response
  serve_request is_options c = if is_options then raise (json 204 empty) else serve_call c

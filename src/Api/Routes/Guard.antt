-- ===== src/Api/Routes/Guard.antt =====
-- The middleware of cmd/api/middleware.go before the routes of cmd/api/routes.go.
use toomanyhours_api.Prelude.{ℕ, ◌≡◌, ◌⊎◌, false, Option}
use toomanyhours_api.Text.{Text}
use toomanyhours_api.World.{World, Outside, Claims}
use toomanyhours_api.Igdb.Client.{Config}
use toomanyhours_api.Api.{signed_in}
use toomanyhours_api.Api.Auth.{Auth}
use toomanyhours_api.Api.Access.Bearer.{IsDenied, IsSigned, clock_read, auth_required-cases}
use toomanyhours_api.Api.Routes.{
  ProtectedCall, protected_call, serve_protected, serve_call, serve_request,
}

-- A request to a route of the protected group is answered 401 and changes nothing that is stored,
-- or its header is the scheme Bearer and a token that is valid now, signed under this program's
-- secret and of this program's issuer, and the handler runs as the user whom the token names.
pub serve_request-guarded :
    (out : Outside) (auth : Auth) (grace : ℕ) (client : Option Config) (header : Text)
    (c : ProtectedCall) (w : World)
    → IsDenied w (serve_request out auth grace client false (protected_call header c) w)
      ⊎ ((claims : Claims) × IsSigned out auth header (out.clock w.effects) claims
          × (serve_request out auth grace client false (protected_call header c) w
              ≡ serve_protected out auth grace client
                  (signed_in claims.user_id)
                  c
                  (clock_read out auth w)))
unfolding serve_request serve_call
serve_request-guarded out auth grace client header c w =
    auth_required-cases out auth header (λ context. serve_protected out auth grace client context c)
      w

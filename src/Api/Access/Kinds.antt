-- ===== src/Api/Access/Kinds.antt =====
-- The two kinds of token of cmd/api/auth.go are not interchangeable.
use toomanyhours_api.Prelude.{ℕ, ◌≡◌, ◌≢◌, sym, ◌∙◌, some, [], ◌∷◌, ◌++◌, arith, inl, inr}
use toomanyhours_api.Text.{Text, codes}
use toomanyhours_api.World.{World, Outside}
use toomanyhours_api.Api.{Response, Handler, UserContext}
use toomanyhours_api.Api.Auth.{Auth, refresh_claims}
use toomanyhours_api.Api.Access.{auth_required}
use toomanyhours_api.Api.Access.Bearer.{IsDenied, auth_required-cases}

-- A refresh token that is presented as an access token is answered 401 and changes nothing that is
-- stored, if this program has an issuer's name.
pub auth_required-refresh :
    (out : Outside) (auth : Auth) (token jti : Text) (id issued now : ℕ)
    (handler : UserContext → Handler Response) (w : World)
    → auth.issuer ≢ []
    → out.parse auth.secret (out.clock w.effects) token
      ≡ some (refresh_claims out auth id jti issued now)
    → IsDenied w (auth_required out auth (codes "Bearer" ++ 0x20 ∷ token) handler w)
unfolding refresh_claims
auth_required-refresh out auth token jti id issued now handler w named e =
    elim (auth_required-cases out auth (codes "Bearer" ++ 0x20 ∷ token) handler w) [
      | inl d ↦ d
      | inr (claims, signed, runs) ↦
          let same_token : signed.token ≡ token = ground (arith, signed.form) in
          let no_issuer : claims.issuer ≡ [] = ground (arith, same_token, signed.valid, e) in
          absurd (named (sym signed.issued ∙ no_issuer))
    ]

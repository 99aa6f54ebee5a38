-- ===== src/Api/Session/Race.antt =====
-- A refresh and a logout that interleave: cmd/api/handlers.go decides a refresh by what it reads, and
-- writes the successor in later statements.
use toomanyhours_api.Prelude.{
  ℕ, suc, ◌≡◌, ◌≢◌, ◌∙◌, ap, true, false, none, some, List, [], ◌∷◌, ◌++◌, arith, find, any, ◌==◌,
}
use toomanyhours_api.Text.{Text, same_refl}
use toomanyhours_api.Models.{User, RefreshToken}
use toomanyhours_api.Refresh.{accept}
use toomanyhours_api.World.{World, Outside, Claims}
use toomanyhours_api.Repo.RefreshTokens.{has_jti}
use toomanyhours_api.Repo.RefreshTokens.Family.{has_active, IsOver}
use toomanyhours_api.Api.Auth.{Auth}
use toomanyhours_api.Api.Session.{act, logout}
use toomanyhours_api.Api.Session.Logout.{logout_ends}
use toomanyhours_api.Api.Session.Issue.{IsUp}
use toomanyhours_api.Api.Session.Rotation.{rotate-ok}

has_active-append :
    (f : Text) (ts : List RefreshToken) (t : RefreshToken)
    → t.family_id ≡ f
    → t.revoked_at ≡ none
    → has_active f (ts ++ t ∷ []) ≡ true
unfolding has_active any
has_active-append f [] t e k = ground (arith, e, k, same_refl f)
has_active-append f (x ∷ ts) t e k = ground (arith, has_active-append f ts t e k)

module _ (out : Outside) (auth : Auth) (grace : ℕ) where
  -- A refresh that was decided to be accepted before a logout, and acts after it, brings the
  -- session back: the logout leaves no active token of the family, and the refresh adds one.
  pub act-after_logout :
      (token fresh : Text) (claims : Claims) (row : RefreshToken) (u : User) (w : World)
      → IsUp out auth
      → out.parse auth.secret (out.clock w.effects) token ≡ some claims
      → claims.id ≢ []
      → find (has_jti claims.id) w.db.tokens ≡ some row
      → row.family_id ≢ []
      → (let v = (logout out auth grace (some token) w).1 in
          (find (λ x. x.id == row.user_id) v.db.users ≡ some u)
          × (out.random (suc (suc (suc v.effects))) ≡ some fresh)
          × (any (has_jti fresh) v.db.tokens ≡ false))
      → let v = (logout out auth grace (some token) w).1 in
        IsOver row.family_id v.db.tokens
        × (has_active row.family_id (act out auth grace (some row) accept v).1.db.tokens ≡ true)
  unfolding act
  act-after_logout token fresh claims row u w h parsed named found family (user, drawn, unused) =
      let v = (logout out auth grace (some token) w).1 in
      let (pairs, t, e, added, successor, signed) =
        rotate-ok out auth grace row u fresh v h family user drawn unused in
      (
        logout_ends out auth grace token claims row w
            (record { reads = h.up (suc w.effects); writes = h.up (suc (suc (suc w.effects))) })
            parsed named found,
        ap (has_active row.family_id) added
            ∙ has_active-append row.family_id _ t successor.continued successor.active,
      )

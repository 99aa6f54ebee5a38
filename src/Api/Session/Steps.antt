-- ===== src/Api/Session/Steps.antt =====
-- The parts of the session handlers that touch no table: they keep every invariant of it.
use toomanyhours_api.Prelude.{ℕ, Option, none, some, [], ◌∷◌, Result, ok, err}
use toomanyhours_api.Text.{Text}
use toomanyhours_api.Models.{RefreshToken}
use toomanyhours_api.World.{
  Db, Outside, DbError, record_not_found, no_rows, duplicated_key, unavailable,
}
use toomanyhours_api.World.Keeps.{Keeps, keeps_rules}
use toomanyhours_api.Api.{or_respond, Response}
use toomanyhours_api.Api.Auth.{Auth, or_no_session, session_family, generate_token_pair}
use toomanyhours_api.Api.Session.{row_or_none, require_id}

module _ {P : Db → Type 0} where
  pub or_no_session-Keeps : {A : Type 0} (o : Option A) → Keeps P (or_no_session o)
  or_no_session-Keeps none = search keeps_rules
  or_no_session-Keeps (some a) = search keeps_rules

  pub or_respond-Keeps : {A : Type 0} (o : Option A) (r : Response) → Keeps P (or_respond o r)
  or_respond-Keeps none r = search keeps_rules
  or_respond-Keeps (some a) r = search keeps_rules

  module _ (out : Outside) (auth : Auth) where
    pub generate_token_pair-Keeps :
        (id : ℕ) (jti : Text) → Keeps P (generate_token_pair out auth id jti)
    unfolding generate_token_pair
    generate_token_pair-Keeps id jti = search (keeps_rules, or_no_session-Keeps) depth 12

    pub session_family-Keeps : (f : Text) → Keeps P (session_family out auth f)
    unfolding session_family
    session_family-Keeps [] = search (keeps_rules, or_no_session-Keeps)
    session_family-Keeps (r ∷ rs) = search keeps_rules

  module _ (out : Outside) (auth : Auth) (grace : ℕ) where
    pub row_or_none-Keeps :
        (r : Result DbError RefreshToken) → Keeps P (row_or_none out auth grace r)
    unfolding row_or_none
    row_or_none-Keeps (ok row) = search keeps_rules
    row_or_none-Keeps (err record_not_found) = search keeps_rules
    row_or_none-Keeps (err no_rows) = search keeps_rules
    row_or_none-Keeps (err duplicated_key) = search keeps_rules
    row_or_none-Keeps (err unavailable) = search keeps_rules

    pub require_id-Keeps : (id : Text) → Keeps P (require_id out auth grace id)
    unfolding require_id
    require_id-Keeps [] = search keeps_rules
    require_id-Keeps (r ∷ rs) = search keeps_rules

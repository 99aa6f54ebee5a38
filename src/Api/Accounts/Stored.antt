-- ===== src/Api/Accounts/Stored.antt =====
-- Every account that a registration stores is one that the rules allow.
use toomanyhours_api.World.Content.{IsOfContent, OfUsers, OfUsers-IsOfContent}
use toomanyhours_api.Prelude.{
  ℕ, ◌≡◌, ◌||◌, Option, none, some, List, [], ◌∷◌, ◌++◌, Result, ok, err, arith, any, All,
  Bool-cases, inl, inr,
}
use toomanyhours_api.Text.{Text, IsCaseTable}
use toomanyhours_api.Validate.{username, email, password, normalize, Error}
use toomanyhours_api.Validate.Account.{IsUsername, username-IsUsername, email_idem}
use toomanyhours_api.Models.{User, RefreshToken}
use toomanyhours_api.World.{Db, Outside}
use toomanyhours_api.World.Keeps.{
  Keeps, keeps_rules, Keeps-bind, Keeps-pure, Keeps-or_else, Keeps-time_now, Keeps-statement,
}
use toomanyhours_api.Repo.Users.{insert_user, create_user, same_username, same_email}
use toomanyhours_api.Repo.RefreshTokens.{insert_token, create_refresh_token}
use toomanyhours_api.Api.{bad_request, internal_error, set_to, tokens}
use toomanyhours_api.Api.Auth.{
  Auth, or_no_session, session_family, store_session, issue_session, generate_token_pair,
}
use toomanyhours_api.Api.Games.Rules.{or_respond-Keeps, or_invalid-then}
use toomanyhours_api.Api.Accounts.{
  RegisterPayload, register, require_password, create_failure, could_not_create, new_user,
}

-- An account that may be stored: a good username, and an address in its normal form.
pub record IsAccount (out : Outside) (u : User) : Type 0 where
  pub name : IsUsername out.is_profane u.username
  pub address : normalize out.wide u.email ≡ u.email

abbrev pub AllAccounts : Outside → List User → Type 0
AllAccounts out us = All (IsAccount out) us

AllAccounts-append :
    (out : Outside) (us : List User) (u : User)
    → AllAccounts out us
    → IsAccount out u
    → AllAccounts out (us ++ u ∷ [])
AllAccounts-append out [] u h k = (k, tt)
AllAccounts-append out (v ∷ us) u (a, h) k = (a, AllAccounts-append out us u h k)

module _ {P : Db → Type 0} (p : IsOfContent P) (out : Outside) (auth : Auth) where
  pub insert_token-Keeps : (t : RefreshToken) → Keeps P (create_refresh_token out t)
  unfolding create_refresh_token
  insert_token-Keeps t = Keeps-bind _ _ (Keeps-time_now out) λ now.
      Keeps-statement out (insert_token (record t { created_at = now }))
        λ db h. kept (record t { created_at = now }) db h
    where
      kept : (t : RefreshToken) (db : Db) → P db → P (insert_token t db).1
      kept t db h =
          unfold insert_token in p.content db _ (ground arith) (ground arith) (ground arith) h

  or_no_session-Keeps : {A : Type 0} (o : Option A) → Keeps P (or_no_session o)
  or_no_session-Keeps none = search keeps_rules
  or_no_session-Keeps (some a) = search keeps_rules

  generate_token_pair-Keeps : (id : ℕ) (jti : Text) → Keeps P (generate_token_pair out auth id jti)
  unfolding generate_token_pair
  generate_token_pair-Keeps id jti = search (keeps_rules, or_no_session-Keeps) depth 14

  session_family-Keeps : (f : Text) → Keeps P (session_family out auth f)
  unfolding session_family
  session_family-Keeps [] = search (keeps_rules, or_no_session-Keeps)
  session_family-Keeps (r ∷ rs) = search keeps_rules

  store_session-Keeps : (u : User) (jti f : Text) → Keeps P (store_session out auth u jti f)
  unfolding store_session
  store_session-Keeps u jti f =
      search (keeps_rules, insert_token-Keeps, generate_token_pair-Keeps) depth 10

  pub issue_session-Keeps : (u : User) (f : Text) → Keeps P (issue_session out auth u f)
  unfolding issue_session
  issue_session-Keeps u f =
      search (keeps_rules, or_no_session-Keeps, session_family-Keeps, store_session-Keeps) depth 10

  pub require_password-Keeps : (r : Result Error (Unit {0})) → Keeps P (require_password r)
  require_password-Keeps (ok a) = search keeps_rules
  require_password-Keeps (err e) = search keeps_rules

module _ (out : Outside) (auth : Auth) where
  abbrev AllAccountsIn : Db → Type 0
  AllAccountsIn = OfUsers (AllAccounts out)

  insert_user-AllAccounts :
      (u : User) (db : Db)
      → IsAccount out u
      → AllAccountsIn db
      → AllAccountsIn (insert_user out u db).1
  unfolding insert_user
  insert_user-AllAccounts u db k h =
      elim (Bool-cases
        (any (λ v. same_username out u.username v || same_email out u.email v) db.users)) [
          | inl taken ↦ rw taken h
          | inr free ↦ rw free (
              AllAccounts-append out db.users (record u { id = db.next_id }) h
                (record { name = k.name; address = k.address }))
        ]

  create_user-AllAccounts :
      (name addr hash : Text)
      → IsUsername out.is_profane name
      → normalize out.wide addr ≡ addr
      → Keeps AllAccountsIn (create_user out (new_user name addr hash))
  unfolding create_user new_user
  create_user-AllAccounts name addr hash a b = Keeps-bind _ _ (Keeps-time_now out) λ now.
      Keeps-statement out _ λ db h.
        insert_user-AllAccounts
          (record (new_user name addr hash) { created_at = now; updated_at = now }) db
          (record { name = a; address = b }) h

  email-normalize :
      (raw addr : Text)
      → IsCaseTable out.wide
      → email out.wide out.parses_address raw ≡ ok addr
      → normalize out.wide addr ≡ addr
  email-normalize raw addr table e =
      normal (email_idem out.wide out.parses_address raw addr table e)
    where
      normal : email out.wide out.parses_address addr ≡ ok addr → normalize out.wide addr ≡ addr
      normal k = unfold email in ground (arith, k)

  pub register-AllAccountsIn :
      (decoded : Option RegisterPayload)
      → IsCaseTable out.wide
      → Keeps AllAccountsIn (register out auth decoded)
  unfolding register
  register-AllAccountsIn decoded table =
      Keeps-bind _ _ (or_respond-Keeps decoded bad_request) λ payload.
        or_invalid-then "username" (username out.wide out.is_profane payload.username) _
          λ name good.
            or_invalid-then "email" (email out.wide out.parses_address payload.email) _
              λ addr known.
                Keeps-bind _ _
                  (require_password-Keeps (OfUsers-IsOfContent (AllAccounts out)) out auth
                    (password payload.password))
                  λ _.
                    Keeps-bind _ _
                      (or_respond-Keeps (out.bcrypt_hash payload.password) could_not_create)
                      λ hashed.
                        Keeps-bind _ _
                          (Keeps-or_else _ create_failure (
                            create_user-AllAccounts name addr hashed
                              ((username-IsUsername out.wide out.is_profane payload.username name).0
                                good).1
                              (email-normalize payload.email addr table known)))
                          λ created.
                            Keeps-bind _ _
                              (Keeps-or_else _ (λ _. internal_error)
                                (issue_session-Keeps (OfUsers-IsOfContent (AllAccounts out)) out
                                  auth created []))
                              λ pairs. Keeps-pure (record {
                                status = 201;
                                cookie = set_to pairs.refresh_token;
                                body = tokens pairs;
                              })

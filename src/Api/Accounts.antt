-- ===== src/Api/Accounts.antt =====
-- The accounts of cmd/api/handlers.go: registration and login.
--
-- A payload is given as the decoder leaves it, none if it refuses the body. A failed comparison
-- with the dummy hash of an unknown address changes nothing and is left out.
pub mod Login
pub mod Stored
use toomanyhours_api.Prelude.{
  ℕ, ◌+◌, ◌-◌, ◌/◌, Bool, true, false, not, ◌&&◌, ◌||◌, Option, none, some, [], Result, ok, err,
  max, if◌then◌else◌, is_some,
}
use toomanyhours_api.Text.{Text, codes, same, to_lower}
use toomanyhours_api.Text.Trim.{trim_space}
use toomanyhours_api.Validate.{Error, username, email, password, bio, normalize}
use toomanyhours_api.Models.{User, ApiUser, UserAvatar}
use toomanyhours_api.Ratelimit.{Answer, allowed, refused, panics, check, record_failure, reset}
use toomanyhours_api.World.{
  World, Outside, DbError, record_not_found, no_rows, duplicated_key, unavailable,
}
use toomanyhours_api.World.Exec.{Exec, pure, raise, ◌>>=◌, ◌>>◌, attempt, or_else, time_now}
use toomanyhours_api.Repo.Users.{get_user_by_email, get_user_by_id, create_user, update_user}
use toomanyhours_api.Repo.RefreshTokens.{delete_expired_refresh_tokens}
use toomanyhours_api.Api.{
  Response, Handler, UserContext, current_user_id, or_respond, error_json, json, bad_request,
  invalid, user, tokens, too_many_attempts, kept, set_to, internal_error,
}
use toomanyhours_api.Api.Auth.{Auth, issue_session}
use toomanyhours_api.Api.Games.{or_invalid, require}
use toomanyhours_api.Api.Session.{recovered}

-- The payload of `Register`.
pub record RegisterPayload : Type 0 where
  pub username : Text
  pub email : Text
  pub password : Text

-- The payload of `Authenticate`.
pub record LoginPayload : Type 0 where
  pub email : Text
  pub password : Text

abbrev pub invalid_credentials : Response
invalid_credentials = error_json "Invalid credentials" 400

abbrev pub could_not_create : Response
could_not_create = error_json "Could not create account" 500

abbrev pub already_taken : Response
already_taken = error_json "username or email already taken" 409

abbrev pub create_failure : DbError → Response
create_failure duplicated_key = already_taken
create_failure record_not_found = could_not_create
create_failure no_rows = could_not_create
create_failure unavailable = could_not_create

-- The answer to a password that breaks its rule.
abbrev pub require_password : Result Error (Unit {0}) → Handler (Unit {0})
require_password (ok _) = pure tt
require_password (err _) = raise (error_json "password must be between 8 and 72 characters" 400)

-- `loginRateKey`.
unfoldable pub login_rate_key : (ℕ → ℕ) → Text → Text
login_rate_key wide email = to_lower wide (trim_space email)

-- A second, in nanoseconds.
abbrev pub second : ℕ
second = 1000000000

-- The wait in whole seconds, rounded up, and one at least.
unfoldable pub retry_seconds : ℕ → ℕ
retry_seconds wait = max ((wait + second - 1) / second) 1

-- The longer of the waits of two limiters, none if both allow the attempt.
unfoldable pub longer_wait : Answer → Answer → Option ℕ
longer_wait allowed allowed = none
longer_wait allowed (refused e) = some e
longer_wait allowed panics = none
longer_wait (refused d) allowed = some d
longer_wait (refused d) (refused e) = some (max d e)
longer_wait (refused d) panics = some d
longer_wait panics b = none

-- A check that panics ends the request.
abbrev pub or_recover : Answer → Handler Answer
or_recover allowed = pure allowed
or_recover (refused d) = pure (refused d)
or_recover panics = raise recovered

-- The row of a new account.
unfoldable pub new_user : Text → Text → Text → User
new_user username email hash = record {
  id = 0;
  username = username;
  email = email;
  password = hash;
  visibility = codes "public";
  bio = none;
  created_at = 0;
  updated_at = 0;
}

module _ (out : Outside) (auth : Auth) where
  -- The two limiters' checks of `loginBlocked`.
  unfoldable pub check_ip : Text → Handler Answer
  check_ip key w =
      let (a, l) = check key (out.clock w.effects) w.login_ip_limiter in
      or_recover a (record w { login_ip_limiter = l; effects = w.effects + 1 })

  unfoldable pub check_email : Text → Handler Answer
  check_email key w =
      let (a, l) = check key (out.clock w.effects) w.login_email_limiter in
      or_recover a (record w { login_email_limiter = l; effects = w.effects + 1 })

  -- `loginBlocked`.
  unfoldable pub login_blocked : Text → Text → Handler (Option ℕ)
  unfolding check_ip check_email
  login_blocked ip_key email_key = do
    ip ← check_ip ip_key
    email ← check_email email_key
    pure (longer_wait ip email)

  -- `recordLoginFailure`.
  unfoldable pub record_login_failure : Text → Text → Handler (Unit {0})
  record_login_failure ip_key email_key = do
    now ← time_now out
    now' ← time_now out
    λ w. (
      ok tt,
      record w {
        login_ip_limiter = record_failure ip_key now w.login_ip_limiter;
        login_email_limiter = record_failure email_key now' w.login_email_limiter;
      },
    )

  unfoldable pub reset_login : Text → Text → Handler (Unit {0})
  reset_login ip_key email_key w = (
    ok tt,
    record w {
      login_ip_limiter = reset ip_key w.login_ip_limiter;
      login_email_limiter = reset email_key w.login_email_limiter;
    },
  )

  -- A failed login: it is counted, and answered alike whatever was wrong.
  unfoldable pub refuse_login : Text → Text → Handler Response
  unfolding record_login_failure
  refuse_login ip_key email_key = do
    record_login_failure ip_key email_key
    raise invalid_credentials

  -- `Authenticate` once the credentials are right.
  unfoldable pub log_in : User → Text → Text → Handler Response
  unfolding reset_login
  log_in u ip_key email_key = do
    reset_login ip_key email_key
    attempt (delete_expired_refresh_tokens out)
    pairs ← or_else (issue_session out auth u []) (λ _. internal_error)
    pure (record { status = 202; cookie = set_to pairs.refresh_token; body = tokens pairs })

  -- `PasswordMatches`, where its error counts as a mismatch.
  unfoldable pub password_matches : User → Text → Bool
  password_matches u plain = elim (out.bcrypt_matches u.password plain) [
    | none ↦ false
    | some valid ↦ valid
  ]

  -- The account that the address names, and its password.
  unfoldable pub check_password : Result DbError User → Text → Text → Text → Handler Response
  unfolding refuse_login log_in password_matches
  check_password (err e) plain ip_key email_key = refuse_login ip_key email_key
  check_password (ok u) plain ip_key email_key =
      if password_matches u plain then log_in u ip_key email_key else refuse_login ip_key email_key

  -- `Authenticate` of an attempt that is not blocked: the address is looked up as it was sent.
  unfoldable pub attempt_login : LoginPayload → Text → Option ℕ → Handler Response
  unfolding check_password
  attempt_login payload ip_key (some wait) = raise (too_many_attempts (retry_seconds wait))
  attempt_login payload ip_key none = do
    found ← attempt (get_user_by_email out payload.email)
    check_password found payload.password ip_key (login_rate_key out.wide payload.email)

  -- `Authenticate`, of a request from an address.
  unfoldable pub authenticate : Text → Option LoginPayload → Handler Response
  unfolding login_blocked attempt_login
  authenticate client_ip decoded = do
    payload ← or_respond decoded bad_request
    blocked ← login_blocked client_ip (login_rate_key out.wide payload.email)
    attempt_login payload client_ip blocked

  -- `Register`.
  unfoldable pub register : Option RegisterPayload → Handler Response
  register decoded = do
    payload ← or_respond decoded bad_request
    name ← or_invalid "username" (username out.wide out.is_profane payload.username)
    addr ← or_invalid "email" (email out.wide out.parses_address payload.email)
    require_password (password payload.password)
    hashed ← or_respond (out.bcrypt_hash payload.password) could_not_create
    created ← or_else (create_user out (new_user name addr hashed)) create_failure
    pairs ← or_else (issue_session out auth created []) (λ _. internal_error)
    pure (record { status = 201; cookie = set_to pairs.refresh_token; body = tokens pairs })

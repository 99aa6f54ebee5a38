-- ===== src/Api/Usernames.antt =====
-- cmd/api/username_handlers.go: whether a username is free, before it is registered.
pub mod Free
use toomanyhours_api.Prelude.{
  ℕ, ◌+◌, Bool, true, false, Option, none, some, String, Result, ok, err,
}
use toomanyhours_api.Text.{Text}
use toomanyhours_api.Validate.{
  Error, wrong_length, invalid_format, reserved, profane, out_of_range, username,
}
use toomanyhours_api.Models.{User}
use toomanyhours_api.Ratelimit.{Answer, allowed, refused, panics, check, record_attempt}
use toomanyhours_api.World.{
  World, Outside, DbError, record_not_found, no_rows, duplicated_key, unavailable,
}
use toomanyhours_api.World.Exec.{pure, raise, ◌>>=◌, attempt, time_now, ◌>>◌}
use toomanyhours_api.Repo.Users.{get_user_by_username}
use toomanyhours_api.Api.{Response, Handler, error_json, json, availability, too_many_checks}
use toomanyhours_api.Api.Accounts.{retry_seconds, or_recover}

-- The answers about a name: `reasonReserved`, `reasonNotAllowed`, `reasonInvalid`, `reasonTaken`.
abbrev pub is_available : Response
is_available = json 200 (availability true "")

abbrev pub unavailable_for : String → Response
unavailable_for reason = json 200 (availability false reason)

-- The answer about a name that its rule refuses.
abbrev pub rejected_name : Error → Response
rejected_name reserved = unavailable_for "reserved"
rejected_name profane = unavailable_for "not_allowed"
rejected_name wrong_length = unavailable_for "invalid"
rejected_name invalid_format = unavailable_for "invalid"
rejected_name out_of_range = unavailable_for "invalid"

-- The answer about a name that was looked up.
abbrev pub lookup_answer : Result DbError User → Response
lookup_answer (ok u) = unavailable_for "taken"
lookup_answer (err no_rows) = is_available
lookup_answer (err record_not_found) = error_json "Could not check that name" 500
lookup_answer (err duplicated_key) = error_json "Could not check that name" 500
lookup_answer (err unavailable) = error_json "Could not check that name" 500

module _ (out : Outside) where
  -- The check of `usernameCheckBlocked`.
  unfoldable pub check_checks : Text → Handler Answer
  check_checks ip w =
      let (a, l) = check ip (out.clock w.effects) w.username_check_limiter in
      or_recover a (record w { username_check_limiter = l; effects = w.effects + 1 })

  -- The attempt that `usernameCheckBlocked` records.
  unfoldable pub record_check : Text → Handler (Unit {0})
  record_check ip = do
    now ← time_now out
    λ w. (
      ok tt,
      record w { username_check_limiter = record_attempt ip now w.username_check_limiter },
    )

  -- `usernameCheckBlocked`: the wait, if the address has spent its budget.
  unfoldable pub unless_refused : Text → Answer → Handler (Option ℕ)
  unless_refused ip (refused wait) = pure (some wait)
  unless_refused ip allowed = do record_check ip; pure none
  unless_refused ip panics = pure none

  unfoldable pub username_check_blocked : Text → Handler (Option ℕ)
  username_check_blocked ip = check_checks ip >>= unless_refused ip

  -- `CheckUsername`, of a name that its rule accepts or refuses.
  unfoldable pub look_up_name : Result Error Text → Handler Response
  look_up_name (err e) = pure (rejected_name e)
  look_up_name (ok name) = do
    found ← attempt (get_user_by_username out name)
    pure (lookup_answer found)

  -- `CheckUsername`, of a request that is not blocked.
  unfoldable pub answer_check : Text → Option ℕ → Handler Response
  answer_check param (some wait) = raise (json 429 (too_many_checks (retry_seconds wait)))
  answer_check param none = look_up_name (username out.wide out.is_profane param)

  -- `CheckUsername`.
  unfoldable pub check_username : Text → Text → Handler Response
  check_username client_ip param = username_check_blocked client_ip >>= answer_check param

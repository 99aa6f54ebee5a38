-- ===== src/Api/Accounts/Login.antt =====
-- What a login answers: to an attempt that is blocked, and to an address in another spelling.
use toomanyhours_api.Prelude.{
  ℕ, ◌+◌, ◌≤◌, ◌≡◌, ◌≢◌, ◌⊎◌, refl, inl, inr, Option, none, some, List, [], ◌∷◌, Result, ok, err,
  arith, find, All, length, max, Bool-cases,
}
use mathlib.Core.Path.{subst}
use toomanyhours_api.Text.{Text, same, same→eq}
use toomanyhours_api.Validate.{normalize}
use toomanyhours_api.Models.{User}
use toomanyhours_api.Ratelimit.{Limiter, allowed, refused, check}
use toomanyhours_api.Ratelimit.Invariant.{IsValid}
use toomanyhours_api.Ratelimit.Spec.{recent}
use toomanyhours_api.Ratelimit.Verdict.{check-verdict}
use toomanyhours_api.World.{World, Outside, DbError, no_rows, unavailable}
use toomanyhours_api.World.Exec.{time_now, statement}
use toomanyhours_api.Repo.Users.{get_user_by_email, first_user}
use toomanyhours_api.Api.{Response, too_many_attempts}
use toomanyhours_api.Api.Auth.{Auth}
use toomanyhours_api.Api.Accounts.{
  LoginPayload, authenticate, attempt_login, login_blocked, check_ip, check_email, longer_wait,
  retry_seconds, login_rate_key, check_password, refuse_login, record_login_failure,
  invalid_credentials,
}

-- A limiter that a check does not panic on: it is valid, and allows one attempt at least.
pub record IsReady (now : ℕ) (l : Limiter) : Type 0 where
  pub valid : IsValid now l
  pub one : 1 ≤ l.max_failures

check_cases :
    (key : Text) (now : ℕ) (l : Limiter)
    → IsReady now l
    → ((check key now l).0 ≡ allowed) ⊎ ((d : ℕ) × ((check key now l).0 ≡ refused d))
check_cases key now l r = elim (check-verdict key now l r.valid r.one) [
  | inl (e, _) ↦ inl e
  | inr (d, e, _, _, _) ↦ inr (d, e)
]

check_full :
    (key : Text) (now : ℕ) (l : Limiter)
    → IsReady now l
    → length (recent l now key) ≡ l.max_failures
    → (d : ℕ) × ((check key now l).0 ≡ refused d)
check_full key now l r full = elim (check-verdict key now l r.valid r.one) [
  | inl (_, room) ↦ absurd (omega (arith, full))
  | inr (d, e, _, _, _) ↦ (d, e)
]

retry_seconds_pos : (wait : ℕ) → 1 ≤ retry_seconds wait
unfolding retry_seconds
retry_seconds_pos wait = omega arith

-- The answer to a blocked attempt.
abbrev pub IsBlockedAnswer : {A : Type 0} → Result Response A → Type 0
IsBlockedAnswer r = (s : ℕ) × (r ≡ err (too_many_attempts s)) × (1 ≤ s)

module _ (out : Outside) (auth : Auth) where
  -- While an address has as many failures in the window as its limiter allows, every login with
  -- it, the right password or not, is answered 429 with a wait of a second at least. The two
  -- readings of the clock that the limiters make are its only effects, so no statement of the
  -- database is run, and the tables and the state of the client of IGDB are as before. Both limiters
  -- are valid and allow one failure at least.
  pub authenticate_blocked :
      (ip : Text) (payload : LoginPayload) (w : World)
      → IsReady (out.clock w.effects) w.login_ip_limiter
      → IsReady (out.clock (w.effects + 1)) w.login_email_limiter
      → length (
          recent w.login_email_limiter
            (out.clock (w.effects + 1))
            (login_rate_key out.wide payload.email))
        ≡ w.login_email_limiter.max_failures
      → IsBlockedAnswer (authenticate out auth ip (some payload) w).0
        × ((authenticate out auth ip (some payload) w).1.effects ≡ w.effects + 2)
        × ((authenticate out auth ip (some payload) w).1.db ≡ w.db)
        × ((authenticate out auth ip (some payload) w).1.igdb ≡ w.igdb)
  unfolding authenticate login_blocked check_ip check_email longer_wait attempt_login
  authenticate_blocked ip payload w ready_ip ready_email full =
      let key = login_rate_key out.wide payload.email in
      let (e, refusal) =
        check_full key (out.clock (w.effects + 1)) w.login_email_limiter ready_email full in
      elim (check_cases ip (out.clock w.effects) w.login_ip_limiter ready_ip) [
        | inl free ↦ (
          (retry_seconds e, ground (arith, free, refusal), retry_seconds_pos e),
          ground (arith, free, refusal),
          ground (arith, free, refusal),
          ground (arith, free, refusal),
        )
        | inr (d, held) ↦ (
          (retry_seconds (max d e), ground (arith, held, refusal), retry_seconds_pos (max d e)),
          ground (arith, held, refusal),
          ground (arith, held, refusal),
          ground (arith, held, refusal),
        )
      ]

  find-none :
      (addr : Text) (us : List User)
      → All (λ u. normalize out.wide u.email ≡ u.email) us
      → normalize out.wide addr ≢ addr
      → find (λ u. same u.email addr) us ≡ none
  unfolding find
  find-none addr [] h odd = refl
  find-none addr (u ∷ us) (e, h) odd = elim (Bool-cases (same u.email addr)) [
    | inl hit ↦
        let p : u.email ≡ addr = same→eq u.email addr hit in
        absurd (odd (subst (λ a. normalize out.wide a ≡ a) p e))
    | inr miss ↦ rw miss (find-none addr us h odd)
  ]

  get_user_by_email-err :
      (addr : Text) (w : World)
      → find (λ u. same u.email addr) w.db.users ≡ none
      → (e : DbError) × ((get_user_by_email out addr w).0 ≡ err e)
  unfolding get_user_by_email first_user statement
  get_user_by_email-err addr w h = elim (Bool-cases (out.outage w.effects)) [
    | inl down ↦ rw down (unavailable, refl)
    | inr up ↦ (no_rows, ground (arith, h))
  ]

  check_password-err :
      (e : DbError) (plain ip key : Text) (w : World)
      → (check_password out auth (err e) plain ip key w).0 ≡ err invalid_credentials
  unfolding check_password refuse_login record_login_failure time_now
  check_password-err e plain ip key w = refl

  attempt_login-err :
      (payload : LoginPayload) (ip : Text) (w : World)
      → find (λ u. same u.email payload.email) w.db.users ≡ none
      → (attempt_login out auth payload ip none w).0 ≡ err invalid_credentials
  unfolding attempt_login
  attempt_login-err payload ip w h =
      let (e, refusal) = get_user_by_email-err payload.email w h in
      rw refusal (
        check_password-err e payload.password ip (login_rate_key out.wide payload.email)
          (get_user_by_email out payload.email w).1)

  login_blocked-db : (ip key : Text) (w : World) → (login_blocked out auth ip key w).1.db ≡ w.db
  unfolding login_blocked check_ip check_email
  login_blocked-db ip key w = ground arith

  login_blocked-ok :
      (ip key : Text) (w : World)
      → IsReady (out.clock w.effects) w.login_ip_limiter
      → IsReady (out.clock (w.effects + 1)) w.login_email_limiter
      → (o : Option ℕ) × ((login_blocked out auth ip key w).0 ≡ ok o)
  unfolding login_blocked check_ip check_email longer_wait
  login_blocked-ok ip key w ready_ip ready_email =
      let a = check_cases ip (out.clock w.effects) w.login_ip_limiter ready_ip in
      let b = check_cases key (out.clock (w.effects + 1)) w.login_email_limiter ready_email in
      elim a [
        | inl free ↦ elim b [
          | inl free' ↦ (none, ground (arith, free, free'))
          | inr (e, held') ↦ (some e, ground (arith, free, held'))
        ]
        | inr (d, held) ↦ elim b [
          | inl free' ↦ (some d, ground (arith, held, free'))
          | inr (e, held') ↦ (some (max d e), ground (arith, held, held'))
        ]
      ]

  answer_of :
      (o : Option ℕ) (payload : LoginPayload) (ip : Text) (w : World)
      → find (λ u. same u.email payload.email) w.db.users ≡ none
      → IsBlockedAnswer (attempt_login out auth payload ip o w).0
        ⊎ ((attempt_login out auth payload ip o w).0 ≡ err invalid_credentials)
  answer_of none payload ip w h = inr (attempt_login-err payload ip w h)
  answer_of (some d) payload ip w h =
      inl (retry_seconds d, unfold attempt_login in refl, retry_seconds_pos d)

  authenticate-attempt_login :
      (ip : Text) (payload : LoginPayload) (o : Option ℕ) (w : World)
      → (login_blocked out auth ip (login_rate_key out.wide payload.email) w).0 ≡ ok o
      → (authenticate out auth ip (some payload) w).0
        ≡ (attempt_login out auth payload ip o
            (login_blocked out auth ip (login_rate_key out.wide payload.email) w).1).0
  unfolding authenticate
  authenticate-attempt_login ip payload o w e = ground (arith, e)

  -- If every stored address is in its normal form, trimmed and in lower case, then a login with
  -- an address in another spelling fails whatever its password: it is blocked, or answered as
  -- wrong credentials. Both limiters are valid and allow one failure at least.
  pub authenticate_other_spelling :
      (ip : Text) (payload : LoginPayload) (w : World)
      → IsReady (out.clock w.effects) w.login_ip_limiter
      → IsReady (out.clock (w.effects + 1)) w.login_email_limiter
      → All (λ u. normalize out.wide u.email ≡ u.email) w.db.users
      → normalize out.wide payload.email ≢ payload.email
      → IsBlockedAnswer (authenticate out auth ip (some payload) w).0
        ⊎ ((authenticate out auth ip (some payload) w).0 ≡ err invalid_credentials)
  authenticate_other_spelling ip payload w ready_ip ready_email normal odd =
      let key = login_rate_key out.wide payload.email in
      let (o, e) = login_blocked-ok ip key w ready_ip ready_email in
      let w' = (login_blocked out auth ip key w).1 in
      let absent : find (λ u. same u.email payload.email) w'.db.users ≡ none =
        rw (login_blocked-db ip key w) (find-none payload.email w.db.users normal odd) in
      rw (authenticate-attempt_login ip payload o w e) (answer_of o payload ip w' absent)

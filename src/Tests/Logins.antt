-- ===== src/Tests/Logins.antt =====
-- The login of cmd/api/handlers.go at concrete inputs.
use toomanyhours_api.Prelude.{
  ℕ, ◌≡◌, ◌≢◌, ◌⊎◌, refl, some, [], ◌∷◌, err, arith, length, select, any, ◌+◌,
}
use toomanyhours_api.Text.{
  Text, codes, same, to_lower, to_lower_rune, is_space, IsCaseTable, byte_len,
}
use toomanyhours_api.Text.Trim.{trim_space, trim_right, trim_left, cons_trimmed}
use toomanyhours_api.Dict.{lookup}
use toomanyhours_api.Validate.{normalize, is_member, reserved_usernames}
use toomanyhours_api.Ratelimit.{Limiter, new}
use toomanyhours_api.Ratelimit.Invariant.{new-IsValid}
use toomanyhours_api.Ratelimit.Spec.{recent}
use toomanyhours_api.World.{World}
use toomanyhours_api.Api.Accounts.{
  LoginPayload, authenticate, login_rate_key, invalid_credentials, RegisterPayload,
}
use toomanyhours_api.Api.Accounts.Stored.{IsAccount}
use toomanyhours_api.Api.Accounts.Login.{
  IsReady, IsBlockedAnswer, authenticate_blocked, authenticate_other_spelling,
}
use toomanyhours_api.Tests.Sessions.{outside, auth, alive, gordon}

abbrev payload : LoginPayload
payload = record { email = codes "Gordon@example.com"; password = codes "hash" }

abbrev address : Text
address = codes "10.0.0.1"

new-IsReady : (now : ℕ) → IsReady now (new 5 100)
unfolding new
new-IsReady now = record { valid = new-IsValid 5 100 now; one = ground arith }

-- A limiter of one failure, at which the address has arrived.
abbrev full : Limiter
full = record {
  max_failures = 1;
  window = 100;
  failures = (codes "gordon@example.com", 0 ∷ []) ∷ [];
  last_sweep = 0;
}

full-IsReady : IsReady 1 full
unfolding lookup
full-IsReady = record {
  valid = record { distinct = (refl, tt); slices = ground arith };
  one = ground arith;
}

abbrev besieged : World
besieged = record alive { login_email_limiter = full }

address_full : length (recent full 1 (login_rate_key outside.wide payload.email)) ≡ 1
unfolding recent lookup same select login_rate_key to_lower to_lower_rune trim_space trim_right
    trim_left cons_trimmed is_space
address_full = refl

authenticate_blocked_example :
    IsBlockedAnswer (authenticate outside auth address (some payload) besieged).0
    × ((authenticate outside auth address (some payload) besieged).1.effects ≡ besieged.effects + 2)
    × ((authenticate outside auth address (some payload) besieged).1.db ≡ besieged.db)
    × ((authenticate outside auth address (some payload) besieged).1.igdb ≡ besieged.igdb)
authenticate_blocked_example =
    authenticate_blocked outside auth address payload besieged (new-IsReady 0) full-IsReady
      address_full

normal_gordon : normalize outside.wide (codes "gordon@example.com") ≡ codes "gordon@example.com"
unfolding normalize to_lower to_lower_rune trim_space trim_right trim_left cons_trimmed is_space
normal_gordon = refl

odd : normalize outside.wide payload.email ≢ payload.email
unfolding normalize to_lower to_lower_rune trim_space trim_right trim_left cons_trimmed is_space
odd e = ground arith

authenticate_other_spelling_example :
    IsBlockedAnswer (authenticate outside auth address (some payload) alive).0
    ⊎ ((authenticate outside auth address (some payload) alive).0 ≡ err invalid_credentials)
authenticate_other_spelling_example =
    authenticate_other_spelling outside auth address payload alive (new-IsReady 0) (new-IsReady 1)
      (normal_gordon, tt) odd

pub gordon-IsAccount : IsAccount outside gordon
unfolding byte_len is_member any same reserved_usernames normalize to_lower to_lower_rune trim_space
    trim_right trim_left cons_trimmed is_space
gordon-IsAccount = record {
  name = record {
    long_enough = ground arith;
    short_enough = ground arith;
    charset = ground arith;
    unreserved = refl;
    decent = refl;
  };
  address = refl;
}

pub same-IsCaseTable : IsCaseTable outside.wide
unfolding to_lower_rune
same-IsCaseTable = record { lower_stable = λ r h. ground arith; lower_spaces = λ r h. refl }

abbrev pub newcomer : RegisterPayload
newcomer = record {
  username = codes "Alyx";
  email = codes "Alyx@example.com";
  password = codes "crowbar42";
}

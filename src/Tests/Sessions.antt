-- ===== src/Tests/Sessions.antt =====
-- The sessions of cmd/api at concrete inputs.
use toomanyhours_api.Refresh.{accept}
use toomanyhours_api.Api.Session.Race.{act-after_logout}
use toomanyhours_api.Prelude.Int.{pos}
use toomanyhours_api.Prelude.{
  ℕ, ◌≡◌, ◌≢◌, refl, true, false, Option, some, none, List, [], ◌∷◌, err, arith, find, any, ltb,
  if◌then◌else◌, update, ◌==◌, ◌++◌, ok,
}
use toomanyhours_api.Text.{Text, codes, same}
use toomanyhours_api.Models.{User, RefreshToken}
use toomanyhours_api.World.{World, Outside, Claims}
use toomanyhours_api.World.Exec.{time_now, statement}
use toomanyhours_api.Ratelimit.{new}
use toomanyhours_api.Repo.RefreshTokens.{has_jti, is_live, get_refresh_token, revoke_refresh_family}
use toomanyhours_api.Repo.RefreshTokens.Laws.{Extends}
use toomanyhours_api.Repo.RefreshTokens.Family.{IsOver, has_active}
use toomanyhours_api.Api.Auth.{Auth}
use toomanyhours_api.Api.Session.{
  refresh_claimed, logout, end_refresh_session, end_cookie, end_session, end_family, act,
  refresh_token, require_id, row_or_none,
}
use toomanyhours_api.Api.Session.Rows.{
  Request, refreshes, logs_out, serve_all, serve_all-Extends, serve,
}
use toomanyhours_api.Api.Session.Over.{IsFresh}
use toomanyhours_api.Api.Session.Issue.{IsUp, IsSuccessor, IsPairFor}
use toomanyhours_api.Api.Session.Rotation.{refreshed, consumed_in, refresh_claimed-rotates}
use toomanyhours_api.Api.{TokenPairs}
use toomanyhours_api.Api.Session.Logout.{
  serve_all-IsOver, IsRefused, refresh_claimed-IsRefused, logout_final, replay_ends, after_logout,
}

-- A token is its row's identifier here, and names it until the time 900.
abbrev claims_of : Text → Claims
claims_of token = record {
  user_id = 0;
  id = token;
  subject = codes "7";
  issuer = [];
  audience = [];
  issued_at = 0;
  expires_at = 900;
}

-- The database answers, the clock gives the number of the effect, and the source of random
-- identifiers repeats itself.
abbrev pub outside : Outside
outside = record {
  outage = λ n. false;
  clock = λ n. n;
  random = λ n. some (codes "drawn");
  wide = λ r. r;
  sql_lower = λ t. t;
  is_profane = λ t. false;
  parses_address = λ t. true;
  bcrypt_hash = λ p. some p;
  bcrypt_matches = λ h p. some (same h p);
  decimal = λ n. codes "7";
  parse_date = λ t. none;
  sign = λ secret c. some (c.id);
  parse = λ secret at token. if ltb at 900 then some (claims_of token) else none;
  says_expired = λ secret at token. false;
  http = λ n r. none;
  cancelled = λ n. false;
  decode_token = λ b. none;
  decode_games = λ b. none;
  format_date = λ t. codes "1998-11-19";
  decode_config = λ b. none;
  decode_image = λ b. none;
  draw_and_encode = λ i r side quality. none;
  sha256 = λ b. b;
}

abbrev pub auth : Auth
auth = record {
  issuer = codes "issuer";
  audience = codes "audience";
  secret = codes "secret";
  token_expiry = 15;
  refresh_token_expiry = 100;
}

abbrev pub gordon : User
gordon = record {
  id = 7;
  username = codes "gordon_f";
  email = codes "gordon@example.com";
  password = codes "hash";
  visibility = codes "public";
  bio = none;
  created_at = 0;
  updated_at = 0;
}

-- The row of a token of the family "f".
abbrev token_row : ℕ → Text → Option ℕ → RefreshToken
token_row id jti revoked_at = record {
  id = id;
  jti = jti;
  family_id = codes "f";
  user_id = 7;
  expires_at = 900;
  revoked_at = revoked_at;
  created_at = 0;
}

abbrev consumed : RefreshToken
consumed = token_row 1 (codes "a") (some 0)

abbrev current : RefreshToken
current = token_row 2 (codes "b") none

abbrev world_of : List RefreshToken → World
world_of rows = record {
  db = record {
    users = gordon ∷ [];
    tokens = rows;
    entries = [];
    games = [];
    tags = [];
    games_tags = [];
    avatars = [];
    next_id = 10;
  };
  login_ip_limiter = new 5 100;
  login_email_limiter = new 5 100;
  username_check_limiter = new 5 100;
  igdb = record { token = []; expires_at = pos 0; next = 0; sent = [] };
  effects = 0;
}

-- A session that is alive: its first token has been rotated into its second.
abbrev pub alive : World
alive = world_of (consumed ∷ current ∷ [])

-- A session that has ended.
abbrev ended : World
ended = world_of (consumed ∷ [])

abbrev requests : List Request
requests = refreshes (some (codes "b")) ∷ logs_out none ∷ refreshes (some (codes "a")) ∷ []

pub up : (n : ℕ) → outside.outage n ≡ false
up n = refl

outside-IsFresh : IsFresh outside (codes "f")
unfolding same
outside-IsFresh n x e = ground arith

serve_all-Extends_example :
    Extends (consumed ∷ current ∷ []) (serve_all outside auth 1 requests alive).db.tokens
serve_all-Extends_example = serve_all-Extends outside auth 1 requests alive

ended-IsOver : IsOver (codes "f") ended.db.tokens
unfolding has_active any same
ended-IsOver = refl

serve_all-IsOver_example : IsOver (codes "f") (serve_all outside auth 1 requests ended).db.tokens
serve_all-IsOver_example =
    serve_all-IsOver (codes "f") outside auth 1 requests ended outside-IsFresh ended-IsOver

ended-found : find (has_jti (codes "a")) ended.db.tokens ≡ some consumed
unfolding find same
ended-found = refl

refresh_claimed-IsRefused_example : IsRefused (refresh_claimed outside auth 1 (codes "a") ended).0
refresh_claimed-IsRefused_example =
    refresh_claimed-IsRefused outside auth 1 (codes "a") consumed ended ended-found ended-IsOver

alive-found : find (has_jti (codes "b")) alive.db.tokens ≡ some current
unfolding find same
alive-found = refl

replayed-found : find (has_jti (codes "a")) alive.db.tokens ≡ some consumed
unfolding find same
replayed-found = refl

alive-is_live : any (is_live (codes "f") 1) alive.db.tokens ≡ true
unfolding any same
alive-is_live = refl

replay_ends_example :
    let (r, w') = refresh_claimed outside auth 1 (codes "a") alive in
    (r ≡ err end_refresh_session) × IsOver (codes "f") w'.db.tokens
replay_ends_example =
    replay_ends outside auth 1 (codes "a") consumed 0 alive refl refl refl (ground arith)
      (ground arith) replayed-found refl alive-is_live

named : codes "b" ≢ []
named e = ground arith

-- The database fails at every statement after the logout.
abbrev failing : Outside
failing = record outside { outage = λ n. ltb 3 n }

failing-IsFresh : IsFresh failing (codes "f")
unfolding same
failing-IsFresh n x e = ground arith

-- The row of the current token after the logout, which reads the clock at its third effect.
abbrev logged_out_row : RefreshToken
logged_out_row = token_row 2 (codes "b") (some 2)

logged_out-found :
    find (has_jti (codes "b")) (after_logout failing auth 1 (codes "b") alive requests).db.tokens
    ≡ some logged_out_row
unfolding serve_all serve refresh_token refresh_claimed require_id row_or_none logout end_cookie
    end_session end_family get_refresh_token revoke_refresh_family time_now statement find update
    same
logged_out-found = refl

logout_final_example :
    IsRefused
      (refresh_claimed failing auth 1
        (codes "b")
        (after_logout failing auth 1 (codes "b") alive requests)).0
logout_final_example =
    logout_final failing auth 1 (codes "b") (claims_of (codes "b")) current alive requests
      (record { reads = refl; writes = refl }) failing-IsFresh refl named alive-found (codes "b")
      logged_out_row logged_out-found refl

outside-IsUp : IsUp outside auth
outside-IsUp = record { up = up; signs = λ c. (c.id, refl) }

owner-found : find (λ v. v.id == 7) alive.db.users ≡ some gordon
unfolding find
owner-found = refl

drawn-unused : any (has_jti (codes "drawn")) alive.db.tokens ≡ false
unfolding any same
drawn-unused = refl

family-named : codes "f" ≢ []
family-named e = ground arith

refresh_claimed-rotates_example :
    (pairs : TokenPairs) × (t : RefreshToken) × ((refresh_claimed outside auth 1
        (codes "b")
        alive).0
      ≡ ok (refreshed outside auth 1 pairs))
    × ((refresh_claimed outside auth 1 (codes "b") alive).1.db.tokens
        ≡ consumed_in outside auth 1 (codes "b") 3 alive.db.tokens ++ t ∷ [])
    × IsSuccessor (codes "drawn") (codes "f") 7 106 t
    × IsPairFor outside auth (codes "drawn") 7 9 pairs
refresh_claimed-rotates_example =
    refresh_claimed-rotates outside auth 1 (codes "b") (codes "drawn") current gordon alive
      outside-IsUp alive-found refl (ground arith) family-named owner-found refl drawn-unused

owner-stays :
    find (λ v. v.id == 7) (logout outside auth 1 (some (codes "b")) alive).1.db.users ≡ some gordon
unfolding logout end_cookie end_session end_family get_refresh_token revoke_refresh_family time_now
    statement find update same
owner-stays = refl

drawn-stays :
    any (has_jti (codes "drawn")) (logout outside auth 1 (some (codes "b")) alive).1.db.tokens
    ≡ false
unfolding logout end_cookie end_session end_family get_refresh_token revoke_refresh_family time_now
    statement find update any same
drawn-stays = refl

act-after_logout_example :
    let v = (logout outside auth 1 (some (codes "b")) alive).1 in
    IsOver (codes "f") v.db.tokens
    × (has_active (codes "f") (act outside auth 1 (some current) accept v).1.db.tokens ≡ true)
act-after_logout_example =
    act-after_logout outside auth 1 (codes "b") (codes "drawn") (claims_of (codes "b")) current
      gordon alive outside-IsUp refl named alive-found family-named (owner-stays, refl, drawn-stays)

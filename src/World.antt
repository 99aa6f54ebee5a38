-- ===== src/World.antt =====
-- What the handlers of cmd/api run on: the tables of the database, the limiters, and the outside.
--
-- The outside is a record of streams. The n-th effect of a run has its own clock reading, its own
-- random identifier, and its own answer to whether the database fails: an outage stands for every
-- error that is not named, a lost connection, a deadline or a violated foreign key. A statement
-- that fails changes nothing, which is what Postgres documents of a single statement.
pub mod Exec
pub mod Keeps
pub mod Yields
pub mod Runs
pub mod Content
use toomanyhours_api.Prelude.{ℕ, suc, Bool, Option, List, Result, ok, err, if◌then◌else◌}
use toomanyhours_api.Text.{Text}
use toomanyhours_api.Models.{User, RefreshToken, UserGame, UserAvatar}
use toomanyhours_api.Models.Catalog.{Game, Tag}
use toomanyhours_api.Ratelimit.{Limiter}
use toomanyhours_api.Prelude.Int.{ℤ}
use toomanyhours_api.Igdb.Wire.{HttpRequest, HttpReply, TokenPayload, ApiGame, ClientState}
use toomanyhours_api.Images.Shapes.{Image, Rectangle}

-- The tables. `next_id` is the next value of the identity columns.
pub record Db : Type 0 where
  pub users : List User
  pub tokens : List RefreshToken
  pub entries : List UserGame
  pub games : List Game
  pub tags : List Tag
  pub games_tags : List (ℕ × ℕ)
  pub avatars : List UserAvatar
  pub next_id : ℕ

-- The part of `application` that changes, and the number of effects so far.
pub record World : Type 0 where
  pub db : Db
  pub login_ip_limiter : Limiter
  pub login_email_limiter : Limiter
  pub username_check_limiter : Limiter
  pub igdb : ClientState
  pub effects : ℕ

-- `Claims` of cmd/api/auth.go: those that the program reads or writes. A claim that a token does
-- not carry is the zero value.
pub record Claims : Type 0 where
  pub user_id : ℕ
  pub id : Text
  pub subject : Text
  pub issuer : Text
  pub audience : List Text
  pub issued_at : ℕ
  pub expires_at : ℕ

-- What the program calls and does not implement.
pub record Outside : Type 0 where
  -- whether the n-th effect, a statement of the database, fails
  pub outage : ℕ → Bool
  -- the reading of the clock at the n-th effect
  pub clock : ℕ → ℕ
  -- the identifier that the n-th effect reads from the random source, if that works
  pub random : ℕ → Option Text
  -- Unicode's case table past ASCII
  pub wide : ℕ → ℕ
  -- `LOWER` of the database
  pub sql_lower : Text → Text
  -- `goaway.IsProfane`
  pub is_profane : Text → Bool
  -- whether `mail.ParseAddress` succeeds
  pub parses_address : Text → Bool
  -- `bcrypt.GenerateFromPassword` and `bcrypt.CompareHashAndPassword`, none for its other errors
  pub bcrypt_hash : Text → Option Text
  pub bcrypt_matches : Text → Text → Option Bool
  -- `fmt.Sprintf("%d", id)`
  pub decimal : ℕ → Text
  -- `time.Parse` of a calendar date
  pub parse_date : Text → Option ℕ
  -- signing claims under a secret, and reading them back from a token that is valid at a time
  pub sign : Text → Claims → Option Text
  pub parse : Text → ℕ → Text → Option Claims
  -- whether a token that is not valid has an error that contains "Expired"
  pub says_expired : Text → ℕ → Text → Bool
  -- the answer to the request that is the n-th effect, none if there is none
  pub http : ℕ → HttpRequest → Option HttpReply
  -- whether the context of the request is done at the n-th effect
  pub cancelled : ℕ → Bool
  -- `json.Unmarshal` of a token's payload, and of the games of an answer
  pub decode_token : Text → Option TokenPayload
  pub decode_games : Text → Option (List ApiGame)
  -- the calendar date, in UTC, of a Unix time
  pub format_date : ℤ → Text
  -- `image.DecodeConfig`: the declared width and height
  pub decode_config : List ℕ → Option (ℤ × ℤ)
  -- `image.Decode`: the bounds and the colours of the points
  pub decode_image : List ℕ → Option Image
  -- drawing a rectangle of an image into a square of a side, encoded as JPEG of a quality
  pub draw_and_encode : Image → Rectangle → ℕ → ℕ → Option (List ℕ)
  -- `sha256.Sum256`
  pub sha256 : List ℕ → List ℕ

-- The errors that the callers tell apart: `gorm.ErrRecordNotFound`, `sql.ErrNoRows`,
-- `gorm.ErrDuplicatedKey`, and all others.
pub data DbError : Type 0 where
  record_not_found no_rows duplicated_key unavailable : DbError

-- ===== src/Api.antt =====
-- cmd/api: the answers of the handlers, and what a request is.
pub mod Auth
pub mod Session
pub mod Import
pub mod Games
pub mod Accounts
pub mod Me
pub mod Profiles
pub mod Usernames
pub mod Catalog
pub mod Access
pub mod Routes
use toomanyhours_api.Prelude.{ℕ, Option, none, some, Bool, List, String, Result}
use toomanyhours_api.Text.{Text}
use toomanyhours_api.Models.{ApiUser, Entry}
use toomanyhours_api.Models.Catalog.{IgdbGame}
use toomanyhours_api.Validate.{Error}
use toomanyhours_api.World.{World}
use toomanyhours_api.World.Exec.{Exec, pure, raise}

-- `TokenPairs`.
pub record TokenPairs : Type 0 where
  pub token : Text
  pub refresh_token : Text

-- `publicProfile`: what a stranger sees.
pub record PublicProfile : Type 0 where
  pub username : Text
  pub bio : Option Text
  pub avatar_hash : Option Text
  pub created_at : ℕ
  pub entries : List Entry

-- The payload of an answer. An error's message is a constant of the program.
pub data Body : Type 0 where
  empty : Body
  message : String → Body
  tokens : TokenPairs → Body
  user : ApiUser → Body
  entry : Entry → Body
  -- an error of the decoder, and an error of a rule behind the name of its field
  bad_payload : Body
  -- the text of an error of the outside
  passed_on : Body
  -- "Too many login attempts. Try again in %d seconds.", with the header Retry-After
  too_many : ℕ → Body
  breaks_rule : String → Error → Body
  entries : List Entry → Body
  -- whether the database answers, and whether the client of IGDB is configured
  health_report : Bool → Bool → Body
  public_profile : PublicProfile → Body
  -- the bytes of a photo, its hash as ETag, and whether it may be cached for good
  photo : List ℕ → Text → Bool → Body
  -- `usernameAvailability`
  availability : Bool → String → Body
  -- "Too many checks. Try again in %d seconds.", with the header Retry-After
  too_many_checks : ℕ → Body
  igdb_games : List IgdbGame → Body

-- What an answer does to the refresh cookie: nothing, set it, or expire it.
pub data Cookie : Type 0 where
  kept expired : Cookie
  set_to : Text → Cookie

pub record Response : Type 0 where
  pub status : ℕ
  pub cookie : Cookie
  pub body : Body

-- A handler ends in a response, at an early return too.
abbrev pub Handler : Type 0 → Type 0
Handler = Exec Response

-- `errorJSON`.
abbrev pub error_json : String → ℕ → Response
error_json text status = record { status = status; cookie = kept; body = message text }

-- `c.JSON`.
abbrev pub json : ℕ → Body → Response
json status body = record { status = status; cookie = kept; body = body }

-- The answer to a payload that `ShouldBindJSON` refuses.
abbrev pub bad_request : Response
bad_request = record { status = 400; cookie = kept; body = bad_payload }

-- The answer to a value that a rule of internal/validate refuses.
abbrev pub invalid : String → Error → Response
invalid field e = record { status = 400; cookie = kept; body = breaks_rule field e }

abbrev pub internal_error : Response
internal_error = json 500 passed_on

-- The answer to an attempt that a limiter refuses.
abbrev pub too_many_attempts : ℕ → Response
too_many_attempts seconds = record { status = 429; cookie = kept; body = too_many seconds }

-- What `AuthRequired` has put in the context of a request under `userID`.
pub data UserContext : Type 0 where
  missing not_an_int : UserContext
  signed_in : ℕ → UserContext

-- `currentUserID`, `userID`, and the same lines at the head of other handlers.
unfoldable pub current_user_id : UserContext → Handler ℕ
current_user_id missing = raise (error_json "User context missing" 500)
current_user_id not_an_int = raise (error_json "Invalid user ID type" 500)
current_user_id (signed_in id) = pure id

-- A value that the request has, or the answer to its absence.
abbrev pub or_respond : {A : Type 0} → Option A → Response → Handler A
or_respond none r = raise r
or_respond (some a) r = pure a

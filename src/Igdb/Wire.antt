-- ===== src/Igdb/Wire.antt =====
-- internal/igdb/client.go: what goes over the wire, and the state of a client.
use toomanyhours_api.Prelude.{ℕ, Option, List}
use toomanyhours_api.Prelude.Int.{ℤ}
use toomanyhours_api.Text.{Text}

-- The two requests that the client builds: a form, and a query behind headers.
pub data HttpRequest : Type 0 where
  form_post : Text → List (Text × Text) → HttpRequest
  query_post : Text → List (Text × Text) → Text → HttpRequest

-- An answer: its status, and its body unless reading breaks off.
pub record HttpReply : Type 0 where
  pub status : ℕ
  pub body : Option Text

-- The payload of the token endpoint.
pub record TokenPayload : Type 0 where
  pub access_token : Text
  pub expires_in : ℤ

-- `apiTag`.
pub record ApiTag : Type 0 where
  pub id : ℕ
  pub name : Text

-- `apiGame`.
pub record ApiGame : Type 0 where
  pub id : ℕ
  pub name : Text
  pub cover : Option Text
  pub first_release_date : Option ℤ
  pub game_type : Option Text
  pub parent_game : Option ℕ
  pub summary : Option Text
  pub genres : List ApiTag
  pub themes : List ApiTag
  pub game_modes : List ApiTag

-- The part of `Client` and of its `throttle` that changes: the cached token, and the next free
-- slot. `sent` is a record of the requests that it has built, the newest first.
pub record ClientState : Type 0 where
  pub token : Text
  pub expires_at : ℤ
  pub next : ℕ
  pub sent : List HttpRequest

-- ===== src/Models.antt =====
-- internal/models: the rows of the database and what is sent to clients.
--
-- A date is the number of nanoseconds since Go's zero time. Row ids and user ids are numbers.
pub mod Catalog
use toomanyhours_api.Prelude.{ℕ, List, Option, Bool}
use toomanyhours_api.Text.{Text}
use toomanyhours_api.Validate.Rating.{Float64}
use Catalog.{Game}

-- `User`.
pub record User : Type 0 where
  pub id : ℕ
  pub username : Text
  pub email : Text
  pub password : Text
  pub visibility : Text
  pub bio : Option Text
  pub created_at : ℕ
  pub updated_at : ℕ

-- `APIUser`: a user with no password, and the avatar inline.
pub record ApiUser : Type 0 where
  pub id : ℕ
  pub username : Text
  pub email : Text
  pub visibility : Text
  pub bio : Option Text
  pub avatar : Option Text
  pub created_at : ℕ
  pub updated_at : ℕ

-- `RefreshToken`.
pub record RefreshToken : Type 0 where
  pub id : ℕ
  pub jti : Text
  pub family_id : Text
  pub user_id : ℕ
  pub expires_at : ℕ
  pub revoked_at : Option ℕ
  pub created_at : ℕ

-- `UserAvatar`.
pub record UserAvatar : Type 0 where
  pub user_id : ℕ
  pub bytes : List ℕ
  pub hash : Text
  pub updated_at : ℕ

-- `UserGame`, the columns of the row. The game comes with an entry that is read.
pub record UserGame : Type 0 where
  pub id : ℕ
  pub user_id : ℕ
  pub game_id : ℕ
  pub category : Text
  pub rating : Option Float64
  pub review : Option Text
  pub hours : Option ℕ
  pub created_at : ℕ
  pub updated_at : ℕ

-- `UserGame` as it is read, with its game preloaded.
pub record Entry : Type 0 where
  pub row : UserGame
  pub game : Option Game

-- `UserGameUpdate`.
pub record UserGameUpdate : Type 0 where
  pub category : Option Text
  pub set_rating : Bool
  pub rating : Option Float64
  pub set_review : Bool
  pub review : Option Text

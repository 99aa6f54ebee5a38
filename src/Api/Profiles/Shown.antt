-- ===== src/Api/Profiles/Shown.antt =====
-- What cmd/api/profile_handlers.go shows to strangers.
use toomanyhours_api.Prelude.{
  ℕ, ◌≡◌, refl, Bool, true, false, Option, some, ok, arith, find, List, sym, none, ◌⊎◌,
}
use toomanyhours_api.Text.{Text, same, same→eq}
use toomanyhours_api.Models.{User, Entry, UserAvatar}
use toomanyhours_api.World.{World, Db, Outside}
use toomanyhours_api.World.Exec.{◌>>◌}
use toomanyhours_api.World.Yields.{Yields, Yields-statement}
use toomanyhours_api.Repo.Users.{get_user_by_username, first_user}
use toomanyhours_api.Repo.UserGames.{list_entries}
use toomanyhours_api.Repo.Avatars.{is_avatar_of}
use toomanyhours_api.Api.{Response, Handler, json, public_profile}
use toomanyhours_api.Api.Games.{require}
use toomanyhours_api.Api.Me.{visibility_public}
use toomanyhours_api.Api.Profiles.{is_public, lookup_name, profile_of}

-- What follows a test may use that it holds.
pub require-Yields :
    {A : Type 0} {P : Db → Type 0} {Q : A → Type 0} (b : Bool) (r : Response) (k : Handler A)
    → (b ≡ true → Yields P Q k)
    → Yields P Q (require b r >> k)
require-Yields true r k h = record { at = λ w a p e. (h refl).at w a p e }
require-Yields false r k h = record { at = λ w a p e. ground arith }

pub public_visibility : (u : User) → is_public u ≡ true → u.visibility ≡ visibility_public
unfolding is_public
public_visibility u e = same→eq u.visibility visibility_public e

-- The hash that is shown with an account: of its own photo, or none if it has no photo or the
-- database failed.
abbrev pub IsHashOf : Outside → Db → ℕ → Option Text → Type 0
IsHashOf out db id shown =
    ((a : UserAvatar) × (find (is_avatar_of id) db.avatars ≡ some a) × (shown ≡ some (a.hash)))
    ⊎ ((find (is_avatar_of id) db.avatars ≡ none) × (shown ≡ none))
    ⊎ ((n : ℕ) × (out.outage n ≡ true) × (shown ≡ none))

-- A profile that is shown: of the account that has the name, which is public, with the entries of
-- its list and the hash of its photo.
pub record IsShown (out : Outside) (db : Db) (param : Text) (r : Response) : Type 0 where
  pub owner : User
  pub listed : List Entry
  pub avatar_hash : Option Text
  pub named :
      find (λ v. same (out.sql_lower v.username) (lookup_name out param)) db.users ≡ some owner
  pub is_open : owner.visibility ≡ visibility_public
  pub entries : (list_entries owner.id db).0 ≡ ok listed
  pub pictured : IsHashOf out db owner.id avatar_hash
  pub answer : r ≡ json 200 (public_profile (profile_of owner listed avatar_hash))

module _ (out : Outside) (db : Db) (param : Text) where
  abbrev pub Here : Db → Type 0
  Here d = d ≡ db

  abbrev pub IsNamed : User → Type 0
  IsNamed u = find (λ v. same (out.sql_lower v.username) (lookup_name out param)) db.users ≡ some u

  pub get_user_by_username-IsNamed :
      Yields Here IsNamed (get_user_by_username out (lookup_name out param))
  unfolding get_user_by_username
  get_user_by_username-IsNamed = Yields-statement out _ found
    where
      found :
          (d : Db) (u : User)
          → Here d
          → (first_user (λ v. same (out.sql_lower v.username) (lookup_name out param)) d).0 ≡ ok u
          → IsNamed u
      found d u h e = unfold first_user in rw (sym h) (ground (arith, e))

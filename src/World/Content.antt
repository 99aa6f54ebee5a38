-- ===== src/World/Content.antt =====
-- Properties of the database that do not depend on some of its tables.
use toomanyhours_api.Prelude.{◌≡◌, List}
use toomanyhours_api.Models.{User, UserGame, UserAvatar}
use toomanyhours_api.World.{Db}

-- A property of the accounts, of the lists, and of the photos alone.
abbrev pub OfUsers : (List User → Type 0) → Db → Type 0
OfUsers Q db = Q db.users

abbrev pub OfEntries : (List UserGame → Type 0) → Db → Type 0
OfEntries Q db = Q db.entries

abbrev pub OfAvatars : (List UserAvatar → Type 0) → Db → Type 0
OfAvatars Q db = Q db.avatars

-- It depends on the accounts, the lists and the photos only: not on sessions or the catalog.
pub record IsOfContent (P : Db → Type 0) : Type 0 where
  pub content :
      (old new : Db)
      → new.users ≡ old.users
      → new.entries ≡ old.entries
      → new.avatars ≡ old.avatars
      → P old
      → P new

-- It does not depend on the lists, on the accounts, or on the photos either.
pub record IsOfPeople (P : Db → Type 0) : Type 0 where
  pub people : (old new : Db) → new.users ≡ old.users → new.avatars ≡ old.avatars → P old → P new

pub record IsOfItems (P : Db → Type 0) : Type 0 where
  pub items : (old new : Db) → new.entries ≡ old.entries → new.avatars ≡ old.avatars → P old → P new

pub record IsOfRows (P : Db → Type 0) : Type 0 where
  pub rows : (old new : Db) → new.users ≡ old.users → new.entries ≡ old.entries → P old → P new

pub OfUsers-IsOfContent : (Q : List User → Type 0) → IsOfContent (OfUsers Q)
OfUsers-IsOfContent Q = record { content = λ old new u e a h. rw u h }

pub OfEntries-IsOfContent : (Q : List UserGame → Type 0) → IsOfContent (OfEntries Q)
OfEntries-IsOfContent Q = record { content = λ old new u e a h. rw e h }

pub OfAvatars-IsOfContent : (Q : List UserAvatar → Type 0) → IsOfContent (OfAvatars Q)
OfAvatars-IsOfContent Q = record { content = λ old new u e a h. rw a h }

pub OfUsers-IsOfPeople : (Q : List User → Type 0) → IsOfPeople (OfUsers Q)
OfUsers-IsOfPeople Q = record { people = λ old new u a h. rw u h }

pub OfAvatars-IsOfPeople : (Q : List UserAvatar → Type 0) → IsOfPeople (OfAvatars Q)
OfAvatars-IsOfPeople Q = record { people = λ old new u a h. rw a h }

pub OfEntries-IsOfItems : (Q : List UserGame → Type 0) → IsOfItems (OfEntries Q)
OfEntries-IsOfItems Q = record { items = λ old new e a h. rw e h }

pub OfAvatars-IsOfItems : (Q : List UserAvatar → Type 0) → IsOfItems (OfAvatars Q)
OfAvatars-IsOfItems Q = record { items = λ old new e a h. rw a h }

pub OfUsers-IsOfRows : (Q : List User → Type 0) → IsOfRows (OfUsers Q)
OfUsers-IsOfRows Q = record { rows = λ old new u e h. rw u h }

pub OfEntries-IsOfRows : (Q : List UserGame → Type 0) → IsOfRows (OfEntries Q)
OfEntries-IsOfRows Q = record { rows = λ old new u e h. rw e h }

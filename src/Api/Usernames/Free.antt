-- ===== src/Api/Usernames/Free.antt =====
-- What the answer of cmd/api/username_handlers.go promises to a registration.
use toomanyhours_api.Prelude.{
  ℕ, ◌≡◌, refl, Bool, false, Option, none, some, List, [], ◌∷◌, Result, ok, err, arith, find, any,
  Bool-cases, inl, inr,
}
use toomanyhours_api.Text.{Text, same}
use toomanyhours_api.Validate.{
  Error, wrong_length, invalid_format, reserved, profane, out_of_range, username,
}
use toomanyhours_api.Validate.Account.{IsUsername, username-IsUsername}
use toomanyhours_api.Models.{User}
use toomanyhours_api.World.{
  World, Db, Outside, DbError, record_not_found, no_rows, duplicated_key, unavailable,
}
use toomanyhours_api.World.Exec.{attempt, statement}
use toomanyhours_api.World.Keeps.{Keeps-attempt}
use toomanyhours_api.World.Yields.{
  Yields, Known, Yields-pure, Yields-raise, Yields-bind, Yields-any,
}
use toomanyhours_api.Repo.Users.{get_user_by_username, first_user, same_username}
use toomanyhours_api.Api.{Response}
use toomanyhours_api.Api.Usernames.{
  is_available, rejected_name, lookup_answer, look_up_name, answer_check, check_username,
}
use toomanyhours_api.Api.Routes.Reads.{get_user_by_username-Keeps, username_check_blocked-Keeps}

-- A query that finds no row selects none.
find-none :
    {A : Type 0} (p q : A → Bool) (xs : List A)
    → ((x : A) → p x ≡ q x)
    → find p xs ≡ none
    → any q xs ≡ false
unfolding find any
find-none p q [] h e = refl
find-none p q (x ∷ xs) h e = elim (Bool-cases (p x)) [
  | inl k ↦ ground (arith, k, e)
  | inr k ↦ let rest = find-none p q xs h (ground (arith, k, e)) in ground (arith, k, h x, rest)
]

-- The database's `LOWER` leaves a good username as it is: it has lower-case ASCII letters, digits
-- and underscores only.
abbrev pub IsFolded : Outside → Type 0
IsFolded out = (name : Text) → IsUsername out.is_profane name → out.sql_lower name ≡ name

-- The name that is asked for obeys the rule, and no stored account has it as the index compares.
pub record IsFree (out : Outside) (db : Db) (param : Text) : Type 0 where
  pub name : Text
  pub accepted : username out.wide out.is_profane param ≡ ok name
  pub unused : any (same_username out name) db.users ≡ false

module _ (out : Outside) (db : Db) (param : Text) (folded : IsFolded out) where
  abbrev Here : Db → Type 0
  Here d = d ≡ db

  -- An answer that promises the name is right.
  abbrev Promises : Response → Type 0
  Promises r = r ≡ is_available → IsFree out db param

  abbrev Finds : Text → Result DbError User → Type 0
  Finds name found =
      found ≡ err no_rows → find (λ v. same (out.sql_lower v.username) name) db.users ≡ none

  lookup-Finds :
      (name : Text)
      → Yields {E = Response} Here (Finds name) (attempt (get_user_by_username out name))
  unfolding get_user_by_username statement first_user
  lookup-Finds name = record { at = λ w a h e missing. rw (← h) (ground (arith, e, missing)) }

  rejected-Promises : (e : Error) → Promises (rejected_name e)
  rejected-Promises reserved h = ground arith
  rejected-Promises profane h = ground arith
  rejected-Promises wrong_length h = ground arith
  rejected-Promises invalid_format h = ground arith
  rejected-Promises out_of_range h = ground arith

  answer-Promises :
      (name : Text) (found : Result DbError User)
      → username out.wide out.is_profane param ≡ ok name
      → Finds name found
      → Promises (lookup_answer found)
  answer-Promises name (ok u) accepted f h = ground arith
  answer-Promises name (err record_not_found) accepted f h = ground arith
  answer-Promises name (err duplicated_key) accepted f h = ground arith
  answer-Promises name (err unavailable) accepted f h = ground arith
  answer-Promises name (err no_rows) accepted f h = record {
    name = name;
    accepted = accepted;
    unused =
        find-none (λ v. same (out.sql_lower v.username) name) (same_username out name) db.users
          (λ v.
            rw (folded name ((username-IsUsername out.wide out.is_profane param name).0 accepted).1)
              refl)
          (f refl);
  }

  look_up_name-Promises :
      (r : Result Error Text)
      → username out.wide out.is_profane param ≡ r
      → Yields Here Promises (look_up_name out r)
  unfolding look_up_name
  look_up_name-Promises (err e) accepted = Yields-pure (rejected_name e) (rejected-Promises e)
  look_up_name-Promises (ok name) accepted =
      Yields-bind {R = Finds name} _ _
        (Keeps-attempt (get_user_by_username out name) (get_user_by_username-Keeps out name))
        (lookup-Finds name)
        λ found f. Yields-pure (lookup_answer found) (answer-Promises name found accepted f)

  answer_check-Promises : (o : Option ℕ) → Yields Here Promises (answer_check out param o)
  unfolding answer_check
  answer_check-Promises (some d) = Yields-raise _
  answer_check-Promises none = look_up_name-Promises (username out.wide out.is_profane param) refl

  check_username-Promises : (ip : Text) → Yields Here Promises (check_username out ip param)
  unfolding check_username
  check_username-Promises ip =
      Yields-bind {R = Known} _ _ (username_check_blocked-Keeps out ip) (Yields-any _)
        λ o _. answer_check-Promises o

-- If a name is answered to be available, then it obeys the rule of a registration, and no stored
-- account has the name that a registration makes of it, as the unique index compares names.
pub check_username-IsFree :
    (out : Outside) (ip param : Text) (w : World)
    → IsFolded out
    → (check_username out ip param w).0 ≡ ok is_available
    → IsFree out w.db param
check_username-IsFree out ip param w folded e =
    (check_username-Promises out w.db param folded ip).at w is_available refl e refl

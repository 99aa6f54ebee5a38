-- ===== src/Repo/RefreshTokens/Laws.antt =====
-- How the queries on refresh tokens age the table: what a row says once, it says for good.
use toomanyhours_api.Prelude.{
  ℕ, ◌≡◌, Bool, ◌&&◌, ◌⊎◌, none, List, [], ◌∷◌, ◌++◌, arith, update, if◌then◌else◌,
}
use toomanyhours_api.Text.{Text, same}
use toomanyhours_api.Models.{RefreshToken}
use toomanyhours_api.World.{Db, Outside}
use toomanyhours_api.World.Keeps.{Keeps, Keeps-bind, Keeps-time_now, Keeps-statement}
use toomanyhours_api.Repo.RefreshTokens.{
  has_jti, is_active, revoke, insert_token, create_refresh_token, get_refresh_token,
  revoke_refresh_token, family_has_active_token, revoke_refresh_family,
}

-- A row later on: only `revoked_at` has changed, and only if it was null.
pub record Ages (t u : RefreshToken) : Type 0 where
  pub id : u.id ≡ t.id
  pub jti : u.jti ≡ t.jti
  pub family : u.family_id ≡ t.family_id
  pub user : u.user_id ≡ t.user_id
  pub expiry : u.expires_at ≡ t.expires_at
  pub creation : u.created_at ≡ t.created_at
  pub revocation : (t.revoked_at ≡ none) ⊎ (u.revoked_at ≡ t.revoked_at)

-- The table later on: each row in its place, older, and new rows behind them.
abbrev pub Extends : List RefreshToken → List RefreshToken → Type 0
Extends [] us = Unit
Extends (t ∷ ts) [] = ⊥
Extends (t ∷ ts) (u ∷ us) = Ages t u × Extends ts us

Ages-refl : (t : RefreshToken) → Ages t t
Ages-refl t = ground arith

Ages-trans : (s t u : RefreshToken) → Ages s t → Ages t u → Ages s u
Ages-trans s t u a b = ground arith

pub Extends-refl : (ts : List RefreshToken) → Extends ts ts
Extends-refl [] = tt
Extends-refl (t ∷ ts) = (Ages-refl t, Extends-refl ts)

pub Extends-trans : (rs ts us : List RefreshToken) → Extends rs ts → Extends ts us → Extends rs us
Extends-trans [] ts us a b = tt
Extends-trans (r ∷ rs) [] us a b = elim a [ ]
Extends-trans (r ∷ rs) (t ∷ ts) [] a b = elim b [ ]
Extends-trans (r ∷ rs) (t ∷ ts) (u ∷ us) a b =
    (Ages-trans r t u a.0 b.0, Extends-trans rs ts us a.1 b.1)

Extends-append : (ts us : List RefreshToken) → Extends ts (ts ++ us)
Extends-append [] us = tt
Extends-append (t ∷ ts) us = (Ages-refl t, Extends-append ts us)

-- The guard `revoked_at IS NULL` is what makes this true.
revoke-Ages :
    (b : Bool) (now : ℕ) (t : RefreshToken) → Ages t (if b && is_active t then revoke now t else t)
revoke-Ages b now t = ground arith

Extends-update :
    (p : RefreshToken → Bool) (now : ℕ) (ts : List RefreshToken)
    → Extends ts (update (λ t. p t && is_active t) (revoke now) ts)
unfolding update
Extends-update p now [] = tt
Extends-update p now (t ∷ ts) = (revoke-Ages (p t) now t, Extends-update p now ts)

-- The database's tokens have aged from `ts`.
abbrev pub From : List RefreshToken → Db → Type 0
From ts db = Extends ts db.tokens

module _ (out : Outside) (ts : List RefreshToken) where
  insert_token-From : (t : RefreshToken) (db : Db) → From ts db → From ts (insert_token t db).1
  unfolding insert_token
  insert_token-From t db h = ground (
    arith,
    Extends-trans ts db.tokens (db.tokens ++ record t { id = db.next_id } ∷ []) h
        (Extends-append db.tokens (record t { id = db.next_id } ∷ [])),
  )

  pub create_refresh_token-From : (t : RefreshToken) → Keeps (From ts) (create_refresh_token out t)
  unfolding create_refresh_token
  create_refresh_token-From t =
      Keeps-bind _ _ (Keeps-time_now out) λ now.
        Keeps-statement out _ (λ db h. insert_token-From (record t { created_at = now }) db h)

  pub get_refresh_token-From : (jti : Text) → Keeps (From ts) (get_refresh_token out jti)
  unfolding get_refresh_token
  get_refresh_token-From jti = Keeps-statement out _ (λ db h. ground arith)

  pub revoke_refresh_token-From : (jti : Text) → Keeps (From ts) (revoke_refresh_token out jti)
  unfolding revoke_refresh_token
  revoke_refresh_token-From jti = Keeps-bind _ _ (Keeps-time_now out) λ now.
      Keeps-statement out _
        λ db h. Extends-trans ts db.tokens _ h (Extends-update (has_jti jti) now db.tokens)

  pub family_has_active_token-From :
      (family : Text) → Keeps (From ts) (family_has_active_token out family)
  unfolding family_has_active_token
  family_has_active_token-From family =
      Keeps-bind _ _ (Keeps-time_now out) λ now. Keeps-statement out _ (λ db h. h)

  pub revoke_refresh_family-From :
      (family : Text) → Keeps (From ts) (revoke_refresh_family out family)
  unfolding revoke_refresh_family
  revoke_refresh_family-From family = Keeps-bind _ _ (Keeps-time_now out) λ now.
      Keeps-statement out _ λ db h.
        Extends-trans ts db.tokens _ h (Extends-update (λ t. same t.family_id family) now db.tokens)

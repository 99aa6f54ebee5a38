-- ===== src/World/Keeps.antt =====
-- Invariants of the database under code over the world, one rule for each way to build it.
use toomanyhours_api.Prelude.{◌≡◌, refl, Result, ok, err, arith, Bool, true, false, if◌then◌else◌}
use toomanyhours_api.World.{World, Db, Outside, DbError}
use toomanyhours_api.World.Exec.{
  Exec, Query, pure, raise, ◌>>=◌, attempt, or_else, time_now, statement, new_token_id, transaction,
}

-- The code keeps `P`, however it ends.
pub record Keeps {E A : Type 0} (P : Db → Type 0) (m : Exec E A) : Type 0 where
  pub at : (w : World) → P w.db → P (m w).1.db

module _ {P : Db → Type 0} where
  pub Keeps-pure : {E A : Type 0} (a : A) → Keeps P (pure {E = E} a)
  Keeps-pure a = record { at = λ w h. h }

  pub Keeps-raise : {E A : Type 0} (e : E) → Keeps P (raise {A = A} e)
  Keeps-raise e = record { at = λ w h. h }

  pub Keeps-bind :
      {E A B : Type 0} (first : Exec E A) (rest : A → Exec E B)
      → Keeps P first
      → ((value : A) → Keeps P (rest value))
      → Keeps P (first >>= rest)
  Keeps-bind {E} {A} {B} first rest keeps_first keeps_rest = record {
    at = λ w h. after (first w).0 (first w).1 (keeps_first.at w h);
  }
    where
      after :
          (r : Result E A) (w : World)
          → P w.db
          → P (
              let p : Result E B × World = elim r [ ok a ↦ rest a w | err e ↦ (err e, w) ] in
              p.1.db)
      after (ok a) w h = (keeps_rest a).at w h
      after (err e) w h = h

  -- The rest may use what is known of the value.
  pub Keeps-bind_yields :
      {E A B : Type 0} (Q : A → Type 0) (m : Exec E A) (f : A → Exec E B)
      → Keeps P m
      → ((w : World) (a : A) → P w.db → (m w).0 ≡ ok a → Q a)
      → ((a : A) → Q a → Keeps P (f a))
      → Keeps P (m >>= f)
  Keeps-bind_yields {E} {A} {B} Q m f keeps_m yields keeps_f = record {
    at = λ w h. after (m w).0 (m w).1 (keeps_m.at w h) (λ a e. yields w a h e);
  }
    where
      after :
          (r : Result E A) (w : World)
          → P w.db
          → ((a : A) → r ≡ ok a → Q a)
          → P (let p : Result E B × World = elim r [ ok a ↦ f a w | err e ↦ (err e, w) ] in p.1.db)
      after (ok a) w h q = (keeps_f a (q a refl)).at w h
      after (err e) w h q = h

  pub Keeps-or_else :
      {E F A : Type 0} (m : Exec E A) (f : E → F) → Keeps P m → Keeps P (or_else m f)
  Keeps-or_else {E} {F} {A} m f keeps_m = record {
    at = λ w h. after (m w).0 (m w).1 (keeps_m.at w h);
  }
    where
      after :
          (r : Result E A) (w : World)
          → P w.db
          → P (
              let p : Result F A × World = elim r [ ok a ↦ (ok a, w) | err e ↦ (err (f e), w) ] in
              p.1.db)
      after (ok a) w h = h
      after (err e) w h = h

  pub Keeps-attempt : {E F A : Type 0} (m : Exec E A) → Keeps P m → Keeps P (attempt {F = F} m)
  Keeps-attempt m keeps_m = record { at = λ w h. keeps_m.at w h }

  -- Either branch, whichever is taken.
  pub Keeps-either :
      {E A : Type 0} (test : Bool) (yes_code no_code : Exec E A)
      → Keeps P yes_code
      → Keeps P no_code
      → Keeps P (if test then yes_code else no_code)
  Keeps-either true yes_code no_code h _ = h
  Keeps-either false yes_code no_code _ h = h

  pub Keeps-transaction : {A : Type 0} (m : Query A) → Keeps P m → Keeps P (transaction m)
  unfolding transaction
  Keeps-transaction {A} m keeps_m = record {
    at = λ w h. after w (m w).0 (m w).1 h (keeps_m.at w h);
  }
    where
      after :
          (old : World) (r : Result DbError A) (w : World)
          → P old.db
          → P w.db
          → P (
              let p : Result DbError A × World = elim r [
                | ok a ↦ (ok a, w)
                | err e ↦ (err e, record w { db = old.db })
              ] in
              p.1.db)
      after old (ok a) w g h = h
      after old (err e) w g h = g

  module _ (out : Outside) where
    pub Keeps-time_now : {E : Type 0} → Keeps P (time_now out {E = E})
    unfolding time_now
    Keeps-time_now = record { at = λ w h. h }

    pub Keeps-new_token_id : {E : Type 0} → Keeps P (new_token_id out {E = E})
    unfolding new_token_id
    Keeps-new_token_id = record { at = λ w h. h }

    pub Keeps-statement :
        {A : Type 0} (f : Db → Result DbError A × Db)
        → ((db : Db) → P db → P (f db).1)
        → Keeps P (statement out f)
    unfolding statement
    Keeps-statement f k = record { at = λ w h. ground (arith, k w.db h) }

pub ruleset keeps_rules = (
  Keeps-pure, Keeps-raise, Keeps-bind, Keeps-or_else, Keeps-attempt, Keeps-either, Keeps-time_now,
  Keeps-new_token_id, Keeps-transaction,
)

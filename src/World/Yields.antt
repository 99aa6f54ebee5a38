-- ===== src/World/Yields.antt =====
-- What is known of the value that code over the world ends with, and of the database after it.
use toomanyhours_api.Prelude.{◌≡◌, refl, Result, ok, err, arith}
use toomanyhours_api.World.{World, Db, Outside, DbError}
use toomanyhours_api.World.Exec.{Exec, pure, raise, ◌>>=◌, or_else, statement}
use toomanyhours_api.World.Keeps.{Keeps}

-- Run where `P` holds, the code that succeeds ends with a value of `Q`.
pub record Yields {E A : Type 0} (P : Db → Type 0) (Q : A → Type 0) (m : Exec E A) : Type 0 where
  pub at : (w : World) (a : A) → P w.db → (m w).0 ≡ ok a → Q a

-- Run where `P` holds, the code ends where `Q` holds, however it ends.
pub record Leads {E A : Type 0} (P Q : Db → Type 0) (m : Exec E A) : Type 0 where
  pub at : (w : World) → P w.db → Q (m w).1.db

abbrev pub Known : {A : Type 0} → A → Type 0
Known a = Unit

module _ {P : Db → Type 0} where
  pub Yields-pure : {E A : Type 0} {Q : A → Type 0} (a : A) → Q a → Yields P Q (pure {E = E} a)
  Yields-pure a q = record { at = λ w b h e. ground (arith, q) }

  pub Yields-raise : {E A : Type 0} {Q : A → Type 0} (e : E) → Yields P Q (raise {A = A} e)
  Yields-raise e = record { at = λ w b h e. ground arith }

  pub Yields-any : {E A : Type 0} (m : Exec E A) → Yields P Known m
  Yields-any m = record { at = λ w a h e. tt }

  pub Yields-bind :
      {E A B : Type 0} {R : A → Type 0} {Q : B → Type 0} (m : Exec E A) (f : A → Exec E B)
      → Keeps P m
      → Yields P R m
      → ((a : A) → R a → Yields P Q (f a))
      → Yields P Q (m >>= f)
  Yields-bind {E} {A} {B} {R} {Q} m f km ym yf = record {
    at = λ w b h e. after (m w).0 (m w).1 b (km.at w h) (λ a e. ym.at w a h e) e;
  }
    where
      after :
          (r : Result E A) (w : World) (b : B)
          → P w.db
          → ((a : A) → r ≡ ok a → R a)
          → (let p : Result E B × World = elim r [ ok a ↦ f a w | err e ↦ (err e, w) ] in p.0)
            ≡ ok b
          → Q b
      after (ok a) w b h known e = (yf a (known a refl)).at w b h e
      after (err x) w b h known e = ground arith

  pub Yields-or_else :
      {E F A : Type 0} {Q : A → Type 0} (m : Exec E A) (f : E → F)
      → Yields P Q m
      → Yields P Q (or_else m f)
  Yields-or_else {E} {F} {A} {Q} m f ym = record {
    at = λ w a h e. after (m w).0 (m w).1 a (λ b k. ym.at w b h k) e;
  }
    where
      after :
          (r : Result E A) (w : World) (a : A)
          → ((b : A) → r ≡ ok b → Q b)
          → (let p : Result F A × World = elim r [ ok a ↦ (ok a, w) | err e ↦ (err (f e), w) ] in
              p.0)
            ≡ ok a
          → Q a
      after (ok b) w a known e = ground (arith, known a)
      after (err x) w a known e = ground arith

  pub Yields-statement :
      {A : Type 0} {Q : A → Type 0} (out : Outside) (f : Db → Result DbError A × Db)
      → ((db : Db) (a : A) → P db → (f db).0 ≡ ok a → Q a)
      → Yields P Q (statement out f)
  unfolding statement
  Yields-statement out f k = record { at = λ w a h e. ground (arith, k w.db a h) }

  pub Leads-bind :
      {E A B : Type 0} {R : A → Type 0} {Q : Db → Type 0} (m : Exec E A) (f : A → Exec E B)
      → ((db : Db) → P db → Q db)
      → Keeps P m
      → Yields P R m
      → ((a : A) → R a → Leads P Q (f a))
      → Leads P Q (m >>= f)
  Leads-bind {E} {A} {B} {R} {Q} m f stays km ym lf = record {
    at = λ w h. after (m w).0 (m w).1 (km.at w h) (λ a e. ym.at w a h e);
  }
    where
      after :
          (r : Result E A) (w : World)
          → P w.db
          → ((a : A) → r ≡ ok a → R a)
          → Q (let p : Result E B × World = elim r [ ok a ↦ f a w | err e ↦ (err e, w) ] in p.1.db)
      after (ok a) w h known = (lf a (known a refl)).at w h
      after (err e) w h known = stays w.db h

  -- A last step that leads on, and after it only what keeps `Q`.
  pub Leads-then :
      {E A B : Type 0} {Q : Db → Type 0} (m : Exec E A) (f : A → Exec E B)
      → Leads P Q m
      → ((a : A) → Keeps Q (f a))
      → Leads P Q (m >>= f)
  Leads-then {E} {A} {B} {Q} m f lm kf = record { at = λ w h. after (m w).0 (m w).1 (lm.at w h) }
    where
      after :
          (r : Result E A) (w : World)
          → Q w.db
          → Q (let p : Result E B × World = elim r [ ok a ↦ f a w | err e ↦ (err e, w) ] in p.1.db)
      after (ok a) w h = (kf a).at w h
      after (err e) w h = h

  pub Leads-or_else :
      {E F A : Type 0} {Q : Db → Type 0} (m : Exec E A) (f : E → F)
      → Leads P Q m
      → Leads P Q (or_else m f)
  Leads-or_else {E} {F} {A} {Q} m f lm = record { at = λ w h. after (m w).0 (m w).1 (lm.at w h) }
    where
      after :
          (r : Result E A) (w : World)
          → Q w.db
          → Q (
              let p : Result F A × World = elim r [ ok a ↦ (ok a, w) | err e ↦ (err (f e), w) ] in
              p.1.db)
      after (ok a) w h = h
      after (err e) w h = h

  pub Leads-statement :
      {A : Type 0} {Q : Db → Type 0} (out : Outside) (f : Db → Result DbError A × Db)
      → ((db : Db) → P db → Q db)
      → ((db : Db) → P db → Q (f db).1)
      → Leads P Q (statement out f)
  unfolding statement
  Leads-statement out f stays k = record { at = λ w h. ground (arith, k w.db h, stays w.db h) }

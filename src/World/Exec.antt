-- ===== src/World/Exec.antt =====
-- Code that may fail over the world: the state comes back after a failure too.
use toomanyhours_api.Prelude.{ℕ, suc, Option, Result, ok, err, if◌then◌else◌}
use toomanyhours_api.Text.{Text}
use toomanyhours_api.World.{World, Db, Outside, DbError, unavailable}

abbrev pub Exec : Type 0 → Type 0 → Type 0
Exec E A = World → Result E A × World

-- A call of the repository.
abbrev pub Query : Type 0 → Type 0
Query A = Exec DbError A

module _ {E A : Type 0} where
  abbrev pub pure : A → Exec E A
  pure a w = (ok a, w)

  abbrev pub raise : E → Exec E A
  raise e w = (err e, w)

infixl 5 ◌>>=◌ ◌>>◌
abbrev pub ◌>>=◌ : {E A B : Type 0} → Exec E A → (A → Exec E B) → Exec E B
◌>>=◌ m f w = let (r, w') = m w in elim r [ ok a ↦ f a w' | err e ↦ (err e, w') ]

abbrev pub ◌>>◌ : {E A B : Type 0} → Exec E A → Exec E B → Exec E B
m >> k = m >>= λ _. k

-- The caller goes on with the error as a value: `x, err := …`.
abbrev pub attempt : {E F A : Type 0} → Exec E A → Exec F (Result E A)
attempt m w = let (r, w') = m w in (ok r, w')

-- The caller turns an error into its own.
abbrev pub or_else : {E F A : Type 0} → Exec E A → (E → F) → Exec F A
or_else m f w = let (r, w') = m w in elim r [ ok a ↦ (ok a, w') | err e ↦ (err (f e), w') ]

-- `Transaction`: an error undoes what the statements wrote.
unfoldable pub transaction : {A : Type 0} → Query A → Query A
transaction m w =
    let (r, w') = m w in elim r [ ok a ↦ (ok a, w') | err e ↦ (err e, record w' { db = w.db }) ]

module _ (out : Outside) where
  -- `time.Now()`.
  unfoldable pub time_now : {E : Type 0} → Exec E ℕ
  time_now w = (ok (out.clock w.effects), record w { effects = suc w.effects })

  -- One statement of the database.
  unfoldable pub statement : {A : Type 0} → (Db → Result DbError A × Db) → Query A
  statement f w =
      if out.outage w.effects
      then (err unavailable, record w { effects = suc w.effects })
      else (let (r, db) = f w.db in (r, record w { db = db; effects = suc w.effects }))

  -- `newTokenID`: 128 random bits, unless the system's source fails.
  unfoldable pub new_token_id : {E : Type 0} → Exec E (Option Text)
  new_token_id w = (ok (out.random w.effects), record w { effects = suc w.effects })

-- ===== src/Ratelimit.antt =====
-- internal/ratelimit/limiter.go: failures per key over a sliding window.
--
-- A time is the number of nanoseconds since Go's zero time, and every method takes the reading of
-- the limiter's clock as its argument. `t.After(now.Add(-window))` is written `now < t + window`,
-- where nothing is subtracted. The mutex makes each method one step.
pub mod Window
pub mod Invariant
pub mod Spec
pub mod Verdict
use toomanyhours_api.Prelude.{
  ℕ, ◌+◌, ◌-◌, Bool, ◌||◌, Option, none, some, List, [], ◌∷◌, ◌++◌, ltb, if◌then◌else◌, length,
}
use toomanyhours_api.Text.{Text}
use toomanyhours_api.Dict.{Dict, lookup, insert, erase}

abbrev pub sweep_threshold : ℕ
sweep_threshold = 1024

-- `Limiter`, less its mutex and its clock.
pub record Limiter : Type 0 where
  pub max_failures : ℕ
  pub window : ℕ
  pub failures : Dict (List ℕ)
  pub last_sweep : ℕ

-- `New`: `lastSweep` is the zero time.
unfoldable pub new : ℕ → ℕ → Limiter
new max window = record { max_failures = max; window = window; failures = []; last_sweep = 0 }

-- What `Check` returns. It indexes the surviving times, which panics on an empty slice.
pub data Answer : Type 0 where
  allowed : Answer
  refused : ℕ → Answer
  panics : Answer

-- `prune`: the times from the first that is strictly inside the window.
unfoldable pub prune : ℕ → ℕ → List ℕ → List ℕ
prune window now [] = []
prune window now (t ∷ ts) =
    let rest = prune window now ts in if ltb now (t + window) then t ∷ ts else rest

-- Where `pruneKey` writes what is left of one key.
unfoldable pub store_kept : Text → List ℕ → Limiter → List ℕ × Limiter
store_kept key [] l = ([], record l { failures = erase key l.failures })
store_kept key (t ∷ ts) l = (t ∷ ts, record l { failures = insert key (t ∷ ts) l.failures })

-- `pruneKey`.
unfoldable pub prune_key : Text → ℕ → Limiter → List ℕ × Limiter
unfolding store_kept
prune_key key now l = elim (lookup key l.failures) [
  | none ↦ ([], l)
  | some times ↦ store_kept key (prune l.window now times) l
]

-- `l.window - now.Sub(times[0])`, which is positive for a time that has survived.
unfoldable pub verdict : ℕ → ℕ → ℕ → List ℕ → Answer
verdict max window now [] = if ltb 0 max then allowed else panics
verdict max window now (t ∷ ts) =
    if ltb (length (t ∷ ts)) max then allowed else refused (t + window - now)

-- `Check`.
unfoldable pub check : Text → ℕ → Limiter → Answer × Limiter
check key now l =
    let (times, l') = prune_key key now l in (verdict l.max_failures l.window now times, l')

-- The loop of `maybeSweep` over the map.
unfoldable pub sweep_entries : ℕ → ℕ → Dict (List ℕ) → Dict (List ℕ)
sweep_entries window now [] = []
sweep_entries window now ((k, ts) ∷ m) =
    let rest = sweep_entries window now m in
    elim (prune window now ts) [ [] ↦ rest | t ∷ kept ↦ (k, t ∷ kept) ∷ rest ]

-- `maybeSweep`. `now.Sub(lastSweep) < window` is written without the subtraction.
unfoldable pub maybe_sweep : ℕ → Limiter → Limiter
maybe_sweep now l =
    if ltb (length l.failures) sweep_threshold || ltb now (l.last_sweep + l.window)
    then l
    else record l { last_sweep = now; failures = sweep_entries l.window now l.failures }

-- `Record`: a key at its limit is left alone.
unfoldable pub record_attempt : Text → ℕ → Limiter → Limiter
record_attempt key now l =
    let (times, l') = prune_key key now (maybe_sweep now l) in
    if ltb (length times) l.max_failures
    then record l' { failures = insert key (times ++ now ∷ []) l'.failures }
    else l'

-- `RecordFailure`.
unfoldable pub record_failure : Text → ℕ → Limiter → Limiter
record_failure = record_attempt

-- `Reset`.
unfoldable pub reset : Text → Limiter → Limiter
reset key l = record l { failures = erase key l.failures }

-- ===== src/Ratelimit/Invariant.antt =====
-- The limiter's invariant: each key stands once, with one to `max` times in time order.
use toomanyhours_api.Prelude.{
  ℕ, ◌≤◌, ◌<◌, ◌≡◌, refl, inl, inr, none, List, [], ◌∷◌, ◌++◌, ltb, length, length-append, All,
  arith, Option-cases, Bool-cases,
}
use toomanyhours_api.Text.{Text}
use toomanyhours_api.Dict.{Dict, lookup, insert, Distinct}
use toomanyhours_api.Dict.Laws.{
  Values, lookup-Values, insert-Values, erase-Values, insert-Distinct, erase-Distinct,
}
use toomanyhours_api.Ratelimit.{
  Limiter, new, prune, prune_key, store_kept, check, sweep_entries, maybe_sweep, record_attempt,
  reset,
}
use toomanyhours_api.Ratelimit.Window.{
  Ascending, length-prune-le, prune-All, prune-Ascending, append-Ascending, All-concat, All-later,
}

-- The slice of one key, as it stands after the clock has shown `now`.
abbrev pub IsSlice : ℕ → ℕ → List ℕ → Type 0
IsSlice max now ts = (1 ≤ length ts) × (length ts ≤ max) × Ascending ts × All (λ t. t ≤ now) ts

pub record IsValid (now : ℕ) (l : Limiter) : Type 0 where
  pub distinct : Distinct l.failures
  pub slices : Values (IsSlice l.max_failures now) l.failures

pub new-IsValid : (max window now : ℕ) → IsValid now (new max window)
unfolding new
new-IsValid max window now = record { distinct = tt; slices = tt }

slices_later :
    (max now later : ℕ) (m : Dict (List ℕ))
    → now ≤ later
    → Values (IsSlice max now) m
    → Values (IsSlice max later) m
slices_later max now later [] h v = tt
slices_later max now later ((k, ts) ∷ m) h ((a, b, c, d), v) =
    ((a, b, c, All-later now later ts h d), slices_later max now later m h v)

-- A valid limiter stays valid as time passes.
pub IsValid-later : (now later : ℕ) (l : Limiter) → now ≤ later → IsValid now l → IsValid later l
IsValid-later now later l h v = record {
  distinct = v.distinct;
  slices = slices_later l.max_failures now later l.failures h v.slices;
}

-- What `pruneKey` returns is sound, also when it is empty.
abbrev pub IsKept : ℕ → ℕ → List ℕ → Type 0
IsKept max now ts = (length ts ≤ max) × Ascending ts × All (λ t. t ≤ now) ts

prune-IsKept :
    (max window now : ℕ) (ts : List ℕ) → IsSlice max now ts → IsKept max now (prune window now ts)
prune-IsKept max window now ts (a, b, c, d) = (
  omega (arith, length-prune-le window now ts),
  prune-Ascending window now ts c,
  prune-All (λ t. t ≤ now) window now ts d,
)

store_kept-IsValid :
    (key : Text) (now : ℕ) (ts : List ℕ) (l : Limiter)
    → IsValid now l
    → IsKept l.max_failures now ts
    → IsValid now (store_kept key ts l).1
      × IsKept l.max_failures now (store_kept key ts l).0
      × ((store_kept key ts l).1.max_failures ≡ l.max_failures)
unfolding store_kept
store_kept-IsValid key now [] l v k = (
  record {
    distinct = erase-Distinct key l.failures v.distinct;
    slices = erase-Values (IsSlice l.max_failures now) key l.failures v.slices;
  },
  k,
  refl,
)
store_kept-IsValid key now (t ∷ ts) l v (a, b, c) = (
  record {
    distinct = insert-Distinct key (t ∷ ts) l.failures v.distinct;
    slices =
        insert-Values (IsSlice l.max_failures now) key (t ∷ ts) l.failures (omega arith, a, b, c)
          v.slices;
  },
  (a, b, c),
  refl,
)

pub prune_key-IsValid :
    (key : Text) (now : ℕ) (l : Limiter)
    → IsValid now l
    → IsValid now (prune_key key now l).1
      × IsKept l.max_failures now (prune_key key now l).0
      × ((prune_key key now l).1.max_failures ≡ l.max_failures)
unfolding prune_key
prune_key-IsValid key now l v = elim (Option-cases (lookup key l.failures)) [
  | inl e ↦ rw (e, prune_key) (v, (omega arith, tt, tt), refl)
  | inr (ts, e) ↦
      rw (e, prune_key)
        (store_kept-IsValid key now (prune l.window now ts) l v (
          prune-IsKept l.max_failures l.window now ts
            (lookup-Values (IsSlice l.max_failures now) key l.failures ts v.slices e)))
]

sweep_entries-lookup-none :
    (window now : ℕ) (key : Text) (m : Dict (List ℕ))
    → lookup key m ≡ none
    → lookup key (sweep_entries window now m) ≡ none
unfolding sweep_entries lookup
sweep_entries-lookup-none window now key [] h = refl
sweep_entries-lookup-none window now key ((k, ts) ∷ m) h =
    ground (arith, sweep_entries-lookup-none window now key m)

sweep_entries-Distinct :
    (window now : ℕ) (m : Dict (List ℕ)) → Distinct m → Distinct (sweep_entries window now m)
unfolding sweep_entries
sweep_entries-Distinct window now [] d = tt
sweep_entries-Distinct window now ((k, ts) ∷ m) (a, d) =
    ground
      (arith, sweep_entries-Distinct window now m d, sweep_entries-lookup-none window now k m a)

sweep_entries-Values :
    (max window now : ℕ) (m : Dict (List ℕ))
    → Values (IsSlice max now) m
    → Values (IsSlice max now) (sweep_entries window now m)
unfolding sweep_entries
sweep_entries-Values max window now [] v = tt
sweep_entries-Values max window now ((k, ts) ∷ m) (s, v) =
    ground (arith, sweep_entries-Values max window now m v, prune-IsKept max window now ts s)

pub maybe_sweep-IsValid : (now : ℕ) (l : Limiter) → IsValid now l → IsValid now (maybe_sweep now l)
unfolding maybe_sweep
maybe_sweep-IsValid now l v = ground (
  arith,
  sweep_entries-Distinct l.window now l.failures v.distinct,
  sweep_entries-Values l.max_failures l.window now l.failures v.slices,
)

maybe_sweep-max : (now : ℕ) (l : Limiter) → (maybe_sweep now l).max_failures ≡ l.max_failures
unfolding maybe_sweep
maybe_sweep-max now l = ground arith

append_attempt-IsValid :
    (key : Text) (now : ℕ) (times : List ℕ) (l : Limiter)
    → IsValid now l
    → IsKept l.max_failures now times
    → length times < l.max_failures
    → IsValid now (record l { failures = insert key (times ++ now ∷ []) l.failures })
append_attempt-IsValid key now times l v (a, b, c) room = record {
  distinct = insert-Distinct key (times ++ now ∷ []) l.failures v.distinct;
  slices =
      insert-Values (IsSlice l.max_failures now) key (times ++ now ∷ []) l.failures
        (
          omega (arith, length-append times (now ∷ [])),
          omega (arith, length-append times (now ∷ [])),
          append-Ascending times now b c,
          All-concat (λ t. t ≤ now) times now c (omega arith),
        )
        v.slices;
}

pub record_attempt-IsValid :
    (key : Text) (now : ℕ) (l : Limiter) → IsValid now l → IsValid now (record_attempt key now l)
unfolding record_attempt
record_attempt-IsValid key now l v =
    let (w, k, e) = prune_key-IsValid key now (maybe_sweep now l) (maybe_sweep-IsValid now l v) in
    let pruned = prune_key key now (maybe_sweep now l) in
    let m = maybe_sweep-max now l in
    elim (Bool-cases (ltb (length pruned.0) l.max_failures)) [
      | inl room ↦
          rw room (append_attempt-IsValid key now pruned.0 pruned.1 w (rw e k) (ground arith))
      | inr full ↦ rw full w
    ]

pub check-IsValid :
    (key : Text) (now : ℕ) (l : Limiter) → IsValid now l → IsValid now (check key now l).1
unfolding check
check-IsValid key now l v = (prune_key-IsValid key now l v).0

reset-IsValid : (key : Text) (now : ℕ) (l : Limiter) → IsValid now l → IsValid now (reset key l)
unfolding reset
reset-IsValid key now l v = record {
  distinct = erase-Distinct key l.failures v.distinct;
  slices = erase-Values (IsSlice l.max_failures now) key l.failures v.slices;
}

-- The calls that the handlers make.
pub data Call : Type 0 where
  checks records resets : Text → Call

unfoldable pub call : ℕ → Call → Limiter → Limiter
call now (checks key) l = (check key now l).1
call now (records key) l = record_attempt key now l
call now (resets key) l = reset key l

-- After any call each key has one entry at most, which holds between one and `max` times, in
-- time order and none later than the clock.
pub call-IsValid : (now : ℕ) (c : Call) (l : Limiter) → IsValid now l → IsValid now (call now c l)
unfolding call
call-IsValid now (checks key) l v = check-IsValid key now l v
call-IsValid now (records key) l v = record_attempt-IsValid key now l v
call-IsValid now (resets key) l v = reset-IsValid key now l v

-- ===== src/Ratelimit/Spec.antt =====
-- The limiter against its specification: each key's attempts of the last window, at most `max`.
use toomanyhours_api.Prelude.{
  ℕ, ◌≤◌, ◌≡◌, refl, ◌∙◌, ap, ◌&&◌, inl, inr, Option, none, some, List, [], ◌∷◌, ◌++◌, ltb,
  if◌then◌else◌, length, arith, Option-cases, Bool-cases, select,
}
use native.Mathlib.Nat.{le_refl}
use toomanyhours_api.Text.{Text, same, same→eq}
use toomanyhours_api.Dict.{insert, Dict, lookup, Distinct}
use toomanyhours_api.Dict.Laws.{Values, lookup-Values, lookup-insert, lookup-erase}
use toomanyhours_api.Ratelimit.{
  reset, record_attempt, check, Limiter, prune, prune_key, store_kept, sweep_entries, maybe_sweep,
}
use toomanyhours_api.Ratelimit.Window.{
  in_window-append, prune-in_window, in_window, in_window_later,
}
use toomanyhours_api.Ratelimit.Invariant.{maybe_sweep-IsValid, IsValid, IsSlice}

abbrev or_empty : Option (List ℕ) → List ℕ
or_empty none = []
or_empty (some ts) = ts

-- The specification's view of the limiter: the attempts of a key in the last window.
unfoldable pub recent : Limiter → ℕ → Text → List ℕ
recent l now key = in_window l.window now (or_empty (lookup key l.failures))

prune-lookup :
    (now : ℕ) (l : Limiter) (key : Text) (ts : List ℕ)
    → IsValid now l
    → lookup key l.failures ≡ some ts
    → prune l.window now ts ≡ in_window l.window now ts
prune-lookup now l key ts v e =
    prune-in_window l.window now ts
      (lookup-Values (IsSlice l.max_failures now) key l.failures ts v.slices e).2

store_kept-fst : (key : Text) (ts : List ℕ) (l : Limiter) → (store_kept key ts l).0 ≡ ts
unfolding store_kept
store_kept-fst key [] l = refl
store_kept-fst key (t ∷ ts) l = refl

-- `pruneKey` returns the attempts of the window.
pub prune_key-recent :
    (key : Text) (now : ℕ) (l : Limiter)
    → IsValid now l
    → (prune_key key now l).0 ≡ recent l now key
unfolding recent prune_key
prune_key-recent key now l v = elim (Option-cases (lookup key l.failures)) [
  | inl e ↦ rw (e, prune_key) (unfold select in refl)
  | inr (ts, e) ↦
      rw (e, prune_key)
        (store_kept-fst key (prune l.window now ts) l ∙ prune-lookup now l key ts v e)
]

store_kept-recent :
    (key j : Text) (later : ℕ) (ts : List ℕ) (l : Limiter)
    → recent (store_kept key ts l).1 later j
      ≡ (if same key j then in_window l.window later ts else recent l later j)
unfolding recent store_kept select
store_kept-recent key j later [] l = ground (arith, lookup-erase key j l.failures)
store_kept-recent key j later (t ∷ ts) l = ground (arith, lookup-insert key j (t ∷ ts) l.failures)

pruned-recent :
    (key : Text) (now later : ℕ) (l : Limiter) (ts : List ℕ)
    → now ≤ later
    → IsValid now l
    → lookup key l.failures ≡ some ts
    → in_window l.window later (prune l.window now ts) ≡ recent l later key
unfolding recent
pruned-recent key now later l ts h v e =
    rw (prune-lookup now l key ts v e, e) (in_window_later l.window now later ts h)

-- A value at the key that is asked for, in place of the one that the key had.
if_same {ℓ} :
    {A : Type ℓ} (f : Text → A) (key j : Text) (a : A)
    → a ≡ f key
    → (if same key j then a else f j) ≡ f j
if_same f key j a e = elim (Bool-cases (same key j)) [
  | inl hit ↦ rw hit (e ∙ ap f (same→eq key j hit))
  | inr miss ↦ rw miss refl
]

-- It changes no key's attempts of the window, now or later.
pub recent-prune_key :
    (key j : Text) (now later : ℕ) (l : Limiter)
    → now ≤ later
    → IsValid now l
    → recent (prune_key key now l).1 later j ≡ recent l later j
unfolding prune_key
recent-prune_key key j now later l h v = elim (Option-cases (lookup key l.failures)) [
  | inl e ↦ rw (e, prune_key) refl
  | inr (ts, e) ↦
      rw (e, prune_key)
        (store_kept-recent key j later (prune l.window now ts) l
          ∙ if_same (recent l later) key j _ (pruned-recent key now later l ts h v e))
]

-- Nor does a sweep.
sweep_entries-in_window :
    (window max now later : ℕ) (j : Text) (m : Dict (List ℕ))
    → now ≤ later
    → Distinct m
    → Values (IsSlice max now) m
    → in_window window later (or_empty (lookup j (sweep_entries window now m)))
      ≡ in_window window later (or_empty (lookup j m))
unfolding sweep_entries lookup
sweep_entries-in_window window max now later j [] h d v = refl
sweep_entries-in_window window max now later j ((k, ts) ∷ m) h (a, d) (s, v) = ground (
  arith,
  sweep_entries-in_window window max now later j m h d v,
  prune-in_window window now ts s.2,
  in_window_later window now later ts h,
  same→eq k j,
)

recent-maybe_sweep :
    (now later : ℕ) (j : Text) (l : Limiter)
    → now ≤ later
    → IsValid now l
    → recent (maybe_sweep now l) later j ≡ recent l later j
unfolding recent maybe_sweep
recent-maybe_sweep now later j l h v = ground (
  arith,
  sweep_entries-in_window l.window l.max_failures now later j l.failures h v.distinct v.slices,
)

pub prune_key-fields :
    (key : Text) (now : ℕ) (l : Limiter)
    → ((prune_key key now l).1.max_failures ≡ l.max_failures)
      × ((prune_key key now l).1.window ≡ l.window)
unfolding prune_key store_kept
prune_key-fields key now l = ground arith

maybe_sweep-fields :
    (now : ℕ) (l : Limiter)
    → ((maybe_sweep now l).max_failures ≡ l.max_failures) × ((maybe_sweep now l).window ≡ l.window)
unfolding maybe_sweep
maybe_sweep-fields now l = ground arith

appended :
    (window now later : ℕ) (ts : List ℕ)
    → now ≤ later
    → in_window window later (in_window window now ts ++ now ∷ [])
      ≡ in_window window later ts ++ in_window window later (now ∷ [])
appended window now later ts h =
    rw (in_window-append window later (in_window window now ts) (now ∷ []))
      (ap (λ us. us ++ in_window window later (now ∷ [])) (in_window_later window now later ts h))

append-recent :
    (key j : Text) (now later : ℕ) (times : List ℕ) (l : Limiter)
    → times ≡ recent l now key
    → now ≤ later
    → recent (record l { failures = insert key (times ++ now ∷ []) l.failures }) later j ≡ (
        if same key j
        then recent l later j ++ in_window l.window later (now ∷ [])
        else recent l later j)
unfolding recent
append-recent key j now later times l e h = elim (Bool-cases (same key j)) [
  | inl hit ↦
      rw (lookup-insert key j (times ++ now ∷ []) l.failures, hit, e, ← same→eq key j hit)
        (appended l.window now later (or_empty (lookup key l.failures)) h)
  | inr miss ↦ rw (lookup-insert key j (times ++ now ∷ []) l.failures, miss) refl
]

-- Recording an attempt adds it to its key's window, unless the window is full, and leaves every
-- other key's window alone. It is so at any later time, whether the map was swept or not.
pub record_attempt-recent :
    (key j : Text) (now later : ℕ) (l : Limiter)
    → now ≤ later
    → IsValid now l
    → recent (record_attempt key now l) later j ≡ (
        if same key j && ltb (length (recent l now key)) l.max_failures
        then recent l later j ++ in_window l.window later (now ∷ [])
        else recent l later j)
unfolding record_attempt
record_attempt-recent key j now later l h v =
    let s = maybe_sweep now l in
    let vs = maybe_sweep-IsValid now l v in
    let pruned = prune_key key now s in
    ground (
      arith,
      prune_key-recent key now s vs,
      recent-maybe_sweep now now key l (le_refl now) v,
      recent-maybe_sweep now later j l h v,
      recent-prune_key key j now later s h vs,
      recent-prune_key key key now now s (le_refl now) vs,
      append-recent key j now later pruned.0 pruned.1,
      prune_key-fields key now s,
      maybe_sweep-fields now l,
    )

-- A check changes no key's window.
pub check-recent :
    (key j : Text) (now later : ℕ) (l : Limiter)
    → now ≤ later
    → IsValid now l
    → recent (check key now l).1 later j ≡ recent l later j
unfolding check
check-recent key j now later l h v = recent-prune_key key j now later l h v

-- After a reset the key's window is empty, and every other key's is as it was.
pub reset-recent :
    (key j : Text) (now : ℕ) (l : Limiter)
    → recent (reset key l) now j ≡ (if same key j then [] else recent l now j)
unfolding reset recent select
reset-recent key j now l = ground (arith, lookup-erase key j l.failures)

pub record_attempt-fields :
    (key : Text) (now : ℕ) (l : Limiter)
    → ((record_attempt key now l).max_failures ≡ l.max_failures)
      × ((record_attempt key now l).window ≡ l.window)
unfolding record_attempt
record_attempt-fields key now l =
    ground (arith, maybe_sweep-fields now l, prune_key-fields key now (maybe_sweep now l))

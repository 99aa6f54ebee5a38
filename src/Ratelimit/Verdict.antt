-- ===== src/Ratelimit/Verdict.antt =====
-- What a check answers, and how long a refusal lasts.
use native.Mathlib.Nat.{le_refl, le_trans}
use toomanyhours_api.Prelude.{
  ℕ, ◌+◌, ◌-◌, ◌≤◌, ◌<◌, ◌≡◌, refl, sym, ◌∙◌, ap, ◌⊎◌, inl, inr, List, [], ◌∷◌, ltb, length, All,
  arith, Bool-cases, select, length-select-le,
}
use toomanyhours_api.Text.{Text, same→eq}
use toomanyhours_api.Ratelimit.{Limiter, allowed, refused, verdict, check}
use toomanyhours_api.Ratelimit.Window.{Ascending, in_window, in_window_later, in_window-All}
use toomanyhours_api.Ratelimit.Invariant.{
  IsValid, check-IsValid, record_attempt-IsValid, prune_key-IsValid, IsValid-later, Call, checks,
  records, resets, call,
}
use toomanyhours_api.Ratelimit.Spec.{
  prune_key-fields, recent, prune_key-recent, record_attempt-recent, check-recent,
  record_attempt-fields,
}

-- No key's window ever holds more than `max` attempts.
recent-le-max :
    (key : Text) (now : ℕ) (l : Limiter)
    → IsValid now l
    → length (recent l now key) ≤ l.max_failures
recent-le-max key now l v =
    rw (← prune_key-recent key now l v) ((prune_key-IsValid key now l v).1.0)

recent-in_past :
    (key : Text) (now : ℕ) (l : Limiter) → IsValid now l → All (λ t. t ≤ now) (recent l now key)
recent-in_past key now l v =
    rw (← prune_key-recent key now l v) ((prune_key-IsValid key now l v).1.2)

in_window-recent :
    (now : ℕ) (window : ℕ) (ts : List ℕ) → All (λ t. now < t + window) (in_window window now ts)
unfolding select
in_window-recent now window [] = tt
in_window-recent now window (t ∷ ts) = ground (arith, in_window-recent now window ts)

verdict_lem :
    (max window now : ℕ) (ts : List ℕ)
    → 1 ≤ max
    → length ts ≤ max
    → All (λ t. t ≤ now) ts
    → All (λ t. now < t + window) ts
    → ((verdict max window now ts ≡ allowed) × (length ts < max))
      ⊎ ((d : ℕ) × (verdict max window now ts ≡ refused d)
          × (length ts ≡ max)
          × (1 ≤ d)
          × (d ≤ window))
unfolding verdict
verdict_lem max window now [] one full past young = inl (ground arith, omega arith)
verdict_lem max window now (t ∷ ts) one full past young =
    elim (Bool-cases (ltb (length (t ∷ ts)) max)) [
      | inl room ↦ inl (rw room refl, ground arith)
      | inr busy ↦ inr (t + window - now, rw busy refl, ground arith, omega arith, omega arith)
    ]

young_recent :
    (key : Text) (now : ℕ) (l : Limiter) → All (λ t. now < t + l.window) (recent l now key)
unfolding recent
young_recent key now l = in_window-recent now l.window _

check-eq-verdict :
    (key : Text) (now : ℕ) (l : Limiter)
    → IsValid now l
    → (check key now l).0 ≡ verdict l.max_failures l.window now (recent l now key)
unfolding check
check-eq-verdict key now l v = rw (prune_key-recent key now l v)

-- With a limit of one at least, a check never panics: it allows the attempt when the key's window
-- has room, and otherwise refuses it with a positive wait of at most one window.
pub check-verdict :
    (key : Text) (now : ℕ) (l : Limiter)
    → IsValid now l
    → 1 ≤ l.max_failures
    → (((check key now l).0 ≡ allowed) × (length (recent l now key) < l.max_failures))
      ⊎ ((d : ℕ) × ((check key now l).0 ≡ refused d)
          × (length (recent l now key) ≡ l.max_failures)
          × (1 ≤ d)
          × (d ≤ l.window))
unfolding check
check-verdict key now l v one = rw (prune_key-recent key now l v) (
    verdict_lem l.max_failures l.window now (recent l now key) one (recent-le-max key now l v)
      (recent-in_past key now l v) (young_recent key now l))

-- The calls that an attempt makes: it does not reset.
abbrev pub IsAttempt : Call → Type 0
IsAttempt (checks key) = Unit
IsAttempt (records key) = Unit
IsAttempt (resets key) = ⊥

-- Attempts on any keys, none of them at or past the end of the wait, in time order.
abbrev pub IsTrickle : ℕ → ℕ → List (ℕ × Call) → Type 0
IsTrickle from until [] = from ≤ until
IsTrickle from until ((t, c) ∷ cs) = (from ≤ t) × (t < until) × IsAttempt c × IsTrickle t until cs

unfoldable pub run : List (ℕ × Call) → Limiter → Limiter
run [] l = l
run ((t, c) ∷ cs) l = run cs (call t c l)

-- What holds of a blocked key while attempts go on: at each later time it still has the attempts
-- `ts`, less those that have left the window.
record IsBlocked (max window now : ℕ) (key : Text) (ts : List ℕ) (l : Limiter) : Type 0 where
  valid : IsValid now l
  limit : l.max_failures ≡ max
  span : l.window ≡ window
  stays : (later : ℕ) → now ≤ later → recent l later key ≡ in_window window later ts

module _ (max window until : ℕ) (key : Text) (ts : List ℕ) where
  call-IsBlocked :
      (from t : ℕ) (c : Call) (l : Limiter)
      → from ≤ t
      → IsAttempt c
      → length ts ≡ max
      → in_window window t ts ≡ ts
      → IsBlocked max window from key ts l
      → IsBlocked max window t key ts (call t c l)
  unfolding call
  call-IsBlocked from t (checks j) l a at full young b = record {
    valid = check-IsValid j t l (IsValid-later from t l a b.valid);
    limit = unfold check in ((prune_key-fields j t l).0 ∙ b.limit);
    span = unfold check in ((prune_key-fields j t l).1 ∙ b.span);
    stays = λ later h.
        check-recent j key t later l h (IsValid-later from t l a b.valid)
        ∙ b.stays later (le_trans a h);
  }
  call-IsBlocked from t (records j) l a at full young b = record {
    valid = record_attempt-IsValid j t l (IsValid-later from t l a b.valid);
    limit = (record_attempt-fields j t l).0 ∙ b.limit;
    span = (record_attempt-fields j t l).1 ∙ b.span;
    stays = λ later h.
        let v = IsValid-later from t l a b.valid in
        ground (
          arith,
          record_attempt-recent j key t later l h v,
          same→eq j key,
          b.stays t a,
          b.stays later (le_trans a h),
          b.limit,
        );
  }
  call-IsBlocked from t (resets j) l a at full young b = elim at [ ]

  run-IsBlocked :
      (cs : List (ℕ × Call)) (from : ℕ) (l : Limiter)
      → length ts ≡ max
      → ((t : ℕ) → t < until → in_window window t ts ≡ ts)
      → IsTrickle from until cs
      → IsBlocked max window from key ts l
      → IsBlocked max window until key ts (run cs l)
  unfolding run
  run-IsBlocked [] from l full young trickle b = record {
    valid = IsValid-later from until l trickle b.valid;
    limit = b.limit;
    span = b.span;
    stays = λ later h. b.stays later (le_trans trickle h);
  }
  run-IsBlocked ((t, c) ∷ cs) from l full young (a, early, at, rest) b =
      run-IsBlocked cs t (call t c l) full young rest
        (call-IsBlocked from t c l a at full (young t early) b)

-- At the end of its wait a refused key has lost its oldest attempt.
oldest_leaves :
    (max window now d : ℕ) (ts : List ℕ)
    → 1 ≤ max
    → length ts ≤ max
    → All (λ t. t ≤ now) ts
    → All (λ t. now < t + window) ts
    → Ascending ts
    → verdict max window now ts ≡ refused d
    → (length ts ≡ max)
      × ((t : ℕ) → t < now + d → in_window window t ts ≡ ts)
      × (length (in_window window (now + d) ts) < max)
unfolding verdict select
oldest_leaves max window now d [] one few past fresh asc e = ground arith
oldest_leaves max window now d (t ∷ ts) one few past fresh asc e = (
  ground arith,
  λ u h. in_window-All window u t (t ∷ ts) (le_refl t, asc.0) (ground arith),
  ground (arith, length-select-le (λ (u : ℕ). ltb (now + d) (u + window)) ts),
)

-- A refusal ends when it says: whatever attempts on any keys are made before then, checked or
-- recorded, the next check of the key at the end of the wait is allowed.
pub refused_until :
    (key : Text) (now d : ℕ) (l : Limiter) (cs : List (ℕ × Call))
    → IsValid now l
    → 1 ≤ l.max_failures
    → (check key now l).0 ≡ refused d
    → IsTrickle now (now + d) cs
    → (check key (now + d) (run cs l)).0 ≡ allowed
refused_until key now d l cs v one e trickle =
    let ts = recent l now key in
    let kept = (prune_key-IsValid key now l v).1 in
    let at : (check key now l).0 ≡ verdict l.max_failures l.window now ts =
      check-eq-verdict key now l v in
    let (full, young, fewer) =
      oldest_leaves l.max_failures l.window now d ts one (recent-le-max key now l v)
        (recent-in_past key now l v) (young_recent key now l)
        (rw (prune_key-recent key now l v) at (kept.1)) (sym at ∙ e) in
    let b =
      run-IsBlocked l.max_failures l.window (now + d) key ts cs now l full young trickle (record {
        valid = v;
        limit = refl;
        span = refl;
        stays = λ later h. unfold recent in sym (in_window_later l.window now later _ h);
      }) in
    elim (check-verdict key (now + d) (run cs l) b.valid (rw b.limit one)) [
      | inl (e', _) ↦ e'
      | inr (w, _, busy, _, _) ↦
          absurd (omega (arith, ap length (b.stays (now + d) (le_refl (now + d))), b.limit))
    ]

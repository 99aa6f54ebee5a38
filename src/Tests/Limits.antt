-- ===== src/Tests/Limits.antt =====
-- internal/ratelimit and internal/refresh at concrete inputs.
use toomanyhours_api.Prelude.{
  ℕ, ◌≤◌, ◌<◌, ◌≡◌, ◌⊎◌, ◌↔◌, refl, ◌&&◌, true, some, List, [], ◌∷◌, ◌++◌, ltb, if◌then◌else◌,
  length, arith,
}
use toomanyhours_api.Text.{Text, codes, same}
use toomanyhours_api.Dict.{lookup}
use toomanyhours_api.Ratelimit.{
  Limiter, check, record_attempt, prune, prune_key, store_kept, verdict, allowed, refused,
}
use toomanyhours_api.Ratelimit.Window.{in_window}
use toomanyhours_api.Ratelimit.Invariant.{IsValid, Call, call, checks, records, call-IsValid}
use toomanyhours_api.Ratelimit.Spec.{recent, record_attempt-recent}
use toomanyhours_api.Ratelimit.Verdict.{check-verdict, IsTrickle, run, refused_until}
use toomanyhours_api.Refresh.{State, decide, accept}
use toomanyhours_api.Refresh.Decide.{Rule, decide-Rule}

abbrev ann : Text
ann = codes "ann"

abbrev bob : Text
bob = codes "bob"

-- Two attempts of a key are allowed in 100 nanoseconds, and `ann` has made them.
abbrev busy : Limiter
busy = record {
  max_failures = 2;
  window = 100;
  failures = (ann, 10 ∷ 40 ∷ []) ∷ [];
  last_sweep = 0;
}

busy-IsValid : IsValid 50 busy
unfolding lookup
busy-IsValid = record { distinct = (refl, tt); slices = ground arith }

call-IsValid_example : IsValid 50 (call 50 (records bob) busy)
call-IsValid_example = call-IsValid 50 (records bob) busy busy-IsValid

record_attempt-recent_example : recent (record_attempt bob 50 busy) 60 bob ≡ (
    if same bob bob && ltb (length (recent busy 50 bob)) 2
    then recent busy 60 bob ++ in_window 100 60 (50 ∷ [])
    else recent busy 60 bob)
record_attempt-recent_example = record_attempt-recent bob bob 50 60 busy (ground arith) busy-IsValid

check-verdict_example :
    (((check ann 50 busy).0 ≡ allowed) × (length (recent busy 50 ann) < 2))
    ⊎ ((d : ℕ) × ((check ann 50 busy).0 ≡ refused d)
        × (length (recent busy 50 ann) ≡ 2)
        × (1 ≤ d)
        × (d ≤ 100))
check-verdict_example = check-verdict ann 50 busy busy-IsValid (ground arith)

-- The oldest attempt was made at 10, and leaves the window at 110.
busy-refused : (check ann 50 busy).0 ≡ refused 60
unfolding check prune_key store_kept prune verdict lookup same
busy-refused = refl

-- Others go on, and `ann` tries again in vain.
abbrev trickle : List (ℕ × Call)
trickle = (60, records bob) ∷ (70, checks ann) ∷ (80, records ann) ∷ []

trickle-IsTrickle : IsTrickle 50 110 trickle
trickle-IsTrickle = ground arith

refused_until_example : (check ann 110 (run trickle busy)).0 ≡ allowed
refused_until_example =
    refused_until ann 50 60 busy trickle busy-IsValid (ground arith) busy-refused trickle-IsTrickle

-- Revoked at 95 by a rotation, and presented again at 100, within the grace.
abbrev rotated : State
rotated = record { found = true; expires_at = 500; revoked_at = some 95; family_active = true }

decide-Rule_example : (decide rotated 100 10 ≡ accept) ↔ Rule rotated 100 10 accept
decide-Rule_example = decide-Rule rotated 100 10 accept

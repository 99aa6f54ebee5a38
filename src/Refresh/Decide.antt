-- ===== src/Refresh/Decide.antt =====
-- The decision against the rule that it implements, all branches together.
use mathlib.Core.Path.{subst}
use toomanyhours_api.Prelude.{
  ℕ, ◌+◌, ◌≤◌, ◌<◌, ◌≡◌, ◌⊎◌, ◌↔◌, Bool, true, false, Option, none, some, arith, refl, Bool-cases,
  inl, inr, leb, ltb,
}
use toomanyhours_api.Refresh.{
  State, Decision, accept, reject_unknown, reject_expired, reject_revoked, reuse_detected, decide,
  decide_revoked,
}

-- The rule for each decision, independent of the order of the tests.
abbrev pub Rule : State → ℕ → ℕ → Decision → Type 0
Rule s now grace accept =
    (s.found ≡ true)
    × (now < s.expires_at)
    × ((s.revoked_at ≡ none)
        ⊎ ((at : ℕ) × (s.revoked_at ≡ some at) × (s.family_active ≡ true) × (now ≤ at + grace)))
Rule s now grace reject_unknown = s.found ≡ false
Rule s now grace reject_expired = (s.found ≡ true) × (s.expires_at ≤ now)
Rule s now grace reject_revoked =
    (s.found ≡ true)
    × (now < s.expires_at)
    × ((at : ℕ) × (s.revoked_at ≡ some at))
    × (s.family_active ≡ false)
Rule s now grace reuse_detected =
    (s.found ≡ true)
    × (now < s.expires_at)
    × ((at : ℕ) × (s.revoked_at ≡ some at) × (s.family_active ≡ true) × (at + grace < now))

abbrev state : Bool → ℕ → Option ℕ → Bool → State
state found expires_at revoked_at active = record {
  found = found;
  expires_at = expires_at;
  revoked_at = revoked_at;
  family_active = active;
}

revoked-Rule :
    (active : Bool) (expires_at at now grace : ℕ)
    → now < expires_at
    → Rule (state true expires_at (some at) active) now grace (decide_revoked active at now grace)
unfolding decide_revoked
revoked-Rule false expires_at at now grace h = (refl, h, (at, refl), refl)
revoked-Rule true expires_at at now grace h = elim (Bool-cases (leb now (at + grace))) [
  | inl recent ↦ rw recent (refl, h, inr (at, refl, refl, ground arith))
  | inr late ↦ rw late (refl, h, (at, refl, refl, ground arith))
]

state-Rule :
    (found : Bool) (expires_at : ℕ) (revoked_at : Option ℕ) (active : Bool) (now grace : ℕ)
    → let s = state found expires_at revoked_at active in Rule s now grace (decide s now grace)
unfolding decide
state-Rule false expires_at revoked_at active now grace = refl
state-Rule true expires_at revoked_at active now grace = elim (Bool-cases (ltb now expires_at)) [
  | inl live ↦ rw live (live_case revoked_at (ground arith))
  | inr over ↦ rw over (refl, ground arith)
]
  where
    live_case :
        (r : Option ℕ)
        → now < expires_at
        → Rule
            (state true expires_at r active)
            now
            grace
            (elim r [ none ↦ accept | some at ↦ decide_revoked active at now grace ])
    live_case none h = (refl, h, inl refl)
    live_case (some at) h = revoked-Rule active expires_at at now grace h

Rule-decide :
    (s : State) (now grace : ℕ) (d : Decision) → Rule s now grace d → decide s now grace ≡ d
unfolding decide decide_revoked
Rule-decide s now grace accept (f, e, inl r) = ground arith
Rule-decide s now grace accept (f, e, inr (at, r, a, g)) = ground arith
Rule-decide s now grace reject_unknown f = ground arith
Rule-decide s now grace reject_expired (f, e) = ground arith
Rule-decide s now grace reject_revoked (f, e, (at, r), a) = ground arith
Rule-decide s now grace reuse_detected (f, e, (at, r, a, g)) = ground arith

-- A token gets a decision exactly when the rule of that decision holds of it: unknown; expired, also
-- if it is revoked; revoked in a family with no live token; revoked longer ago than the grace in a
-- family that is alive; accepted if active, or revoked within the grace in a family that is alive.
pub decide-Rule :
    (s : State) (now grace : ℕ) (d : Decision) → (decide s now grace ≡ d) ↔ Rule s now grace d
decide-Rule s now grace d = (
  λ e.
      subst (Rule s now grace) e
        (state-Rule s.found s.expires_at s.revoked_at s.family_active now grace),
  Rule-decide s now grace d,
)

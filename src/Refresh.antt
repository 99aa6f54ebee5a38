-- ===== src/Refresh.antt =====
-- internal/refresh/decide.go: whether a presented refresh token is still good.
pub mod Decide
use toomanyhours_api.Prelude.{ℕ, ◌+◌, Bool, not, Option, none, some, ltb, leb, if◌then◌else◌}

-- `State`: what the database knows about a presented token.
pub record State : Type 0 where
  pub found : Bool
  pub expires_at : ℕ
  pub revoked_at : Option ℕ
  pub family_active : Bool

-- `Decision`, in the source's order.
pub data Decision : Type 0 where
  accept reject_unknown reject_expired reject_revoked reuse_detected : Decision

-- The tests on a token that is revoked. `now.Sub(revokedAt) <= grace` is written without the
-- subtraction.
unfoldable pub decide_revoked : Bool → ℕ → ℕ → ℕ → Decision
decide_revoked family_active revoked_at now grace =
    if not family_active
    then reject_revoked
    else if leb now (revoked_at + grace)
    then accept
    else reuse_detected

-- `Decide`.
unfoldable pub decide : State → ℕ → ℕ → Decision
unfolding decide_revoked
decide state now grace =
    if not state.found
    then reject_unknown
    else if not (ltb now state.expires_at)
    then reject_expired
    else elim state.revoked_at [
      | none ↦ accept
      | some at ↦ decide_revoked state.family_active at now grace
    ]

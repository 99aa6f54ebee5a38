-- ===== src/Igdb/Throttle.antt =====
-- internal/igdb/throttle.go: at most a fixed number of requests to IGDB in each second.
--
-- A time is a number of nanoseconds. A caller that has to wait sleeps until its slot, unless its
-- request ends first.
pub mod Slots
use toomanyhours_api.Prelude.{
  ℕ, suc, ◌+◌, ◌-◌, ◌/◌, Bool, ltb, leb, if◌then◌else◌, Result, ok, err, max,
}
use toomanyhours_api.World.{World, Outside}
use toomanyhours_api.World.Exec.{Exec}
use toomanyhours_api.Igdb.Wire.{ClientState}

-- `requestsPerSecond`.
abbrev pub requests_per_second : ℕ
requests_per_second = 4

abbrev pub one_second : ℕ
one_second = 1000000000

-- The interval of `newThrottle`.
unfoldable pub interval : ℕ → ℕ
interval per_second = one_second / per_second

-- The slot of a caller that arrives, and the next free one.
unfoldable pub claim_slot : ℕ → ℕ → ℕ → ℕ × ℕ
claim_slot spacing now next =
    let slot = if ltb next now then now else next in (slot, slot + spacing)

-- The errors of a client, as its callers tell them apart: `ErrNotConfigured`, `ErrUpstream`, and
-- the error of a context that is done.
pub data ClientError : Type 0 where
  not_configured upstream context_done : ClientError

abbrev pub Call : Type 0 → Type 0
Call = Exec ClientError

module _ (out : Outside) where
  -- `wait`. The clock is read, and then the context asked, after the sleep if there is one.
  unfoldable pub wait : Call (Unit {0})
  unfolding claim_slot interval
  wait w =
      let (slot, next) =
        claim_slot (interval requests_per_second) (out.clock w.effects) w.igdb.next in
      let w' = record w { igdb = record w.igdb { next = next }; effects = suc (suc w.effects) } in
      if out.cancelled (suc w.effects) then (err context_done, w') else (ok tt, w')

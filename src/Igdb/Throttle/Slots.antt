-- ===== src/Igdb/Throttle/Slots.antt =====
-- The slots that the throttle of internal/igdb/throttle.go gives out.
use toomanyhours_api.Prelude.{
  ℕ, zero, suc, ◌+◌, ◌*◌, ◌≤◌, Bool, ◌&&◌, List, [], ◌∷◌, length, select, ltb, leb, arith,
}
use toomanyhours_api.Igdb.Throttle.{claim_slot, interval, requests_per_second, one_second}

-- The slots of callers that arrive at these times, by the clock of each.
unfoldable pub slots : ℕ → ℕ → List ℕ → List ℕ
unfolding claim_slot
slots spacing next [] = []
slots spacing next (now ∷ nows) =
    let (slot, next') = claim_slot spacing now next in slot ∷ slots spacing next' nows

-- A time in the window that starts at `from` and ends before `to`.
abbrev pub in_window : ℕ → ℕ → ℕ → Bool
in_window from to slot = leb from slot && ltb slot to

-- The slots of a window.
abbrev pub window : ℕ → ℕ → List ℕ → List ℕ
window from to ts = select (in_window from to) ts

-- Past the next free slot there is room for the slots that fit before the end of the window.
window-later :
    (sp from to k next : ℕ) (nows : List ℕ)
    → to ≤ next + k * sp
    → length (window from to (slots sp next nows)) ≤ k
unfolding slots claim_slot select
window-later sp from to k next [] h = omega arith
window-later sp from to zero next (now ∷ nows) h = ground (
  arith,
  window-later sp from to 0 (next + sp) nows (omega arith),
  window-later sp from to 0 (now + sp) nows,
)
window-later sp from to (suc k) next (now ∷ nows) h = ground (
  arith,
  window-later sp from to k (next + sp) nows,
  window-later sp from to k (now + sp) nows,
  window-later sp from to (suc k) (now + sp) nows,
)

window-any :
    (sp from to k next : ℕ) (nows : List ℕ)
    → to ≤ from + suc k * sp
    → length (window from to (slots sp next nows)) ≤ suc k
unfolding slots claim_slot select
window-any sp from to k next [] h = omega arith
window-any sp from to k next (now ∷ nows) h = ground (
  arith,
  window-any sp from to k (next + sp) nows,
  window-any sp from to k (now + sp) nows,
  window-later sp from to k (next + sp) nows,
  window-later sp from to k (now + sp) nows,
)

-- Whatever the arrivals, no second has more slots than IGDB allows requests in it.
pub slots-per_second :
    (next from : ℕ) (nows : List ℕ)
    → length (window from (from + one_second) (slots (interval requests_per_second) next nows))
      ≤ requests_per_second
unfolding interval
slots-per_second next from nows =
    window-any 250000000 from (from + one_second) 3 next nows (omega arith)

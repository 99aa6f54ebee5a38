-- ===== src/Ratelimit/Window.antt =====
-- The recorded times of one key: `prune` against the times that lie in the window.
use toomanyhours_api.Prelude.{
  ℕ, ◌+◌, ◌≤◌, ◌<◌, ◌≡◌, refl, List, [], ◌∷◌, ◌++◌, ltb, length, All, select, arith,
}
use toomanyhours_api.Ratelimit.{prune}

-- The entries of a slice stand in time order.
abbrev pub Ascending : List ℕ → Type 0
Ascending [] = Unit
Ascending (t ∷ ts) = All (λ u. t ≤ u) ts × Ascending ts

-- The times that are less than one window old.
abbrev pub in_window : ℕ → ℕ → List ℕ → List ℕ
in_window window now = select (λ t. ltb now (t + window))

pub in_window-All :
    (window now lo : ℕ) (ts : List ℕ)
    → All (λ u. lo ≤ u) ts
    → now < lo + window
    → in_window window now ts ≡ ts
unfolding select
in_window-All window now lo [] h k = refl
in_window-All window now lo (t ∷ ts) h k = ground (arith, in_window-All window now lo ts h.1 k)

-- In time order, the survivors of the scan are exactly the times in the window.
pub prune-in_window :
    (window now : ℕ) (ts : List ℕ) → Ascending ts → prune window now ts ≡ in_window window now ts
unfolding prune select
prune-in_window window now [] h = refl
prune-in_window window now (t ∷ ts) h =
    ground (arith, prune-in_window window now ts h.1, in_window-All window now t ts h.0)

pub in_window_later :
    (window now later : ℕ) (ts : List ℕ)
    → now ≤ later
    → in_window window later (in_window window now ts) ≡ in_window window later ts
unfolding select
in_window_later window now later [] h = refl
in_window_later window now later (t ∷ ts) h = ground (arith, in_window_later window now later ts h)

pub in_window-append :
    (window now : ℕ) (ts us : List ℕ)
    → in_window window now (ts ++ us) ≡ in_window window now ts ++ in_window window now us
unfolding select
in_window-append window now [] us = refl
in_window-append window now (t ∷ ts) us = ground (arith, in_window-append window now ts us)

pub length-prune-le : (window now : ℕ) (ts : List ℕ) → length (prune window now ts) ≤ length ts
unfolding prune
length-prune-le window now [] = omega arith
length-prune-le window now (t ∷ ts) = ground (arith, length-prune-le window now ts)

module _ {κ} (P : ℕ → Type κ) where
  pub prune-All : (window now : ℕ) (ts : List ℕ) → All P ts → All P (prune window now ts)
  unfolding prune
  prune-All window now [] h = tt
  prune-All window now (t ∷ ts) h = ground (arith, prune-All window now ts h.1)

pub prune-Ascending :
    (window now : ℕ) (ts : List ℕ) → Ascending ts → Ascending (prune window now ts)
unfolding prune
prune-Ascending window now [] h = tt
prune-Ascending window now (t ∷ ts) h = ground (arith, prune-Ascending window now ts h.1)

-- A reading of the clock at the end of a slice of earlier ones.
pub append-Ascending :
    (ts : List ℕ) (now : ℕ) → Ascending ts → All (λ t. t ≤ now) ts → Ascending (ts ++ now ∷ [])
append-Ascending [] now h k = (tt, tt)
append-Ascending (t ∷ ts) now h k = (late ts h.0 k.0, append-Ascending ts now h.1 k.1)
  where
    late : (us : List ℕ) → All (λ u. t ≤ u) us → t ≤ now → All (λ u. t ≤ u) (us ++ now ∷ [])
    late [] a b = (b, tt)
    late (u ∷ us) a b = (a.0, late us a.1 b)

pub All-concat {κ} : (P : ℕ → Type κ) (ts : List ℕ) (t : ℕ) → All P ts → P t → All P (ts ++ t ∷ [])
All-concat P [] t h p = (p, tt)
All-concat P (u ∷ ts) t h p = (h.0, All-concat P ts t h.1 p)

pub All-later :
    (now later : ℕ) (ts : List ℕ) → now ≤ later → All (λ t. t ≤ now) ts → All (λ t. t ≤ later) ts
All-later now later [] h k = tt
All-later now later (t ∷ ts) h k = (omega arith, All-later now later ts h k.1)

-- ===== src/Text/Trim.antt =====
-- `strings.TrimSpace` and its laws.
use toomanyhours_api.Prelude.{◌≡◌, refl, false, [], ◌∷◌, arith, if◌then◌else◌, All, ℕ, map}
use toomanyhours_api.Text.{Text, is_space}

unfoldable pub trim_left : Text → Text
trim_left [] = []
trim_left (r ∷ rs) = let rest = trim_left rs in if is_space r then rest else r ∷ rs

-- A rune in front of what is left of the rest once its trailing spaces are gone.
unfoldable pub cons_trimmed : ℕ → Text → Text
cons_trimmed r [] = if is_space r then [] else r ∷ []
cons_trimmed r (s ∷ ss) = r ∷ s ∷ ss

unfoldable pub trim_right : Text → Text
trim_right [] = []
trim_right (r ∷ rs) = cons_trimmed r (trim_right rs)

-- `strings.TrimSpace`.
unfoldable pub trim_space : Text → Text
trim_space t = trim_right (trim_left t)

-- Neither end of a text is a space.
abbrev pub HeadNotSpace : Text → Type 0
HeadNotSpace [] = Unit
HeadNotSpace (r ∷ rs) = is_space r ≡ false

trim_left-Head : (t : Text) → HeadNotSpace (trim_left t)
unfolding trim_left
trim_left-Head [] = tt
trim_left-Head (r ∷ rs) = ground (arith, trim_left-Head rs)

trim_right-Head : (t : Text) → HeadNotSpace t → HeadNotSpace (trim_right t)
unfolding trim_right cons_trimmed
trim_right-Head [] h = tt
trim_right-Head (r ∷ rs) h = ground arith

trim_left_fixed : (t : Text) → HeadNotSpace t → trim_left t ≡ t
unfolding trim_left
trim_left_fixed [] h = refl
trim_left_fixed (r ∷ rs) h = rw h

cons_trimmed_idem :
    (r : ℕ) (rest : Text)
    → trim_right rest ≡ rest
    → trim_right (cons_trimmed r rest) ≡ cons_trimmed r rest
unfolding trim_right cons_trimmed
cons_trimmed_idem r [] h = ground arith
cons_trimmed_idem r (s ∷ ss) h = rw (h, cons_trimmed)

pub trim_right_idem : (t : Text) → trim_right (trim_right t) ≡ trim_right t
unfolding trim_right
trim_right_idem [] = refl
trim_right_idem (r ∷ rs) = cons_trimmed_idem r (trim_right rs) (trim_right_idem rs)

-- Trimming is done after one pass.
pub trim_space_idem : (t : Text) → trim_space (trim_space t) ≡ trim_space t
unfolding trim_space
trim_space_idem t =
    rw
      (trim_left_fixed (trim_right (trim_left t))
        (trim_right-Head (trim_left t) (trim_left-Head t)))
      (trim_right_idem (trim_left t))

abbrev pub NoSpace : Text → Type 0
NoSpace = All (λ r. is_space r ≡ false)

trim_right_solid : (t : Text) → NoSpace t → trim_right t ≡ t
unfolding trim_right cons_trimmed
trim_right_solid [] h = refl
trim_right_solid (r ∷ []) h = rw h.0
trim_right_solid (r ∷ s ∷ ss) h = rw (trim_right_solid (s ∷ ss) h.1, cons_trimmed)

-- A text with no space in it is left alone.
pub trim_space_solid : (t : Text) → NoSpace t → trim_space t ≡ t
unfolding trim_space trim_right trim_left
trim_space_solid [] h = refl
trim_space_solid (r ∷ rs) h = rw (trim_left_fixed (r ∷ rs) h.0) (trim_right_solid (r ∷ rs) h)

-- What maps runes and makes or removes no space goes through the trimming.
module _ (f : ℕ → ℕ) (keeps : (r : ℕ) → is_space (f r) ≡ is_space r) where
  trim_left-map : (t : Text) → trim_left (map f t) ≡ map f (trim_left t)
  unfolding trim_left
  trim_left-map [] = refl
  trim_left-map (r ∷ rs) = ground (arith, keeps r, trim_left-map rs)

  cons_trimmed-map : (r : ℕ) (t : Text) → cons_trimmed (f r) (map f t) ≡ map f (cons_trimmed r t)
  unfolding cons_trimmed
  cons_trimmed-map r [] = ground (arith, keeps r)
  cons_trimmed-map r (s ∷ ss) = refl

  trim_right-map : (t : Text) → trim_right (map f t) ≡ map f (trim_right t)
  unfolding trim_right
  trim_right-map [] = refl
  trim_right-map (r ∷ rs) = rw (trim_right-map rs) (cons_trimmed-map r (trim_right rs))

  pub trim_space-map : (t : Text) → trim_space (map f t) ≡ map f (trim_space t)
  unfolding trim_space
  trim_space-map t = rw (trim_left-map t) (trim_right-map (trim_left t))

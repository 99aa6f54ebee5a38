-- ===== src/Text/Case.antt =====
-- The laws of `strings.ToLower`.
use toomanyhours_api.Prelude.{◌≡◌, refl, [], ◌∷◌, arith, ℕ}
use toomanyhours_api.Text.{Text, is_space, to_lower, to_lower_rune, IsCaseTable}

to_lower_rune_idem :
    (wide : ℕ → ℕ)
    → IsCaseTable wide
    → (r : ℕ) → to_lower_rune wide (to_lower_rune wide r) ≡ to_lower_rune wide r
unfolding to_lower_rune
to_lower_rune_idem wide c r = ground (arith, c.lower_stable r)

pub to_lower_idem :
    (wide : ℕ → ℕ)
    → IsCaseTable wide
    → (t : Text) → to_lower wide (to_lower wide t) ≡ to_lower wide t
unfolding to_lower
to_lower_idem wide c [] = refl
to_lower_idem wide c (r ∷ rs) = cc (to_lower_rune_idem wide c r, to_lower_idem wide c rs)

pub to_lower_rune-is_space :
    (wide : ℕ → ℕ) → IsCaseTable wide → (r : ℕ) → is_space (to_lower_rune wide r) ≡ is_space r
unfolding to_lower_rune is_space
to_lower_rune-is_space wide c r = ground (arith, c.lower_spaces r)

-- ===== src/Validate/Entry.antt =====
-- What the rules of internal/validate/listentry.go accept.
use toomanyhours_api.Prelude.{ℕ, ◌≡◌, ◌↔◌, ◌⊎◌, inl, inr, true, ok, arith, any}
use toomanyhours_api.Text.{Text, codes, same→eq, same_refl}
use toomanyhours_api.Validate.{
  category, categories, category_finished, normalize, is_member, rating_allowed,
}

-- One of the three stored categories.
abbrev pub IsCategory : Text → Type 0
IsCategory c = (c ≡ codes "finished") ⊎ (c ≡ codes "currently_playing") ⊎ (c ≡ codes "want_to_play")

is_member-categories : (c : Text) → is_member c categories ≡ true → IsCategory c
unfolding is_member categories any
is_member-categories c h = ground (
  arith,
  same→eq c (codes "finished"),
  same→eq c (codes "currently_playing"),
  same→eq c (codes "want_to_play"),
)

IsCategory-is_member : (c : Text) → IsCategory c → is_member c categories ≡ true
unfolding is_member categories any
IsCategory-is_member c (inl e) = ground (arith, same_refl c)
IsCategory-is_member c (inr (inl e)) = ground (arith, same_refl c)
IsCategory-is_member c (inr (inr e)) = ground (arith, same_refl c)

-- A category is accepted and stored as `c` exactly when `c` is the normal form of the input and
-- one of the three stored values.
pub category-IsCategory :
    (wide : ℕ → ℕ) (raw c : Text)
    → (category wide raw ≡ ok c) ↔ ((normalize wide raw ≡ c) × IsCategory c)
unfolding category
category-IsCategory wide raw c = (
  λ h. ground (arith, is_member-categories (normalize wide raw), is_member-categories c),
  λ (e, v). rw (e, IsCategory-is_member c v),
)

-- A rating or a review is allowed in the category `finished` and in no other.
pub rating_allowed_iff : (c : Text) → (rating_allowed c ≡ true) ↔ (c ≡ category_finished)
unfolding rating_allowed
rating_allowed_iff c = (same→eq c category_finished, λ e. rw e (same_refl category_finished))

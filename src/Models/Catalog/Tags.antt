-- ===== src/Models/Catalog/Tags.antt =====
-- `SplitTags` sorts the stored tags by facet, and undoes the merging of `FromIGDB`.
use toomanyhours_api.Prelude.{◌≡◌, refl, List, [], ◌∷◌, ◌++◌, arith, select, ◌⊎◌, true, false, sym}
use mathlib.Core.List.{append-nil, append_assoc}
use toomanyhours_api.Text.{Text, same, same→eq}
use toomanyhours_api.Models.Catalog.{
  Game, Tag, facet_genre, facet_theme, facet_game_mode, split_tag, split_loop, split_tags,
}

-- The tags of one facet, in their stored order.
abbrev pub of_facet : Text → List Tag → List Tag
of_facet facet = select (λ t. same t.facet facet)

-- A facet is one of the three at most.
one_facet :
    (f : Text)
    → ((same f facet_genre ≡ true)
        × (same f facet_theme ≡ false)
        × (same f facet_game_mode ≡ false))
      ⊎ ((same f facet_genre ≡ false)
          × (same f facet_theme ≡ true)
          × (same f facet_game_mode ≡ false))
      ⊎ ((same f facet_genre ≡ false)
          × (same f facet_theme ≡ false)
          × (same f facet_game_mode ≡ true))
      ⊎ ((same f facet_genre ≡ false)
          × (same f facet_theme ≡ false)
          × (same f facet_game_mode ≡ false))
one_facet f =
    ground (arith, same→eq f facet_genre, same→eq f facet_theme, same→eq f facet_game_mode, apart)
  where
    apart :
        (same facet_genre facet_theme ≡ false)
        × (same facet_genre facet_game_mode ≡ false)
        × (same facet_theme facet_game_mode ≡ false)
    apart = unfold same in (refl, refl, refl)

split_loop-facets :
    (g : Game) (ts : List Tag)
    → ((split_loop g ts).genres ≡ g.genres ++ of_facet facet_genre ts)
      × ((split_loop g ts).themes ≡ g.themes ++ of_facet facet_theme ts)
      × ((split_loop g ts).game_modes ≡ g.game_modes ++ of_facet facet_game_mode ts)
unfolding split_loop select
split_loop-facets g [] = (sym (append-nil _), sym (append-nil _), sym (append-nil _))
split_loop-facets g (t ∷ ts) = ground (
  arith,
  one_facet t.facet,
  split_loop-facets (split_tag g t) ts,
  append_assoc g.genres (t ∷ []) (of_facet facet_genre ts),
  append_assoc g.themes (t ∷ []) (of_facet facet_theme ts),
  append_assoc g.game_modes (t ∷ []) (of_facet facet_game_mode ts),
)

-- The three lists that are sent hold the stored tags of their facet, in the stored order, whatever
-- they held before.
pub split_tags-facets :
    (g : Game)
    → ((split_tags g).genres ≡ of_facet facet_genre g.tags)
      × ((split_tags g).themes ≡ of_facet facet_theme g.tags)
      × ((split_tags g).game_modes ≡ of_facet facet_game_mode g.tags)
unfolding split_tags
split_tags-facets g =
    split_loop-facets (record g { genres = []; themes = []; game_modes = [] }) g.tags

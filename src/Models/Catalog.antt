-- ===== src/Models/Catalog.antt =====
-- internal/models/Game.go, and the `Game` of internal/igdb/types.go from which it is made.
pub mod Tags
use toomanyhours_api.Prelude.{ℕ, Option, none, some, List, [], ◌∷◌, ◌++◌, map, if◌then◌else◌}
use toomanyhours_api.Text.{Text, codes, same}

-- `igdb.Tag`.
pub record IgdbTag : Type 0 where
  pub igdb_id : ℕ
  pub name : Text

-- `igdb.Game`.
pub record IgdbGame : Type 0 where
  pub igdb_id : ℕ
  pub title : Text
  pub kind : Text
  pub parent_igdb_id : Option ℕ
  pub summary : Option Text
  pub image : Option Text
  pub release_date : Option Text
  pub genres : List IgdbTag
  pub themes : List IgdbTag
  pub game_modes : List IgdbTag

-- `models.Tag`.
pub record Tag : Type 0 where
  pub id : ℕ
  pub facet : Text
  pub igdb_id : ℕ
  pub name : Text
  pub created_at : ℕ
  pub updated_at : ℕ

-- `models.Game`.
pub record Game : Type 0 where
  pub id : ℕ
  pub igdb_id : ℕ
  pub title : Text
  pub image : Text
  pub kind : Text
  pub parent_igdb_id : Option ℕ
  pub summary : Text
  pub release_date : ℕ
  pub tags : List Tag
  pub genres : List Tag
  pub themes : List Tag
  pub game_modes : List Tag
  pub created_at : ℕ
  pub updated_at : ℕ

abbrev pub facet_genre : Text
facet_genre = codes "genre"

abbrev pub facet_theme : Text
facet_theme = codes "theme"

abbrev pub facet_game_mode : Text
facet_game_mode = codes "game_mode"

-- One round of the loop of `SplitTags`: the case of the switch that the facet selects.
unfoldable pub split_tag : Game → Tag → Game
split_tag g t =
    if same t.facet facet_genre
    then record g { genres = g.genres ++ t ∷ [] }
    else if same t.facet facet_theme
    then record g { themes = g.themes ++ t ∷ [] }
    else if same t.facet facet_game_mode
    then record g { game_modes = g.game_modes ++ t ∷ [] }
    else g

-- The loop of `SplitTags`.
unfoldable pub split_loop : Game → List Tag → Game
unfolding split_tag
split_loop g [] = g
split_loop g (t ∷ ts) = split_loop (split_tag g t) ts

-- `SplitTags`.
unfoldable pub split_tags : Game → Game
split_tags g = split_loop (record g { genres = []; themes = []; game_modes = [] }) g.tags

-- A tag of a fetched game, not yet stored: its id and its dates are zero.
unfoldable pub new_tag : Text → IgdbTag → Tag
new_tag facet t = record {
  id = 0;
  facet = facet;
  igdb_id = t.igdb_id;
  name = t.name;
  created_at = 0;
  updated_at = 0;
}

-- A pointer's text, or the zero value.
unfoldable pub text_or_empty : Option Text → Text
text_or_empty none = []
text_or_empty (some t) = t

-- The stored date: the one that `time.Parse` reads, or the zero time.
unfoldable pub parse_release : (Text → Option ℕ) → Option Text → ℕ
parse_release parse_date none = 0
parse_release parse_date (some d) = elim (parse_date d) [ none ↦ 0 | some t ↦ t ]

-- `FromIGDB`, over `time.Parse("2006-01-02", …)`.
unfoldable pub from_igdb : (Text → Option ℕ) → IgdbGame → Game
unfolding new_tag
from_igdb parse_date g = record {
  id = 0;
  igdb_id = g.igdb_id;
  title = g.title;
  image = text_or_empty g.image;
  kind = g.kind;
  parent_igdb_id = g.parent_igdb_id;
  summary = text_or_empty g.summary;
  release_date = parse_release parse_date g.release_date;
  tags =
      map (new_tag facet_genre) g.genres
      ++ (map (new_tag facet_theme) g.themes ++ map (new_tag facet_game_mode) g.game_modes);
  genres = [];
  themes = [];
  game_modes = [];
  created_at = 0;
  updated_at = 0;
}

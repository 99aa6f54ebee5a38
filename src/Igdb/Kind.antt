-- ===== src/Igdb/Kind.antt =====
-- internal/igdb/kind.go: IGDB's release types as stored values.
use toomanyhours_api.Prelude.{ℕ, Option, none, some, List, [], ◌∷◌, if◌then◌else◌}
use toomanyhours_api.Text.{Text, codes, same}

abbrev pub type_dlc : ℕ
type_dlc = 1

abbrev pub type_expansion : ℕ
type_expansion = 2

abbrev pub type_mod : ℕ
type_mod = 5

abbrev pub type_fork : ℕ
type_fork = 12

abbrev pub type_pack_addon : ℕ
type_pack_addon = 13

abbrev pub type_update : ℕ
type_update = 14

-- `kindSlugs`.
abbrev pub kind_slugs : List (Text × Text)
kind_slugs =
    (codes "Main Game", codes "main_game")
    ∷ (codes "DLC", codes "dlc")
    ∷ (codes "Expansion", codes "expansion")
    ∷ (codes "Bundle", codes "bundle")
    ∷ (codes "Standalone Expansion", codes "standalone_expansion")
    ∷ (codes "Mod", codes "mod")
    ∷ (codes "Episode", codes "episode")
    ∷ (codes "Season", codes "season")
    ∷ (codes "Remake", codes "remake")
    ∷ (codes "Remaster", codes "remaster")
    ∷ (codes "Expanded Game", codes "expanded_game")
    ∷ (codes "Port", codes "port")
    ∷ (codes "Fork", codes "fork")
    ∷ (codes "Pack / Addon", codes "pack_addon")
    ∷ (codes "Update", codes "update")
    ∷ []

abbrev pub unknown_kind : Text
unknown_kind = codes "unknown"

-- The lookup in `kindSlugs`.
unfoldable pub slug_in : Text → List (Text × Text) → Option Text
slug_in name [] = none
slug_in name ((display, slug) ∷ rest) =
    let found = slug_in name rest in if same display name then some slug else found

-- `kindSlug`.
unfoldable pub kind_slug : Text → Text
unfolding slug_in
kind_slug name = elim (slug_in name kind_slugs) [ none ↦ unknown_kind | some slug ↦ slug ]

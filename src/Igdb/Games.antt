-- ===== src/Igdb/Games.antt =====
-- internal/igdb/client.go: the three queries on games, and the parsing of what comes back.
use toomanyhours_api.Prelude.{
  ℕ, Option, none, some, List, [], ◌∷◌, ◌++◌, if◌then◌else◌, length, map,
}
use toomanyhours_api.Text.{Text, codes}
use toomanyhours_api.Validate.{is_empty}
use toomanyhours_api.Models.Catalog.{IgdbTag, IgdbGame}
use toomanyhours_api.World.{Outside}
use toomanyhours_api.World.Exec.{pure, ◌>>=◌}
use toomanyhours_api.Igdb.{escape_search_term}
use toomanyhours_api.Igdb.Wire.{ApiTag, ApiGame}
use toomanyhours_api.Igdb.Kind.{
  type_dlc, type_expansion, type_mod, type_fork, type_pack_addon, type_update, unknown_kind,
  kind_slug,
}
use toomanyhours_api.Igdb.Throttle.{Call}
use toomanyhours_api.Igdb.Client.{Config, or_upstream, request}

abbrev pub cover_base_url : Text
cover_base_url = codes "https://images.igdb.com/igdb/image/upload/t_cover_big/"

-- One round of the loop of `tags`.
unfoldable pub to_tag : ApiTag → IgdbTag
to_tag t = record { igdb_id = t.id; name = t.name }

-- The kind of a parsed game.
unfoldable pub kind_of : Option Text → Text
unfolding kind_slug
kind_of none = unknown_kind
kind_of (some name) = kind_slug name

-- The address of a cover, of a game that has one.
unfoldable pub cover_url : Option Text → Option Text
cover_url none = none
cover_url (some image_id) =
    if is_empty image_id then none else some (cover_base_url ++ image_id ++ codes ".jpg")

abbrev pub game_fields : Text
game_fields =
    codes "fields id,name,cover.image_id,first_release_date,game_type.type,parent_game,summary,"
    ++ codes "genres.id,genres.name,themes.id,themes.name,game_modes.id,game_modes.name;"

abbrev pub dlc_limit : ℕ
dlc_limit = 50

module _ (out : Outside) where
  -- One round of the loop of `games`.
  unfoldable pub to_game : ApiGame → IgdbGame
  unfolding to_tag kind_of cover_url
  to_game p = record {
    igdb_id = p.id;
    title = p.name;
    kind = kind_of p.game_type;
    parent_igdb_id = p.parent_game;
    summary = p.summary;
    image = cover_url p.cover;
    release_date = elim p.first_release_date [ none ↦ none | some t ↦ some (out.format_date t) ];
    genres = map to_tag p.genres;
    themes = map to_tag p.themes;
    game_modes = map to_tag p.game_modes;
  }

  -- One condition of `excludeNoise`.
  unfoldable pub is_not : ℕ → Text
  is_not kind = codes "game_type != " ++ out.decimal kind

  -- `excludeNoise`.
  unfoldable pub exclude_noise : Text
  unfolding is_not
  exclude_noise =
      codes "where "
      ++ (is_not type_dlc
          ++ (codes " & "
              ++ (is_not type_expansion
                  ++ (codes " & "
                      ++ (is_not type_mod
                          ++ (codes " & "
                              ++ (is_not type_fork
                                  ++ (codes " & "
                                      ++ (is_not type_pack_addon
                                          ++ (codes " & "
                                              ++ (is_not type_update ++ codes ";")))))))))))

  -- The body of `Search`.
  unfoldable pub search_body : Text → ℕ → Text
  unfolding escape_search_term exclude_noise
  search_body query limit =
      codes "search \""
      ++ (escape_search_term query
          ++ (codes "\"; "
              ++ (game_fields
                  ++ (codes " "
                      ++ (exclude_noise
                          ++ (codes " limit " ++ (out.decimal limit ++ codes ";")))))))

  -- `strings.Join(list, ",")` of the ids in decimal.
  unfoldable pub join_ids : List ℕ → Text
  join_ids [] = []
  join_ids (id ∷ []) = out.decimal id
  join_ids (id ∷ next ∷ ids) = out.decimal id ++ (codes "," ++ join_ids (next ∷ ids))

  -- The body of `GetByIDs`.
  unfoldable pub by_ids_body : List ℕ → Text
  unfolding join_ids
  by_ids_body ids =
      codes "where id = ("
      ++ (join_ids ids
          ++ (codes "); "
              ++ (game_fields ++ (codes " limit " ++ (out.decimal (length ids) ++ codes ";")))))

  -- The body of `GetDLCs`.
  unfoldable pub dlcs_body : ℕ → Text
  dlcs_body parent =
      game_fields
      ++ (codes " where parent_game = "
          ++ (out.decimal parent
              ++ (codes " & (game_type = "
                  ++ (out.decimal type_dlc
                      ++ (codes " | game_type = "
                          ++ (out.decimal type_expansion
                              ++ (codes "); sort first_release_date asc; limit "
                                  ++ (out.decimal dlc_limit ++ codes ";"))))))))

  module _ (cfg : Config) where
    -- `games`.
    unfoldable pub games : Text → Call (List IgdbGame)
    games body = do
      raw ← request out cfg (codes "/games") body
      parsed ← or_upstream (out.decode_games raw)
      pure (map to_game parsed)

    -- `Search`.
    unfoldable pub search_games : Text → ℕ → Call (List IgdbGame)
    search_games query limit = games (search_body query limit)

    -- `GetByIDs`.
    unfoldable pub get_by_ids : List ℕ → Call (List IgdbGame)
    get_by_ids [] = pure []
    get_by_ids (id ∷ ids) = games (by_ids_body (id ∷ ids))

    -- `GetDLCs`.
    unfoldable pub get_dlcs : ℕ → Call (List IgdbGame)
    get_dlcs parent = games (dlcs_body parent)

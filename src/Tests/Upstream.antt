-- ===== src/Tests/Upstream.antt =====
-- The client of IGDB at concrete inputs.
use toomanyhours_api.Repo.Catalog.Ids.{KeepsIds}
use toomanyhours_api.Repo.Catalog.Lists.{SameRest}
use toomanyhours_api.Backfill.Safe.{backfill-KeepsIds}
use toomanyhours_api.Backfill.{backfill, ascending, place_id}
use toomanyhours_api.Prelude.{
  ℕ, ◌≡◌, ◌≤◌, refl, true, Option, some, [], ◌∷◌, ok, length, any, if◌then◌else◌, none,
}
use toomanyhours_api.Prelude.Int.{pos, ◌-ℤ◌, ltb_ℤ}
use toomanyhours_api.Text.{codes, same}
use toomanyhours_api.World.{World, Outside}
use toomanyhours_api.Igdb.Wire.{HttpRequest, form_post, query_post, HttpReply, TokenPayload}
use toomanyhours_api.Igdb.Kind.{kind_slug, unknown_kind}
use toomanyhours_api.Igdb.Throttle.{interval, requests_per_second, one_second}
use toomanyhours_api.Igdb.Throttle.Slots.{slots, window, slots-per_second}
use toomanyhours_api.Igdb.Client.{Config, request, query_request, token_request, refresh_margin}
use toomanyhours_api.Igdb.Client.Traffic.{Sends, request-Sends}
use toomanyhours_api.Igdb.Client.Recovery.{replies, request-recovers}
use toomanyhours_api.Tests.Sessions.{outside, alive}

slots-per_second_example :
    length (window 0 one_second (slots (interval requests_per_second) 0 (0 ∷ 0 ∷ 0 ∷ 0 ∷ 0 ∷ [])))
    ≤ requests_per_second
slots-per_second_example = slots-per_second 0 0 (0 ∷ 0 ∷ 0 ∷ 0 ∷ 0 ∷ [])

-- The fifth request of a burst waits for a second.
burst :
    slots (interval requests_per_second) 0 (0 ∷ 0 ∷ 0 ∷ 0 ∷ 0 ∷ [])
    ≡ 0 ∷ 250000000 ∷ 500000000 ∷ 750000000 ∷ 1000000000 ∷ []
unfolding slots interval
burst = refl

kinds :
    (kind_slug (codes "Pack / Addon") ≡ codes "pack_addon")
    × (kind_slug (codes "pack_addon") ≡ unknown_kind)
unfolding kind_slug same
kinds = (refl, refl)

abbrev twitch_app : Config
twitch_app = record {
  client_id = codes "id";
  client_secret = codes "s3cret";
  token_url = codes "token";
  api_url = codes "api";
}

-- Twitch issues the token "new", and IGDB refuses the token "old".
abbrev twitch : HttpRequest → Option HttpReply
twitch (form_post url fields) = some (replies 200 (codes "payload"))
twitch (query_post url headers body) =
    if any (λ h. same h.1 (codes "Bearer old")) headers
    then some (replies 401 (codes "refused"))
    else some (replies 200 (codes "games"))

abbrev issued : TokenPayload
issued = record { access_token = codes "new"; expires_in = pos 3600 }

abbrev revoking : Outside
revoking = record outside {
  clock = λ n. 0;
  http = λ n r. twitch r;
  decode_token = λ t. some issued;
}

abbrev holding : World
holding = record alive {
  igdb = record { token = codes "old"; expires_at = pos 100000000000; next = 0; sent = [] };
}

request-Sends_example : Sends 2 2 (request revoking twitch_app (codes "/games") (codes "q"))
request-Sends_example = request-Sends revoking twitch_app (codes "/games") (codes "q")

old-valid :
    (n : ℕ) → ltb_ℤ (pos (revoking.clock n)) (holding.igdb.expires_at -ℤ refresh_margin) ≡ true
unfolding ◌-ℤ◌
old-valid n = refl

old-refused :
    (n : ℕ)
    → revoking.http n
        (query_request revoking twitch_app (codes "/games") (codes "q") holding.igdb.token)
      ≡ some (replies 401 (codes "refused"))
unfolding query_request any same
old-refused n = refl

new-issued :
    (n : ℕ)
    → revoking.http n (token_request revoking twitch_app) ≡ some (replies 200 (codes "payload"))
unfolding token_request
new-issued n = refl

new-answered :
    (n : ℕ)
    → revoking.http n
        (query_request revoking twitch_app (codes "/games") (codes "q") issued.access_token)
      ≡ some (replies 200 (codes "games"))
unfolding query_request any same
new-answered n = refl

request-recovers_example :
    ((request revoking twitch_app (codes "/games") (codes "q") holding).0 ≡ ok (codes "games"))
    × ((request revoking twitch_app (codes "/games") (codes "q") holding).1.igdb.token
        ≡ codes "new")
request-recovers_example =
    request-recovers revoking twitch_app (codes "/games") (codes "q") (codes "payload")
      (codes "games") (codes "refused") issued holding (λ n. refl) refl refl old-valid old-refused
      new-issued refl refl new-answered

-- A catalog of one game.
abbrev stocked : World
stocked = record alive {
  db = record alive.db {
    games =
        record {
          id = 3;
          igdb_id = 1942;
          title = codes "The Witcher 3";
          image = [];
          kind = [];
          parent_igdb_id = none;
          summary = [];
          release_date = 0;
          tags = [];
          genres = [];
          themes = [];
          game_modes = [];
          created_at = 0;
          updated_at = 0;
        }
        ∷ [];
  };
}

backfill-KeepsIds_example :
    SameRest stocked.db (backfill revoking (codes "id") (codes "s3cret") stocked).1.db
    × KeepsIds ((1942, 3) ∷ []) (backfill revoking (codes "id") (codes "s3cret") stocked).1.db
backfill-KeepsIds_example = backfill-KeepsIds revoking (codes "id") (codes "s3cret") stocked

-- The ids are asked for in ascending order.
in_order : ascending (1942 ∷ 7 ∷ 119 ∷ []) ≡ 7 ∷ 119 ∷ 1942 ∷ []
unfolding ascending place_id
in_order = refl

-- ===== src/Igdb/Rules.antt =====
-- The client of internal/igdb/client.go does not touch the database.
use toomanyhours_api.Prelude.{ℕ, Bool, true, false, Option, none, some, List, [], ◌∷◌, arith}
use toomanyhours_api.Text.{Text}
use toomanyhours_api.World.{Db, Outside}
use toomanyhours_api.World.Exec.{pure}
use toomanyhours_api.World.Keeps.{Keeps, keeps_rules, Keeps-bind}
use toomanyhours_api.Igdb.Wire.{HttpRequest, TokenPayload, HttpReply}
use toomanyhours_api.Igdb.Throttle.{wait}
use toomanyhours_api.Igdb.Client.{
  Config, or_upstream, require_status, send, keep_token, cached_token, fetch_token, token_body,
  get_token, post, retry, perform, request,
}
use toomanyhours_api.Igdb.Games.{games, search_games, get_by_ids, get_dlcs}

module _ {P : Db → Type 0} where
  or_upstream-Keeps : {A : Type 0} (o : Option A) → Keeps P (or_upstream o)
  or_upstream-Keeps none = search keeps_rules
  or_upstream-Keeps (some a) = search keeps_rules

  require_status-Keeps : (b : Bool) → Keeps P (require_status b)
  require_status-Keeps true = search keeps_rules
  require_status-Keeps false = search keeps_rules

  token_body-Keeps : (r : HttpReply) → Keeps P (token_body r)
  unfolding token_body
  token_body-Keeps r = search (keeps_rules, require_status-Keeps) depth 10

  module _ (out : Outside) where
    wait-Keeps : Keeps P (wait out)
    unfolding wait
    wait-Keeps = record { at = λ w h. ground (arith, h) }

    send-Keeps : (r : HttpRequest) → Keeps P (send out r)
    unfolding send
    send-Keeps r = record { at = λ w h. (or_upstream-Keeps (out.http w.effects r)).at _ h }

    keep_token-Keeps : (p : TokenPayload) (now : ℕ) → Keeps P (keep_token out p now)
    unfolding keep_token
    keep_token-Keeps p now = record { at = λ w h. h }

    cached_token-Keeps : (stale : Text) → Keeps P (cached_token out stale)
    unfolding cached_token
    cached_token-Keeps stale = record { at = λ w h. ground (arith, h) }

    module _ (cfg : Config) where
      fetch_token-Keeps : Keeps P (fetch_token out cfg)
      unfolding fetch_token
      fetch_token-Keeps =
          search
            (
              keeps_rules, send-Keeps, token_body-Keeps, or_upstream-Keeps, require_status-Keeps,
              keep_token-Keeps,
            )
            depth 20

      cached_or_fetched :
          (o : Option Text)
          → Keeps P (elim o [ some token ↦ pure token | none ↦ fetch_token out cfg ])
      cached_or_fetched none = fetch_token-Keeps
      cached_or_fetched (some t) = search keeps_rules

      get_token-Keeps : (stale : Text) → Keeps P (get_token out cfg stale)
      unfolding get_token
      get_token-Keeps stale = Keeps-bind _ _ (cached_token-Keeps stale) λ o. cached_or_fetched o

      post-Keeps : (path body token : Text) → Keeps P (post out cfg path body token)
      unfolding post
      post-Keeps path body token = search (keeps_rules, send-Keeps, or_upstream-Keeps) depth 10

      retry-Keeps :
          (path body token : Text) (r : ℕ × Text) → Keeps P (retry out cfg path body token r)
      unfolding retry
      retry-Keeps path body token (status, raw) =
          search (keeps_rules, get_token-Keeps, post-Keeps) depth 10

      perform-Keeps : (path body : Text) → Keeps P (perform out cfg path body)
      unfolding perform
      perform-Keeps path body =
          search
            (
              keeps_rules, wait-Keeps, get_token-Keeps, post-Keeps, retry-Keeps,
              require_status-Keeps,
            )
            depth 20

      request-Keeps : (path body : Text) → Keeps P (request out cfg path body)
      unfolding request
      request-Keeps path body = search (keeps_rules, perform-Keeps)

      games-Keeps : (body : Text) → Keeps P (games out cfg body)
      unfolding games
      games-Keeps body = search (keeps_rules, request-Keeps, or_upstream-Keeps) depth 10

      pub search_games-Keeps : (q : Text) (n : ℕ) → Keeps P (search_games out cfg q n)
      unfolding search_games
      search_games-Keeps q n = games-Keeps _

      pub get_by_ids-Keeps : (ids : List ℕ) → Keeps P (get_by_ids out cfg ids)
      unfolding get_by_ids
      get_by_ids-Keeps [] = search keeps_rules
      get_by_ids-Keeps (id ∷ ids) = games-Keeps _

      pub get_dlcs-Keeps : (parent : ℕ) → Keeps P (get_dlcs out cfg parent)
      unfolding get_dlcs
      get_dlcs-Keeps parent = games-Keeps _

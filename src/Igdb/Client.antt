-- ===== src/Igdb/Client.antt =====
-- internal/igdb/client.go: the client's token, and one request with its single retry.
pub mod Traffic
pub mod Recovery
use toomanyhours_api.Prelude.{
  ℕ, suc, ◌==◌, not, Bool, true, false, ◌&&◌, ◌||◌, Option, none, some, List, [], ◌∷◌, ◌++◌, Result,
  ok, err, if◌then◌else◌,
}
use toomanyhours_api.Prelude.Int.{ℤ, pos, ◌+ℤ◌, ◌-ℤ◌, ltb_ℤ, scale, int64}
use toomanyhours_api.Text.{Text, codes, same}
use toomanyhours_api.Validate.{is_empty}
use toomanyhours_api.World.{World, Outside}
use toomanyhours_api.World.Exec.{Exec, pure, raise, ◌>>=◌, ◌>>◌, time_now}
use toomanyhours_api.Igdb.Wire.{
  HttpRequest, form_post, query_post, HttpReply, TokenPayload, ClientState,
}
use toomanyhours_api.Igdb.Throttle.{ClientError, not_configured, upstream, Call, one_second, wait}

-- `Config`.
pub record Config : Type 0 where
  pub client_id : Text
  pub client_secret : Text
  pub token_url : Text
  pub api_url : Text

abbrev pub default_token_url : Text
default_token_url = codes "https://id.twitch.tv/oauth2/token"

abbrev pub default_api_url : Text
default_api_url = codes "https://api.igdb.com/v4"

-- `refreshMargin`.
abbrev pub refresh_margin : ℤ
refresh_margin = pos 60000000000

-- A text, or another if it is empty.
abbrev pub or_default : Text → Text → Text
or_default t other = if is_empty t then other else t

-- `New`, of the settings of a client.
unfoldable pub new_client : Config → Config
new_client cfg = record cfg {
  token_url = or_default cfg.token_url default_token_url;
  api_url = or_default cfg.api_url default_api_url;
}

-- What a caller has no use for is an error of the upstream.
abbrev pub or_upstream : {A : Type 0} → Option A → Call A
or_upstream none = raise upstream
or_upstream (some a) = pure a

abbrev pub require_status : Bool → Call (Unit {0})
require_status true = pure tt
require_status false = raise upstream

-- The token's lifetime: `time.Duration(payload.ExpiresIn) * time.Second`.
unfoldable pub lifetime : ℤ → ℤ
lifetime expires_in = int64 (scale one_second expires_in)

-- Whether the cached token is handed back as it is, to a caller who was rejected with `stale`, if
-- that is not empty.
unfoldable pub is_usable : ClientState → Text → ℕ → Bool
is_usable c stale now =
    if is_empty stale
    then not (is_empty c.token) && ltb_ℤ (pos now) (c.expires_at -ℤ refresh_margin)
    else not (same c.token stale)

-- The body of a token's answer.
unfoldable pub token_body : HttpReply → Call (Option Text)
token_body reply = do require_status (reply.status == 200); pure reply.body

module _ (out : Outside) where
  -- `c.http.Do`.
  unfoldable pub send : HttpRequest → Call HttpReply
  send request w =
      or_upstream (out.http w.effects request) (record w {
        igdb = record w.igdb { sent = request ∷ w.igdb.sent };
        effects = suc w.effects;
      })

  -- The new token is cached.
  unfoldable pub keep_token : TokenPayload → ℕ → Call Text
  unfolding lifetime
  keep_token payload now w = (
    ok payload.access_token,
    record w {
      igdb = record w.igdb {
        token = payload.access_token;
        expires_at = pos now +ℤ lifetime payload.expires_in;
      };
    },
  )

  -- The token in the cache, and whether it is handed back.
  unfoldable pub cached_token : Text → Call (Option Text)
  cached_token stale w =
      let w' = record w { effects = suc w.effects } in
      if is_usable w.igdb stale (out.clock w.effects)
      then (ok (some w.igdb.token), w')
      else (ok none, w')

  module _ (cfg : Config) where
    -- The token endpoint's form.
    unfoldable pub token_request : HttpRequest
    token_request = form_post cfg.token_url (
        (codes "client_id", cfg.client_id)
        ∷ (codes "client_secret", cfg.client_secret)
        ∷ (codes "grant_type", codes "client_credentials")
        ∷ [])

    -- `getToken`, once the cached token does not serve.
    unfoldable pub fetch_token : Call Text
    fetch_token = do
      reply ← send token_request
      body ← token_body reply
      text ← or_upstream body
      payload ← or_upstream (out.decode_token text)
      require_status (not (is_empty payload.access_token))
      now ← time_now out
      keep_token payload now

    -- `getToken`.
    unfoldable pub get_token : Text → Call Text
    get_token stale = do
      cached ← cached_token stale
      elim cached [ some token ↦ pure token | none ↦ fetch_token ]

    -- The request of `post`.
    unfoldable pub query_request : Text → Text → Text → HttpRequest
    query_request path body token =
        query_post (cfg.api_url ++ path)
          ((codes "Client-ID", cfg.client_id)
            ∷ (codes "Authorization", codes "Bearer " ++ token)
            ∷ (codes "Accept", codes "application/json")
            ∷ [])
          body

    -- `post`: the status and the raw body.
    unfoldable pub post : Text → Text → Text → Call (ℕ × Text)
    post path body token = do
      reply ← send (query_request path body token)
      raw ← or_upstream reply.body
      pure (reply.status, raw)

    -- The single retry of `do`: with a new token, if the first answer was 401.
    unfoldable pub retry : Text → Text → Text → ℕ × Text → Call (ℕ × Text)
    retry path body token (status, raw) =
        if status == 401
        then (do fresh ← get_token token; post path body fresh)
        else pure (status, raw)

    -- `do`, of a client that has credentials.
    unfoldable pub perform : Text → Text → Call Text
    perform path body = do
      wait out
      token ← get_token []
      first ← post path body token
      last ← retry path body token first
      require_status (last.0 == 200)
      pure last.1

    -- `do`.
    unfoldable pub request : Text → Text → Call Text
    request path body =
        if is_empty cfg.client_id || is_empty cfg.client_secret
        then raise not_configured
        else perform path body

-- ===== src/Igdb/Client/Recovery.antt =====
-- What the single retry of internal/igdb/client.go is for: a token that is revoked early.
use toomanyhours_api.World.Runs.{Runs, Runs-pure}
use toomanyhours_api.Prelude.{
  ℕ, ◌≡◌, Bool, true, false, ◌||◌, Option, none, some, [], ok, arith, suc, ◌∷◌,
}
use toomanyhours_api.Prelude.Int.{pos, ◌+ℤ◌, ◌-ℤ◌, ltb_ℤ}
use toomanyhours_api.Text.{Text, same_refl}
use toomanyhours_api.Validate.{is_empty}
use toomanyhours_api.World.{World, Outside}
use toomanyhours_api.World.Exec.{time_now}
use toomanyhours_api.Igdb.Wire.{HttpRequest, HttpReply, TokenPayload, ClientState}
use toomanyhours_api.Igdb.Throttle.{wait, claim_slot, interval, requests_per_second}
use toomanyhours_api.Igdb.Client.{
  Config, refresh_margin, is_usable, or_upstream, require_status, send, keep_token, cached_token,
  fetch_token, token_body, get_token, post, retry, perform, request, token_request, query_request,
  lifetime,
}

-- A complete answer.
abbrev pub replies : ℕ → Text → HttpReply
replies status body = record { status = status; body = some body }

valid-is_usable :
    (c : ClientState) (now : ℕ)
    → is_empty c.token ≡ false
    → ltb_ℤ (pos now) (c.expires_at -ℤ refresh_margin) ≡ true
    → is_usable c [] now ≡ true
unfolding is_usable
valid-is_usable c now named valid = ground (arith, named, valid)

-- The token that a caller was rejected with is not handed back to it.
stale-is_usable :
    (c : ClientState) (now : ℕ) → is_empty c.token ≡ false → is_usable c c.token now ≡ false
unfolding is_usable
stale-is_usable c now named = ground (arith, named, same_refl c.token)

module _ (out : Outside) (cfg : Config) where
  -- The world after a wait, after the cache was asked, after a request, and with a new token.
  abbrev waited : World → World
  waited w = record w {
    igdb = record w.igdb {
      next = (claim_slot (interval requests_per_second) (out.clock w.effects) w.igdb.next).1;
    };
    effects = suc (suc w.effects);
  }

  abbrev asked : World → World
  asked w = record w { effects = suc w.effects }

  abbrev sent : HttpRequest → World → World
  sent r w = record w { igdb = record w.igdb { sent = r ∷ w.igdb.sent }; effects = suc w.effects }

  abbrev kept_token : TokenPayload → World → World
  kept_token p w = record w {
    igdb = record w.igdb {
      token = p.access_token;
      expires_at = pos (out.clock w.effects) +ℤ lifetime p.expires_in;
    };
    effects = suc w.effects;
  }

  wait-Runs :
      (w : World) → out.cancelled (suc w.effects) ≡ false → Runs (wait out) w (ok tt) (waited w)
  unfolding wait
  wait-Runs w h = record { run = ground (arith, h) }

  cached_token-usable :
      (stale : Text) (w : World)
      → is_usable w.igdb stale (out.clock w.effects) ≡ true
      → Runs (cached_token out stale) w (ok (some w.igdb.token)) (asked w)
  unfolding cached_token
  cached_token-usable stale w h = record { run = ground (arith, h) }

  cached_token-stale :
      (stale : Text) (w : World)
      → is_usable w.igdb stale (out.clock w.effects) ≡ false
      → Runs (cached_token out stale) w (ok none) (asked w)
  unfolding cached_token
  cached_token-stale stale w h = record { run = ground (arith, h) }

  get_token-cached :
      (stale : Text) (w : World)
      → is_usable w.igdb stale (out.clock w.effects) ≡ true
      → Runs (get_token out cfg stale) w (ok w.igdb.token) (asked w)
  unfolding get_token
  get_token-cached stale w h = record { run = ground (arith, (cached_token-usable stale w h).run) }

  or_upstream-some :
      {A : Type 0} (o : Option A) (a : A) (w : World) → o ≡ some a → Runs (or_upstream o) w (ok a) w
  or_upstream-some none a w h = ground arith
  or_upstream-some (some b) a w h = record { run = ground (arith, h) }

  send-answered :
      (r : HttpRequest) (reply : HttpReply) (w : World)
      → out.http w.effects r ≡ some reply
      → Runs (send out r) w (ok reply) (sent r w)
  unfolding send
  send-answered r reply w h = record {
    run = (or_upstream-some (out.http w.effects r) reply (sent r w) h).run;
  }

  require_status-true : (b : Bool) (w : World) → b ≡ true → Runs (require_status b) w (ok tt) w
  require_status-true true w h = Runs-pure _ _
  require_status-true false w h = ground arith

  fetch_token-issued :
      (text : Text) (payload : TokenPayload) (w : World)
      → out.http w.effects (token_request out cfg) ≡ some (replies 200 text)
      → out.decode_token text ≡ some payload
      → is_empty payload.access_token ≡ false
      → Runs
          (fetch_token out cfg)
          w
          (ok payload.access_token)
          (kept_token payload (sent (token_request out cfg) w))
  unfolding fetch_token time_now keep_token token_body
  fetch_token-issued text payload w answer decodes named =
      let sends = (send-answered (token_request out cfg) (replies 200 text) w answer).run in
      record { run = ground (arith, sends, decodes, named) }

  get_token-fetched :
      (stale text : Text) (payload : TokenPayload) (w : World)
      → is_usable w.igdb stale (out.clock w.effects) ≡ false
      → out.http (suc w.effects) (token_request out cfg) ≡ some (replies 200 text)
      → out.decode_token text ≡ some payload
      → is_empty payload.access_token ≡ false
      → Runs
          (get_token out cfg stale)
          w
          (ok payload.access_token)
          (kept_token payload (sent (token_request out cfg) (asked w)))
  unfolding get_token
  get_token-fetched stale text payload w h answer decodes named =
      let asks = (cached_token-stale stale w h).run in
      let fetches = (fetch_token-issued text payload (asked w) answer decodes named).run in
      record { run = ground (arith, asks, fetches) }

  post-answered :
      (path body token raw : Text) (status : ℕ) (w : World)
      → out.http w.effects (query_request out cfg path body token) ≡ some (replies status raw)
      → Runs
          (post out cfg path body token)
          w
          (ok (status, raw))
          (sent (query_request out cfg path body token) w)
  unfolding post
  post-answered path body token raw status w h = record {
    run = ground (
      arith,
      (send-answered (query_request out cfg path body token) (replies status raw) w h).run,
    );
  }

  -- A client that has a token which IGDB has revoked answers as if it had a good one: it fetches a
  -- new token, asks again with that, and caches it.
  pub request-recovers :
      (path body text raw refusal : Text) (payload : TokenPayload) (w : World)
      → ((n : ℕ) → out.cancelled n ≡ false)
      → (is_empty cfg.client_id || is_empty cfg.client_secret) ≡ false
      → is_empty w.igdb.token ≡ false
      → ((n : ℕ) → ltb_ℤ (pos (out.clock n)) (w.igdb.expires_at -ℤ refresh_margin) ≡ true)
      → ((n : ℕ)
          → out.http n (query_request out cfg path body w.igdb.token) ≡ some (replies 401 refusal))
      → ((n : ℕ) → out.http n (token_request out cfg) ≡ some (replies 200 text))
      → out.decode_token text ≡ some payload
      → is_empty payload.access_token ≡ false
      → ((n : ℕ)
          → out.http n (query_request out cfg path body payload.access_token)
            ≡ some (replies 200 raw))
      → ((request out cfg path body w).0 ≡ ok raw)
        × ((request out cfg path body w).1.igdb.token ≡ payload.access_token)
  unfolding request perform retry
  request-recovers path body text raw refusal payload w up set token_named valid revoked issues
        decodes named accepted =
      let token = w.igdb.token in
      let w1 = waited w in
      let w2 = sent (query_request out cfg path body token) (asked w1) in
      let w3 = kept_token payload (sent (token_request out cfg) (asked w2)) in
      let waits = (wait-Runs w (up _)).run in
      let cached = (get_token-cached [] w1 (valid-is_usable w1.igdb _ token_named (valid _))).run in
      let first = (post-answered path body token refusal 401 (asked w1) (revoked _)).run in
      let fetched =
        (get_token-fetched token text payload w2 (stale-is_usable w2.igdb _ token_named) (issues _)
          decodes named).run in
      let second = (post-answered path body payload.access_token raw 200 w3 (accepted _)).run in
      ground (arith, set, waits, cached, first, fetched, second)

-- ===== src/Igdb/Client/Traffic.antt =====
-- How many requests one call of the client of internal/igdb/client.go sends.
use toomanyhours_api.Validate.{is_empty}
use toomanyhours_api.Prelude.{
  ℕ, ◌+◌, ◌≤◌, Bool, true, false, Option, none, some, List, [], ◌∷◌, Result, ok, err, length,
  select, arith, if◌then◌else◌, not, Bool-cases, inl, inr, suc, ◌==◌, ◌||◌,
}
use toomanyhours_api.Text.{Text}
use toomanyhours_api.World.{World, Outside}
use toomanyhours_api.World.Exec.{pure, raise, ◌>>=◌, time_now}
use toomanyhours_api.Igdb.Wire.{HttpRequest, form_post, query_post, TokenPayload, HttpReply}
use toomanyhours_api.Igdb.Throttle.{Call, ClientError, wait}
use toomanyhours_api.Igdb.Client.{
  Config, or_upstream, require_status, send, keep_token, cached_token, fetch_token, token_body,
  get_token, post, retry, perform, request, token_request, query_request,
}

abbrev pub is_form : HttpRequest → Bool
is_form (form_post url fields) = true
is_form (query_post url headers body) = false

-- The requests for a token, and the queries, that a client has sent.
unfoldable pub forms : World → ℕ
forms w = length (select is_form w.igdb.sent)

unfoldable pub queries : World → ℕ
queries w = length (select (λ r. not (is_form r)) w.igdb.sent)

-- The code sends at most `f` requests for a token and `q` queries.
pub record Sends {A : Type 0} (f q : ℕ) (m : Call A) : Type 0 where
  pub of_forms : (w : World) → forms (m w).1 ≤ f + forms w
  pub of_queries : (w : World) → queries (m w).1 ≤ q + queries w

Sends-pure : {A : Type 0} (a : A) → Sends 0 0 (pure {E = ClientError} a)
Sends-pure a = record { of_forms = λ w. omega arith; of_queries = λ w. omega arith }

Sends-raise : {A : Type 0} (e : ClientError) → Sends 0 0 (raise {A = A} e)
Sends-raise e = record { of_forms = λ w. omega arith; of_queries = λ w. omega arith }

-- A bound after a step, from the step's and that of what follows.
bind-bound :
    {A B : Type 0} (count : World → ℕ) (a b : ℕ) (m : Call A) (rest : A → Call B)
    → ((w : World) → count (m w).1 ≤ a + count w)
    → ((x : A) (w : World) → count (rest x w).1 ≤ b + count w)
    → (w : World) → count ((m >>= rest) w).1 ≤ a + b + count w
bind-bound {A} {B} count a b m rest h k w = after (m w).0 (m w).1 (h w)
  where
    after :
        (r : Result ClientError A) (v : World)
        → count v ≤ a + count w
        → count (
            let p : Result ClientError B × World = elim r [
              | ok x ↦ rest x v
              | err e ↦ (err e, v)
            ] in
            p.1)
          ≤ a + b + count w
    after (ok x) v g = omega (arith, k x v)
    after (err e) v g = omega arith

Sends-bind :
    {A B : Type 0} {a b c d : ℕ} (m : Call A) (rest : A → Call B)
    → Sends a b m
    → ((x : A) → Sends c d (rest x))
    → Sends (a + c) (b + d) (m >>= rest)
Sends-bind {A} {B} {a} {b} {c} {d} m rest h k = record {
  of_forms = bind-bound forms a c m rest h.of_forms (λ x. (k x).of_forms);
  of_queries = bind-bound queries b d m rest h.of_queries (λ x. (k x).of_queries);
}

-- A larger bound.
Sends-more :
    {A : Type 0} {a b : ℕ} (c d : ℕ) (m : Call A) → Sends a b m → a ≤ c → b ≤ d → Sends c d m
Sends-more c d m h le_c le_d = record {
  of_forms = λ w. omega (arith, h.of_forms w);
  of_queries = λ w. omega (arith, h.of_queries w);
}

or_upstream-Sends : {A : Type 0} (o : Option A) → Sends 0 0 (or_upstream o)
or_upstream-Sends none = Sends-raise _
or_upstream-Sends (some a) = Sends-pure a

require_status-Sends : (b : Bool) → Sends 0 0 (require_status b)
require_status-Sends true = Sends-pure tt
require_status-Sends false = Sends-raise _

token_body-Sends : (r : HttpReply) → Sends 0 0 (token_body r)
unfolding token_body
token_body-Sends r = Sends-bind _ _ (require_status-Sends _) λ x. Sends-pure _

module _ (out : Outside) where
  wait-Sends : Sends 0 0 (wait out)
  unfolding wait forms queries
  wait-Sends = record { of_forms = λ w. ground arith; of_queries = λ w. ground arith }

  -- The world once a request has been sent.
  abbrev after_send : HttpRequest → World → World
  after_send r w = record w {
    igdb = record w.igdb { sent = r ∷ w.igdb.sent };
    effects = suc w.effects;
  }

  send_form-Sends : (url : Text) (fs : List (Text × Text)) → Sends 1 0 (send out (form_post url fs))
  unfolding send forms queries select
  send_form-Sends url fs = record {
    of_forms = λ w. omega (
      arith,
      (or_upstream-Sends (out.http w.effects (form_post url fs))).of_forms
          (after_send (form_post url fs) w),
    );
    of_queries = λ w. omega (
      arith,
      (or_upstream-Sends (out.http w.effects (form_post url fs))).of_queries
          (after_send (form_post url fs) w),
    );
  }

  send_query-Sends :
      (url : Text) (hs : List (Text × Text)) (body : Text)
      → Sends 0 1 (send out (query_post url hs body))
  unfolding send forms queries select
  send_query-Sends url hs body = record {
    of_forms = λ w. omega (
      arith,
      (or_upstream-Sends (out.http w.effects (query_post url hs body))).of_forms
          (after_send (query_post url hs body) w),
    );
    of_queries = λ w. omega (
      arith,
      (or_upstream-Sends (out.http w.effects (query_post url hs body))).of_queries
          (after_send (query_post url hs body) w),
    );
  }

  keep_token-Sends : (p : TokenPayload) (now : ℕ) → Sends 0 0 (keep_token out p now)
  unfolding keep_token forms queries
  keep_token-Sends p now = record { of_forms = λ w. omega arith; of_queries = λ w. omega arith }

  time_now-Sends : Sends 0 0 (time_now out)
  unfolding time_now forms queries
  time_now-Sends = record { of_forms = λ w. omega arith; of_queries = λ w. omega arith }

  cached_token-Sends : (stale : Text) → Sends 0 0 (cached_token out stale)
  unfolding cached_token forms queries
  cached_token-Sends stale = record { of_forms = λ w. ground arith; of_queries = λ w. ground arith }

  module _ (cfg : Config) where
    fetch_token-Sends : Sends 1 0 (fetch_token out cfg)
    unfolding fetch_token token_request
    fetch_token-Sends = Sends-bind _ _ (send_form-Sends _ _) λ reply.
        Sends-bind _ _ (token_body-Sends reply) λ body.
          Sends-bind _ _ (or_upstream-Sends body) λ text.
            Sends-bind _ _ (or_upstream-Sends (out.decode_token text)) λ payload.
              Sends-bind _ _ (require_status-Sends _)
                λ _. Sends-bind _ _ time_now-Sends λ now. keep_token-Sends payload now

    cached_or_fetched :
        (o : Option Text)
        → Sends 1 0 (elim o [ some token ↦ pure token | none ↦ fetch_token out cfg ])
    cached_or_fetched none = fetch_token-Sends
    cached_or_fetched (some t) = Sends-more 1 0 _ (Sends-pure t) (omega arith) (omega arith)

    get_token-Sends : (stale : Text) → Sends 1 0 (get_token out cfg stale)
    unfolding get_token
    get_token-Sends stale = Sends-bind _ _ (cached_token-Sends stale) λ o. cached_or_fetched o

    post-Sends : (path body token : Text) → Sends 0 1 (post out cfg path body token)
    unfolding post query_request
    post-Sends path body token =
        Sends-bind _ _ (send_query-Sends _ _ _)
          λ reply. Sends-bind _ _ (or_upstream-Sends reply.body) λ raw. Sends-pure _

    retry-Sends :
        (path body token : Text) (status : ℕ) (raw : Text) (b : Bool)
        → Sends 1 1
            (if b then get_token out cfg token >>= post out cfg path body else pure (status, raw))
    retry-Sends path body token status raw true =
        Sends-bind _ _ (get_token-Sends token) λ fresh. post-Sends path body fresh
    retry-Sends path body token status raw false =
        Sends-more 1 1 _ (Sends-pure _) (omega arith) (omega arith)

    perform-Sends : (path body : Text) → Sends 2 2 (perform out cfg path body)
    unfolding perform retry
    perform-Sends path body = Sends-bind _ _ wait-Sends λ _.
        Sends-bind _ _ (get_token-Sends []) λ token.
          Sends-bind _ _ (post-Sends path body token) λ first.
            Sends-bind _ _ (retry-Sends path body token first.0 first.1 (first.0 == 401))
              λ last. Sends-bind _ _ (require_status-Sends _) λ _. Sends-pure _

    -- A request of the client sends at most two requests for a token and two queries, whatever is
    -- answered.
    pub request-Sends : (path body : Text) → Sends 2 2 (request out cfg path body)
    unfolding request
    request-Sends path body =
        elim (Bool-cases (is_empty cfg.client_id || is_empty cfg.client_secret)) [
          | inl h ↦ rw h (Sends-more 2 2 _ (Sends-raise _) (omega arith) (omega arith))
          | inr h ↦ rw h (perform-Sends path body)
        ]

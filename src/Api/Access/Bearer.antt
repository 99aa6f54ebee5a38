-- ===== src/Api/Access/Bearer.antt =====
-- What `GetTokenFromHeaderAndVerify` of cmd/api/auth.go lets through.
use toomanyhours_api.Prelude.{
  ℕ, suc, ◌≡◌, ◌⊎◌, inl, inr, refl, sym, ◌∙◌, ap, Option, none, some, List, [], ◌∷◌, ◌++◌, Result,
  ok, err, ◌==◌, arith, Bool-cases, ==_iff,
}
use toomanyhours_api.Text.{Text, codes, same, same→eq}
use toomanyhours_api.Validate.{is_empty}
use toomanyhours_api.World.{World, Outside, Claims}
use toomanyhours_api.World.Exec.{pure, ◌>>=◌, time_now, ◌>>◌}
use toomanyhours_api.Api.{Response, Handler, error_json, UserContext, signed_in}
use toomanyhours_api.Api.Auth.{Auth}
use toomanyhours_api.Api.Games.{require}
use toomanyhours_api.Api.Access.{
  split_spaces, onto_first, bearer_token, parsed_claims, verify_header, auth_required,
}

-- The parts with a space between two of them.
abbrev join_spaces : List Text → Text
join_spaces [] = []
join_spaces (part ∷ []) = part
join_spaces (part ∷ next ∷ parts) = part ++ 0x20 ∷ join_spaces (next ∷ parts)

join-onto_first :
    (r : ℕ) (parts : List Text) → join_spaces (onto_first r parts) ≡ r ∷ join_spaces parts
join-onto_first r [] = refl
join-onto_first r (part ∷ []) = refl
join-onto_first r (part ∷ next ∷ parts) = refl

join-space :
    (parts : List Text) (x : Text) (xs : List Text)
    → parts ≡ x ∷ xs
    → join_spaces ([] ∷ parts) ≡ 0x20 ∷ join_spaces parts
join-space [] x xs e = ground arith
join-space (part ∷ parts) x xs e = refl

onto_first-some :
    (r : ℕ) (parts : List Text) → (x : Text) × (xs : List Text) × (onto_first r parts ≡ x ∷ xs)
onto_first-some r [] = (r ∷ [], [], refl)
onto_first-some r (part ∷ parts) = (r ∷ part, parts, refl)

split-some : (t : Text) → (x : Text) × (xs : List Text) × (split_spaces t ≡ x ∷ xs)
unfolding split_spaces
split-some [] = ([], [], refl)
split-some (r ∷ rs) = elim (Bool-cases (r == 0x20)) [
  | inl e ↦ ([], split_spaces rs, rw e refl)
  | inr e ↦ rw e (onto_first-some r (split_spaces rs))
]

-- Splitting loses nothing.
join-split_spaces : (t : Text) → join_spaces (split_spaces t) ≡ t
unfolding split_spaces
join-split_spaces [] = refl
join-split_spaces (r ∷ rs) =
    let (x, xs, e) = split-some rs in
    let rest = join-split_spaces rs in
    elim (Bool-cases (r == 0x20)) [
      | inl k ↦ rw k (
          join-space (split_spaces rs) x xs e
          ∙ ap (λ t. 0x20 ∷ t) rest
          ∙ ap (λ n. n ∷ rs) (sym ((==_iff r 0x20).0 k)))
      | inr k ↦ rw k (join-onto_first r (split_spaces rs) ∙ ap (λ t. r ∷ t) rest)
    ]

-- A request that is refused with 401, and changes nothing that is stored.
pub record IsDenied {A : Type 0} (w : World) (answer : Result Response A × World) : Type 0 where
  pub refusal : Response
  pub refused_with : answer.0 ≡ err refusal
  pub status : refusal.status ≡ 401
  pub same_db : answer.1.db ≡ w.db

-- The header names the scheme, and a token that is valid now and of this program, with the claims.
pub record IsSigned (out : Outside) (auth : Auth) (header : Text) (now : ℕ) (claims : Claims)
    : Type 0 where
  pub token : Text
  pub form : header ≡ codes "Bearer" ++ 0x20 ∷ token
  pub valid : out.parse auth.secret now token ≡ some claims
  pub issued : claims.issuer ≡ auth.issuer

-- The parts of a header are refused, or they are the scheme and a token.
bearer_token-cases :
    (parts : List Text) (w : World)
    → IsDenied w (bearer_token parts w)
      ⊎ ((token : Text) × (parts ≡ codes "Bearer" ∷ token ∷ [])
          × (bearer_token parts w ≡ (ok token, w)))
unfolding bearer_token
bearer_token-cases [] w =
    inl (record { refusal = _; refused_with = refl; status = refl; same_db = refl })
bearer_token-cases (scheme ∷ []) w =
    inl (record { refusal = _; refused_with = refl; status = refl; same_db = refl })
bearer_token-cases (scheme ∷ token ∷ next ∷ rest) w =
    inl (record { refusal = _; refused_with = refl; status = refl; same_db = refl })
bearer_token-cases (scheme ∷ token ∷ []) w = elim (Bool-cases (same scheme (codes "Bearer"))) [
  | inl e ↦ inr (token, ap (λ s. s ∷ token ∷ []) (same→eq scheme (codes "Bearer") e), rw e refl)
  | inr e ↦ rw e (inl (record { refusal = _; refused_with = refl; status = refl; same_db = refl }))
]

module _ (out : Outside) (auth : Auth) where
  -- The world after the clock was read.
  abbrev pub clock_read : World → World
  clock_read w = record w { effects = suc w.effects }

  parsed_claims-cases :
      (token : Text) (now : ℕ) (o : Option Claims) (w : World)
      → IsDenied w (parsed_claims out auth token now o w)
        ⊎ ((claims : Claims) × (o ≡ some claims)
            × (parsed_claims out auth token now o w ≡ (ok claims, w)))
  unfolding parsed_claims
  parsed_claims-cases token now (some claims) w = inr (claims, refl, refl)
  parsed_claims-cases token now none w =
      elim (Bool-cases (out.says_expired auth.secret now token)) [
        | inl e ↦
            rw e (inl (record { refusal = _; refused_with = refl; status = refl; same_db = refl }))
        | inr e ↦
            rw e (inl (record { refusal = _; refused_with = refl; status = refl; same_db = refl }))
      ]

  -- A refusal on the way is the answer.
  IsDenied-bind :
      {A B : Type 0} (m : Handler A) (f : A → Handler B) (v w : World)
      → v.db ≡ w.db
      → IsDenied v (m v)
      → IsDenied w ((m >>= f) v)
  IsDenied-bind m f v w same_db d = record {
    refusal = d.refusal;
    refused_with = ground (arith, d.refused_with);
    status = d.status;
    same_db = ground (arith, d.refused_with, d.same_db, same_db);
  }

  -- The claims of a token, once it is read from the header.
  abbrev issued_here : Claims → Handler ℕ
  issued_here claims = do
    require (same claims.issuer auth.issuer) (error_json "Invalid issuer" 401)
    pure claims.user_id

  abbrev claims_at : Text → ℕ → Handler Claims
  claims_at token now = parsed_claims out auth token now (out.parse auth.secret now token)

  abbrev check_token : Text → Handler ℕ
  check_token token = do now ← time_now out; claims ← claims_at token now; issued_here claims

  check_token-cases :
      (header token : Text) (w : World)
      → header ≡ codes "Bearer" ++ 0x20 ∷ token
      → IsDenied w (check_token token w)
        ⊎ ((claims : Claims) × IsSigned out auth header (out.clock w.effects) claims
            × (check_token token w ≡ (ok claims.user_id, clock_read w)))
  unfolding time_now
  check_token-cases header token w form =
      let now = out.clock w.effects in
      let v = clock_read w in
      elim (parsed_claims-cases token now (out.parse auth.secret now token) v) [
        | inl d ↦ inl (IsDenied-bind (claims_at token now) issued_here v w refl d)
        | inr (claims, valid, runs) ↦ elim (Bool-cases (same claims.issuer auth.issuer)) [
          | inl e ↦ inr (
            claims,
            record {
              token = token;
              form = form;
              valid = valid;
              issued = same→eq claims.issuer auth.issuer e;
            },
            ground (arith, runs, e),
          )
          | inr e ↦ inl (record {
            refusal = error_json "Invalid issuer" 401;
            refused_with = ground (arith, runs, e);
            status = refl;
            same_db = ground (arith, runs, e);
          })
        ]
      ]

  pub verify_header-cases :
      (header : Text) (w : World)
      → IsDenied w (verify_header out auth header w)
        ⊎ ((claims : Claims) × IsSigned out auth header (out.clock w.effects) claims
            × (verify_header out auth header w ≡ (ok claims.user_id, clock_read w)))
  unfolding verify_header
  verify_header-cases header w = elim (Bool-cases (is_empty header)) [
    | inl e ↦
        rw e (inl (record { refusal = _; refused_with = refl; status = refl; same_db = refl }))
    | inr e ↦ elim (bearer_token-cases (split_spaces header) w) [
      | inl d ↦
          rw e (inl (IsDenied-bind (bearer_token (split_spaces header)) check_token w w refl d))
      | inr (token, parts, runs) ↦
          let step : verify_header out auth header w ≡ check_token token w =
            ground (arith, e, runs) in
          let form = sym (join-split_spaces header) ∙ ap join_spaces parts in
          elim (check_token-cases header token w form) [
            | inl d ↦ rw step (inl d)
            | inr (claims, signed, ends) ↦ inr (claims, signed, step ∙ ends)
          ]
    ]
  ]

  -- A handler behind `AuthRequired` runs exactly for a valid token of this program, as the user
  -- that its claims name; any other request is answered 401 and changes nothing that is stored.
  pub auth_required-cases :
      (header : Text) (handler : UserContext → Handler Response) (w : World)
      → IsDenied w (auth_required out auth header handler w)
        ⊎ ((claims : Claims) × IsSigned out auth header (out.clock w.effects) claims
            × (auth_required out auth header handler w
                ≡ handler (signed_in claims.user_id) (clock_read w)))
  unfolding auth_required
  auth_required-cases header handler w = elim (verify_header-cases header w) [
    | inl d ↦
        inl
          (IsDenied-bind (verify_header out auth header) (λ id. handler (signed_in id)) w w refl d)
    | inr (claims, signed, runs) ↦ inr (claims, signed, ground (arith, runs))
  ]

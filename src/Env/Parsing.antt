-- ===== src/Env/Parsing.antt =====
-- What holds of an environment that `parseEnv` of src/main.ts accepts.
use jiffy_messaging.Base.{
  ℕ, ◌<◌, ◌≡◌, ◌↔◌, refl, String, true, false, Option, none, some, List, [], ◌∷◌, map, leb, not,
  arith, All, length, Bool-cases, Option-cases, inl, inr, All-keep_if_of, subst, is_some,
}
use jiffy_messaging.Exec.{Result, ok, err}
use jiffy_messaging.Text.{is_empty, trim}
use jiffy_messaging.Http.Router.{JsNumber, natural, not_natural}
use jiffy_messaging.Env.{
  ProcessEnv, ParsedEnv, HostEndpoint, JwtEnvConfig, with_secret, with_jwks, filled, split_commas,
  some_origins, origins_of, read_cors_origin_env, both_or_neither, read_conversation_gate_env,
  read_message_notify_env, checked_port, jwt_of, database_url_of, number_of_port, parse_env, ◌>>=◌,
  missing_jwt_claim_checks, claims_missing,
}

-- The endpoint is that of the two variables, or both are unset or empty.
abbrev pub IsEndpoint : Option String → Option String → Option HostEndpoint → Type 0
IsEndpoint url key none = (filled url ≡ none) × (filled key ≡ none)
IsEndpoint url key (some e) = (filled url ≡ some e.url) × (filled key ≡ some e.secret)

-- The key is that of the endpoint, if there is one, and else the shared secret.
abbrev pub IsJwtOf : ProcessEnv → JwtEnvConfig → Type 0
IsJwtOf env (with_secret key issuer audience claim) =
    (filled (env "JWT_JWKS_URI") ≡ none)
    × (filled (env "JWT_SECRET") ≡ some key)
    × (issuer ≡ env "JWT_ISSUER")
    × (audience ≡ env "JWT_AUDIENCE")
    × (claim ≡ env "JWT_USER_ID_CLAIM")
IsJwtOf env (with_jwks uri issuer audience claim) =
    (filled (env "JWT_JWKS_URI") ≡ some uri)
    × (issuer ≡ env "JWT_ISSUER")
    × (audience ≡ env "JWT_AUDIENCE")
    × (claim ≡ env "JWT_USER_ID_CLAIM")

both_or_neither-IsEndpoint :
    (text : String) (url key : Option String) (o : Option HostEndpoint)
    → both_or_neither text (filled url) (filled key) ≡ ok o
    → IsEndpoint url key o
both_or_neither-IsEndpoint text url key none h = elim (Option-cases (filled url)) [
  | inl no_url ↦ (
    no_url,
    elim (Option-cases (filled key)) [
      | inl no_key ↦ no_key
      | inr (k, has_key) ↦ absurd (ground arith)
    ],
  )
  | inr (u, has_url) ↦ elim (Option-cases (filled key)) [
    | inl no_key ↦ absurd (ground arith)
    | inr (k, has_key) ↦ absurd (ground arith)
  ]
]
both_or_neither-IsEndpoint text url key (some e) h = elim (Option-cases (filled url)) [
  | inl no_url ↦ elim (Option-cases (filled key)) [
    | inl no_key ↦ absurd (ground arith)
    | inr (k, has_key) ↦ absurd (ground arith)
  ]
  | inr (u, has_url) ↦ elim (Option-cases (filled key)) [
    | inl no_key ↦ absurd (ground arith)
    | inr (k, has_key) ↦ (ground arith, ground arith)
  ]
]

some_origins-ok :
    (os os' : List String)
    → All (λ o. is_empty o ≡ false) os
    → some_origins os ≡ ok os'
    → All (λ o. is_empty o ≡ false) os' × (0 < length os')
some_origins-ok [] os' f h = absurd (ground arith)
some_origins-ok (o ∷ os) [] f h = absurd (ground arith)
some_origins-ok (o ∷ os) (p ∷ ps) f h =
    let e : o ∷ os ≡ p ∷ ps = ground arith in
    (subst (All (λ x. is_empty x ≡ false)) e f, omega arith)

checked_port-ok :
    (raw : Option String) (n : JsNumber) (port : ℕ)
    → checked_port raw n ≡ ok port
    → (0 < port) × (n ≡ natural port)
checked_port-ok raw not_natural port h = absurd (ground arith)
checked_port-ok raw (natural n) port h = elim (Bool-cases (leb n 0)) [
  | inl e ↦ absurd (ground arith)
  | inr e ↦ (ground arith, ground arith)
]

jwt_of-IsJwtOf :
    (env : ProcessEnv) (uri key : Option String) (jwt : JwtEnvConfig)
    → filled (env "JWT_JWKS_URI") ≡ uri
    → filled (env "JWT_SECRET") ≡ key
    → jwt_of env uri key ≡ ok jwt
    → IsJwtOf env jwt
jwt_of-IsJwtOf env none none jwt a b h = absurd (ground arith)
jwt_of-IsJwtOf env none (some k) jwt a b h =
    let e : with_secret k (env "JWT_ISSUER") (env "JWT_AUDIENCE") (env "JWT_USER_ID_CLAIM") ≡ jwt =
      ground arith in
    subst (IsJwtOf env) e (a, b, refl, refl, refl)
jwt_of-IsJwtOf env (some u) key jwt a b h =
    let e : with_jwks u (env "JWT_ISSUER") (env "JWT_AUDIENCE") (env "JWT_USER_ID_CLAIM") ≡ jwt =
      ground arith in
    subst (IsJwtOf env) e (a, refl, refl, refl)

database_url_of-ok : (o : Option String) (url : String) → database_url_of o ≡ ok url → o ≡ some url
database_url_of-ok none url h = absurd (ground arith)
database_url_of-ok (some u) url h = ground arith

filled_origins : (o : String) → not (is_empty o) ≡ true → is_empty o ≡ false
filled_origins o h = ground arith

origins_of-ok :
    (raw : Option String) (os : List String)
    → origins_of raw ≡ ok os
    → All (λ o. is_empty o ≡ false) os × (0 < length os)
origins_of-ok none os h = absurd (ground arith)
origins_of-ok (some raw) os h =
    some_origins-ok _ os
      (All-keep_if_of (λ o. is_empty o ≡ false) (λ o. not (is_empty o)) filled_origins
        (map trim (split_commas raw)))
      h

pub bind-ok :
    {A B : Type 0} (r : Result A) (next : A → Result B) (b : B)
    → (r >>= next) ≡ ok b
    → (a : A) × (r ≡ ok a) × (next a ≡ ok b)
bind-ok (ok a) next b h = (a, refl, h)
bind-ok (err e) next b h = absurd (ground arith)

module _ (to_number : String → JsNumber) where
  -- What is accepted of an environment is usable and complete: the URL of the database is that of
  -- the variable and not empty; the port is positive, 8080 if none is given; the gate and the
  -- notifier each have a URL and a secret, or neither variable is set; the keys are those of the
  -- endpoint if one is named, and else the shared secret; there is an origin, and none is empty.
  pub parse_env-ok :
      (env : ProcessEnv) (c : ParsedEnv)
      → parse_env to_number env ≡ ok c
      → (filled (env "DATABASE_URL") ≡ some c.database_url)
        × (0 < c.port)
        × (number_of_port to_number (env "PORT") ≡ natural c.port)
        × IsEndpoint
            (env "CONVERSATION_GATE_URL")
            (env "CONVERSATION_GATE_SECRET")
            c.conversation_gate
        × IsEndpoint (env "MESSAGE_NOTIFY_URL") (env "MESSAGE_NOTIFY_SECRET") c.message_notify
        × IsJwtOf env c.jwt
        × All (λ o. is_empty o ≡ false) c.cors_origins
        × (0 < length c.cors_origins)
  unfolding parse_env read_conversation_gate_env read_message_notify_env read_cors_origin_env
  parse_env-ok env c h =
      let (url, a, h1) = bind-ok _ _ c h in
      let (port, b, h2) = bind-ok _ _ c h1 in
      let (gate, d, h3) = bind-ok _ _ c h2 in
      let (notify, e, h4) = bind-ok _ _ c h3 in
      let (jwt, f, h5) = bind-ok _ _ c h4 in
      let (origins, g, h6) = bind-ok _ _ c h5 in
      let (positive, given) = checked_port-ok (env "PORT") _ port b in
      let (full, many) = origins_of-ok (filled (env "CORS_ORIGIN")) origins g in
      subst
        (λ r.
          (filled (env "DATABASE_URL") ≡ some r.database_url)
          × (0 < r.port)
          × (number_of_port to_number (env "PORT") ≡ natural r.port)
          × IsEndpoint (env "CONVERSATION_GATE_URL") (env "CONVERSATION_GATE_SECRET")
              r.conversation_gate
          × IsEndpoint (env "MESSAGE_NOTIFY_URL") (env "MESSAGE_NOTIFY_SECRET") r.message_notify
          × IsJwtOf env r.jwt
          × All (λ o. is_empty o ≡ false) r.cors_origins
          × (0 < length r.cors_origins))
        (ok_injective h6)
        (
          database_url_of-ok _ url a,
          positive,
          given,
          both_or_neither-IsEndpoint _ (env "CONVERSATION_GATE_URL")
              (env "CONVERSATION_GATE_SECRET") gate d,
          both_or_neither-IsEndpoint _ (env "MESSAGE_NOTIFY_URL") (env "MESSAGE_NOTIFY_SECRET")
              notify e,
          jwt_of-IsJwtOf env _ _ jwt refl refl f,
          full,
          many,
        )
    where
      ok_injective : {a b : ParsedEnv} → ok a ≡ ok b → a ≡ b
      ok_injective h = ground arith

-- No warning is due exactly when the issuer and the audience are both set and not empty.
pub missing_jwt_claim_checks_iff :
    (key : String) (issuer audience claim : Option String)
    → (missing_jwt_claim_checks (with_secret key issuer audience claim)
        ≡ missing_jwt_claim_checks (with_jwks key issuer audience claim))
      × ((missing_jwt_claim_checks (with_secret key issuer audience claim) ≡ [])
          ↔ ((is_some (filled issuer) ≡ true) × (is_some (filled audience) ≡ true)))
unfolding missing_jwt_claim_checks
missing_jwt_claim_checks_iff key issuer audience claim =
    (refl, of (filled issuer) (filled audience))
  where
    of :
        (i a : Option String)
        → (claims_missing i a ≡ []) ↔ ((is_some i ≡ true) × (is_some a ≡ true))
    of none none = ((λ h. ground arith), λ h. ground arith)
    of none (some a) = ((λ h. ground arith), λ h. ground arith)
    of (some i) none = ((λ h. ground arith), λ h. ground arith)
    of (some i) (some a) = ((λ h. (refl, refl)), λ h. refl)

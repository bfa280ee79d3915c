-- ===== src/Env/Running/Verified.antt =====
-- Which tokens the server that `run` of src/main.ts starts accepts.
use jiffy_messaging.Base.{◌≡◌, refl, ap, ◌∙◌, String, false, none, some, ◌⊎◌, inl, inr, arith}
use jiffy_messaging.Exec.{ok}
use jiffy_messaging.Text.{is_empty}
use jiffy_messaging.Ports.{VerifiedIdentity, TokenVerifier}
use jiffy_messaging.Adapters.Jwt.{
  JwtTokenVerifierOptions, JwtPayload, text, asked, expires_at_of, user_id_claim_of, verify,
  verify_payload, of_payload-ok,
}
use jiffy_messaging.Env.{ProcessEnv, JwtEnvConfig, with_secret, with_jwks, filled}
use jiffy_messaging.Env.Parsing.{IsJwtOf, parse_env-ok, bind-ok}
use jiffy_messaging.Env.Running.{
  World, Running, running_of, options_of, jwt_token_verifier, build_token_verifier, run,
}

module _ {S Key : Type 0} (world : World S Key) where
  -- The key set at JWT_JWKS_URI, or the shared secret where that is unset or empty.
  abbrev pub IsKeyOf : ProcessEnv → Key → Type 0
  IsKeyOf env key =
      ((uri : String) × (filled (env "JWT_JWKS_URI") ≡ some uri)
        × (world.remote_key_set uri ≡ ok key))
      ⊎ ((filled (env "JWT_JWKS_URI") ≡ none)
          × ((secret : String) × (filled (env "JWT_SECRET") ≡ some secret)
              × (key ≡ world.text_key secret)))

  abbrev pub options_in : ProcessEnv → JwtTokenVerifierOptions
  options_in env =
      options_of world (env "JWT_ISSUER") (env "JWT_AUDIENCE") (env "JWT_USER_ID_CLAIM")

  built_of :
      (env : ProcessEnv) (jwt : JwtEnvConfig) (verifier : TokenVerifier S)
      → IsJwtOf env jwt
      → build_token_verifier world jwt ≡ ok verifier
      → (key : Key) × IsKeyOf env key × (jwt_token_verifier world key (options_in env) ≡ verifier)
  unfolding build_token_verifier
  built_of env (with_secret secret i a c) verifier (no_uri, given, same_i, same_a, same_c) h = (
    world.text_key secret,
    inr (no_uri, (secret, given, refl)),
    rw (← same_i, ← same_a, ← same_c) (ok_injective h),
  )
    where
      ok_injective : {v w : TokenVerifier S} → ok v ≡ ok w → v ≡ w
      ok_injective h = ground arith
  built_of env (with_jwks uri i a c) verifier (given, same_i, same_a, same_c) h =
      let (key, found, made) = bind-ok (world.remote_key_set uri) _ verifier h in
      (key, inl (uri, given, found), rw (← same_i, ← same_a, ← same_c) (ok_injective made))
    where
      ok_injective : {v w : TokenVerifier S} → ok v ≡ ok w → v ≡ w
      ok_injective h = ground arith

  -- A token that the server accepts was accepted by jose, under the key set at JWT_JWKS_URI or, where
  -- that is unset or empty, the secret JWT_SECRET, asked for the issuer and the audience that are set
  -- and for an expiry; and the user is the one that the claim JWT_USER_ID_CLAIM names, `sub` if that
  -- is unset.
  pub run-verified :
      (env : ProcessEnv) (r : Running S) (token : String) (identity : VerifiedIdentity) (s s' : S)
      → run world env ≡ ok r
      → r.config.token_verifier.verify token s ≡ (ok identity, s')
      → (key : Key) × (payload : JwtPayload) × IsKeyOf env key
        × (world.jwt_verify key token (asked (options_in env)) s ≡ (ok payload, s'))
        × (payload (user_id_claim_of (options_in env)) ≡ text identity.user_id)
        × (is_empty identity.user_id ≡ false)
        × (identity.expires_at ≡ expires_at_of (payload "exp"))
  unfolding run jwt_token_verifier verify verify_payload
  run-verified env r token identity s s' h accepted =
      let (c, parsed, rest) = bind-ok _ _ r h in
      let (verifier, built, last) = bind-ok (build_token_verifier world c.jwt) _ r rest in
      let (_, _, _, _, _, jwt, _, _) = parse_env-ok world.to_number env c parsed in
      let (key, is_key, made) = built_of env c.jwt verifier jwt built in
      let same : running_of world c verifier ≡ r = ground arith in
      let e : jwt_token_verifier world key (options_in env) ≡ r.config.token_verifier =
        made ∙ ap (λ (x : Running S). x.config.token_verifier) same in
      let k : (jwt_token_verifier world key (options_in env)).verify token s ≡ (ok identity, s') =
        ap (λ (v : TokenVerifier S). v.verify token s) e ∙ accepted in
      let (payload, answered, named, full, expiry) =
        of_payload-ok (λ t o. (world.jwt_verify key t o s).0) (user_id_claim_of (options_in env)) _
          identity (ap (λ q. q.0) k) in
      (key, payload, is_key, (λ i. (answered i, ap (λ q. q.1) k i)), named, full, expiry)

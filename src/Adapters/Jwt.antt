-- ===== src/Adapters/Jwt.antt =====
-- src/adapters/jwt/token-verifier.ts over `jwtVerify` of the package jose, which is a parameter.
use Prim.Native.String
use jiffy_messaging.Base.{
  ℕ, ◌+◌, ◌*◌, ◌≡◌, refl, String, false, Option, none, some, List, [], ◌∷◌, arith, if◌then◌else◌,
  ap, ◌∙◌,
}
use jiffy_messaging.Errors.{Error, invalid_token, message_of}
use jiffy_messaging.Exec.{Result, ok, err}
use jiffy_messaging.Text.{is_empty}
use jiffy_messaging.Domain.{Instant}
use jiffy_messaging.Ports.{VerifiedIdentity}

-- A claim's value, as far as `verify` tells values apart. A number of seconds is a natural number.
pub data Claim : Type 0 where
  missing : Claim
  text : String → Claim
  number : ℕ → Claim
  something_else : Claim

abbrev pub JwtPayload : Type 0
JwtPayload = String → Claim

pub record JwtTokenVerifierOptions : Type 0 where
  pub issuer : Option String
  pub audience : Option String
  pub user_id_claim : Option String

abbrev pub user_id_claim_of : JwtTokenVerifierOptions → String
user_id_claim_of options = or_sub options.user_id_claim
  where
    or_sub : Option String → String
    or_sub none = "sub"
    or_sub (some claim) = claim

-- The options that `jwtVerify` is called with.
pub record JwtVerifyOptions : Type 0 where
  pub issuer : Option String
  pub audience : Option String
  pub required_claims : List String

abbrev pub asked : JwtTokenVerifierOptions → JwtVerifyOptions
asked options = record {
  issuer = options.issuer;
  audience = options.audience;
  required_claims = "exp" ∷ user_id_claim_of options ∷ [];
}

-- 1970, as an `Instant`.
abbrev pub unix_epoch : Instant
unix_epoch = 8640000000000000

unfoldable pub expires_at_of : Claim → Option Instant
expires_at_of (number seconds) = some (unix_epoch + seconds * 1000)
expires_at_of missing = none
expires_at_of (text t) = none
expires_at_of something_else = none

abbrev pub no_user : String → Error
no_user claim =
    invalid_token (String.◌++◌ "missing or non-string \"" (String.◌++◌ claim "\" claim"))

module _ (jwt_verify : String → JwtVerifyOptions → Result JwtPayload) where
  abbrev pub as_invalid : Result JwtPayload → Result JwtPayload
  as_invalid (ok payload) = ok payload
  as_invalid (err e) = err (invalid_token (message_of e))

  unfoldable pub verify_payload : JwtTokenVerifierOptions → String → Result JwtPayload
  verify_payload options token = as_invalid (
      jwt_verify token (record {
        issuer = options.issuer;
        audience = options.audience;
        required_claims = "exp" ∷ user_id_claim_of options ∷ [];
      }))

  abbrev identified : String → Claim → Claim → Result VerifiedIdentity
  identified claim (text user_id) exp =
      if is_empty user_id
      then err (no_user claim)
      else ok (record { user_id = user_id; expires_at = expires_at_of exp })
  identified claim _ exp = err (no_user claim)

  abbrev pub of_payload : String → Result JwtPayload → Result VerifiedIdentity
  of_payload claim (ok payload) = identified claim (payload claim) (payload "exp")
  of_payload claim (err e) = err e

  unfoldable pub verify : JwtTokenVerifierOptions → String → Result VerifiedIdentity
  unfolding verify_payload
  verify options token = of_payload (user_id_claim_of options) (verify_payload options token)

  identified-ok :
      (claim : String) (value exp : Claim) (identity : VerifiedIdentity)
      → identified claim value exp ≡ ok identity
      → (value ≡ text identity.user_id)
        × (is_empty identity.user_id ≡ false)
        × (identity.expires_at ≡ expires_at_of exp)
  identified-ok claim (text t) exp identity h = (ground arith, ground arith, ground arith)
  identified-ok claim missing exp identity h = ground arith
  identified-ok claim (number n) exp identity h = ground arith
  identified-ok claim something_else exp identity h = ground arith

  identified-err :
      (claim : String) (value exp : Claim) (e : Error)
      → identified claim value exp ≡ err e
      → e ≡ no_user claim
  identified-err claim (text t) exp e h = ground arith
  identified-err claim missing exp e h = ground arith
  identified-err claim (number n) exp e h = ground arith
  identified-err claim something_else exp e h = ground arith

  pub of_payload-ok :
      (claim : String) (r : Result JwtPayload) (identity : VerifiedIdentity)
      → of_payload claim (as_invalid r) ≡ ok identity
      → (payload : JwtPayload) × (r ≡ ok payload)
        × (payload claim ≡ text identity.user_id)
        × (is_empty identity.user_id ≡ false)
        × (identity.expires_at ≡ expires_at_of (payload "exp"))
  of_payload-ok claim (ok payload) identity h =
      let (named, filled, expiry) =
        identified-ok claim (payload claim) (payload "exp") identity h in
      (payload, refl, named, filled, expiry)
  of_payload-ok claim (err e) identity h = ground arith

  of_payload-err :
      (claim : String) (r : Result JwtPayload) (e : Error)
      → of_payload claim (as_invalid r) ≡ err e
      → (reason : String) × (e ≡ invalid_token reason)
  of_payload-err claim (ok payload) e h =
      (_, identified-err claim (payload claim) (payload "exp") e h)
  of_payload-err claim (err d) e h = (message_of d, ground arith)

  -- If jose keeps to what is documented, that a payload which it was asked to have `exp` in has
  -- a number there: a token is accepted only if jose accepts it, asked for `exp` and for the
  -- claim of the user id, and the payload has a text there that is not empty, which is the user
  -- id; the identity always has an expiry, that of the payload. A refusal is always an
  -- `InvalidTokenError`.
  pub verify_lem :
      (options : JwtTokenVerifierOptions) (token : String)
      (exp_required : (payload : JwtPayload)
        → jwt_verify token (asked options) ≡ ok payload
        → (seconds : ℕ) × (payload "exp" ≡ number seconds))
      → ((identity : VerifiedIdentity)
          → verify options token ≡ ok identity
          → (payload : JwtPayload) × (seconds : ℕ) × (jwt_verify token (asked options) ≡ ok payload)
            × (payload (user_id_claim_of options) ≡ text identity.user_id)
            × (is_empty identity.user_id ≡ false)
            × (payload "exp" ≡ number seconds)
            × (identity.expires_at ≡ some (unix_epoch + seconds * 1000)))
        × ((e : Error)
            → verify options token ≡ err e
            → (reason : String) × (e ≡ invalid_token reason))
  unfolding verify
  verify_lem options token exp_required = (
    λ identity h.
        let (payload, accepted, named, filled, expiry) =
          of_payload-ok (user_id_claim_of options) (jwt_verify token (asked options)) identity h in
        let (seconds, e) = exp_required payload accepted in
        (
          payload,
          seconds,
          accepted,
          named,
          filled,
          e,
          (unfold expires_at_of in expiry ∙ ap expires_at_of e),
        ),
    λ e h. of_payload-err (user_id_claim_of options) (jwt_verify token (asked options)) e h,
  )

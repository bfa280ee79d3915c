-- ===== src/Http/App/Passage.antt =====
-- The way of a request of the API through the middleware of src/http/app.ts.
use jiffy_messaging.Base.{◌≡◌, refl, String, Bool, true, false, Option, none, some}
use jiffy_messaging.Errors.{Error}
use jiffy_messaging.Exec.{Result, ok, err, Exec}
use jiffy_messaging.Ports.{VerifiedIdentity}
use jiffy_messaging.Core.{MessagingService}
use jiffy_messaging.Http.Responses.{Response, failure}
use jiffy_messaging.Http.Router.{Call, handle}
use jiffy_messaging.Http.App.{
  Packages, api, bearer_token, serve, authenticate, after_ip_limit, after_verification,
  after_user_limit,
}

module _ {S : Type 0} (packages : Packages S) (service : MessagingService S)
    (count_published : S → S) (verify : String → Exec S VerifiedIdentity)
    (readiness_check : Option (Exec S Bool)) (ip : String) (authorization : Option String)
    (call : Call) (s : S) where
  -- The states behind the limiter by address, the verifier and the limiter by user.
  abbrev pub limited_state : S
  limited_state = (packages.ip_limit ip s).1

  abbrev pub verified_state : String → S
  verified_state token = (verify token limited_state).1

  -- Where a call of the API ends: refused on the way, or at its handler as the user that the verifier
  -- reported.
  pub data Passage (result : Response × S) : Type 0 where
    too_many_from_address :
        (packages.ip_limit ip s).0 ≡ false
        → result ≡ (packages.limited_response, limited_state)
        → Passage result
    no_token :
        bearer_token authorization ≡ none
        → result ≡ (failure 401 "Missing bearer token", limited_state)
        → Passage result
    bad_token :
        (token : String) (e : Error)
        → bearer_token authorization ≡ some token
        → (verify token limited_state).0 ≡ err e
        → result ≡ (failure 401 "Invalid or expired token", verified_state token)
        → Passage result
    too_many_of_user :
        (token : String) (identity : VerifiedIdentity)
        → bearer_token authorization ≡ some token
        → (verify token limited_state).0 ≡ ok identity
        → (packages.user_limit identity.user_id (verified_state token)).0 ≡ false
        → result ≡ (
          packages.limited_response,
          (packages.user_limit identity.user_id (verified_state token)).1,
        )
        → Passage result
    handled :
        (token : String) (identity : VerifiedIdentity)
        → (packages.ip_limit ip s).0 ≡ true
        → bearer_token authorization ≡ some token
        → (verify token limited_state).0 ≡ ok identity
        → (packages.user_limit identity.user_id (verified_state token)).0 ≡ true
        → result
          ≡ handle service count_published identity.user_id call
              (packages.user_limit identity.user_id (verified_state token)).1
        → Passage result

  after_user_limit-Passage :
      (token : String) (identity : VerifiedIdentity) (let_in : Bool)
      → (packages.ip_limit ip s).0 ≡ true
      → bearer_token authorization ≡ some token
      → (verify token limited_state).0 ≡ ok identity
      → (packages.user_limit identity.user_id (verified_state token)).0 ≡ let_in
      → Passage (
          after_user_limit packages service count_published verify readiness_check
            (api call)
            identity.user_id
            let_in
            (packages.user_limit identity.user_id (verified_state token)).1)
  after_user_limit-Passage token identity true a b c d = handled token identity a b c d refl
  after_user_limit-Passage token identity false a b c d = too_many_of_user token identity b c d refl

  after_verification-Passage :
      (token : String) (r : Result VerifiedIdentity)
      → (packages.ip_limit ip s).0 ≡ true
      → bearer_token authorization ≡ some token
      → (verify token limited_state).0 ≡ r
      → Passage (
          after_verification packages service count_published verify readiness_check
            (api call)
            r
            (verified_state token))
  after_verification-Passage token (ok identity) a b c =
      after_user_limit-Passage token identity _ a b c refl
  after_verification-Passage token (err e) a b c = bad_token token e b c refl

  authenticate-Passage :
      (o : Option String)
      → (packages.ip_limit ip s).0 ≡ true
      → bearer_token authorization ≡ o
      → Passage (
          authenticate packages service count_published verify readiness_check
            (api call)
            o
            limited_state)
  unfolding authenticate
  authenticate-Passage none a b = no_token b refl
  authenticate-Passage (some token) a b = after_verification-Passage token _ a b refl

  after_ip_limit-Passage :
      (let_in : Bool)
      → (packages.ip_limit ip s).0 ≡ let_in
      → Passage (
          after_ip_limit packages service count_published verify readiness_check
            (api call)
            authorization
            let_in
            limited_state)
  after_ip_limit-Passage true a = authenticate-Passage _ a refl
  after_ip_limit-Passage false a = too_many_from_address a refl

  -- A call of the API comes to its handler only by way of both limiters and the verifier, and as the
  -- user that the verifier reported for the token. Otherwise the answer is 401 or the limiter's, and
  -- nothing but the limiters and the verifier has touched the state.
  pub serve-Passage : Passage (
      serve packages service count_published verify readiness_check
        (record { ip = ip; authorization = authorization; target = api call })
        s)
  unfolding serve
  serve-Passage = after_ip_limit-Passage _ refl

-- ===== src/Http/App.antt =====
-- src/http/app.ts and src/http/auth-middleware.ts, health-router.ts and rate-limit.ts: what a
-- request passes before it reaches a route.
pub mod Passage
use Prim.Native.Char.{Char, code}
use Prim.Native.String
use jiffy_messaging.Base.{
  ℕ, ◌≡◌, refl, String, Bool, true, false, Option, none, some, arith, leb, ◌&&◌, if◌then◌else◌, ◌⊎◌,
  inl, inr, ◌↔◌, ap,
}
use jiffy_messaging.Exec.{Result, ok, err, Exec}
use jiffy_messaging.Text.{is_empty}
use jiffy_messaging.Ports.{VerifiedIdentity}
use jiffy_messaging.Core.{MessagingService}
use jiffy_messaging.Http.Responses.{Response, reply, failure, status_text, metrics_text, no_content}
use jiffy_messaging.Http.Router.{Call, handle}

abbrev is_char : Char → Char → Bool
is_char c d = leb (code c) (code d) && leb (code d) (code c)

-- `s.startsWith(prefix) ? s.slice(prefix.length) : undefined`
unfoldable pub after_prefix : String → String → Option String
after_prefix String.[] s = some s
after_prefix (String.◌∷◌ c p) String.[] = none
after_prefix (String.◌∷◌ c p) (String.◌∷◌ d s) = if is_char c d then after_prefix p s else none

abbrev after_bearer : Option String → Option String
after_bearer none = none
after_bearer (some header) = after_prefix "Bearer " header

abbrev not_empty : Option String → Option String
not_empty none = none
not_empty (some token) = if is_empty token then none else some token

-- The token of an `authorization` header; `none` where the middleware's `!token` holds.
unfoldable pub bearer_token : Option String → Option String
unfolding after_prefix
bearer_token header = not_empty (after_bearer header)

-- `GET /ready` with the readiness check's answer, if there is a check.
unfoldable pub readiness : Option (Result Bool) → Response
readiness none = reply 200 (status_text "ready")
readiness (some (ok true)) = reply 200 (status_text "ready")
readiness (some (ok false)) = reply 503 (status_text "not ready")
readiness (some (err e)) = reply 503 (status_text "not ready")

-- What Express matches; `elsewhere` is no route of the service.
pub data Target : Type 0 where
  preflight health ready metrics elsewhere : Target
  api : Call → Target

pub record Request : Type 0 where
  pub ip : String
  pub authorization : Option String
  pub target : Target

-- The packages that the app mounts: what `cors` answers to a preflight, the two limiters of
-- `express-rate-limit` (whether a key is let through, and the answer if not), and Express's 404.
pub record Packages (S : Type 0) : Type 0 where
  pub cors_response : Response
  pub ip_limit : String → S → Bool × S
  pub user_limit : String → S → Bool × S
  pub limited_response : Response
  pub not_found_response : Response

module _ {S : Type 0} (packages : Packages S) (service : MessagingService S)
    (count_published : S → S) (verify : String → Exec S VerifiedIdentity)
    (readiness_check : Option (Exec S Bool)) where
  -- The routes, and the 404 behind them.
  abbrev route : Target → String → S → Response × S
  route (api call) user_id s = handle service count_published user_id call s
  route _ user_id s = (packages.not_found_response, s)

  abbrev after_user_limit : Target → String → Bool → S → Response × S
  after_user_limit target user_id true s = route target user_id s
  after_user_limit target user_id false s = (packages.limited_response, s)

  abbrev after_verification : Target → Result VerifiedIdentity → S → Response × S
  after_verification target (ok identity) s =
      after_user_limit target identity.user_id (packages.user_limit identity.user_id s).0
        (packages.user_limit identity.user_id s).1
  after_verification target (err e) s = (failure 401 "Invalid or expired token", s)

  -- `authenticate`, with all that is mounted behind it as its `next`.
  unfoldable pub authenticate : Target → Option String → S → Response × S
  authenticate target none s = (failure 401 "Missing bearer token", s)
  authenticate target (some token) s =
      after_verification target (verify token s).0 (verify token s).1

  abbrev after_ip_limit : Target → Option String → Bool → S → Response × S
  after_ip_limit target authorization true s = authenticate target (bearer_token authorization) s
  after_ip_limit target authorization false s = (packages.limited_response, s)

  -- `GET /ready`, with the check, if there is one, made at the time.
  abbrev answer_ready : Option (Exec S Bool) → S → Response × S
  answer_ready none s = (readiness none, s)
  answer_ready (some check) s = (readiness (some (check s).0), (check s).1)

  abbrev serve_target : String → Option String → Target → S → Response × S
  serve_target ip authorization preflight s = (packages.cors_response, s)
  serve_target ip authorization health s = (reply 200 (status_text "ok"), s)
  serve_target ip authorization ready s = answer_ready readiness_check s
  serve_target ip authorization metrics s = (reply 200 metrics_text, s)
  serve_target ip authorization target s =
      after_ip_limit target authorization (packages.ip_limit ip s).0 (packages.ip_limit ip s).1

  -- The middleware in the order in which `createHttpApp` mounts it.
  unfoldable pub serve : Request → S → Response × S
  unfolding authenticate bearer_token readiness
  serve req s = serve_target req.ip req.authorization req.target s

-- ===== src/RateLimit/Budget.antt =====
-- `RateLimitMiddleware` and `_request_identity`. What the application answers to a request that is
-- let through is not modelled. The subject of a token is what `decode_access_token` finds, which is
-- an argument: nothing for a token that is invalid or has no subject.
pub mod Bound
use core_lab.Prelude.{
  ℕ, Bool, true, false, ◌||◌, Option, none, some, List, [], ◌∷◌, ◌++◌, drop, is_empty, some_of,
  if◌then◌else◌,
}
use core_lab.Data.Row.{Text}
use core_lab.Data.Strings.{text_eq, starts_with, strip, before}
use core_lab.Session.Write.{codes}
use core_lab.RateLimit.Window.{Store, hit}

abbrev pub default_read_per_minute : ℕ
default_read_per_minute = 600

abbrev pub default_write_per_minute : ℕ
default_write_per_minute = 60

abbrev pub window_seconds : ℕ
window_seconds = 60

abbrev exempt_path_prefixes : List Text
exempt_path_prefixes =
    codes "/healthz"
    ∷ codes "/readyz"
    ∷ codes "/openapi.json"
    ∷ codes "/docs"
    ∷ codes "/ws/"
    ∷ codes "/api/v1/auth/login"
    ∷ []

abbrev write_methods : List Text
write_methods = codes "POST" ∷ codes "PUT" ∷ codes "PATCH" ∷ codes "DELETE" ∷ []

-- A header that is missing is the empty text.
pub record Request : Type 0 where
  pub path : Text
  pub method : Text
  pub authorization : Text
  pub x_forwarded_for : Text
  pub client_host : Option Text

-- What becomes of a request. A request that is let through carries the limit and what remains.
pub data Response : Type 0 where
  exempt : Response
  too_many_requests : (limit : ℕ) → Response
  passed : (limit remaining : ℕ) → Response

client_identity : Option Text → Text
client_identity none = codes "ip:unknown"
client_identity (some host) = codes "ip:" ++ host

unfoldable pub address_identity : Request → Text
unfolding client_identity
address_identity r =
    if is_empty r.x_forwarded_for
    then client_identity r.client_host
    else codes "ip:" ++ strip (before b',' r.x_forwarded_for)

unfoldable pub subject_identity : Request → Option Text → Text
unfolding address_identity
subject_identity r none = address_identity r
subject_identity r (some sub) = codes "user:" ++ sub

-- `_request_identity`
unfoldable pub request_identity : (Text → Option Text) → Request → Text
unfolding subject_identity
request_identity decode r =
    if starts_with (codes "Bearer ") r.authorization
    then subject_identity r (decode (strip (drop 7 r.authorization)))
    else address_identity r

unfoldable pub is_exempt : Request → Bool
is_exempt r = some_of (λ p. starts_with p r.path) exempt_path_prefixes

unfoldable pub is_write : Request → Bool
is_write r = some_of (text_eq r.method) write_methods

unfoldable pub limit_of : Request → ℕ
limit_of r = if is_write r then default_write_per_minute else default_read_per_minute

-- The key of the bucket that a request counts in.
unfoldable pub key_of : (Text → Option Text) → Request → Text
key_of decode r =
    (codes "ratelimit:" ++ request_identity decode r)
    ++ (if is_write r then codes ":w" else codes ":r")

answer : ℕ → (Bool × ℕ) × Store → Response × Store
answer limit ((true, remaining), store) = (Response.passed limit remaining, store)
answer limit ((false, remaining), store) = (Response.too_many_requests limit, store)

-- `dispatch`
unfoldable pub dispatch : (Text → Option Text) → Request → (now_ms : ℕ) → Store → Response × Store
unfolding answer
dispatch decode r now_ms store =
    if is_exempt r
    then (Response.exempt, store)
    else answer (limit_of r) (hit (key_of decode r) (limit_of r) window_seconds now_ms store)

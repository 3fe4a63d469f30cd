-- ===== src/Security.antt =====
-- internal/security/middleware.go and implementation.go, the whitelist of internal/config/security.go, and
-- the chain of internal/alert/secure_handler.go: what a request meets before its handler. Metrics, audit
-- entries and the texts of responses are left out.
pub mod Payload
pub mod Chain
pub mod Body
use Prim.Native.Char.{Char, code}
use Prim.Native.String
use Prim.Native.String.{[], ◌∷◌, len}
use health_monitor_sre_engin.Common.{
  ℕ, ◌+◌, ◌==◌, ltb, String, Bool, true, false, not, ◌&&◌, ◌||◌, Option, none, some, List, [], ◌∷◌,
  if◌then◌else◌, str_eq, is_empty, trim_space, any,
}
use health_monitor_sre_engin.Security.Payload.{Members, Validation, PayloadError, validate_payload}

-- What the code takes from net, net/netip, encoding/json and golang.org/x/time/rate. `admits` is
-- Limiter.Allow of a limiter that has just been made.
pub record Library : Type 1 where
  pub Address : Type 0
  pub Prefix : Type 0
  pub parse_address : String → Option Address
  pub covers : Prefix → Address → Bool
  pub split_host : String → Option String
  pub unmarshal : String → Option Members
  pub Limiter : Type 0
  pub new_limiter : ℕ → ℕ → Limiter
  pub admits : Limiter → Bool

-- The parts of config.SecurityConfig that requests meet; `allowed` holds the parsed prefixes.
pub record Settings (L : Library) : Type 0 where
  pub auth : Bool
  pub tokens : List String
  pub whitelist : Bool
  pub allowed : List L.Prefix
  pub limited : Bool
  pub requests_per_minute : ℕ
  pub burst_size : ℕ
  pub validation : Validation

-- Content-Length, which is -1 for a body of unknown length
pub data Length : Type 0 where
  known : ℕ → Length
  unknown : Length

-- `body` is what is left to read, `none` an error of the read. A header that is missing is the empty text.
pub record Request : Type 0 where
  pub method : String
  pub content_length : Length
  pub body : Option String
  pub forwarded_for : String
  pub real_ip : String
  pub authorization : String
  pub remote_addr : String

pub data Response : Type 0 where
  handled : Request → Response
  forbidden too_many_requests token_missing token_invalid unreadable_body : Response
  invalid_payload : PayloadError → Response

abbrev pub Handler : Type 0
Handler = Request → Response

-- strings.Split(s, ",")[0]
unfoldable pub before_comma : String → String
before_comma [] = []
before_comma (c ∷ s) = if code c == b',' then [] else c ∷ before_comma s

abbrev host_or_all : String → Option String → String
host_or_all addr none = addr
host_or_all addr (some host) = host

-- getClientIP
unfoldable pub get_client_ip : Library → Request → String
get_client_ip L r =
    if not (is_empty r.forwarded_for)
    then trim_space (before_comma r.forwarded_for)
    else if not (is_empty r.real_ip)
    then trim_space r.real_ip
    else host_or_all r.remote_addr (L.split_host r.remote_addr)

abbrev covered : (L : Library) → List L.Prefix → Option L.Address → Bool
covered L allowed none = false
covered L allowed (some a) = any (λ p. L.covers p a) allowed

-- IPWhitelistConfig.IsIPAllowed
unfoldable pub is_ip_allowed : (L : Library) → Settings L → String → Bool
is_ip_allowed L s ip = if s.whitelist then covered L s.allowed (L.parse_address ip) else true

-- SecurityImpl.ValidateToken
unfoldable pub validate_token : (L : Library) → Settings L → String → Bool
validate_token L s token = if s.auth then any (λ t. str_eq t token) s.tokens else true

-- SecurityImpl.GetRateLimiter, which makes a limiter for each call
unfoldable pub get_rate_limiter : (L : Library) → Settings L → L.Limiter
get_rate_limiter L s = L.new_limiter s.requests_per_minute s.burst_size

-- AuthMiddleware.Middleware
unfoldable pub auth_middleware : (L : Library) → Settings L → Handler → Handler
auth_middleware L s next r =
    if not (is_ip_allowed L s (get_client_ip L r))
    then forbidden
    else if s.limited && not (L.admits (get_rate_limiter L s))
    then too_many_requests
    else if s.auth && is_empty r.authorization
    then token_missing
    else if s.auth && not (validate_token L s r.authorization)
    then token_invalid
    else next r

-- r.Method == "POST" && r.ContentLength > 0
abbrev pub has_content : Request → Bool
has_content r =
    str_eq r.method "POST" && elim r.content_length [ known n ↦ ltb 0 n | unknown ↦ false ]

abbrev pub checked_payload : Handler → Request → Option PayloadError → Response
checked_payload next r none = next r
checked_payload next r (some e) = invalid_payload e

-- io.ReadAll(r.Body), `none` for its error: the bytes, and the request, which has none left to read
abbrev pub read_body : Request → Option (String × Request)
read_body r = drained r.body
  where
    drained : Option String → Option (String × Request)
    drained none = none
    drained (some buf) = some (buf, record r { body = some "" })

-- r.Body = &requestBody{buf: body}
abbrev pub put_back : String → Request → Request
put_back buf r = record r { body = some buf }

-- what follows the read: the body is put back, and then validated
abbrev pub checked_body :
    (L : Library) → Settings L → Handler → Option (String × Request) → Response
checked_body L s next none = unreadable_body
checked_body L s next (some (buf, r)) =
    checked_payload next (put_back buf r) (validate_payload s.validation (L.unmarshal buf))

-- ValidationMiddleware.Middleware
unfoldable pub validation_middleware : (L : Library) → Settings L → Handler → Handler
validation_middleware L s next r =
    if not s.validation.enabled
    then next r
    else if has_content r
    then checked_body L s next (read_body r)
    else next r

-- SecureWebhookHandler.applySecurityMiddleware
unfoldable pub apply_security_middleware : (L : Library) → Settings L → Handler → Handler
apply_security_middleware L s next =
    let inner = if s.validation.enabled then validation_middleware L s next else next in
    if s.auth || s.limited then auth_middleware L s inner else inner

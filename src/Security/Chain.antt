-- ===== src/Security/Chain.antt =====
-- What a request has passed when its handler is reached.

use health_monitor_sre_engin.Common.{
  String, Bool, true, false, not, ◌||◌, Option, none, some, List, ◌≡◌, inl, inr, refl, sym, ◌∙◌, ap,
  subst, if◌then◌else◌, is_empty, Bool-cases, Option-cases, arith,
}
use mathlib.Core.Option.{some-injective}
use health_monitor_sre_engin.Security.Payload.{PayloadError, validate_payload}
use health_monitor_sre_engin.Security.{
  Library, Settings, Request, Response, handled, Handler, get_client_ip, is_ip_allowed,
  validate_token, auth_middleware, has_content, checked_payload, checked_body, read_body, put_back,
  validation_middleware, apply_security_middleware,
}

-- what a handler is reached with, if it is
abbrev pub reached : Response → Option Request
reached (handled r) = some r
reached _ = none

-- the handler that AuthMiddleware is put around
abbrev inner : (L : Library) → Settings L → Handler
inner L s = if s.validation.enabled then validation_middleware L s handled else handled

auth_passed :
    (L : Library) (s : Settings L) (next : Handler) (r q : Request)
    → s.auth ≡ true
    → reached (auth_middleware L s next r) ≡ some q
    → (is_ip_allowed L s (get_client_ip L r) ≡ true)
      × (is_empty r.authorization ≡ false)
      × (validate_token L s r.authorization ≡ true)
      × (reached (next r) ≡ some q)
unfolding auth_middleware
auth_passed L s next r q a h = ground (arith, a, h)

wrapped :
    (L : Library) (s : Settings L) (r : Request)
    → (s.auth || s.limited) ≡ true
    → apply_security_middleware L s handled r ≡ auth_middleware L s (inner L s) r
unfolding apply_security_middleware
wrapped L s r a = ap (λ b. (if b then auth_middleware L s (inner L s) else inner L s) r) a

unwrapped :
    (L : Library) (s : Settings L) (r : Request)
    → (s.auth || s.limited) ≡ false
    → apply_security_middleware L s handled r ≡ inner L s r
unfolding apply_security_middleware
unwrapped L s r a = ap (λ b. (if b then auth_middleware L s (inner L s) else inner L s) r) a

-- Where authentication is enabled, a request reaches the handler only if its address is allowed and it
-- has a token that ValidateToken accepts.
pub reached-authenticated :
    (L : Library) (s : Settings L) (r q : Request)
    → s.auth ≡ true
    → reached (apply_security_middleware L s handled r) ≡ some q
    → (is_ip_allowed L s (get_client_ip L r) ≡ true)
      × (is_empty r.authorization ≡ false)
      × (validate_token L s r.authorization ≡ true)
reached-authenticated L s r q a h =
    let e = wrapped L s r (ground (arith, a)) in
    let f = auth_passed L s (inner L s) r q a (subst (λ x. reached x ≡ some q) e h) in
    (f.0, f.1, f.2)

auth_next :
    (L : Library) (s : Settings L) (next : Handler) (r q : Request)
    → reached (auth_middleware L s next r) ≡ some q
    → reached (next r) ≡ some q
unfolding auth_middleware
auth_next L s next r q h = ground (arith, h)

inner_reached :
    (L : Library) (s : Settings L) (r q : Request)
    → reached (apply_security_middleware L s handled r) ≡ some q
    → reached (inner L s r) ≡ some q
inner_reached L s r q h = elim (Bool-cases (s.auth || s.limited)) [
  | inl a ↦ auth_next L s (inner L s) r q (subst (λ x. reached x ≡ some q) (wrapped L s r a) h)
  | inr a ↦ subst (λ x. reached x ≡ some q) (unwrapped L s r a) h
]

payload_passed :
    (r q : Request) (e : Option PayloadError)
    → reached (checked_payload handled r e) ≡ some q
    → (e ≡ none) × (r ≡ q)
payload_passed r q none h = (refl, some-injective r q h)
payload_passed r q (some x) h = absurd (ground (arith, h))

body_passed :
    (L : Library) (s : Settings L) (r q : Request)
    → reached (checked_body L s handled (read_body r)) ≡ some q
    → (buf : String) × (r.body ≡ some buf)
      × (validate_payload s.validation (L.unmarshal buf) ≡ none)
      × (q.body ≡ some buf)
body_passed L s r q h = elim (Option-cases r.body) [
  | inl e ↦ absurd (ground (arith, rw e at h))
  | inr (buf, e) ↦
      let f =
        payload_passed (put_back buf (record r { body = some "" })) q
          (validate_payload s.validation (L.unmarshal buf)) (rw e at h) in
      (buf, e, f.0, ap (λ x. x.body) (sym f.1))
]

validated :
    (L : Library) (s : Settings L) (r q : Request)
    → s.validation.enabled ≡ true
    → has_content r ≡ true
    → reached (inner L s r) ≡ some q
    → reached (checked_body L s handled (read_body r)) ≡ some q
unfolding validation_middleware
validated L s r q v c h =
    let opened =
      ap
        (λ b.
          (if b
              then (λ x.
                  if not b
                  then handled x
                  else if has_content x
                  then checked_body L s handled (read_body x)
                  else handled x)
              else handled)
            r)
        v in
    let tested = ap (λ b. if b then checked_body L s handled (read_body r) else handled r) c in
    subst (λ x. reached x ≡ some q) (opened ∙ tested) h

-- Where validation is enabled, a POST request with a positive Content-Length reaches the handler only if
-- ValidatePayload accepts its body, and the handler then has that body to read.
pub reached-validated :
    (L : Library) (s : Settings L) (r q : Request)
    → s.validation.enabled ≡ true
    → has_content r ≡ true
    → reached (apply_security_middleware L s handled r) ≡ some q
    → (buf : String) × (r.body ≡ some buf)
      × (validate_payload s.validation (L.unmarshal buf) ≡ none)
      × (q.body ≡ some buf)
reached-validated L s r q v c h =
    body_passed L s r q (validated L s r q v c (inner_reached L s r q h))

-- Where authentication and rate limiting are both disabled, the whitelist of addresses has no effect,
-- although it has a switch of its own: requests end the same with any whitelist, or none.
pub whitelist_ignored :
    (L : Library) (s : Settings L) (on : Bool) (prefixes : List L.Prefix) (next : Handler)
    (r : Request)
    → s.auth ≡ false
    → s.limited ≡ false
    → apply_security_middleware L (record s { whitelist = on; allowed = prefixes }) next r
      ≡ apply_security_middleware L s next r
unfolding apply_security_middleware validation_middleware
whitelist_ignored L s on prefixes next r a l = rw (a, l) refl

-- ===== src/Auth/Guard.antt =====
-- Who reaches the webhook server, from the flags to the request.
use health_monitor_sre_engin.Common.{
  String, true, false, ◌≡◌, ◌↔◌, ◌⊎◌, eq_iff, is_empty, trim_space, arith,
}
use health_monitor_sre_engin.Auth.{
  AuthConfig, Request, token_from_header, same_pair, allowed_request, is_guarded, auth_passes,
}

-- The request carries the token, or the user and the password.
abbrev pub HasToken : AuthConfig → Request → Type 0
HasToken cfg r = (is_empty (trim_space cfg.token) ≡ false) × (token_from_header r ≡ cfg.token)

abbrev pub HasPair : AuthConfig → Request → Type 0
HasPair cfg r =
    ((is_empty (trim_space cfg.user) ≡ false) ⊎ (is_empty (trim_space cfg.pass) ≡ false))
    × (same_pair cfg r.basic_auth ≡ true)

-- A request reaches the handler exactly when no credential is configured, or it carries the configured token,
-- or the configured user with its password.
pub auth_passes_iff :
    (cfg : AuthConfig) (r : Request)
    → (auth_passes cfg r ≡ true) ↔ ((is_guarded cfg ≡ false) ⊎ (HasToken cfg r ⊎ HasPair cfg r))
unfolding auth_passes allowed_request
auth_passes_iff cfg r = ground (arith, eq_iff (token_from_header r) cfg.token)

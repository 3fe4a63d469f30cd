-- ===== src/Access.antt =====
-- internal/config/security.go: roles, API keys, the addresses of the whitelist, and the validation of the
-- security configuration. netip.ParsePrefix is a parameter.
pub mod Decisions
use health_monitor_sre_engin.Common.{
  ℕ, String, Bool, true, false, not, ◌&&◌, ◌||◌, Option, none, some, List, [], ◌∷◌, ◌++◌, ℤ,
  is_positive, if◌then◌else◌, str_eq, is_empty, is_nil, any, Dict, lookup,
}

pub record RbacConfig : Type 0 where
  pub enabled : Bool
  pub roles : Dict (List String)
  pub users : Dict String

-- the loop over a role's permissions
unfoldable pub grants : String → List String → Bool
grants permission [] = false
grants permission (perm ∷ perms) =
    let rest = grants permission perms in
    if str_eq perm "*" then true else if str_eq perm permission then true else rest

abbrev pub role_grants : String → Option (List String) → Bool
role_grants permission none = false
role_grants permission (some permissions) = grants permission permissions

abbrev pub user_granted : RbacConfig → String → Option String → Bool
user_granted r permission none = false
user_granted r permission (some role) = role_grants permission (lookup role r.roles)

-- HasPermission
unfoldable pub has_permission : RbacConfig → String → String → Bool
has_permission r user permission =
    if r.enabled then user_granted r permission (lookup user r.users) else true

pub record ApiKey : Type 0 where
  pub name : String
  pub key : String
  pub permissions : List String

pub record ApiKeyConfig : Type 0 where
  pub enabled : Bool
  pub keys : List ApiKey

unfoldable pub find_key : String → List ApiKey → Option (List String)
find_key key [] = none
find_key key (k ∷ ks) =
    let rest = find_key key ks in if str_eq k.key key then some k.permissions else rest

-- ValidateAPIKey, `none` for false
unfoldable pub validate_api_key : ApiKeyConfig → String → Option (List String)
validate_api_key a key = if a.enabled then find_key key a.keys else some ("*" ∷ [])

pub record AuthToken : Type 0 where
  pub name : String
  pub token : String

pub record IpWhitelist (Prefix : Type 0) : Type 0 where
  pub enabled : Bool
  pub allowed_ips : List String
  pub cached_ips : List Prefix

pub record SecurityConfig (Prefix : Type 0) : Type 0 where
  pub tokens : List AuthToken
  pub whitelist : IpWhitelist Prefix
  pub rate_enabled : Bool
  pub requests_per_minute : ℤ
  pub burst_size : ℤ
  pub validation_enabled : Bool
  pub max_alerts_per_request : ℤ
  pub max_label_size : ℤ
  pub max_annotation_size : ℤ

pub data ConfigError : Type 0 where
  token_name_empty token_value_empty no_ips_specified invalid_ip : ConfigError
  requests_not_positive burst_not_positive : ConfigError
  alerts_not_positive label_not_positive annotation_not_positive : ConfigError

-- the first error, or none
abbrev pub unless : Bool → ConfigError → Option ConfigError → Option ConfigError
unless ok e rest = if ok then rest else some e

unfoldable pub validate_tokens : List AuthToken → Option ConfigError → Option ConfigError
validate_tokens [] rest = rest
validate_tokens (t ∷ ts) rest =
    let more = validate_tokens ts rest in
    unless (not (is_empty t.name)) token_name_empty
      (unless (not (is_empty t.token)) token_value_empty more)

abbrev pub parses : {Prefix : Type 0} → Option Prefix → Bool
parses none = false
parses (some p) = true

module _ {Prefix : Type 0} where
  -- the part of Validate on the sizes of a request
  unfoldable pub validate_sizes : SecurityConfig Prefix → Option ConfigError
  validate_sizes s =
      if s.validation_enabled
      then unless (is_positive s.max_alerts_per_request) alerts_not_positive (
          unless (is_positive s.max_label_size) label_not_positive
            (unless (is_positive s.max_annotation_size) annotation_not_positive none))
      else none

  -- from the rate limit on
  unfoldable pub validate_rates : SecurityConfig Prefix → Option ConfigError
  validate_rates s =
      let rest = validate_sizes s in
      if s.rate_enabled
      then unless (is_positive s.requests_per_minute) requests_not_positive
          (unless (is_positive s.burst_size) burst_not_positive rest)
      else rest

module _ {Prefix : Type 0} (parse_prefix : String → Option Prefix) where
  unfoldable pub validate_ips : List String → Option ConfigError → Option ConfigError
  validate_ips [] rest = rest
  validate_ips (ip ∷ ips) rest =
      let more = validate_ips ips rest in unless (parses (parse_prefix ip)) invalid_ip more

  -- from the whitelist on
  unfoldable pub validate_addresses : SecurityConfig Prefix → Option ConfigError
  validate_addresses s =
      let rest = validate_rates s in
      let checked = validate_ips s.whitelist.allowed_ips rest in
      if s.whitelist.enabled
      then unless (not (is_nil s.whitelist.allowed_ips)) no_ips_specified checked
      else rest

  -- SecurityConfig.Validate
  unfoldable pub validate : SecurityConfig Prefix → Option ConfigError
  validate s = validate_tokens s.tokens (validate_addresses s)

  -- the loop of ParseIPWhitelist; the second component is whether the error is nil
  unfoldable pub parse_all : List String → List Prefix → List Prefix × Bool
  parse_all [] cached = (cached, true)
  parse_all (ip ∷ ips) cached = elim (parse_prefix ip) [
    | none ↦ (cached, false)
    | some p ↦ parse_all ips (cached ++ p ∷ [])
  ]

  -- ParseIPWhitelist
  unfoldable pub parse_ip_whitelist : IpWhitelist Prefix → IpWhitelist Prefix × Bool
  parse_ip_whitelist w =
      let (cached, ok) = parse_all w.allowed_ips [] in
      if w.enabled then (record w { cached_ips = cached }, ok) else (w, true)

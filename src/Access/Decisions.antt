-- ===== src/Access/Decisions.antt =====
-- Exactly when a permission is granted and when a security configuration is accepted.
use health_monitor_sre_engin.Common.{
  String, Bool, true, false, Option, none, some, List, [], ◌∷◌, ◌≡◌, ◌↔◌, ◌⊎◌, refl, sym, ap,
  Bool-cases, inl, inr, ◌∙◌, is_positive, if◌then◌else◌, eq_iff, is_empty, is_nil, lookup, All,
  arith,
}
use health_monitor_sre_engin.Access.{
  RbacConfig, grants, role_grants, user_granted, has_permission, AuthToken, SecurityConfig,
  ConfigError, validate_tokens, validate_ips, validate, parses, validate_sizes, validate_rates,
  validate_addresses,
}

-- A permission is listed, or the star that stands for all.
abbrev pub Lists : String → List String → Type 0
Lists permission [] = ⊥
Lists permission (perm ∷ perms) = (perm ≡ "*") ⊎ ((perm ≡ permission) ⊎ Lists permission perms)

grants_iff :
    (permission : String) (perms : List String)
    → (grants permission perms ≡ true) ↔ Lists permission perms
unfolding grants
grants_iff permission [] = ground arith
grants_iff permission (perm ∷ perms) =
    ground (arith, grants_iff permission perms, eq_iff perm "*", eq_iff perm permission)

-- The user has a role, the role is defined, and it lists the permission or the star.
pub record IsGranted (r : RbacConfig) (user permission : String) : Type 0 where
  pub role : String
  pub permissions : List String
  pub has_role : lookup user r.users ≡ some role
  pub defined : lookup role r.roles ≡ some permissions
  pub listed : Lists permission permissions

-- HasPermission grants a permission exactly where roles are disabled, to everyone, and else to the users that
-- have a defined role which lists the permission or the star; an unknown user or role is then refused.
pub has_permission_iff :
    (r : RbacConfig) (user permission : String)
    → (has_permission r user permission ≡ true)
      ↔ ((r.enabled ≡ false) ⊎ IsGranted r user permission)
unfolding has_permission
has_permission_iff r user permission = elim (Bool-cases r.enabled) [
  | inr off ↦ (λ t. inl off, λ t. tested false off)
  | inl on ↦ (
    λ granted. inr (role_of (lookup user r.users) refl (sym (tested true on) ∙ granted)),
    λ either. elim either [
      | inl off ↦ cc
      | inr g ↦
          tested true on
          ∙ ap (user_granted r permission) g.has_role
          ∙ ap (role_grants permission) g.defined
          ∙ (grants_iff permission g.permissions).1 g.listed
    ],
  )
]
  where
    tested :
        (on : Bool)
        → r.enabled ≡ on
        → has_permission r user permission
          ≡ (if on then user_granted r permission (lookup user r.users) else true)
    tested on e =
        ap (λ enabled. if enabled then user_granted r permission (lookup user r.users) else true) e

    defined_as :
        (role : String) (found : Option (List String))
        → lookup user r.users ≡ some role
        → lookup role r.roles ≡ found
        → role_grants permission found ≡ true
        → IsGranted r user permission
    defined_as role none has_role defined t = cc
    defined_as role (some permissions) has_role defined t = record {
      role = role;
      permissions = permissions;
      has_role = has_role;
      defined = defined;
      listed = (grants_iff permission permissions).0 t;
    }

    role_of :
        (found : Option String)
        → lookup user r.users ≡ found
        → user_granted r permission found ≡ true
        → IsGranted r user permission
    role_of none e t = cc
    role_of (some role) e t = defined_as role (lookup role r.roles) e refl t

abbrev pub IsToken : AuthToken → Type 0
IsToken t = (is_empty t.name ≡ false) × (is_empty t.token ≡ false)

validate_tokens_iff :
    (ts : List AuthToken) (rest : Option ConfigError)
    → (validate_tokens ts rest ≡ none) ↔ (All IsToken ts × (rest ≡ none))
unfolding validate_tokens
validate_tokens_iff [] rest = ground arith
validate_tokens_iff (t ∷ ts) rest = ground (arith, validate_tokens_iff ts rest)

module _ {Prefix : Type 0} (parse_prefix : String → Option Prefix) where
  abbrev pub IsPrefix : String → Type 0
  IsPrefix ip = parses (parse_prefix ip) ≡ true

  validate_ips_iff :
      (ips : List String) (rest : Option ConfigError)
      → (validate_ips parse_prefix ips rest ≡ none) ↔ (All IsPrefix ips × (rest ≡ none))
  unfolding validate_ips
  validate_ips_iff [] rest = ground arith
  validate_ips_iff (ip ∷ ips) rest = ground (arith, validate_ips_iff ips rest)

module _ {Prefix : Type 0} where
  abbrev pub HasSizes : SecurityConfig Prefix → Type 0
  HasSizes s =
      (s.validation_enabled ≡ false)
      ⊎ ((is_positive s.max_alerts_per_request ≡ true)
          × (is_positive s.max_label_size ≡ true)
          × (is_positive s.max_annotation_size ≡ true))

  abbrev pub HasRates : SecurityConfig Prefix → Type 0
  HasRates s =
      (s.rate_enabled ≡ false)
      ⊎ ((is_positive s.requests_per_minute ≡ true) × (is_positive s.burst_size ≡ true))

  abbrev pub HasAddresses : (String → Option Prefix) → SecurityConfig Prefix → Type 0
  HasAddresses parse_prefix s =
      (s.whitelist.enabled ≡ false)
      ⊎ ((is_nil s.whitelist.allowed_ips ≡ false)
          × All (IsPrefix parse_prefix) s.whitelist.allowed_ips)

  validate_sizes_iff : (s : SecurityConfig Prefix) → (validate_sizes s ≡ none) ↔ HasSizes s
  unfolding validate_sizes
  validate_sizes_iff s = ground arith

  validate_rates_iff :
      (s : SecurityConfig Prefix) → (validate_rates s ≡ none) ↔ (HasRates s × HasSizes s)
  unfolding validate_rates
  validate_rates_iff s = ground (arith, validate_sizes_iff s)

  validate_addresses_iff :
      (parse_prefix : String → Option Prefix) (s : SecurityConfig Prefix)
      → (validate_addresses parse_prefix s ≡ none)
        ↔ (HasAddresses parse_prefix s × HasRates s × HasSizes s)
  unfolding validate_addresses
  validate_addresses_iff parse_prefix s = ground (
    arith,
    validate_rates_iff s,
    validate_ips_iff parse_prefix s.whitelist.allowed_ips (validate_rates s),
  )

-- Validate accepts a security configuration exactly when every token has a name and a value and each part
-- that is switched on is in order: the whitelist has an address and each address parses, and the rates and
-- the sizes are positive.
pub validate_iff :
    {Prefix : Type 0} (parse_prefix : String → Option Prefix) (s : SecurityConfig Prefix)
    → (validate parse_prefix s ≡ none)
      ↔ (All IsToken s.tokens × HasAddresses parse_prefix s × HasRates s × HasSizes s)
unfolding validate
validate_iff parse_prefix s = ground (
  arith,
  validate_addresses_iff parse_prefix s,
  validate_tokens_iff s.tokens (validate_addresses parse_prefix s),
)

-- ===== src/Auth.antt =====
-- internal/alert/auth.go: the credentials of the webhook server and the check of a request. The files are a
-- map from paths to contents; r.BasicAuth() is a field of the request.
pub mod Guard
use Prim.Native.String
use Prim.Native.String.{[], ◌∷◌}
use Prim.Native.Char.{code}
use health_monitor_sre_engin.Common.{
  ℕ, zero, suc, String, Bool, true, false, not, ◌&&◌, ◌||◌, Option, none, some, if◌then◌else◌, ◌==◌,
  str_eq, is_empty, trim_space, to_lower, has_prefix, Dict, lookup,
}

pub record AuthConfig : Type 0 where
  pub token : String
  pub user : String
  pub pass : String

pub data AuthError : Type 0 where
  token_unreadable basic_unreadable invalid_basic_format : AuthError

pub record Flags : Type 0 where
  pub token : String
  pub token_file : String
  pub user : String
  pub pass : String
  pub basic_file : String

-- only a token file is given
abbrev pub only_token_file : String → Flags
only_token_file path = record {
  token = "";
  token_file = path;
  user = "";
  pass = "";
  basic_file = "";
}

-- the text before the first colon and the text behind it, as strings.SplitN(s, ":", 2) gives them
abbrev prepend : String → Option (String × String) → Option (String × String)
prepend c none = none
prepend c (some (before, after)) = some (String.◌++◌ c before, after)

unfoldable pub split_colon : String → Option (String × String)
split_colon [] = none
split_colon (c ∷ s) =
    let rest = split_colon s in if code c == 58 then some ("", s) else prepend (c ∷ "") rest

abbrev pub read_token : AuthConfig → Option String → Option AuthError × AuthConfig
read_token cfg none = (some token_unreadable, cfg)
read_token cfg (some text) = (none, record cfg { token = trim_space text })

abbrev pub read_pair : AuthConfig → Option (String × String) → Option AuthError × AuthConfig
read_pair cfg none = (some invalid_basic_format, cfg)
read_pair cfg (some (user, pass)) =
    (none, record cfg { user = trim_space user; pass = trim_space pass })

abbrev pub read_basic : AuthConfig → Option String → Option AuthError × AuthConfig
read_basic cfg none = (some basic_unreadable, cfg)
read_basic cfg (some text) = read_pair cfg (split_colon (trim_space text))

-- the part on the file with user and password
unfoldable pub load_basic : Dict String → Flags → AuthConfig → Option AuthError × AuthConfig
load_basic files flags cfg =
    let path = trim_space flags.basic_file in
    let wanted = is_empty cfg.user && (is_empty cfg.pass && not (is_empty path)) in
    if wanted then read_basic cfg (lookup path files) else (none, cfg)

abbrev pub then_basic :
    Dict String → Flags → Option AuthError × AuthConfig → Option AuthError × AuthConfig
then_basic files flags (some e, cfg) = (some e, cfg)
then_basic files flags (none, cfg) = load_basic files flags cfg

-- LoadAuthConfig: the error, `none` for nil, and the credentials
unfoldable pub load_auth_config : Dict String → Flags → Option AuthError × AuthConfig
load_auth_config files flags =
    let cfg : AuthConfig = record {
      token = trim_space flags.token;
      user = trim_space flags.user;
      pass = trim_space flags.pass;
    } in
    let path = trim_space flags.token_file in
    let from_file = read_token cfg (lookup path files) in
    then_basic files flags
      (if is_empty cfg.token && not (is_empty path) then from_file else (none, cfg))

pub record Request : Type 0 where
  -- the headers X-Auth-Token and Authorization
  pub auth_token : String
  pub authorization : String
  -- r.BasicAuth()
  pub basic_auth : Option (String × String)

-- auth[len("bearer "):]
abbrev behind : ℕ → String → String
behind zero s = s
behind (suc n) [] = []
behind (suc n) (c ∷ s) = behind n s

unfoldable pub token_from_header : Request → String
token_from_header r =
    let token = trim_space r.auth_token in
    let auth = trim_space r.authorization in
    if not (is_empty token)
    then token
    else if has_prefix (to_lower auth) "bearer "
    then trim_space (behind 7 auth)
    else ""

abbrev pub same_pair : AuthConfig → Option (String × String) → Bool
same_pair cfg none = false
same_pair cfg (some (user, pass)) = str_eq user cfg.user && str_eq pass cfg.pass

-- allowedRequest
unfoldable pub allowed_request : Request → AuthConfig → Bool
allowed_request r cfg =
    let by_token =
      not (is_empty (trim_space cfg.token)) && str_eq (token_from_header r) cfg.token in
    let has_basic = not (is_empty (trim_space cfg.user)) || not (is_empty (trim_space cfg.pass)) in
    by_token || (has_basic && same_pair cfg r.basic_auth)

-- whether a credential is configured
abbrev pub is_guarded : AuthConfig → Bool
is_guarded cfg = not (
    is_empty (trim_space cfg.token)
    && (is_empty (trim_space cfg.user) && is_empty (trim_space cfg.pass)))

-- authMiddleware: whether the request reaches the handler
unfoldable pub auth_passes : AuthConfig → Request → Bool
auth_passes cfg r = if is_guarded cfg then allowed_request r cfg else true

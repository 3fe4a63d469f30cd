-- ===== src/Update/Install.antt =====
-- pkg/update/updater.go: fetching the latest version, downloading and checking its binary, and
-- PerformUpdate. The network, url.Parse, sha256 with its hexadecimal form, hex.DecodeString and running a
-- binary are parameters.
pub mod Verified
use Prim.Native.Char.{code}
use Prim.Native.String
use Prim.Native.String.{[], ◌∷◌}
use health_monitor_sre_engin.Common.{
  ℕ, String, Bool, true, false, not, ◌&&◌, ◌||◌, Option, none, some, List, [], ◌∷◌, ◌==◌,
  if◌then◌else◌, str_eq, is_empty, trim_space, to_lower, equal_fold, has_prefix, fields, Dict,
  insert, lookup, text_at,
}
use health_monitor_sre_engin.Storage.{remove, final_files}
use health_monitor_sre_engin.Update.Versions.{Comparison, older, same, newer, compare_versions}
use health_monitor_sre_engin.Update.Replace.{Steps, Ends, replace_binary}

pub record Response : Type 0 where
  pub status : ℕ
  -- `none` where reading the body fails
  pub body : Option String

pub record Outside : Type 0 where
  -- `none` where the request fails
  pub get : String → Option Response
  -- the scheme and the host of a URL that parses
  pub parse_url : String → Option (String × String)
  pub digest : String → String
  pub is_hex : String → Bool
  -- whether the binary with this content ends without an error on `--version`
  pub runs : String → Bool

abbrev default_update_base_url : String
default_update_base_url = "https://pub-0cf86c67f6dd456087607707a5a37f73.r2.dev"

-- a variable that is set, and not to a word for "no"
unfoldable pub is_truthy : String → Bool
is_truthy text =
    let value = trim_space (to_lower text) in
    not (is_empty value)
    && (not (str_eq value "0") && (not (str_eq value "false") && not (str_eq value "no")))

abbrev pub updates_disabled : Dict String → Bool
updates_disabled env = is_truthy (text_at "HEALTH_MONITOR_DISABLE_UPDATES" env)

abbrev pub allow_insecure_updates : Dict String → Bool
allow_insecure_updates env = is_truthy (text_at "HEALTH_MONITOR_ALLOW_INSECURE_UPDATES" env)

-- strings.TrimSuffix(s, "/")
unfoldable pub trim_slash : String → String
trim_slash [] = []
trim_slash (c ∷ s) = if code c == 47 && is_empty s then [] else c ∷ trim_slash s

-- what the parsed URL allows
abbrev base_of : Bool → String → Option (String × String) → String
base_of insecure trimmed none = default_update_base_url
base_of insecure trimmed (some (scheme, host)) =
    if is_empty scheme || is_empty host
    then default_update_base_url
    else if not (equal_fold scheme "https") && not insecure
    then default_update_base_url
    else trim_slash trimmed

-- getUpdateBaseURL
unfoldable pub get_update_base_url : Outside → Dict String → String
get_update_base_url out env =
    let url = text_at "UPDATE_BASE_URL" env in
    let trimmed = trim_space url in
    if is_empty url
    then default_update_base_url
    else base_of (allow_insecure_updates env) trimmed (out.parse_url trimmed)

-- the body of a response with the status 200
abbrev pub ok_body : Option Response → Option String
ok_body none = none
ok_body (some r) = if r.status == 200 then r.body else none

abbrev version_of : Option String → Option String
version_of none = none
version_of (some body) =
    let version = trim_space body in
    if is_empty version
    then none
    else if has_prefix version "v"
    then some version
    else some (String.◌++◌ "v" version)

-- fetchLatestVersion, `none` for its error
unfoldable pub fetch_latest_version : Outside → Dict String → Option String
fetch_latest_version out env =
    version_of
      (ok_body (out.get (String.◌++◌ (trim_slash (get_update_base_url out env)) "/version.txt")))

abbrev pub binary_url : Outside → Dict String → String → String
binary_url out env latest =
    String.◌++◌ (trim_slash (get_update_base_url out env))
      (String.◌++◌ "/health-monitor-linux-amd64-" latest)

abbrev agrees : Outside → String → List String → Bool
agrees out content [] = false
agrees out content (first ∷ words) =
    let expected = trim_space first in
    out.is_hex expected && equal_fold (out.digest content) expected

abbrev checked : Outside → String → Option String → Bool
checked out content none = false
checked out content (some body) = agrees out content (fields body)

abbrev checked_response : Outside → String → Option Response → Bool
checked_response out content none = true
checked_response out content (some r) = if r.status == 200 then checked out content r.body else true

-- verifyChecksum of a file with this content: whether it returns no error
unfoldable pub verify_checksum : Outside → String → String → Bool
verify_checksum out url content = checked_response out content (out.get (String.◌++◌ url ".sha256"))

-- verifyBinary
unfoldable pub verify_binary : Outside → String → Bool
verify_binary out content = not (is_empty content) && out.runs content

pub data UpdateEnd : Type 0 where
  version_failed up_to_date no_binary_path download_failed : UpdateEnd
  checksum_failed binary_failed replace_failed updated : UpdateEnd

-- how the calls of the operating system go: getCurrentBinaryPath, the temporary file (`none` where it cannot
-- be made or made executable), and replaceBinary
pub record Host : Type 0 where
  pub current : Option String
  pub temp : Option String
  pub ends : Ends

module _ (out : Outside) (host : Host) where
  abbrev pub after_replace : String → Dict String → Steps → UpdateEnd × Dict String
  after_replace tmp fs (installed, states) =
      (if installed then updated else replace_failed, remove tmp (final_files fs states))

  -- from verifyChecksum on; the deferred call removes the temporary file
  unfoldable pub install_download :
      String → String → String → String → Dict String → UpdateEnd × Dict String
  install_download url current tmp content fs =
      let replaced = after_replace tmp fs (replace_binary host.ends current tmp fs) in
      if verify_checksum out url content
      then if verify_binary out content then replaced else (binary_failed, remove tmp fs)
      else (checksum_failed, remove tmp fs)

  -- downloadBinary
  abbrev pub with_download :
      String → String → Option String → Option String → Dict String → UpdateEnd × Dict String
  with_download url current (some tmp) (some content) fs =
      install_download url current tmp content (insert tmp content fs)
  with_download url current _ _ fs = (download_failed, fs)

  abbrev pub with_path : String → Option String → Dict String → UpdateEnd × Dict String
  with_path url none fs = (no_binary_path, fs)
  with_path url (some current) fs = with_download url current host.temp (ok_body (out.get url)) fs

  abbrev pub with_comparison : String → Comparison → Dict String → UpdateEnd × Dict String
  with_comparison url older fs = with_path url host.current fs
  with_comparison url same fs = (up_to_date, fs)
  with_comparison url newer fs = (up_to_date, fs)

  abbrev pub with_latest :
      String → Dict String → Option String → Dict String → UpdateEnd × Dict String
  with_latest version env none fs = (version_failed, fs)
  with_latest version env (some latest) fs =
      with_comparison (binary_url out env latest) (compare_versions version latest) fs

  -- PerformUpdate of the running version: how it ends, and the files then
  unfoldable pub perform_update : String → Dict String → Dict String → UpdateEnd × Dict String
  perform_update version env fs = with_latest version env (fetch_latest_version out env) fs

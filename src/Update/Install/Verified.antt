-- ===== src/Update/Install/Verified.antt =====
-- What PerformUpdate puts in place of the running binary.
use health_monitor_sre_engin.Common.{
  String, Bool, true, false, Option, none, some, List, ◌≡◌, ◌≢◌, inl, inr, refl, sym, ◌∙◌, subst,
  Bool-cases, if◌then◌else◌, Dict, insert, lookup,
}
use health_monitor_sre_engin.Storage.{remove, final_files, insert_other, insert_same}
use health_monitor_sre_engin.Update.Versions.{Comparison, older, same, newer, compare_versions}
use health_monitor_sre_engin.Update.Replace.{backup_path, replace_binary}
use health_monitor_sre_engin.Update.Replace.Atomic.{replace_binary-atomic, remove_other}
use health_monitor_sre_engin.Update.Install.{
  Outside, Host, UpdateEnd, updated, fetch_latest_version, binary_url, ok_body, verify_checksum,
  verify_binary, install_download, after_replace, with_download, with_path, with_comparison,
  with_latest, perform_update,
}

-- A binary of a later version than the running one, as it was downloaded, whose checksum is not contradicted
-- and which runs.
pub record IsRelease (out : Outside) (version : String) (env : Dict String) (content : String)
    : Type 0 where
  pub latest : String
  pub fetched : fetch_latest_version out env ≡ some latest
  pub later : compare_versions version latest ≡ older
  pub downloaded : ok_body (out.get (binary_url out env latest)) ≡ some content
  pub checksum : verify_checksum out (binary_url out env latest) content ≡ true
  pub runs : verify_binary out content ≡ true

-- The files hold the old binary, or the run ended well and they hold a release.
pub data Installs (out : Outside) (version : String) (env : Dict String) (current : String)
    (old : Option String) (result : UpdateEnd × Dict String) : Type 0 where
  left_alone :
      lookup current result.1 ≡ old
      → result.0 ≢ updated
      → Installs out version env current old result
  replaced :
      (content : String)
      → IsRelease out version env content
      → lookup current result.1 ≡ some content
      → result.0 ≡ updated
      → Installs out version env current old result

module _ (out : Outside) (host : Host) (version : String) (env : Dict String) where
  after_Installs :
      (current tmp content : String) (old : Option String) (fs : Dict String) (installed : Bool)
      (states : List (Dict String))
      → IsRelease out version env content
      → lookup current (remove tmp (final_files fs states))
        ≡ (if installed then some content else old)
      → Installs out version env current old (after_replace out host tmp fs (installed, states))
  after_Installs current tmp content old fs true states release e = replaced content release e refl
  after_Installs current tmp content old fs false states release e = left_alone e (λ k. cc)

  -- the steps after the download
  install_download-Installs :
      (latest current tmp content : String) (fs : Dict String)
      → fetch_latest_version out env ≡ some latest
      → compare_versions version latest ≡ older
      → ok_body (out.get (binary_url out env latest)) ≡ some content
      → host.ends.rename_fails ≡ false
      → tmp ≢ current
      → backup_path current ≢ tmp
      → lookup tmp fs ≡ some content
      → Installs out version env current
          (lookup current fs)
          (install_download out host (binary_url out env latest) current tmp content fs)
  unfolding install_download
  install_download-Installs latest current tmp content fs fetched later downloaded works apart other
        e =
      let url = binary_url out env latest in
      let steps = replace_binary host.ends current tmp fs in
      let (_, final) = replace_binary-atomic host.ends current tmp content fs works e other in
      let cleared = remove_other tmp current fs apart in
      let after = remove_other tmp current (final_files fs steps.1) apart in
      elim (Bool-cases (verify_checksum out url content)) [
        | inr bad ↦ rw bad (left_alone cleared (λ k. cc))
        | inl good ↦ elim (Bool-cases (verify_binary out content)) [
          | inr bad ↦ rw (good, bad) (left_alone cleared (λ k. cc))
          | inl runs ↦
              rw (good, runs)
                (after_Installs current tmp content (lookup current fs) fs steps.0 steps.1
                  (record {
                    latest = latest;
                    fetched = fetched;
                    later = later;
                    downloaded = downloaded;
                    checksum = good;
                    runs = runs;
                  })
                  (after ∙ final))
        ]
      ]

  with_download-Installs :
      (latest current tmp : String) (content : Option String) (fs : Dict String)
      → fetch_latest_version out env ≡ some latest
      → compare_versions version latest ≡ older
      → ok_body (out.get (binary_url out env latest)) ≡ content
      → host.ends.rename_fails ≡ false
      → tmp ≢ current
      → backup_path current ≢ tmp
      → Installs out version env current
          (lookup current fs)
          (with_download out host (binary_url out env latest) current (some tmp) content fs)
  with_download-Installs latest current tmp none fs fetched later downloaded works apart other =
      left_alone refl (λ k. cc)
  with_download-Installs latest current tmp (some content) fs fetched later downloaded works apart
        other =
      subst
        (λ old. Installs out version env current old (
          install_download out host (binary_url out env latest) current tmp content
            (insert tmp content fs)))
        (insert_other tmp current content fs apart)
        (install_download-Installs latest current tmp content (insert tmp content fs) fetched later
          downloaded works apart other (insert_same tmp content fs))

-- Where os.Executable and os.CreateTemp succeed and os.Rename works, PerformUpdate ends with the old binary in
-- place and without reporting an update, or
-- it reports one and the binary's file holds a release: the body downloaded for a version that compares as
-- later than the running one, which ran, and whose checksum was not contradicted. The temporary file's name
-- is neither the binary's nor its backup's.
pub perform_update-Installs :
    (out : Outside) (host : Host) (version : String) (env fs : Dict String) (current tmp : String)
    → host.current ≡ some current
    → host.temp ≡ some tmp
    → host.ends.rename_fails ≡ false
    → tmp ≢ current
    → backup_path current ≢ tmp
    → Installs out version env current (lookup current fs) (perform_update out host version env fs)
unfolding perform_update
perform_update-Installs out host version env fs current tmp here there works apart other =
    by_version (fetch_latest_version out env) refl
  where
    Goal : UpdateEnd × Dict String → Type 0
    Goal = Installs out version env current (lookup current fs)

    by_comparison :
        (latest : String) (c : Comparison)
        → fetch_latest_version out env ≡ some latest
        → compare_versions version latest ≡ c
        → Goal (with_comparison out host (binary_url out env latest) c fs)
    by_comparison latest older fetched later =
        let url = binary_url out env latest in
        subst (λ path. Goal (with_path out host url path fs)) (sym here)
          (subst (λ t. Goal (with_download out host url current t (ok_body (out.get url)) fs))
            (sym there)
            (with_download-Installs out host version env latest current tmp (ok_body (out.get url))
              fs fetched later refl works apart other))
    by_comparison latest same fetched later = left_alone refl (λ k. cc)
    by_comparison latest newer fetched later = left_alone refl (λ k. cc)

    by_version :
        (found : Option String)
        → fetch_latest_version out env ≡ found
        → Goal (with_latest out host version env found fs)
    by_version none e = left_alone refl (λ k. cc)
    by_version (some latest) e = by_comparison latest (compare_versions version latest) e refl

-- ===== src/Tests/Updates.antt =====
-- The theorems on updates and on the recorder of life cycles, at concrete inputs.
use health_monitor_sre_engin.Common.{
  texts_differ, ℕ, String, true, false, none, some, List, [], ◌∷◌, ◌≡◌, ◌≢◌, inr, inl, refl,
  if◌then◌else◌, Dict, lookup, All, str_eq, arith, has_prefix, split,
}
use health_monitor_sre_engin.Storage.{rename, OldOrNew, final_files}
use health_monitor_sre_engin.Recorder.{
  Codec, Write, write_failed, read_failed, Recorder, new_recorder, persist_buffer,
  get_pre_incident_buffer, load_seed, persist_lifecycle, load_lifecycle,
}
use health_monitor_sre_engin.Recorder.Window.{last_items, push_all, capacity, push_all-last_items}
use health_monitor_sre_engin.Recorder.Disk.{
  new_recorder-persist_buffer, load_lifecycle-persist_lifecycle, failed_lifecycle_loses_seed,
}
use health_monitor_sre_engin.Update.Versions.{Comparison, older, newer, compare_versions, part_at}
use health_monitor_sre_engin.Update.Versions.Order.{opposite, compare_versions_order}
use health_monitor_sre_engin.Update.Replace.{Ends, no_create, no_copy, replace_binary}
use health_monitor_sre_engin.Update.Replace.Atomic.{replace_binary-atomic, failed_restore_truncates}
use health_monitor_sre_engin.Update.Install.{Outside, Host, perform_update}
use health_monitor_sre_engin.Update.Install.Verified.{Installs, perform_update-Installs}

abbrev recorder : Recorder ℕ
recorder = record { rolling_buffer = 1 ∷ 2 ∷ []; buffer_size = 3; state_dir = "/state" }

push_all-last_items_example :
    (push_all (3 ∷ 4 ∷ []) recorder).rolling_buffer
    ≡ last_items (capacity recorder) (1 ∷ 2 ∷ 3 ∷ 4 ∷ [])
push_all-last_items_example = push_all-last_items (3 ∷ 4 ∷ []) recorder (omega arith)

-- one text stands for the buffer
abbrev codec : Codec (List ℕ)
codec = record { encode = λ ns. some "[1,2]"; decode = λ text. some (1 ∷ 2 ∷ []) }

abbrev clean_write : Write
clean_write = record { stop = none; tmp = "/tmp/1"; part = "" }

new_recorder-persist_buffer_example :
    ((new_recorder codec "/state" (persist_buffer codec recorder clean_write []).1).rolling_buffer
      ≡ 1 ∷ 2 ∷ [])
    × (get_pre_incident_buffer codec
          (new_recorder codec "/state" (persist_buffer codec recorder clean_write []).1)
          (persist_buffer codec recorder clean_write []).1
        ≡ 1 ∷ 2 ∷ [])
new_recorder-persist_buffer_example =
    new_recorder-persist_buffer codec recorder clean_write []
      (record { text = "[1,2]"; encodes = refl; decodes = refl }) refl
      (texts_differ "/tmp/1" "/state/telemetry_window.json" refl)

-- a life cycle is its incident's id
abbrev id_codec : Codec String
id_codec = record { encode = λ id. some id; decode = λ text. some text }

load_lifecycle-persist_lifecycle_example :
    (load_lifecycle id_codec recorder "INC-1"
        (persist_lifecycle id_codec (λ id. id) true true recorder clean_write "INC-1" []).1
      ≡ inr "INC-1")
    × (load_seed codec recorder "INC-1"
          (persist_lifecycle id_codec (λ id. id) true true recorder clean_write "INC-1" []).1
        ≡ inl read_failed)
load_lifecycle-persist_lifecycle_example =
    load_lifecycle-persist_lifecycle codec id_codec (λ id. id) true recorder clean_write "INC-1" []
      (record { text = "INC-1"; encodes = refl; decodes = refl }) refl
      (texts_differ "/tmp/1" "/state/incidents/lifecycle/INC-1_lifecycle.json" refl)
      (texts_differ "/tmp/1" "/state/incidents/seeds/INC-1_seed.json" refl)

abbrev broken_write : Write
broken_write = record { stop = some rename; tmp = "/tmp/1"; part = "" }

abbrev with_seed : Dict String
with_seed = ("/state/incidents/seeds/INC-1_seed.json", "[1,2]") ∷ []

failed_lifecycle_loses_seed_example :
    ((persist_lifecycle id_codec (λ id. id) true true recorder broken_write "INC-1" with_seed).0
      ≡ some write_failed)
    × (load_seed codec recorder "INC-1"
          (persist_lifecycle id_codec
            (λ id. id)
            true
            true
            recorder
            broken_write
            "INC-1"
            with_seed).1
        ≡ inl read_failed)
failed_lifecycle_loses_seed_example =
    failed_lifecycle_loses_seed codec id_codec (λ id. id) true recorder broken_write "INC-1"
      with_seed rename (record { text = "INC-1"; encodes = refl; decodes = refl }) refl
      (texts_differ "/tmp/1" "/state/incidents/seeds/INC-1_seed.json" refl)

first_older : compare_versions "1.2" "1.10" ≡ older
unfolding compare_versions split part_at
first_older = refl

second_older : compare_versions "1.10" "v1.10.1" ≡ older
unfolding compare_versions split part_at
second_older = refl

not_newer : {c : Comparison} → c ≡ older → c ≢ newer
not_newer e = λ d. ground (arith, e, d)

compare_versions_order_example :
    (compare_versions "1.2" "v1.10.1" ≢ newer)
    × (compare_versions "1.10" "1.2" ≡ opposite (compare_versions "1.2" "1.10"))
compare_versions_order_example =
    compare_versions_order "1.2" "1.10" "v1.10.1" (not_newer first_older) (not_newer second_older)

-- the backup cannot be made, all else works
abbrev no_backup : Ends
no_backup = record {
  backup = some no_create;
  copy = none;
  chmod_fails = false;
  rename_fails = false;
  restore = none;
}

abbrev binaries : Dict String
binaries = ("/bin/hm", "old") ∷ ("/tmp/hm", "new") ∷ []

new_there : lookup "/tmp/hm" binaries ≡ some "new"
unfolding lookup
new_there = refl

old_there : lookup "/bin/hm" binaries ≡ some "old"
unfolding lookup
old_there = refl

replace_binary-atomic_example :
    All
      (OldOrNew (lookup "/bin/hm" binaries) "new" "/bin/hm")
      (replace_binary no_backup "/bin/hm" "/tmp/hm" binaries).1
    × (lookup "/bin/hm"
          (final_files binaries (replace_binary no_backup "/bin/hm" "/tmp/hm" binaries).1)
        ≡ (if (replace_binary no_backup "/bin/hm" "/tmp/hm" binaries).0
            then some "new"
            else lookup "/bin/hm" binaries))
replace_binary-atomic_example =
    replace_binary-atomic no_backup "/bin/hm" "/tmp/hm" "new" binaries refl new_there
      (texts_differ "/bin/hm.backup" "/tmp/hm" refl)

-- only os.Rename fails, and the copy that restores the backup
abbrev broken_restore : Ends
broken_restore = record {
  backup = none;
  copy = none;
  chmod_fails = false;
  rename_fails = true;
  restore = some (no_copy "ol");
}

failed_restore_truncates_example :
    ((replace_binary broken_restore "/bin/hm" "/tmp/hm" binaries).0 ≡ false)
    × (lookup "/bin/hm"
          (final_files binaries (replace_binary broken_restore "/bin/hm" "/tmp/hm" binaries).1)
        ≡ some "ol")
failed_restore_truncates_example =
    failed_restore_truncates broken_restore "/bin/hm" "/tmp/hm" "old" "new" binaries refl refl refl
      refl old_there new_there (texts_differ "/bin/hm.backup" "/tmp/hm" refl)

-- a server that gives version 9 and the binary "new", without a checksum
abbrev server : Outside
server = record {
  get = λ url.
      if str_eq url "http://u/version.txt"
      then some (record { status = 200; body = some "9" })
      else if has_prefix url "http://u/health-monitor-linux-amd64-v9.sha256"
      then none
      else some (record { status = 200; body = some "new" });
  parse_url = λ url. some ("https", "u");
  digest = λ content. "";
  is_hex = λ text. true;
  runs = λ content. true;
}

abbrev host : Host
host = record { current = some "/bin/hm"; temp = some "/tmp/x"; ends = no_backup }

perform_update-Installs_example :
    Installs server "v1.0"
      (("UPDATE_BASE_URL", "http://u/") ∷ [])
      "/bin/hm"
      (lookup "/bin/hm" binaries)
      (perform_update server host "v1.0" (("UPDATE_BASE_URL", "http://u/") ∷ []) binaries)
perform_update-Installs_example =
    perform_update-Installs server host "v1.0" (("UPDATE_BASE_URL", "http://u/") ∷ []) binaries
      "/bin/hm" "/tmp/x" refl refl refl (texts_differ "/tmp/x" "/bin/hm" refl)
      (texts_differ "/bin/hm.backup" "/tmp/x" refl)

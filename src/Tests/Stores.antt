-- ===== src/Tests/Stores.antt =====
-- The theorems on incident files and on atomic writes, at concrete inputs.
use health_monitor_sre_engin.Common.{
  String, none, some, [], ◌∷◌, ◌≡◌, ◌≢◌, ◌⊎◌, refl, Dict, lookup, All, arith, has_prefix,
  trim_space, texts_differ,
}
use health_monitor_sre_engin.Incident.{started, resolved}
use health_monitor_sre_engin.Incident.Store
use health_monitor_sre_engin.Incident.Store.{
  get_path, file_at, valid, Outcome, done, write_failed, chown_failed, loaded,
}
use health_monitor_sre_engin.Incident.Store.RoundTrip.{save_new_keeps}
use health_monitor_sre_engin.Storage.{
  mkdir, create, chmod, rename, write, atomic_write_file, final_files, OldOrNew,
  atomic_write_file-atomic, atomic_write_file-leaks,
}
use health_monitor_sre_engin.Tests.Samples.{sample_id, sample_incident, sample_files}

owner_failed : chown_failed ≢ write_failed
owner_failed = ground arith

other_id : sample_id ≢ "INC-20230101-000000"
other_id = texts_differ sample_id "INC-20230101-000000" refl

stored :
    file_at (get_path sample_id) (sample_files started) ≡ some (valid (sample_incident started))
unfolding Store.save Store.put_file Store.remove_file get_path Store.atoi_ok has_prefix trim_space
    file_at
stored = refl

save_new_keeps_example :
    file_at
      (get_path sample_id)
      (Store.save_new done (sample_incident resolved) (sample_files started)).1
    ≡ some (valid (sample_incident started))
save_new_keeps_example =
    save_new_keeps done (sample_incident resolved) (sample_files started) (get_path sample_id)
      (valid (sample_incident started)) stored

newly_saved : (Store.save_new done (sample_incident started) []).0 ≡ none
unfolding Store.save_new trim_space file_at
newly_saved = refl

abbrev disk : Dict String
disk = ("a.json", "old") ∷ ("b.json", "other") ∷ []

tmp_not_target : ◌≢◌ {A = String} "a.json.tmp.1" "a.json"
tmp_not_target = texts_differ "a.json.tmp.1" "a.json" refl

atomic_write_file-atomic_example :
    All
      (OldOrNew (lookup "a.json" disk) "new" "a.json")
      (atomic_write_file (some write) "a.json" "a.json.tmp.1" "new" "n" disk)
atomic_write_file-atomic_example =
    atomic_write_file-atomic (some write) "a.json" "a.json.tmp.1" "new" "n" disk tmp_not_target

tmp_not_other : ◌≢◌ {A = String} "a.json.tmp.1" "b.json"
tmp_not_other = texts_differ "a.json.tmp.1" "b.json" refl

target_not_other : ◌≢◌ {A = String} "a.json" "b.json"
target_not_other = texts_differ "a.json" "b.json" refl

rename_not_mkdir : rename ≢ mkdir
rename_not_mkdir = ground arith

rename_not_create : rename ≢ create
rename_not_create = ground arith

atomic_write_file-leaks_example :
    (text : String) × (lookup "a.json.tmp.1"
        (final_files disk (atomic_write_file (some rename) "a.json" "a.json.tmp.1" "new" "" disk))
      ≡ some text)
    × ((rename ≡ chmod) ⊎ ((rename ≡ write) ⊎ (text ≡ "new")))
atomic_write_file-leaks_example =
    atomic_write_file-leaks rename "a.json" "a.json.tmp.1" "new" "" disk rename_not_mkdir
      rename_not_create

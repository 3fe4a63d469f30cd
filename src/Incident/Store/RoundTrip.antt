-- ===== src/Incident/Store/RoundTrip.antt =====
-- Saving and loading incidents: the round trip, the frame, and what a failed write leaves.
use health_monitor_sre_engin.Common.{
  String, true, false, none, some, ◌≡◌, ◌≢◌, refl, ap, sym, ◌∙◌, is_empty, trim_space, Bool-cases,
  inl, inr, ◌⊎◌, arith,
}
use health_monitor_sre_engin.Incident.{Incident}
use health_monitor_sre_engin.Incident.Store.{
  FilePath, partition, root, get_path, path_eq, File, valid, Files, file_at, put_file,
  is_partitioned, Outcome, write_failed, not_found, save, save_new, load, loaded, load_failed,
}
use health_monitor_sre_engin.Incident.Store.Paths.{
  path_id, path_id-get_path, path_eq_iff, file_at-put_file, file_at-remove_file,
}

paths_differ : (p q : FilePath) → path_id p ≢ path_id q → path_eq p q ≡ false
paths_differ p q h = elim (Bool-cases (path_eq p q)) [
  | inl e ↦ absurd (h (ap path_id ((path_eq_iff p q).0 e)))
  | inr e ↦ e
]

ids_differ : (i j : String) → i ≢ j → path_eq (get_path i) (get_path j) ≡ false
ids_differ i j h =
    paths_differ (get_path i) (get_path j)
      (λ e. h (sym (path_id-get_path i) ∙ e ∙ path_id-get_path j))

ids_differ_root : (i j : String) → i ≢ j → path_eq (get_path i) (root j) ≡ false
ids_differ_root i j h = paths_differ (get_path i) (root j) (λ e. h (sym (path_id-get_path i) ∙ e))

root_differs : (i j : String) → i ≢ j → path_eq (root i) (get_path j) ≡ false
root_differs i j h = paths_differ (root i) (get_path j) (λ e. h (e ∙ path_id-get_path j))

roots_differ : (i j : String) → i ≢ j → path_eq (root i) (root j) ≡ false
roots_differ i j h = paths_differ (root i) (root j) h

path_eq_refl : (p : FilePath) → path_eq p p ≡ true
path_eq_refl p = (path_eq_iff p p).1 refl

-- a file of a partition is not at the root
partition_not_root :
    (p : FilePath) (i : String) → is_partitioned p ≡ true → path_eq (root i) p ≡ false
partition_not_root (partition y m a) i h = refl
partition_not_root (root a) i h = cc

-- An incident that Save has written, with an error of ownership or none, is what Load then returns.
pub load-save :
    (o : Outcome) (i : Incident) (fs : Files)
    → is_empty (trim_space i.id) ≡ false
    → o ≢ write_failed
    → load i.id (save o i fs).1 ≡ loaded i
unfolding load save
load-save o i fs named written =
    let p = get_path i.id in
    let new = put_file p (valid i) fs in
    ground (
      arith,
      path_eq_refl p,
      partition_not_root p i.id,
      file_at-remove_file (root i.id) p new,
      file_at-put_file p p (valid i) fs,
    )

-- Save of one incident, however it ends, leaves what Load returns for every other id.
pub load-save_ne :
    (o : Outcome) (i : Incident) (fs : Files) (j : String)
    → i.id ≢ j
    → load j (save o i fs).1 ≡ load j fs
unfolding load save
load-save_ne o i fs j h =
    let p = get_path i.id in
    let new = put_file p (valid i) fs in
    ground (
      arith,
      ids_differ i.id j h,
      ids_differ_root i.id j h,
      root_differs i.id j h,
      roots_differ i.id j h,
      file_at-remove_file (root i.id) (get_path j) new,
      file_at-remove_file (root i.id) (root j) new,
      file_at-put_file p (get_path j) (valid i) fs,
      file_at-put_file p (root j) (valid i) fs,
    )

-- SaveNew never replaces a file: whatever stood at a path stands there after it, however it ends.
pub save_new_keeps :
    (o : Outcome) (i : Incident) (fs : Files) (q : FilePath) (f : File)
    → file_at q fs ≡ some f
    → file_at q (save_new o i fs).1 ≡ some f
unfolding save_new
save_new_keeps o i fs q f h =
    let p = get_path i.id in ground (arith, file_at-put_file p q (valid i) fs, path_eq_iff p q)

-- SaveNew of an id that has no file, when the write succeeds, makes it the one that Load returns.
pub load-save_new :
    (o : Outcome) (i : Incident) (fs : Files)
    → (save_new o i fs).0 ≡ none
    → load i.id (save_new o i fs).1 ≡ loaded i
unfolding load save_new
load-save_new o i fs h =
    let p = get_path i.id in ground (arith, path_eq_refl p, file_at-put_file p p (valid i) fs)

-- An error before the new file is in place leaves every file as it was, for Save and SaveNew alike.
pub failed_write_unchanged :
    (i : Incident) (fs : Files)
    → ((save write_failed i fs).1 ≡ fs) × ((save_new write_failed i fs).1 ≡ fs)
unfolding save save_new
failed_write_unchanged i fs = ground arith

-- Save without an error makes the incident the one that Load returns for its id.
pub load-save_ok :
    (o : Outcome) (i : Incident) (fs : Files)
    → (save o i fs).0 ≡ none
    → load i.id (save o i fs).1 ≡ loaded i
unfolding load save
load-save_ok o i fs h =
    let p = get_path i.id in
    let new = put_file p (valid i) fs in
    ground (
      arith,
      path_eq_refl p,
      partition_not_root p i.id,
      file_at-remove_file (root i.id) p new,
      file_at-put_file p p (valid i) fs,
    )

-- Save either keeps what Load returns for the id, or makes it the incident.
pub save_cases :
    (o : Outcome) (i : Incident) (fs : Files)
    → (load i.id (save o i fs).1 ≡ load i.id fs) ⊎ (load i.id (save o i fs).1 ≡ loaded i)
unfolding load save
save_cases o i fs =
    let p = get_path i.id in
    let new = put_file p (valid i) fs in
    ground (
      arith,
      path_eq_refl p,
      partition_not_root p i.id,
      file_at-remove_file (root i.id) p new,
      file_at-put_file p p (valid i) fs,
    )

-- SaveNew either keeps what Load returns for the id, or nothing was found there and the incident is now.
pub save_new_cases :
    (o : Outcome) (i : Incident) (fs : Files)
    → (load i.id (save_new o i fs).1 ≡ load i.id fs)
      ⊎ ((load i.id fs ≡ load_failed not_found) × (load i.id (save_new o i fs).1 ≡ loaded i))
unfolding load save_new
save_new_cases o i fs =
    let p = get_path i.id in ground (arith, path_eq_refl p, file_at-put_file p p (valid i) fs)

-- SaveNew of one incident leaves what Load returns for every other id.
pub load-save_new_ne :
    (o : Outcome) (i : Incident) (fs : Files) (j : String)
    → i.id ≢ j
    → load j (save_new o i fs).1 ≡ load j fs
unfolding load save_new
load-save_new_ne o i fs j h =
    let p = get_path i.id in
    ground (
      arith,
      ids_differ i.id j h,
      ids_differ_root i.id j h,
      file_at-put_file p (get_path j) (valid i) fs,
      file_at-put_file p (root j) (valid i) fs,
    )

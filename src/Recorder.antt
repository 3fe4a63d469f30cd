-- ===== src/Recorder.antt =====
-- internal/ml/lifecycle_recorder.go: the rolling window of telemetry snapshots, and the files of seeds and
-- life cycles. Snapshots and life cycles are parameters, as is their JSON form; of a life cycle only its
-- incident's id is read. The file system is that of Storage; filepath.Join is modelled for names that it has
-- nothing to clean in. The locks are left out: each operation is one step.
pub mod Window
pub mod Disk
use Prim.Native.String
use health_monitor_sre_engin.Common.{
  ℕ, zero, suc, String, Bool, true, false, ◌||◌, Option, none, some, List, [], ◌∷◌, ◌++◌, ◌⊎◌, inl,
  inr, leb, if◌then◌else◌, is_empty, is_nil, length, drop, Dict, lookup,
}
use health_monitor_sre_engin.Storage.{WriteStep, atomic_write_file, final_files, remove}

-- json.MarshalIndent and json.Unmarshal; `none` is an error
pub record Codec (A : Type 0) : Type 0 where
  pub encode : A → Option String
  pub decode : String → Option A

-- how one call of AtomicWriteFile goes: the step that fails, the temporary name, a partial content
pub record Write : Type 0 where
  pub stop : Option WriteStep
  pub tmp : String
  pub part : String

pub data RecorderError : Type 0 where
  mkdir_failed encode_failed write_failed read_failed decode_failed : RecorderError

pub record Recorder (S : Type 0) : Type 0 where
  pub rolling_buffer : List S
  pub buffer_size : ℕ
  -- GetStatePathForProfile(profile)
  pub state_dir : String

abbrev pub Disk : Type 0
Disk = Dict String

-- the error, `none` for nil, and the files after it
abbrev pub Done : Type 0
Done = Option RecorderError × Disk

abbrev pub window_path : String → String
window_path dir = String.◌++◌ dir "/telemetry_window.json"

abbrev pub seed_path : String → String → String
seed_path dir id = String.◌++◌ dir (String.◌++◌ "/incidents/seeds/" (String.◌++◌ id "_seed.json"))

abbrev pub lifecycle_path : String → String → String
lifecycle_path dir id =
    String.◌++◌ dir (String.◌++◌ "/incidents/lifecycle/" (String.◌++◌ id "_lifecycle.json"))

abbrev write_error : Option WriteStep → Option RecorderError
write_error none = none
write_error (some step) = some write_failed

-- storage.AtomicWriteFile, seen from outside
unfoldable pub write_file : Write → String → String → Disk → Done
write_file w path content disk =
    (write_error w.stop, final_files disk (atomic_write_file w.stop path w.tmp content w.part disk))

module _ {A : Type 0} (codec : Codec A) where
  abbrev decoded : Option A → RecorderError ⊎ A
  decoded none = inl decode_failed
  decoded (some a) = inr a

  abbrev pub read_text : Option String → RecorderError ⊎ A
  read_text none = inl read_failed
  read_text (some text) = decoded (codec.decode text)

  -- os.ReadFile and json.Unmarshal
  unfoldable pub read_file : String → Disk → RecorderError ⊎ A
  read_file path disk = read_text (lookup path disk)

  abbrev pub write_encoded : Option String → Write → String → Disk → Done
  write_encoded none w path disk = (some encode_failed, disk)
  write_encoded (some text) w path disk = write_file w path text disk

module _ {S : Type 0} (codec : Codec (List S)) where
  abbrev pub or_else : RecorderError ⊎ List S → List S
  or_else (inl e) = []
  or_else (inr snapshots) = snapshots

  -- NewLifecycleRecorder
  unfoldable pub new_recorder : String → Disk → Recorder S
  new_recorder dir disk = record {
    rolling_buffer = or_else (read_file codec (window_path dir) disk);
    buffer_size = 60;
    state_dir = dir;
  }

  unfoldable pub persist_buffer : Recorder S → Write → Disk → Done
  persist_buffer r w disk =
      write_encoded codec (codec.encode r.rolling_buffer) w (window_path r.state_dir) disk

  unfoldable pub get_pre_incident_buffer : Recorder S → Disk → List S
  get_pre_incident_buffer r disk =
      if is_nil r.rolling_buffer
      then or_else (read_file codec (window_path r.state_dir) disk)
      else r.rolling_buffer

  -- PersistSeed; the first test is whether os.MkdirAll succeeds
  unfoldable pub persist_seed : Bool → Recorder S → Write → String → List S → Disk → Done
  persist_seed made r w id snapshots disk =
      if is_empty id || is_nil snapshots
      then (none, disk)
      else if made
      then write_encoded codec (codec.encode snapshots) w (seed_path r.state_dir id) disk
      else (some mkdir_failed, disk)

  unfoldable pub load_seed : Recorder S → String → Disk → RecorderError ⊎ List S
  load_seed r id disk = read_file codec (seed_path r.state_dir id) disk

-- PushSnapshot
unfoldable pub push_snapshot : {S : Type 0} → S → Recorder S → Recorder S
push_snapshot s r =
    let kept =
      if leb r.buffer_size (length r.rolling_buffer)
      then drop 1 r.rolling_buffer
      else r.rolling_buffer in
    record r { rolling_buffer = kept ++ s ∷ [] }

module _ {S L : Type 0} (codec : Codec L) (incident_of : L → String) where
  -- os.Remove, whose error is ignored; the test is whether it succeeds
  abbrev pub remove_seed : Bool → Recorder S → String → Disk → Disk
  remove_seed removes r id disk = if removes then remove (seed_path r.state_dir id) disk else disk

  -- what follows json.MarshalIndent: the seed goes first
  abbrev pub replace_seed : Option String → Bool → Recorder S → Write → String → Disk → Done
  replace_seed none removes r w id disk = (some encode_failed, disk)
  replace_seed (some text) removes r w id disk =
      write_file w (lifecycle_path r.state_dir id) text (remove_seed removes r id disk)

  -- PersistLifecycle; the tests are whether os.MkdirAll and os.Remove succeed
  unfoldable pub persist_lifecycle : Bool → Bool → Recorder S → Write → L → Disk → Done
  persist_lifecycle made removes r w lifecycle disk =
      if made
      then replace_seed (codec.encode lifecycle) removes r w (incident_of lifecycle) disk
      else (some mkdir_failed, disk)

module _ {S L : Type 0} (codec : Codec L) where
  unfoldable pub load_lifecycle : Recorder S → String → Disk → RecorderError ⊎ L
  load_lifecycle r id disk = read_file codec (lifecycle_path r.state_dir id) disk

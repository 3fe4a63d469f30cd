-- ===== src/Recorder/Disk.antt =====
-- What the recorder's files hold after its writes.
use Prim.Native.String
use Prim.Native.String.{[], ◌∷◌}
use Prim.Native.Char.{code}
use health_monitor_sre_engin.Common.{
  String, Bool, true, false, ◌&&◌, ◌==◌, none, some, List, [], ◌∷◌, ◌≡◌, ◌≢◌, inl, inr, refl, ap,
  sym, ◌∙◌, subst, Bool-cases, is_empty, is_nil, if◌then◌else◌, eq_refl, has_prefix, Dict, lookup,
  All,
}
use text.Mathlib.TextLemmas.{append_cancel_left, cons-append}
use health_monitor_sre_engin.Storage.{
  WriteStep, atomic_write_file, atomic_write_file-done, atomic_write_file-frame, final_files,
  remove, lookup-remove,
}
use health_monitor_sre_engin.Recorder.{
  Codec, Write, write_failed, read_failed, Recorder, Disk, window_path, seed_path, lifecycle_path,
  write_file, read_file, new_recorder, persist_buffer, get_pre_incident_buffer, or_else,
  persist_seed, load_seed, remove_seed, read_text, persist_lifecycle, load_lifecycle,
}

-- The value is encoded, and the text is decoded to it: what encoding/json does for these values.
pub record IsEncoded {A : Type 0} (codec : Codec A) (a : A) : Type 0 where
  pub text : String
  pub encodes : codec.encode a ≡ some text
  pub decodes : codec.decode text ≡ some a

All-final :
    (P : Dict String → Type 0) (states : List (Dict String)) (first : Dict String)
    → P first
    → All P states
    → P (final_files first states)
All-final P [] first h k = h
All-final P (s ∷ ss) first h k = All-final P ss s k.0 k.1

-- The text of a file decides what is read.
read_file-text :
    {A : Type 0} (codec : Codec A) (path : String) (disk : Disk) (a : A) (text : String)
    → lookup path disk ≡ some text
    → codec.decode text ≡ some a
    → read_file codec path disk ≡ inr a
unfolding read_file
read_file-text codec path disk a text e d = rw (e, d) refl

read_file-missing :
    {A : Type 0} (codec : Codec A) (path : String) (disk : Disk)
    → lookup path disk ≡ none
    → read_file codec path disk ≡ inl read_failed
unfolding read_file
read_file-missing codec path disk e = rw e refl

-- a write that succeeds
write_file-lookup :
    (w : Write) (path content : String) (disk : Disk)
    → w.stop ≡ none
    → w.tmp ≢ path
    → lookup path (write_file w path content disk).1 ≡ some content
unfolding write_file
write_file-lookup w path content disk e other =
    subst
      (λ stop.
        lookup path (final_files disk (atomic_write_file stop path w.tmp content w.part disk))
        ≡ some content)
      (sym e) (atomic_write_file-done path w.tmp content w.part disk other).0

write_file-error :
    (w : Write) (path content : String) (disk : Disk) (step : WriteStep)
    → w.stop ≡ some step
    → (write_file w path content disk).0 ≡ some write_failed
unfolding write_file
write_file-error w path content disk step e = rw e refl

-- other files under any write
write_file_other :
    (w : Write) (path content q : String) (disk : Disk)
    → w.tmp ≢ q
    → path ≢ q
    → lookup q (write_file w path content disk).1 ≡ lookup q disk
unfolding write_file
write_file_other w path content q disk h k =
    All-final (λ s. lookup q s ≡ lookup q disk) _ disk refl
      (atomic_write_file-frame w.stop path w.tmp content w.part q disk h k)

module _ {S : Type 0} (codec : Codec (List S)) where
  -- the buffer of the next process
  read_back :
      (r : Recorder S) (w : Write) (disk : Disk)
      → IsEncoded codec r.rolling_buffer
      → w.stop ≡ none
      → w.tmp ≢ window_path r.state_dir
      → (new_recorder codec r.state_dir (persist_buffer codec r w disk).1).rolling_buffer
        ≡ r.rolling_buffer
  unfolding new_recorder persist_buffer
  read_back r w disk json e other = rw json.encodes (
      ap (or_else codec) (
        read_file-text codec (window_path r.state_dir) _ r.rolling_buffer json.text
          (write_file-lookup w _ json.text disk e other) json.decodes))

  -- A recorder that is started after PersistBuffer has succeeded has the buffer that was written, and so
  -- gives the same snapshots for the time before an incident; the JSON form decodes to what was encoded.
  pub new_recorder-persist_buffer :
      (r : Recorder S) (w : Write) (disk : Disk)
      → IsEncoded codec r.rolling_buffer
      → w.stop ≡ none
      → w.tmp ≢ window_path r.state_dir
      → ((new_recorder codec r.state_dir (persist_buffer codec r w disk).1).rolling_buffer
          ≡ r.rolling_buffer)
        × (get_pre_incident_buffer codec
              (new_recorder codec r.state_dir (persist_buffer codec r w disk).1)
              (persist_buffer codec r w disk).1
            ≡ r.rolling_buffer)
  unfolding new_recorder get_pre_incident_buffer
  new_recorder-persist_buffer r w disk json e other =
      let again = read_back r w disk json e other in
      (
        again,
        elim (Bool-cases (
            is_nil
              (new_recorder codec r.state_dir (persist_buffer codec r w disk).1).rolling_buffer)) [
                | inl none_left ↦ rw none_left again
                | inr some_left ↦ rw some_left again
              ],
      )

  -- What PersistSeed has written for an incident is what LoadSeed returns for it, where the incident has
  -- an id, there are snapshots and the write succeeds.
  pub load_seed-persist_seed :
      (r : Recorder S) (w : Write) (id : String) (snapshots : List S) (disk : Disk)
      → is_empty id ≡ false
      → is_nil snapshots ≡ false
      → IsEncoded codec snapshots
      → w.stop ≡ none
      → w.tmp ≢ seed_path r.state_dir id
      → load_seed codec r id (persist_seed codec true r w id snapshots disk).1 ≡ inr snapshots
  unfolding load_seed persist_seed
  load_seed-persist_seed r w id snapshots disk named some_snapshots json e other =
      rw (named, some_snapshots, json.encodes)
        (read_file-text codec _ _ snapshots json.text (write_file-lookup w _ json.text disk e other)
          json.decodes)

-- the second text is not longer than the first
fits : String → String → Bool
fits s [] = true
fits [] (d ∷ p) = false
fits (c ∷ s) (d ∷ p) = fits s p

has_prefix-append :
    (s t p : String) → fits s p ≡ true → has_prefix (String.◌++◌ s t) p ≡ has_prefix s p
unfolding has_prefix fits
has_prefix-append [] t [] h = refl
has_prefix-append (c ∷ s) t [] h = refl
has_prefix-append [] t (d ∷ p) h = cc
has_prefix-append (c ∷ s) t (d ∷ p) h =
    rw (cons-append c s t) (ap (λ b. code c == code d && b) (has_prefix-append s t p h))

-- The two files of an incident differ.
seed_path-ne-lifecycle_path : (dir id : String) → lifecycle_path dir id ≢ seed_path dir id
unfolding has_prefix fits
seed_path-ne-lifecycle_path dir id e =
    let same =
      ap (λ s. has_prefix s "/incidents/s")
        (append_cancel_left dir
          (String.◌++◌ "/incidents/lifecycle/" (String.◌++◌ id "_lifecycle.json"))
          (String.◌++◌ "/incidents/seeds/" (String.◌++◌ id "_seed.json")) e) in
    let other : false ≡ true =
      sym (
        has_prefix-append "/incidents/lifecycle/" (String.◌++◌ id "_lifecycle.json") "/incidents/s"
          refl)
      ∙ same
      ∙ has_prefix-append "/incidents/seeds/" (String.◌++◌ id "_seed.json") "/incidents/s" refl in
    cc

module _ {S L : Type 0} (snapshots : Codec (List S)) (codec : Codec L)
    (incident_of : L → String) where
  -- the seed after the write of the life cycle, however that ends
  seed_after :
      (removes : Bool) (r : Recorder S) (w : Write) (id text : String) (disk : Disk)
      → w.tmp ≢ seed_path r.state_dir id
      → read_file snapshots
          (seed_path r.state_dir id)
          (write_file w
            (lifecycle_path r.state_dir id)
            text
            (remove_seed codec incident_of removes r id disk)).1
        ≡ (if removes then inl read_failed else load_seed snapshots r id disk)
  unfolding load_seed read_file
  seed_after true r w id text disk other =
      let path = seed_path r.state_dir id in
      read_file-missing snapshots path _ (
        write_file_other w (lifecycle_path r.state_dir id) text path (remove path disk) other
          (seed_path-ne-lifecycle_path r.state_dir id)
        ∙ lookup-remove path path disk
        ∙ rw (eq_refl path) refl)
  seed_after false r w id text disk other =
      ap (λ found. read_text snapshots found)
        (write_file_other w (lifecycle_path r.state_dir id) text (seed_path r.state_dir id) disk
          other (seed_path-ne-lifecycle_path r.state_dir id))

  -- What PersistLifecycle has written for an incident is what LoadLifecycle returns, where the directory can be
  -- made and the write succeeds; the incident's seed is then gone if it could be removed, and else LoadSeed
  -- returns what it did before.
  pub load_lifecycle-persist_lifecycle :
      (removes : Bool) (r : Recorder S) (w : Write) (lifecycle : L) (disk : Disk)
      → IsEncoded codec lifecycle
      → w.stop ≡ none
      → w.tmp ≢ lifecycle_path r.state_dir (incident_of lifecycle)
      → w.tmp ≢ seed_path r.state_dir (incident_of lifecycle)
      → (load_lifecycle codec r
            (incident_of lifecycle)
            (persist_lifecycle codec incident_of true removes r w lifecycle disk).1
          ≡ inr lifecycle)
        × (load_seed snapshots r
              (incident_of lifecycle)
              (persist_lifecycle codec incident_of true removes r w lifecycle disk).1
            ≡ (if removes
                then inl read_failed
                else load_seed snapshots r (incident_of lifecycle) disk))
  unfolding persist_lifecycle load_lifecycle load_seed
  load_lifecycle-persist_lifecycle removes r w lifecycle disk json e other_file other_seed =
      let id = incident_of lifecycle in
      rw json.encodes (
        read_file-text codec (lifecycle_path r.state_dir id) _ lifecycle json.text
            (write_file-lookup w (lifecycle_path r.state_dir id) json.text
              (remove_seed codec incident_of removes r id disk) e other_file)
            json.decodes,
        seed_after removes r w id json.text disk other_seed,
      )

  -- When the write of PersistLifecycle fails at any step, its error is returned, and the incident's seed is
  -- lost if it could be removed, since that was done before the write; else LoadSeed returns what it did.
  pub failed_lifecycle_loses_seed :
      (removes : Bool) (r : Recorder S) (w : Write) (lifecycle : L) (disk : Disk) (step : WriteStep)
      → IsEncoded codec lifecycle
      → w.stop ≡ some step
      → w.tmp ≢ seed_path r.state_dir (incident_of lifecycle)
      → ((persist_lifecycle codec incident_of true removes r w lifecycle disk).0
          ≡ some write_failed)
        × (load_seed snapshots r
              (incident_of lifecycle)
              (persist_lifecycle codec incident_of true removes r w lifecycle disk).1
            ≡ (if removes
                then inl read_failed
                else load_seed snapshots r (incident_of lifecycle) disk))
  unfolding persist_lifecycle load_seed
  failed_lifecycle_loses_seed removes r w lifecycle disk step json e other =
      let id = incident_of lifecycle in
      rw json.encodes
        (write_file-error w _ json.text _ step e, seed_after removes r w id json.text disk other)

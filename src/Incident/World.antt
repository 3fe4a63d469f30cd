-- ===== src/Incident/World.antt =====
-- What the methods of Service (internal/incident/service.go) read and change: the files, a clock
-- that is read once for each call of s.now, the ends of the writes, and the trail of effects that
-- leave the process (metrics, notifications, audit entries), newest first. A method returns its
-- error or its result beside the world after it; the warnings beside an incident are left out.
use health_monitor_sre_engin.Common.{ℕ, ◌+◌, String, Option, none, some, List, ◌∷◌}
use health_monitor_sre_engin.Flow.{Flow}
use health_monitor_sre_engin.Incident.{State, Links, Incident}
use health_monitor_sre_engin.Incident.Transitions.{TransitionError}
use health_monitor_sre_engin.Incident.Store
use health_monitor_sre_engin.Incident.Store.{
  Files, Outcome, StoreError, Loaded, loaded, load_failed,
}

-- Fixed while the process runs. `stamp` is now.Format("20060102-150405"), whose result depends on
-- the time zone. `links` is GenerateObservabilityLinks under the configuration, `none` where the
-- configuration cannot be loaded; `flows` is the result of flow.LoadOnce, `none` its error. The log
-- and trace correlators, the discovery engine and the recorder of life cycles are nil.
pub record Env : Type 0 where
  pub profile : String
  pub user : String
  pub stamp : ℕ → String
  pub links : Option (Incident → Links)
  pub flows : Option (List Flow)

pub data Notice : Type 0 where
  notice_started notice_suggested notice_acknowledged notice_resolved : Notice

pub data Effect : Type 0 where
  counted_started counted_suggested : Effect
  counted_transition : State → State → Effect
  counted_resolved : ℕ → Effect
  notified : Notice → Incident → Effect
  audited : String → String → String → Effect

pub record World : Type 0 where
  pub files : Files
  pub clock : ℕ → ℕ
  pub reads : ℕ
  pub outcomes : ℕ → Outcome
  pub writes : ℕ
  pub trail : List Effect

pub data Err : Type 0 where
  store_error : StoreError → Err
  transition_error : TransitionError → Err
  service_required title_required severity_required summary_required id_required : Err
  active_exists : Err
  active_exists_for_service : String → Err
  no_active_incident multiple_active_incidents no_suggested_incident not_suggested : Err
  id_exhausted event_on_resolved invalid_category invalid_failure_type : Err
  description_required owner_required new_owner_required item_id_required item_not_found : Err

pub data Result {ℓ} (A : Type ℓ) : Type ℓ where
  ok : A → Result A
  err : Err → Result A

abbrev pub Exec : Type 0 → Type 0
Exec A = World → Result A × World

abbrev continue : {A B : Type 0} → Result A → (A → Exec B) → Exec B
continue (ok a) f w = f a w
continue (err e) f w = (err e, w)

abbrev pub pure : {A : Type 0} → A → Exec A
pure a w = (ok a, w)

abbrev pub raise : {A : Type 0} → Err → Exec A
raise e w = (err e, w)

infixl 5 ◌>>=◌ ◌>>◌
unfoldable pub ◌>>=◌ : {A B : Type 0} → Exec A → (A → Exec B) → Exec B
◌>>=◌ m f w = let (r, w') = m w in continue r f w'

abbrev pub ◌>>◌ : {A B : Type 0} → Exec A → Exec B → Exec B
m >> k = m >>= λ _. k

-- s.now()
unfoldable pub now : Exec ℕ
now w = (ok (w.clock w.reads), record w { reads = w.reads + 1 })

unfoldable pub emit : Effect → Exec Unit
emit e w = (ok tt, record w { trail = e ∷ w.trail })

-- the error of a write is a value here, since some callers go on after it
unfoldable pub try_save : Incident → Exec (Option StoreError)
try_save i w =
    let (e, fs) = Store.save (w.outcomes w.writes) i w.files in
    (ok e, record w { files = fs; writes = w.writes + 1 })

unfoldable pub try_save_new : Incident → Exec (Option StoreError)
try_save_new i w =
    let (e, fs) = Store.save_new (w.outcomes w.writes) i w.files in
    (ok e, record w { files = fs; writes = w.writes + 1 })

abbrev pub check : Option StoreError → Exec Unit
check none = pure tt
check (some e) = raise (store_error e)

-- `if err := s.store.Save(i); err != nil { return err }`
unfoldable pub save : Incident → Exec Unit
unfolding ◌>>=◌ try_save
save i = do e ← try_save i; check e

abbrev returned : Loaded → Exec Incident
returned (loaded i) = pure i
returned (load_failed e) = raise (store_error e)

unfoldable pub load : String → Exec Incident
load id w = returned (Store.load id w.files) w

unfoldable pub require : Option TransitionError → Exec Unit
require none = pure tt
require (some e) = raise (transition_error e)

-- ===== src/Alert/Processor/Moves.antt =====
-- Steps of the processor whose changes of the files are writes of incidents.
use health_monitor_sre_engin.Common.{
  Bool, true, false, List, ◌≡◌, refl, sym, subst, inl, inr, Bool-cases, if◌then◌else◌,
}
use health_monitor_sre_engin.Incident.World.{World, Err, Exec, Result, ok, err}
use health_monitor_sre_engin.Incident.Service.Writes.{Writes, same, Writes-trans, Follows}
use health_monitor_sre_engin.Incident.Listing
use health_monitor_sre_engin.Alert.{Metrics}
use health_monitor_sre_engin.Alert.Processor.Apply.{failure, counted_failure, record_action}
use health_monitor_sre_engin.Alert.Processor.Messages.{Job}
use health_monitor_sre_engin.Alert.Processor.State.{
  Decision, Warning, Action, Entry, Processor, Run, return, ◌>>=◌, decide, warn, warn_listing,
  count, look, call, write_history,
}

-- A step whose changes of the files are writes of incidents.
pub record Moves {A : Type 0} (m : Run A) : Type 0 where
  pub moves : (p : Processor) → Writes p.world.files (m p).1.world.files

pub bind_rule :
    {A B : Type 0} (m : Run A) (f : A → Run B) → Moves m → ((a : A) → Moves (f a)) → Moves (m >>= f)
unfolding ◌>>=◌
bind_rule m f h k = record { moves = λ p. Writes-trans (h.moves p) ((k (m p).0).moves (m p).1) }

pub if_rule : {A : Type 0} (b : Bool) (m n : Run A) → Moves m → Moves n → Moves (if b then m else n)
if_rule true m n h k = h
if_rule false m n h k = k

pub call_rule : {A : Type 0} (m : Exec A) → ((w : World) → Follows w.files m w) → Moves (call m)
unfolding call
call_rule m h = record { moves = λ p. (h p.world).writes }

-- a step that keeps the files
pub still :
    {A : Type 0} (m : Run A) → ((p : Processor) → (m p).1.world.files ≡ p.world.files) → Moves m
still m h = record { moves = λ p. subst (λ fs. Writes p.world.files fs) (sym (h p)) same }

pub decide-Moves : (d : Decision) → Moves (decide d)
unfolding decide
decide-Moves d = still (decide d) (λ p. refl)

pub warn-Moves : (x : Warning) → Moves (warn x)
unfolding warn
warn-Moves x = still (warn x) (λ p. refl)

pub warn_listing-Moves : (xs : List Listing.Warning) → Moves (warn_listing xs)
unfolding warn_listing
warn_listing-Moves xs = still (warn_listing xs) (λ p. refl)

pub count-Moves : (f : Metrics → Metrics) → Moves (count f)
unfolding count
count-Moves f = still (count f) (λ p. refl)

pub look-Moves : Moves look
unfolding look
look-Moves = still look (λ p. refl)

pub return-Moves : {A : Type 0} (a : A) → Moves (return a)
return-Moves a = still (return a) (λ p. refl)

pub history-Moves : (e : Entry) → Moves (write_history e)
unfolding write_history
history-Moves e =
    still (write_history e)
      (λ p. elim (Bool-cases (p.appended p.attempts)) [ inl h ↦ rw h refl | inr h ↦ rw h refl ])

pub failure-Moves : {A : Type 0} (f : Err → Warning) (r : Result A) → Moves (failure f r)
failure-Moves f (ok a) = return-Moves tt
failure-Moves f (err e) = warn-Moves (f e)

pub counted-Moves : {A : Type 0} (f : Err → Warning) (r : Result A) → Moves (counted_failure f r)
counted-Moves f (ok a) = return-Moves tt
counted-Moves f (err e) = bind_rule (warn (f e)) _ (warn-Moves (f e)) λ _. count-Moves _

pub record-Moves : (j : Job) (a : Action) → Moves (record_action j a)
unfolding record_action
record-Moves j a = bind_rule look _ look-Moves λ t. history-Moves _

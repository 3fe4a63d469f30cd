-- ===== src/Incident/Service/Writes.antt =====
-- What a method writes, as a sequence of saves: each replaces an incident by one that has moved at
-- most one edge of the life cycle and has kept all events, or adds a new incident under a free id.
pub mod Rules
use health_monitor_sre_engin.Common.{
  ℕ, zero, suc, ◌+◌, String, Bool, true, false, Option, none, some, List, [], ◌∷◌, ◌++◌, append-nil,
  ◌≡◌, ◌⊎◌, inl, refl, sym, ◌∙◌, if◌then◌else◌, is_empty, trim_space,
}
use health_monitor_sre_engin.Incident.{started, suggested, Event, Incident}
use health_monitor_sre_engin.Incident.Transitions.{◌⟶◌, TransitionError}
use health_monitor_sre_engin.Incident.Store
use health_monitor_sre_engin.Incident.Store.{
  Files, Outcome, done, write_failed, chown_failed, StoreError, incident_exists, Loaded, loaded,
  load_failed,
}
use health_monitor_sre_engin.Incident.Store.RoundTrip.{load-save_ok, load-save_new}
use health_monitor_sre_engin.Incident.World.{
  Effect, World, Err, Result, Exec, ok, err, ◌>>=◌, pure, raise, now, emit, try_save, try_save_new,
  save, load, require,
}
use health_monitor_sre_engin.Incident.Service.{allocate}
use health_monitor_sre_engin.Incident.Service.Lifecycle.{non_empty}

-- `c` is what became of `b`: the same id, the same state or the next of the life cycle, and the
-- events of `b` with more behind them.
pub record Advance (b c : Incident) : Type 0 where
  pub same_id : c.id ≡ b.id
  pub moved : (c.state ≡ b.state) ⊎ (b.state ⟶ c.state)
  pub added : List Event
  pub history : c.events ≡ b.events ++ added

pub record IsNew (c : Incident) : Type 0 where
  pub opened : (c.state ≡ started) ⊎ (c.state ≡ suggested)

pub data Writes (fs : Files) : Files → Type 0 where
  same : Writes fs fs
  saved :
      {gs : Files} (o : Outcome) (j : String) (b c : Incident)
      → Writes fs gs
      → Store.load j gs ≡ loaded b
      → Advance b c
      → Writes fs (Store.save o c gs).1
  created :
      {gs : Files} (o : Outcome) (c : Incident)
      → Writes fs gs
      → IsNew c
      → Writes fs (Store.save_new o c gs).1

-- The writes of a method, from the files `fs` to those after it in the world `w`.
pub record Follows {A : Type 0} (fs : Files) (m : Exec A) (w : World) : Type 0 where
  pub writes : Writes fs (m w).1.files

-- a change that leaves id, state and events alone
pub Advance-refl :
    (b c : Incident) → c.id ≡ b.id → c.state ≡ b.state → c.events ≡ b.events → Advance b c
Advance-refl b c i s e = record {
  same_id = i;
  moved = inl s;
  added = [];
  history = e ∙ sym (append-nil b.events);
}

-- writes after writes
pub Writes-trans : {fs gs hs : Files} → Writes fs gs → Writes gs hs → Writes fs hs
Writes-trans h same = h
Writes-trans h (saved o j b c k e a) = saved o j b c (Writes-trans h k) e a
Writes-trans h (created o c k n) = created o c (Writes-trans h k) n

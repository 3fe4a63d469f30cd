-- ===== src/Incident/Service/Writes/Rules.antt =====
-- How the writes of a method follow its steps.
use health_monitor_sre_engin.Common.{
  ℕ, zero, suc, ◌+◌, String, Bool, true, false, Option, none, some, ◌∷◌, ◌≡◌, refl, if◌then◌else◌,
  is_empty, trim_space,
}
use health_monitor_sre_engin.Incident.{Incident}
use health_monitor_sre_engin.Incident.Transitions.{TransitionError}
use health_monitor_sre_engin.Incident.Store
use health_monitor_sre_engin.Incident.Store.{
  Files, Outcome, done, write_failed, chown_failed, StoreError, incident_exists, Loaded, loaded,
  load_failed,
}
use health_monitor_sre_engin.Incident.Store.RoundTrip.{load-save_ok, load-save_new}
use health_monitor_sre_engin.Incident.World.{
  Effect, World, Err, Result, Exec, ok, err, ◌>>=◌, pure, raise, now, emit, try_save, try_save_new,
  save, load, require,
}
use health_monitor_sre_engin.Incident.Service.{allocate}
use health_monitor_sre_engin.Incident.Service.Lifecycle.{non_empty}
use health_monitor_sre_engin.Incident.Service.Writes.{
  Advance, IsNew, Writes, saved, created, Follows,
}

module _ {A : Type 0} {fs : Files} where
  pub pure_rule : (a : A) (w : World) → Writes fs w.files → Follows fs (pure a) w
  pure_rule a w h = record { writes = h }

  pub raise_rule : (x : Err) (w : World) → Writes fs w.files → Follows {A = A} fs (raise x) w
  raise_rule x w h = record { writes = h }

  pub now_rule :
      (f : ℕ → Exec A) (w : World)
      → Follows fs (f (w.clock w.reads)) (record w { reads = w.reads + 1 })
      → Follows fs (now >>= f) w
  unfolding now ◌>>=◌
  now_rule f w h = record { writes = h.writes }

  pub emit_rule :
      (x : Effect) (f : Unit {0} → Exec A) (w : World)
      → Follows fs (f tt) (record w { trail = x ∷ w.trail })
      → Follows fs (emit x >>= f) w
  unfolding emit ◌>>=◌
  emit_rule x f w h = record { writes = h.writes }

  pub load_rule :
      (id : String) (f : Incident → Exec A) (w : World)
      → Writes fs w.files
      → ((b : Incident) → Store.load id w.files ≡ loaded b → Follows fs (f b) w)
      → Follows fs (load id >>= f) w
  unfolding load ◌>>=◌
  load_rule id f w h k = record { writes = go (Store.load id w.files) refl }
    where
      go : (r : Loaded) → Store.load id w.files ≡ r → Writes fs ((load id >>= f) w).1.files
      go (loaded b) e = rw e (k b e).writes
      go (load_failed x) e = rw e h

  pub require_rule :
      (e : Option TransitionError) (f : Unit {0} → Exec A) (w : World)
      → Writes fs w.files
      → (e ≡ none → Follows fs (f tt) w)
      → Follows fs (require e >>= f) w
  unfolding require ◌>>=◌
  require_rule none f w h k = record { writes = (k refl).writes }
  require_rule (some x) f w h k = record { writes = h }

  -- a test of the arguments, or of what was loaded
  pub guard_rule :
      (b : Bool) (x : Err) (f : Unit {0} → Exec A) (w : World)
      → Writes fs w.files
      → Follows fs (f tt) w
      → Follows fs ((if b then raise x else pure tt) >>= f) w
  unfolding ◌>>=◌
  guard_rule true x f w h k = record { writes = h }
  guard_rule false x f w h k = record { writes = k.writes }

  pub if_rule :
      (b : Bool) (m n : Exec A) (w : World)
      → Follows fs m w
      → Follows fs n w
      → Follows fs (if b then m else n) w
  if_rule true m n w h k = h
  if_rule false m n w h k = k

  pub non_empty_rule :
      (s : String) (x : Err) (f : Unit {0} → Exec A) (w : World)
      → Writes fs w.files
      → Follows fs (f tt) w
      → Follows fs (non_empty s x >>= f) w
  unfolding non_empty
  non_empty_rule s x f w h k = guard_rule (is_empty (trim_space s)) x f w h k

  -- after a write, `c` is what its id is loaded as
  pub save_rule :
      (j : String) (b c : Incident) (f : Unit {0} → Exec A) (w : World)
      → Writes fs w.files
      → Store.load j w.files ≡ loaded b
      → Advance b c
      → ((v : World) → Writes fs v.files → Store.load c.id v.files ≡ loaded c → Follows fs (f tt) v)
      → Follows fs (save c >>= f) w
  unfolding save
  save_rule j b c f w h e a k = record {
    writes = go (Store.save (w.outcomes w.writes) c w.files).0 refl;
  }
    where
      go :
          (r : Option StoreError)
          → (Store.save (w.outcomes w.writes) c w.files).0 ≡ r
          → Writes fs ((save c >>= f) w).1.files
      go none q =
          rw q
            (k _ (saved (w.outcomes w.writes) j b c h e a)
              (load-save_ok (w.outcomes w.writes) c w.files q)).writes
      go (some x) q = rw q (saved (w.outcomes w.writes) j b c h e a)

  -- a write whose error the method passes over
  pub try_save_rule :
      (j : String) (b c : Incident) (f : Option StoreError → Exec A) (w : World)
      → Writes fs w.files
      → Store.load j w.files ≡ loaded b
      → Advance b c
      → ((r : Option StoreError) (v : World)
          → Writes fs v.files
          → (r ≡ none → Store.load c.id v.files ≡ loaded c)
          → Follows fs (f r) v)
      → Follows fs (try_save c >>= f) w
  unfolding try_save ◌>>=◌
  try_save_rule j b c f w h e a k = record {
    writes =
        (k (Store.save (w.outcomes w.writes) c w.files).0 _
          (saved (w.outcomes w.writes) j b c h e a)
          (load-save_ok (w.outcomes w.writes) c w.files)).writes;
  }

  -- a test within a test
  pub guards_rule :
      (b c : Bool) (x y : Err) (f : Unit {0} → Exec A) (w : World)
      → Writes fs w.files
      → Follows fs (f tt) w
      → Follows fs ((if b then (if c then pure tt else raise x) else raise y) >>= f) w
  unfolding ◌>>=◌
  guards_rule true true x y f w h k = record { writes = k.writes }
  guards_rule true false x y f w h k = record { writes = h }
  guards_rule false c x y f w h k = record { writes = h }

module _ {A B : Type 0} {fs : Files} where
  pub pick_rule :
      (b : Bool) (a : A) (x : Err) (f : A → Exec B) (w : World)
      → Writes fs w.files
      → Follows fs (f a) w
      → Follows fs ((if b then pure a else raise x) >>= f) w
  unfolding ◌>>=◌
  pick_rule true a x f w h k = record { writes = k.writes }
  pick_rule false a x f w h k = record { writes = h }

  -- one method after another
  pub seq_rule :
      (m : Exec A) (f : A → Exec B) (w : World)
      → Follows fs m w
      → ((a : A) (v : World) → Writes fs v.files → Follows fs (f a) v)
      → Follows fs (m >>= f) w
  unfolding ◌>>=◌
  seq_rule m f w h k = record { writes = go (m w).0 refl }
    where
      go : (r : Result A) → (m w).0 ≡ r → Writes fs ((m >>= f) w).1.files
      go (ok a) e = rw e (k a (m w).1 h.writes).writes
      go (err x) e = rw e h.writes

module _ {A B C : Type 0} {fs : Files} where
  pub assoc_rule :
      (m : Exec A) (g : A → Exec B) (f : B → Exec C) (w : World)
      → Follows fs (m >>= λ a. g a >>= f) w
      → Follows fs (m >>= g >>= f) w
  unfolding ◌>>=◌
  assoc_rule m g f w h = record { writes = go (m w).0 refl }
    where
      go : (r : Result A) → (m w).0 ≡ r → Writes fs ((m >>= g >>= f) w).1.files
      go (ok a) e = rw e (rw e at h.writes)
      go (err x) e = rw e (rw e at h.writes)

module _ {fs : Files} where
  -- the write that ends a method
  pub last_rule :
      (j : String) (b c : Incident) (w : World)
      → Writes fs w.files
      → Store.load j w.files ≡ loaded b
      → Advance b c
      → Follows fs (save c) w
  unfolding save
  last_rule j b c w h e a = record {
    writes = go (Store.save (w.outcomes w.writes) c w.files).0 refl;
  }
    where
      go :
          (r : Option StoreError)
          → (Store.save (w.outcomes w.writes) c w.files).0 ≡ r
          → Writes fs (save c w).1.files
      go none q = rw q (saved (w.outcomes w.writes) j b c h e a)
      go (some x) q = rw q (saved (w.outcomes w.writes) j b c h e a)

  -- the first write of a new incident, under the loop that looks for a free id
  pub allocate_rule :
      (n : ℕ) (make : ℕ → Incident) (go : Incident → Exec Incident) (w : World)
      → Writes fs w.files
      → ((t : ℕ) → IsNew (make t))
      → ((c : Incident) (v : World)
          → Writes fs v.files
          → Store.load c.id v.files ≡ loaded c
          → Follows fs (go c) v)
      → Follows fs (allocate n make go) w
  unfolding allocate ◌>>=◌ now try_save_new
  allocate_rule zero make go w h new k = record { writes = h }
  allocate_rule (suc n) make go w h new k = record {
    writes =
        split (λ v g. (allocate_rule n make go v g new k).writes) (Store.save_new o c w.files).0
          refl;
  }
    where
      o : Outcome
      o = w.outcomes w.writes

      c : Incident
      c = make (w.clock w.reads)

      now_files : Writes fs (Store.save_new o c w.files).1
      now_files = created o c h (new (w.clock w.reads))

      split :
          ((v : World) → Writes fs v.files → Writes fs (allocate n make go v).1.files)
          → (r : Option StoreError) → (Store.save_new o c w.files).0 ≡ r
          → Writes fs (allocate (suc n) make go w).1.files
      split again none q = rw q (k c _ now_files (load-save_new o c w.files q)).writes
      split again (some incident_exists) q = rw q (again _ now_files)
      split again (some x) q = rw q now_files

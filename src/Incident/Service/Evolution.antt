-- ===== src/Incident/Service/Evolution.antt =====
-- What a sequence of writes does to the incident of each id.
use health_monitor_sre_engin.Common.{
  String, List, ◌++◌, append_assoc, ◌≡◌, ◌≢◌, ◌⊎◌, inl, inr, sym, ◌∙◌, ap, subst, str_eq, eq_iff,
  eq_refl, arith, Bool-cases,
}
use health_monitor_sre_engin.Incident.{State, unset, Event, Incident}
use health_monitor_sre_engin.Incident.Transitions.{◌⟶◌, open_new, propose, ◌⟶*◌, here, step}
use health_monitor_sre_engin.Incident.Store
use health_monitor_sre_engin.Incident.Store.{
  get_path, root, valid, file_at, put_file, Files, Outcome, not_found, Loaded, loaded, load_failed,
}
use health_monitor_sre_engin.Incident.Store.RoundTrip.{
  load-save_ne, load-save_new_ne, save_cases, save_new_cases,
}
use health_monitor_sre_engin.Incident.Service.Writes.{Advance, IsNew, Writes, same, saved, created}

-- `c` is a later form of `b`: the same id, a state that `b` leads to along the life cycle, and the
-- events of `b` with more behind them.
pub record Later (b c : Incident) : Type 0 where
  pub same_id : c.id ≡ b.id
  pub reached : b.state ⟶* c.state
  pub added : List Event
  pub history : c.events ≡ b.events ++ added

-- what became of what an id is loaded as
pub data Evolved : Loaded → Loaded → Type 0 where
  kept : {l : Loaded} → Evolved l l
  advanced : {b c : Incident} → Later b c → Evolved (loaded b) (loaded c)
  opened : {c : Incident} → unset ⟶* c.state → Evolved (load_failed not_found) (loaded c)

-- Each incident has the id that it is loaded under.
abbrev pub IsKeyed : Files → Type 0
IsKeyed fs = (j : String) (b : Incident) → Store.load j fs ≡ loaded b → b.id ≡ j

⟶*-append : {s t u : State} → s ⟶* t → t ⟶* u → s ⟶* u
⟶*-append here k = k
⟶*-append (step e h) k = step e (⟶*-append h k)

one_edge : {b c : State} → (c ≡ b) ⊎ (b ⟶ c) → b ⟶* c
one_edge {b} {c} (inl e) = subst (λ s. b ⟶* s) (sym e) here
one_edge (inr e) = step e here

Advance-Later : (b c : Incident) → Advance b c → Later b c
Advance-Later b c a = record {
  same_id = a.same_id;
  reached = one_edge a.moved;
  added = a.added;
  history = a.history;
}

Later-trans : (a b c : Incident) → Later a b → Later b c → Later a c
Later-trans a b c h k = record {
  same_id = k.same_id ∙ h.same_id;
  reached = ⟶*-append h.reached k.reached;
  added = h.added ++ k.added;
  history = k.history ∙ ap (λ es. es ++ k.added) h.history ∙ append_assoc a.events h.added k.added;
}

-- an evolution and one more write of the incident
Evolved-Advance :
    {l : Loaded} (b c : Incident) → Evolved l (loaded b) → Advance b c → Evolved l (loaded c)
Evolved-Advance b c kept a = advanced (Advance-Later b c a)
Evolved-Advance b c (advanced h) a = advanced (Later-trans _ b c h (Advance-Later b c a))
Evolved-Advance b c (opened h) a = opened (⟶*-append h (one_edge a.moved))

new_state : (c : Incident) → IsNew c → unset ⟶* c.state
new_state c n = elim n.opened [
  | inl e ↦ subst (λ s. unset ⟶* s) (sym e) (step open_new here)
  | inr e ↦ subst (λ s. unset ⟶* s) (sym e) (step propose here)
]

str-cases : (i j : String) → (i ≡ j) ⊎ (i ≢ j)
str-cases i j = elim (Bool-cases (str_eq i j)) [
  | inl e ↦ inl ((eq_iff i j).0 e)
  | inr e ↦ inr λ q. ground (arith, q, e, eq_refl i, eq_iff i j)
]

saved_id :
    (fs gs : Files) (o : Outcome) (b c : Incident)
    → Evolved (Store.load c.id fs) (Store.load c.id gs)
    → Store.load c.id gs ≡ loaded b
    → Advance b c
    → Evolved (Store.load c.id fs) (Store.load c.id (Store.save o c gs).1)
saved_id fs gs o b c h e a = elim (save_cases o c gs) [
  | inl q ↦ subst (λ l. Evolved (Store.load c.id fs) l) (sym q) h
  | inr q ↦
      subst (λ l. Evolved (Store.load c.id fs) l) (sym q)
        (Evolved-Advance b c (subst (λ l. Evolved (Store.load c.id fs) l) e h) a)
]

created_id :
    (fs gs : Files) (o : Outcome) (c : Incident)
    → Evolved (Store.load c.id fs) (Store.load c.id gs)
    → IsNew c
    → Evolved (Store.load c.id fs) (Store.load c.id (Store.save_new o c gs).1)
created_id fs gs o c h n = elim (save_new_cases o c gs) [
  | inl q ↦ subst (λ l. Evolved (Store.load c.id fs) l) (sym q) h
  | inr q ↦
      subst (λ l. Evolved (Store.load c.id fs) l) (sym q.1)
        (from_nothing (subst (λ l. Evolved (Store.load c.id fs) l) q.0 h) n)
]
  where
    from_nothing : {l : Loaded} → Evolved l (load_failed not_found) → IsNew c → Evolved l (loaded c)
    from_nothing kept m = opened (new_state c m)

kept_or_new : {A B C : Type 0} → A ⊎ (B × C) → A ⊎ C
kept_or_new (inl a) = inl a
kept_or_new (inr p) = inr p.1

pub IsKeyed-after :
    (gs hs : Files) (c : Incident)
    → IsKeyed gs
    → (Store.load c.id hs ≡ Store.load c.id gs) ⊎ (Store.load c.id hs ≡ loaded c)
    → ((i : String) → c.id ≢ i → Store.load i hs ≡ Store.load i gs)
    → IsKeyed hs
IsKeyed-after gs hs c keyed here_ elsewhere i x q = elim (str-cases c.id i) [
  | inl p ↦
      subst (λ i. x.id ≡ i) p (at_id (subst (λ i. Store.load i hs ≡ loaded x) (sym p) q) here_)
  | inr p ↦ keyed i x (sym (elsewhere i p) ∙ q)
]
  where
    at_id :
        Store.load c.id hs ≡ loaded x
        → (Store.load c.id hs ≡ Store.load c.id gs) ⊎ (Store.load c.id hs ≡ loaded c)
        → x.id ≡ c.id
    at_id r (inl s) = keyed c.id x (sym s ∙ r)
    at_id r (inr s) = sym (ap (λ l. elim l [ loaded y ↦ y.id | load_failed e ↦ c.id ]) (sym s ∙ r))

-- Writes keep every incident under its id, and each id has evolved from what it was before them.
pub Writes-Evolved :
    {fs gs : Files}
    → Writes fs gs
    → IsKeyed fs
    → IsKeyed gs × ((j : String) → Evolved (Store.load j fs) (Store.load j gs))
Writes-Evolved same k = (k, λ j. kept)
Writes-Evolved {fs} (saved {gs} o j b c h e a) k =
    let (keyed, evolved) = Writes-Evolved h k in
    let at_id = subst (λ i. Store.load i gs ≡ loaded b) (sym (a.same_id ∙ keyed j b e)) e in
    (
      IsKeyed-after gs (Store.save o c gs).1 c keyed (save_cases o c gs)
          (λ i p. load-save_ne o c gs i p),
      λ i. elim (str-cases c.id i) [
        | inl p ↦
            subst (λ i. Evolved (Store.load i fs) (Store.load i (Store.save o c gs).1)) p
              (saved_id fs gs o b c (evolved c.id) at_id a)
        | inr p ↦
            subst (λ l. Evolved (Store.load i fs) l) (sym (load-save_ne o c gs i p)) (evolved i)
      ],
    )
Writes-Evolved {fs} (created {gs} o c h n) k =
    let (keyed, evolved) = Writes-Evolved h k in
    (
      IsKeyed-after gs (Store.save_new o c gs).1 c keyed (kept_or_new (save_new_cases o c gs))
          (λ i p. load-save_new_ne o c gs i p),
      λ i. elim (str-cases c.id i) [
        | inl p ↦
            subst (λ i. Evolved (Store.load i fs) (Store.load i (Store.save_new o c gs).1)) p
              (created_id fs gs o c (evolved c.id) n)
        | inr p ↦
            subst (λ l. Evolved (Store.load i fs) l) (sym (load-save_new_ne o c gs i p)) (evolved i)
      ],
    )

-- one run of writes after another
pub Evolved-trans : (l m n : Loaded) → Evolved l m → Evolved m n → Evolved l n
Evolved-trans l m n h kept = h
Evolved-trans l m n kept k = k
Evolved-trans _ _ _ (advanced {b} {c} h) (advanced {b = b'} {c = d} k) =
    advanced (Later-trans b c d h k)
Evolved-trans _ _ _ (opened h) (advanced k) = opened (⟶*-append h k.reached)

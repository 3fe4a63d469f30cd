-- ===== src/Flow/Loader/Sound.antt =====
-- What loadFiles keeps.
use health_monitor_sre_engin.Common.{
  String, Bool, true, false, not, ◌&&◌, Option, none, some, List, [], ◌∷◌, ◌≡◌, ◌≢◌, ◌⊎◌, inl, inr,
  refl, sym, subst, ap, Bool-cases, if◌then◌else◌, eq_iff, is_empty, is_nil, trim_space, Dict,
  lookup, insert, lookup-insert, All, arith,
}
use health_monitor_sre_engin.Flow.{Flow, Services, cleaned, refused, normalize_services, text_le}
use health_monitor_sre_engin.Flow.Loader.{
  FlowConfig, FlowFile, unreadable, invalid_yaml, parsed, Warning, Loading, add_new, add_entry,
  add_entries, add_file, add_files, insert_flow, sort_flows, Loaded, loaded, no_valid_entries,
  load_files,
}

-- The entry stands in the map of a file.
abbrev pub HasEntry : String → FlowConfig → Dict FlowConfig → Type 0
HasEntry id cfg [] = ⊥
HasEntry id cfg ((key, value) ∷ entries) = ((key ≡ id) × (value ≡ cfg)) ⊎ HasEntry id cfg entries

abbrev pub Holds : String → FlowConfig → FlowFile → Type 0
Holds id cfg unreadable = ⊥
Holds id cfg invalid_yaml = ⊥
Holds id cfg (parsed entries) = HasEntry id cfg entries

-- One of the files has the entry.
abbrev pub Listed : String → FlowConfig → Dict FlowFile → Type 0
Listed id cfg [] = ⊥
Listed id cfg ((path, file) ∷ files) = Holds id cfg file ⊎ Listed id cfg files

-- A flow that comes from an entry of the files, with a name that is not empty and clean services.
pub record IsFrom (files : Dict FlowFile) (f : Flow) : Type 0 where
  pub key : String
  pub cfg : FlowConfig
  pub listed : Listed key cfg files
  pub trimmed : trim_space key ≡ f.id
  pub not_empty : is_empty f.id ≡ false
  pub clean : normalize_services cfg.services ≡ cleaned f.services

-- each flow stands under its own id, and no id twice
abbrev IsIndexed : (Flow → Type 0) → Dict Flow → Type 0
IsIndexed P [] = Unit
IsIndexed P ((key, f) ∷ flows) = (key ≡ f.id) × P f × (lookup key flows ≡ none) × IsIndexed P flows

module _ (P : Flow → Type 0) where
  insert-IsIndexed :
      (f : Flow) (flows : Dict Flow)
      → P f
      → lookup f.id flows ≡ none
      → IsIndexed P flows
      → IsIndexed P (insert f.id f flows)
  unfolding insert lookup
  insert-IsIndexed f [] p fresh h = (refl, p, refl, tt)
  insert-IsIndexed f ((key, g) ∷ flows) p fresh h = ground (
    arith,
    insert-IsIndexed f flows p,
    lookup-insert f.id key f flows,
    eq_iff key f.id,
    eq_iff f.id key,
  )

module _ (files : Dict FlowFile) where
  abbrev Kept : Loading → Type 0
  Kept l = IsIndexed (IsFrom files) l.flows

  add_new-Kept :
      (path id key : String) (cfg : FlowConfig) (found : Option Flow) (services : Services)
      (l : Loading)
      → Listed key cfg files
      → trim_space key ≡ id
      → is_empty id ≡ false
      → lookup id l.flows ≡ found
      → normalize_services cfg.services ≡ services
      → Kept l
      → Kept (add_new path id cfg found l)
  add_new-Kept path id key cfg (some f) services l listed trimmed named e clean h = h
  add_new-Kept path id key cfg none (refused error) l listed trimmed named e clean h = rw clean h
  add_new-Kept path id key cfg none (cleaned names) l listed trimmed named e clean h = rw clean (
      insert-IsIndexed (IsFrom files)
        (record { id = id; name = trim_space cfg.name; services = names }) l.flows
        (record {
          key = key;
          cfg = cfg;
          listed = listed;
          trimmed = trimmed;
          not_empty = named;
          clean = clean;
        })
        e h)

  add_entry-Kept :
      (path key : String) (cfg : FlowConfig) (l : Loading)
      → Listed key cfg files
      → Kept l
      → Kept (add_entry path key cfg l)
  unfolding add_entry
  add_entry-Kept path key cfg l listed h = elim (Bool-cases (is_empty (trim_space key))) [
    | inl empty ↦ rw empty h
    | inr named ↦ rw named (
        add_new-Kept path (trim_space key) key cfg (lookup (trim_space key) l.flows)
          (normalize_services cfg.services) l listed refl named refl refl h)
  ]

  add_entries-Kept :
      (path : String) (entries : Dict FlowConfig) (l : Loading)
      → ((key : String) (cfg : FlowConfig) → HasEntry key cfg entries → Listed key cfg files)
      → Kept l
      → Kept (add_entries path entries l)
  unfolding add_entries
  add_entries-Kept path [] l inside h = h
  add_entries-Kept path ((key, cfg) ∷ entries) l inside h =
      add_entries-Kept path entries _ (λ k c m. inside k c (inr m))
        (add_entry-Kept path key cfg l (inside key cfg (inl (refl, refl))) h)

  add_file-Kept :
      (path : String) (file : FlowFile) (l : Loading)
      → ((key : String) (cfg : FlowConfig) → Holds key cfg file → Listed key cfg files)
      → Kept l
      → Kept (add_file path file l)
  add_file-Kept path unreadable l inside h = h
  add_file-Kept path invalid_yaml l inside h = h
  add_file-Kept path (parsed []) l inside h = h
  add_file-Kept path (parsed (entry ∷ entries)) l inside h =
      add_entries-Kept path (entry ∷ entries) l inside h

  add_files-Kept :
      (rest : Dict FlowFile) (l : Loading)
      → ((key : String) (cfg : FlowConfig) → Listed key cfg rest → Listed key cfg files)
      → Kept l
      → Kept (add_files rest l)
  unfolding add_files
  add_files-Kept [] l inside h = h
  add_files-Kept ((path, file) ∷ rest) l inside h =
      add_files-Kept rest _ (λ k c m. inside k c (inr m))
        (add_file-Kept path file l (λ k c m. inside k c (inl m)) h)

-- No other flow has the id of one.
abbrev pub AreDistinct : List Flow → Type 0
AreDistinct [] = Unit
AreDistinct (f ∷ fs) = All (λ g. f.id ≢ g.id) fs × AreDistinct fs

insert_flow-All :
    (P : Flow → Type 0) (f : Flow) (fs : List Flow) → P f → All P fs → All P (insert_flow f fs)
unfolding insert_flow
insert_flow-All P f [] p h = (p, tt)
insert_flow-All P f (g ∷ gs) p h = elim (Bool-cases (text_le f.id g.id)) [
  | inl le ↦ rw le (p, h)
  | inr gt ↦ rw gt (h.0, insert_flow-All P f gs p h.1)
]

insert_flow-AreDistinct :
    (f : Flow) (fs : List Flow)
    → All (λ g. f.id ≢ g.id) fs
    → AreDistinct fs
    → AreDistinct (insert_flow f fs)
unfolding insert_flow
insert_flow-AreDistinct f [] fresh h = (tt, tt)
insert_flow-AreDistinct f (g ∷ gs) fresh h = elim (Bool-cases (text_le f.id g.id)) [
  | inl le ↦ rw le (fresh, h)
  | inr gt ↦ rw gt (
    insert_flow-All (λ k. g.id ≢ k.id) f gs (λ e. fresh.0 (sym e)) h.0,
    insert_flow-AreDistinct f gs fresh.1 h.1,
  )
]

sort_flows-fresh :
    (P : Flow → Type 0) (key : String) (flows : Dict Flow)
    → lookup key flows ≡ none
    → IsIndexed P flows
    → All (λ g. key ≢ g.id) (sort_flows flows)
unfolding sort_flows lookup
sort_flows-fresh P key [] e h = tt
sort_flows-fresh P key ((other, f) ∷ flows) e (same, p, fresh, h) =
    insert_flow-All (λ g. key ≢ g.id) f (sort_flows flows) (λ d. ground (arith, eq_iff other key))
      (sort_flows-fresh P key flows (ground (arith, eq_iff other key)) h)

sort_flows-IsIndexed :
    (P : Flow → Type 0) (flows : Dict Flow)
    → IsIndexed P flows
    → All P (sort_flows flows) × AreDistinct (sort_flows flows)
unfolding sort_flows
sort_flows-IsIndexed P [] h = (tt, tt)
sort_flows-IsIndexed P ((key, f) ∷ flows) (same, p, fresh, h) =
    let (all, distinct) = sort_flows-IsIndexed P flows h in
    (
      insert_flow-All P f (sort_flows flows) p all,
      insert_flow-AreDistinct f (sort_flows flows)
          (subst (λ id. All (λ g. id ≢ g.id) (sort_flows flows)) same
            (sort_flows-fresh P key flows fresh h))
          distinct,
    )

-- the flows of a result
abbrev flows_of : Loaded → List Flow
flows_of (loaded flows warnings) = flows
flows_of (no_valid_entries warnings) = []

-- The flows that loadFiles returns have distinct ids, and each comes from an entry of the files: its id is the
-- trimmed key, which is not empty, and its services are the normalised services of the entry.
pub load_files_sound :
    (files : Dict FlowFile) (flows : List Flow) (warnings : List Warning)
    → load_files files ≡ loaded flows warnings
    → All (IsFrom files) flows × AreDistinct flows
unfolding load_files
load_files_sound files flows warnings e =
    let l = add_files files (record { flows = []; warnings = [] }) in
    let kept = add_files-Kept files files (record { flows = []; warnings = [] }) (λ k c m. m) tt in
    result (is_nil l.flows && not (is_nil l.warnings)) (sort_flows l.flows) l.warnings
      (sort_flows-IsIndexed (IsFrom files) l.flows kept) e
  where
    result :
        (test : Bool) (kept : List Flow) (said : List Warning)
        → All (IsFrom files) kept × AreDistinct kept
        → (if test then no_valid_entries said else loaded kept said) ≡ loaded flows warnings
        → All (IsFrom files) flows × AreDistinct flows
    result true kept said h d = cc
    result false kept said h d =
        subst (λ fs. All (IsFrom files) fs × AreDistinct fs) (ap flows_of d) h

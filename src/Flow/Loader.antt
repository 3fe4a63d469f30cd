-- ===== src/Flow/Loader.antt =====
-- internal/flow/loader.go: expandLocations and loadFiles. Reading a file, YAML, filepath.Glob and os.Stat
-- are given by what they return; a map that YAML gives is a list in the order in which `range` visits it.
-- The SLOs of a flow are left out, with the warnings about them: those are given for flows that are kept.
pub mod Sound
use Prim.Native.String.{[], ◌∷◌, ◌++◌ as ◌++ˢ◌}
use health_monitor_sre_engin.Common.{
  ℕ, String, Bool, true, false, not, ◌&&◌, ◌||◌, Option, none, some, List, [], ◌∷◌, ◌++◌, map,
  if◌then◌else◌, is_empty, is_nil, trim_space, Dict, lookup, insert, any, in_set,
}
use health_monitor_sre_engin.Flow.{
  Flow, Services, cleaned, refused, normalize_services, member, sort_texts, text_le,
}

pub record FlowConfig : Type 0 where
  pub name : String
  pub services : List String

-- what os.ReadFile and yaml.Unmarshal give for a file
pub data FlowFile : Type 0 where
  unreadable invalid_yaml : FlowFile
  parsed : Dict FlowConfig → FlowFile

pub data Warning : Type 0 where
  skipped_unreadable skipped_invalid skipped_empty empty_flow_id : String → Warning
  duplicate_flow_id skipped_flow : String → String → Warning

-- flowsByID and the warnings
pub record Loading : Type 0 where
  pub flows : Dict Flow
  pub warnings : List Warning

abbrev pub warn : Warning → Loading → Loading
warn w l = record l { warnings = l.warnings ++ w ∷ [] }

abbrev pub add_services : String → String → FlowConfig → Services → Loading → Loading
add_services path id cfg (cleaned services) l = record l {
  flows = insert id (record { id = id; name = trim_space cfg.name; services = services }) l.flows;
}
add_services path id cfg (refused e) l = warn (skipped_flow id path) l

-- the part on an id that is not empty
abbrev pub add_new : String → String → FlowConfig → Option Flow → Loading → Loading
add_new path id cfg (some f) l = warn (duplicate_flow_id id path) l
add_new path id cfg none l = add_services path id cfg (normalize_services cfg.services) l

-- one entry of a file
unfoldable pub add_entry : String → String → FlowConfig → Loading → Loading
add_entry path id cfg l =
    let trimmed = trim_space id in
    let added = add_new path trimmed cfg (lookup trimmed l.flows) l in
    if is_empty trimmed then warn (empty_flow_id path) l else added

unfoldable pub add_entries : String → Dict FlowConfig → Loading → Loading
add_entries path [] l = l
add_entries path ((id, cfg) ∷ entries) l = add_entries path entries (add_entry path id cfg l)

abbrev pub add_file : String → FlowFile → Loading → Loading
add_file path unreadable l = warn (skipped_unreadable path) l
add_file path invalid_yaml l = warn (skipped_invalid path) l
add_file path (parsed []) l = warn (skipped_empty path) l
add_file path (parsed (entry ∷ entries)) l = add_entries path (entry ∷ entries) l

unfoldable pub add_files : Dict FlowFile → Loading → Loading
add_files [] l = l
add_files ((path, file) ∷ files) l = add_files files (add_file path file l)

-- sort.Slice by id
unfoldable pub insert_flow : Flow → List Flow → List Flow
insert_flow f [] = f ∷ []
insert_flow f (g ∷ gs) =
    let rest = insert_flow f gs in if text_le f.id g.id then f ∷ g ∷ gs else g ∷ rest

unfoldable pub sort_flows : Dict Flow → List Flow
sort_flows [] = []
sort_flows ((_, f) ∷ flows) = insert_flow f (sort_flows flows)

pub data Loaded : Type 0 where
  loaded : List Flow → List Warning → Loaded
  no_valid_entries : List Warning → Loaded

-- loadFiles of the paths with what they hold
unfoldable pub load_files : Dict FlowFile → Loaded
load_files files =
    let l = add_files files (record { flows = []; warnings = [] }) in
    if is_nil l.flows && not (is_nil l.warnings)
    then no_valid_entries l.warnings
    else loaded (sort_flows l.flows) l.warnings

-- what os.Stat and filepath.Glob find
pub data FileKind : Type 0 where
  missing directory regular_file : FileKind

pub record FileTree : Type 0 where
  pub stat : String → FileKind
  -- `none` is a bad pattern
  pub glob : String → Option (List String)

abbrev has_glob : String → Bool
has_glob [] = false
has_glob (c ∷ s) = in_set "*?[" c || has_glob s

-- the paths found so far, which are also the keys of `seen`
abbrev pub add_path : FileKind → String → List String → List String
add_path regular_file path files = if member path files then files else files ++ path ∷ []
add_path _ path files = files

unfoldable pub add_matches : FileTree → List String → List String → List String
add_matches tree [] files = files
add_matches tree (m ∷ ms) files = add_matches tree ms (add_path (tree.stat m) m files)

abbrev pub then_glob : FileTree → Option (List String) → List String → Option (List String)
then_glob tree none files = none
then_glob tree (some matches) files = some (add_matches tree matches files)

abbrev pub add_plain : FileTree → FileKind → String → List String → Option (List String)
add_plain tree missing loc files = some files
add_plain tree regular_file loc files = some (files ++ loc ∷ [])
add_plain tree directory loc files = then_glob tree (tree.glob (loc ++ˢ "/*.yaml")) files

-- one location; `none` is the error of filepath.Glob
unfoldable pub add_location : FileTree → String → List String → Option (List String)
add_location tree location files =
    let loc = trim_space location in
    let plain = add_plain tree (tree.stat loc) loc files in
    if is_empty loc
    then some files
    else if has_glob loc
    then then_glob tree (tree.glob loc) files
    else if member loc files
    then some files
    else plain

unfoldable pub add_locations : FileTree → List String → List String → Option (List String)
add_locations tree [] files = some files
add_locations tree (loc ∷ locs) files = elim (add_location tree loc files) [
  | none ↦ none
  | some more ↦ add_locations tree locs more
]

-- expandLocations
unfoldable pub expand_locations : FileTree → List String → Option (List String)
expand_locations tree locations = elim (add_locations tree locations []) [
  | none ↦ none
  | some files ↦ some (sort_texts files)
]

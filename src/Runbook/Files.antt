-- ===== src/Runbook/Files.antt =====
-- What Get returns after Save.
use Prim.Native.String
use text.Mathlib.TextLemmas.{append_cancel_left}
use health_monitor_sre_engin.Common.{
  String, Bool, true, false, not, Option, none, some, ◌≡◌, ◌≢◌, refl, ap, if◌then◌else◌, str_eq,
  Dict, lookup, has_prefix,
}
use health_monitor_sre_engin.Storage.{insert_other, insert_same}
use health_monitor_sre_engin.Runbook.{
  Runbook, Json, SaveEnds, ok, write_text, json_name, save_runbook, get_runbook, of_text,
  mkdir_failed,
}

-- What Save has write_text for a runbook is what Get returns for its id, where its format is not "markdown", it
-- is decoded to what was encoded, and the directory and the write succeed.
pub get_runbook-save_runbook :
    (json : Json) (ends : SaveEnds) (r : Runbook) (text : String) (files : Dict String)
    → str_eq r.format "markdown" ≡ false
    → json.encode r ≡ some text
    → json.decode text ≡ some r
    → ends.made ≡ true
    → ends.torn ≡ none
    → get_runbook json r.id (save_runbook json ends r files).1 ≡ ok r
unfolding get_runbook save_runbook
get_runbook-save_runbook json ends r text files structured encodes decodes made whole =
    rw (made, structured, encodes, whole)
      (rw (insert_same (json_name r.id) text files) (rw decodes refl))

markdown_name : (id : String) → String.◌++◌ id ".md" ≢ json_name id
unfolding has_prefix
markdown_name id e =
    let h : true ≡ false = ap (λ s. has_prefix s ".m") (append_cancel_left id ".md" ".json" e) in cc

-- A runbook with the format "markdown" is saved beside the files that Get reads: however Save ends, Get
-- returns for its id what it returned before.
pub markdown_not_found :
    (json : Json) (ends : SaveEnds) (r : Runbook) (files : Dict String)
    → str_eq r.format "markdown" ≡ true
    → get_runbook json r.id (save_runbook json ends r files).1 ≡ get_runbook json r.id files
unfolding get_runbook save_runbook
markdown_not_found json ends r files markdown =
    rw markdown (ap (of_text json) (kept ends.made ends.torn))
  where
    md : String
    md = String.◌++◌ r.id ".md"

    kept :
        (made : Bool) (torn : Option String)
        → lookup
            (json_name r.id)
            (if not made then (some mkdir_failed, files) else write_text torn md r.content files).1
          ≡ lookup (json_name r.id) files
    kept false torn = refl
    kept true none = insert_other md (json_name r.id) r.content files (markdown_name r.id)
    kept true (some part) = insert_other md (json_name r.id) part files (markdown_name r.id)

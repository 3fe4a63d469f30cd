-- ===== src/Tests/Runbooks.antt =====
-- The theorems on runbooks and on the credentials of the webhook server, at concrete inputs.
use text.Mathlib.TextLemmas.{append_cancel_right}
use health_monitor_sre_engin.Common.{
  String, true, false, none, some, [], ◌∷◌, ◌≡◌, refl, sym, ap, ◌∙◌, str_eq, eq_iff, Dict, lookup,
  Bool-cases, inl, inr,
}
use health_monitor_sre_engin.Runbook.{
  Runbook, Json, Outside, Result, ok, err, not_found, get_runbook, save_runbook,
  cleanup_old_runbooks, json_name,
}
use health_monitor_sre_engin.Runbook.Cleanup.{IsNamed, cleanup_old_runbooks-exact}
use health_monitor_sre_engin.Runbook.Files.{markdown_not_found}
use health_monitor_sre_engin.Auth.{Request}

abbrev runbook : Runbook
runbook = record {
  id = "rb";
  service = "api";
  pattern = "";
  category = "";
  format = "markdown";
  content = "# Restart";
  created_at = 5;
  updated_at = 5;
  published = false;
}

-- every file that is there holds the one runbook
abbrev json : Json
json = record { encode = λ r. some "{}"; decode = λ text. some runbook }

abbrev directory : Dict String
directory = ("rb.json", "{}") ∷ []

rb_there : get_runbook json "rb" directory ≡ ok runbook
unfolding get_runbook lookup
rb_there = refl

abbrev id_of : Result → String
id_of (ok r) = r.id
id_of (err e) = ""

directory-IsNamed : IsNamed json directory
unfolding get_runbook lookup
directory-IsNamed id r e = elim (Bool-cases (str_eq "rb.json" (json_name id))) [
  | inl here ↦
      let h : ok runbook ≡ ok r = rw here at e in
      ap (λ res. id_of res) (sym h)
      ∙ append_cancel_right "rb" id ".json" ((eq_iff "rb.json" (json_name id)).0 here)
  | inr there ↦ let h : err not_found ≡ ok r = rw there at e in cc
]

-- a directory on which every call succeeds, at a time at which 30 days ago is 9
abbrev working : Outside
working = record {
  listed = true;
  readable = λ id. true;
  removable = λ id. true;
  days_ago = λ days. 9;
}

cleanup_old_runbooks-exact_example :
    get_runbook json "rb" (cleanup_old_runbooks working json 30 directory).1 ≡ err not_found
cleanup_old_runbooks-exact_example =
    cleanup_old_runbooks-exact working json 30 directory "rb" runbook directory-IsNamed rb_there
      refl

markdown_not_found_example :
    get_runbook json "rb" (save_runbook json (record { made = true; torn = none }) runbook []).1
    ≡ get_runbook json "rb" []
markdown_not_found_example =
    markdown_not_found json (record { made = true; torn = none }) runbook [] refl

abbrev token_files : Dict String
token_files = ("/etc/token", "  ") ∷ []

abbrev anonymous : Request
anonymous = record { auth_token = ""; authorization = ""; basic_auth = none }

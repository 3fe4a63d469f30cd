-- ===== src/Tests/Requests.antt =====
-- The theorems on what a request passes, at concrete inputs.

use health_monitor_sre_engin.Common.{
  ℕ, ltb, String, Bool, true, false, none, some, [], ◌∷◌, ◌≡◌, refl, str_eq, is_empty, trim_space,
  any, arith,
}
use health_monitor_sre_engin.Security.Payload
use health_monitor_sre_engin.Security.Payload.{
  json_text, json_array, no_items, Members, no_members, entry, Validation, check_labels, get_member,
  validate_payload,
}
use health_monitor_sre_engin.Security.{
  Library, Settings, Request, known, handled, is_ip_allowed, get_client_ip, validate_token,
  apply_security_middleware, auth_middleware, validation_middleware, before_comma, get_rate_limiter,
}
use health_monitor_sre_engin.Security.Chain.{reached, reached-authenticated, reached-validated}
use health_monitor_sre_engin.Security.Body.{RequestBody, read, eof, read_all, read_all_complete}

-- addresses are texts, a prefix covers itself, each body is a list of no alerts, and a limiter is the number
-- of events that it lets pass at once
abbrev plain : Library
plain = record {
  Address = String;
  Prefix = String;
  parse_address = λ s. some s;
  covers = λ p a. str_eq p a;
  split_host = λ s. some s;
  unmarshal = λ s. some (entry "alerts" (json_array no_items) no_members);
  Limiter = ℕ;
  new_limiter = λ rate burst. burst;
  admits = λ n. ltb 0 n;
}

abbrev strict : Validation
strict = record {
  enabled = true;
  max_alerts = 10;
  max_label_size = 8;
  max_annotation_size = 8;
  allowed = none;
}

abbrev settings : Bool → Bool → Settings plain
settings auth limited = record {
  auth = auth;
  tokens = "secret" ∷ [];
  whitelist = true;
  allowed = "10.0.0.1" ∷ [];
  limited = limited;
  requests_per_minute = 60;
  burst_size = 5;
  validation = strict;
}

abbrev post : Request
post = record {
  method = "POST";
  content_length = known 2;
  body = some "{}";
  forwarded_for = "10.0.0.1, 10.0.0.2";
  real_ip = "";
  authorization = "secret";
  remote_addr = "127.0.0.1";
}

post_passes :
    reached (apply_security_middleware plain (settings true true) handled post) ≡ some post
unfolding apply_security_middleware auth_middleware validation_middleware is_ip_allowed
    get_client_ip before_comma trim_space any validate_token get_rate_limiter validate_payload
    get_member Payload.count_items Payload.validate_alerts
post_passes = refl

reached-authenticated_example :
    (is_ip_allowed plain (settings true true) (get_client_ip plain post) ≡ true)
    × (is_empty "secret" ≡ false)
    × (validate_token plain (settings true true) "secret" ≡ true)
reached-authenticated_example =
    reached-authenticated plain (settings true true) post post refl post_passes

reached-validated_example :
    (buf : String) × (post.body ≡ some buf)
    × (validate_payload strict (plain.unmarshal buf) ≡ none)
    × (post.body ≡ some buf)
reached-validated_example =
    reached-validated plain (settings true true) post post refl refl post_passes

abbrev two_labels : Members
two_labels = entry "service" (json_text "api") (entry "host" (json_text "a1") no_members)

labels_pass : check_labels strict two_labels ≡ none
unfolding check_labels
labels_pass = refl

host_label : get_member "host" two_labels ≡ some (json_text "a1")
unfolding get_member
host_label = refl

abbrev four_bytes : RequestBody
four_bytes = record { buf = 1 ∷ 2 ∷ 3 ∷ 4 ∷ []; pos = 0 }

read_all_complete_example :
    ((read_all (3 ∷ 2 ∷ 1 ∷ 1 ∷ []) four_bytes).0 ≡ 1 ∷ 2 ∷ 3 ∷ 4 ∷ [])
    × ((read 2 (read_all (3 ∷ 2 ∷ 1 ∷ 1 ∷ []) four_bytes).1).0 ≡ eof)
read_all_complete_example =
    read_all_complete (3 ∷ 2 ∷ 1 ∷ 1 ∷ []) four_bytes 2
      (omega arith, (omega arith, (omega arith, (omega arith, tt)))) (omega arith)

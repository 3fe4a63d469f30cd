-- ===== src/Security/Payload.antt =====
-- SecurityImpl.ValidatePayload of internal/security/implementation.go, on the value that encoding/json
-- reads. The compiled pattern of allowed characters is the parameter `allowed`, `none` where it is nil.
pub mod Labels
use Prim.Native.String.{len}
use health_monitor_sre_engin.Common.{
  ℕ, zero, suc, ◌+◌, ltb, String, Bool, true, false, Option, none, some, if◌then◌else◌, str_eq,
}

mutual
  pub data Json : Type 0 where
    json_null : Json
    json_bool : Bool → Json
    json_number : String → Json
    json_text : String → Json
    json_array : Items → Json
    json_object : Members → Json

  pub data Items : Type 0 where
    no_items : Items
    item : Json → Items → Items

  pub data Members : Type 0 where
    no_members : Members
    entry : String → Json → Members → Members

pub record Validation : Type 0 where
  pub enabled : Bool
  pub max_alerts : ℕ
  pub max_label_size : ℕ
  pub max_annotation_size : ℕ
  pub allowed : Option (String → Bool)

pub data PayloadError : Type 0 where
  invalid_json missing_alerts alerts_not_array too_many_alerts alert_not_object missing_labels
        labels_not_object annotations_not_object :
      PayloadError
  label_key_too_long label_not_string label_too_long label_characters annotation_key_too_long
        annotation_not_string annotation_too_long :
      String → PayloadError

-- value, ok := m[key]
unfoldable pub get_member : String → Members → Option Json
get_member key no_members = none
get_member key (entry k v rest) = if str_eq k key then some v else get_member key rest

unfoldable pub count_items : Items → ℕ
count_items no_items = 0
count_items (item j rest) = suc (count_items rest)

abbrev pub characters_ok : Option (String → Bool) → String → Bool
characters_ok none s = true
characters_ok (some matches) s = matches s

-- the first error, if any
abbrev pub first_error : Option PayloadError → Option PayloadError → Option PayloadError
first_error none next = next
first_error (some e) next = some e

-- one label
abbrev pub check_label : Validation → String → Json → Option PayloadError
check_label v key (json_text s) =
    if ltb v.max_label_size (len key)
    then some (label_key_too_long key)
    else if ltb v.max_label_size (len s)
    then some (label_too_long key)
    else if characters_ok v.allowed s
    then none
    else some (label_characters key)
check_label v key _ =
    if ltb v.max_label_size (len key)
    then some (label_key_too_long key)
    else some (label_not_string key)

unfoldable pub check_labels : Validation → Members → Option PayloadError
check_labels v no_members = none
check_labels v (entry key value rest) = first_error (check_label v key value) (check_labels v rest)

-- validateLabels
abbrev pub validate_labels : Validation → Option Json → Option PayloadError
validate_labels v none = some missing_labels
validate_labels v (some (json_object ms)) = check_labels v ms
validate_labels v (some _) = some labels_not_object

-- one annotation
abbrev pub check_annotation : Validation → String → Json → Option PayloadError
check_annotation v key (json_text s) =
    if ltb v.max_annotation_size (len key)
    then some (annotation_key_too_long key)
    else if ltb v.max_annotation_size (len s)
    then some (annotation_too_long key)
    else none
check_annotation v key _ =
    if ltb v.max_annotation_size (len key)
    then some (annotation_key_too_long key)
    else some (annotation_not_string key)

unfoldable pub check_annotations : Validation → Members → Option PayloadError
check_annotations v no_members = none
check_annotations v (entry key value rest) =
    first_error (check_annotation v key value) (check_annotations v rest)

-- validateAnnotations
abbrev pub validate_annotations : Validation → Option Json → Option PayloadError
validate_annotations v none = none
validate_annotations v (some (json_object ms)) = check_annotations v ms
validate_annotations v (some _) = some annotations_not_object

abbrev pub validate_alert : Validation → Json → Option PayloadError
validate_alert v (json_object ms) =
    first_error (validate_labels v (get_member "labels" ms))
      (validate_annotations v (get_member "annotations" ms))
validate_alert v _ = some alert_not_object

unfoldable pub validate_alerts : Validation → Items → Option PayloadError
validate_alerts v no_items = none
validate_alerts v (item a rest) = first_error (validate_alert v a) (validate_alerts v rest)

abbrev validate_array : Validation → Option Json → Option PayloadError
validate_array v none = some missing_alerts
validate_array v (some (json_array xs)) =
    if ltb v.max_alerts (count_items xs) then some too_many_alerts else validate_alerts v xs
validate_array v (some _) = some alerts_not_array

abbrev validate_value : Validation → Option Members → Option PayloadError
validate_value v none = some invalid_json
validate_value v (some ms) = validate_array v (get_member "alerts" ms)

-- ValidatePayload; `none` is the error of json.Unmarshal into an object
unfoldable pub validate_payload : Validation → Option Members → Option PayloadError
validate_payload v value = if v.enabled then validate_value v value else none

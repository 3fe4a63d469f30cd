-- ===== src/Security/Payload/Labels.antt =====
-- What the check of labels lets pass.
use Prim.Native.String.{len}
use mathlib.Core.Option.{some-injective}
use health_monitor_sre_engin.Common.{
  ◌≤◌, String, true, Option, none, some, ◌≡◌, inl, inr, refl, subst, str_eq, eq_iff, Bool-cases,
  arith,
}
use health_monitor_sre_engin.Security.Payload.{
  Json, json_null, json_bool, json_number, json_text, json_array, json_object, Members, no_members,
  entry, Validation, PayloadError, first_error, get_member, check_label, check_labels,
  characters_ok,
}

-- a text within the size and of allowed characters, under a key within the size
pub record IsLabel (v : Validation) (key : String) (j : Json) : Type 0 where
  pub text : String
  pub is_text : j ≡ json_text text
  pub key_fits : len key ≤ v.max_label_size
  pub fits : len text ≤ v.max_label_size
  pub allowed : characters_ok v.allowed text ≡ true

check_label-IsLabel :
    (v : Validation) (key : String) (j : Json) → check_label v key j ≡ none → IsLabel v key j
check_label-IsLabel v key (json_text s) h = record {
  text = s;
  is_text = refl;
  key_fits = ground (arith, h);
  fits = ground (arith, h);
  allowed = ground (arith, h);
}
check_label-IsLabel v key json_null h = absurd (ground (arith, h))
check_label-IsLabel v key (json_bool b) h = absurd (ground (arith, h))
check_label-IsLabel v key (json_number n) h = absurd (ground (arith, h))
check_label-IsLabel v key (json_array xs) h = absurd (ground (arith, h))
check_label-IsLabel v key (json_object ms) h = absurd (ground (arith, h))

both_none : (a b : Option PayloadError) → first_error a b ≡ none → (a ≡ none) × (b ≡ none)
both_none none b h = (refl, h)
both_none (some e) b h = absurd (ground (arith, h))

-- Where the check of the labels of an alert finds no error, every label that can be looked up is a text,
-- it and its key are within the size, and its characters are allowed.
pub check_labels-IsLabel :
    (v : Validation) (ms : Members) (key : String) (j : Json)
    → check_labels v ms ≡ none
    → get_member key ms ≡ some j
    → IsLabel v key j
unfolding check_labels get_member
check_labels-IsLabel v no_members key j h k = absurd (ground (arith, k))
check_labels-IsLabel v (entry name value rest) key j h k =
    let (first, others) = both_none (check_label v name value) (check_labels v rest) h in
    elim (Bool-cases (str_eq name key)) [
      | inl e ↦
          subst (λ n. IsLabel v n j) ((eq_iff name key).0 e)
            (check_label-IsLabel v name j
              (subst (λ x. check_label v name x ≡ none) (some-injective value j (rw e at k)) first))
      | inr e ↦ check_labels-IsLabel v rest key j others (rw e at k)
    ]

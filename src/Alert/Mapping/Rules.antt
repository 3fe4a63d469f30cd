-- ===== src/Alert/Mapping/Rules.antt =====
-- The rules that a file gives, and the choice among them.
use health_monitor_sre_engin.Common.{
  String, true, false, Option, none, some, List, [], ◌∷◌, ◌≡◌, inl, inr, refl, ap, subst, str_eq,
  is_empty, trim_space, to_lower, Dict, insert, text_at, find, All, arith, eq_iff, Bool-cases,
}
use health_monitor_sre_engin.Incident.Ranks.{parse_severity}
use health_monitor_sre_engin.Alert.{Rule}
use health_monitor_sre_engin.Alert.Mapping.{
  RuleConfig, Match, clean, bad_match, clean_match, normalize_match, rule, with_match, parse_mode,
  normalize_rule, rule_service, all_match, rule_matches, match_rule,
}

-- the keys and values of a match section
abbrev IsFilled : Dict String → Type 0
IsFilled m = All (λ e. (is_empty e.0 ≡ false) × (is_empty e.1 ≡ false)) m

insert-IsFilled :
    (k v : String) (m : Dict String)
    → is_empty k ≡ false
    → is_empty v ≡ false
    → IsFilled m
    → IsFilled (insert k v m)
unfolding insert
insert-IsFilled k v [] h g f = ((h, g), tt)
insert-IsFilled k v ((j, w) ∷ m) h g f = elim (Bool-cases (str_eq j k)) [
  | inl e ↦ rw e ((h, g), f.1)
  | inr e ↦ rw e (f.0, insert-IsFilled k v m h g f.1)
]

clean-injective : (a b : Dict String) → clean a ≡ clean b → a ≡ b
clean-injective a b h = ap (λ c. elim c [ clean m ↦ m | bad_match e ↦ a ]) h

clean_match-IsFilled :
    (input done m : Dict String) → IsFilled done → clean_match input done ≡ clean m → IsFilled m
unfolding clean_match
clean_match-IsFilled [] done m f h = subst IsFilled (clean-injective done m h) f
clean_match-IsFilled ((key, value) ∷ rest) done m f h =
    let k = to_lower (trim_space key) in
    let v = trim_space value in
    elim (Bool-cases (is_empty k)) [
      | inl e ↦ absurd (ground (arith, rw e at h))
      | inr e ↦ elim (Bool-cases (is_empty v)) [
        | inl g ↦ absurd (ground (arith, rw (e, g) at h))
        | inr g ↦
            clean_match-IsFilled rest (insert k v done) m (insert-IsFilled k v done e g f)
              (rw (e, g) at h)
      ]
    ]

normalize_match-IsFilled : (input m : Dict String) → normalize_match input ≡ clean m → IsFilled m
unfolding normalize_match
normalize_match-IsFilled [] m h = absurd (ground (arith, h))
normalize_match-IsFilled (e ∷ es) m h = clean_match-IsFilled (e ∷ es) [] m tt h

with_match-rule :
    (cfg : RuleConfig) (c : Match) (r : Rule)
    → with_match cfg c ≡ rule r
    → (c ≡ clean r.match)
      × (is_empty (trim_space (rule_service r.match)) ≡ false)
      × (parse_severity cfg.severity ≡ some r.severity)
      × (parse_mode cfg.mode ≡ some r.mode)
with_match-rule cfg (bad_match e) r h = ground (arith, h)
with_match-rule cfg (clean m) r h = ground (arith, h)

-- A rule that normalizeRule gives matches on keys and values none of which is empty, at least one of
-- which names a service or a job, and has the severity and the mode that its texts are parsed to.
pub normalize_rule_sound :
    (cfg : RuleConfig) (r : Rule)
    → normalize_rule cfg ≡ rule r
    → All (λ e. (is_empty e.0 ≡ false) × (is_empty e.1 ≡ false)) r.match
      × (is_empty (trim_space (rule_service r.match)) ≡ false)
      × (parse_severity cfg.severity ≡ some r.severity)
      × (parse_mode cfg.mode ≡ some r.mode)
unfolding normalize_rule
normalize_rule_sound cfg r h =
    let f = with_match-rule cfg (normalize_match cfg.match) r h in
    (normalize_match-IsFilled cfg.match r.match f.0, f.1, f.2, f.3)

-- the labels agree with each entry of a match section
abbrev pub Agrees : Dict String → Dict String → Type 0
Agrees m labels = All (λ e. text_at e.0 labels ≡ e.1) m

all_match_iff :
    (m labels : Dict String)
    → (all_match m labels ≡ true → Agrees m labels) × (Agrees m labels → all_match m labels ≡ true)
unfolding all_match
all_match_iff [] labels = (λ h. tt, λ h. refl)
all_match_iff ((k, v) ∷ m) labels = (
  λ h. elim (Bool-cases (str_eq (text_at k labels) v)) [
    | inl e ↦ ((eq_iff _ v).0 e, (all_match_iff m labels).0 (rw e at h))
    | inr e ↦ absurd (ground (arith, rw e at h))
  ],
  λ h. rw ((eq_iff (text_at k labels) v).1 h.0) ((all_match_iff m labels).1 h.1),
)

-- `o` is the first rule that agrees with the labels, or none where none does.
pub data First (labels : Dict String) : List Rule → Option Rule → Type 0 where
  first_here : {r : Rule} {rs : List Rule} → Agrees r.match labels → First labels (r ∷ rs) (some r)
  first_later :
      {r : Rule} {rs : List Rule} {o : Option Rule}
      → ¬ Agrees r.match labels
      → First labels rs o
      → First labels (r ∷ rs) o
  first_none : First labels [] none

-- matchRule gives the first rule whose match section agrees with the labels, and none where no rule does.
pub match_rule-First :
    (rules : List Rule) (labels : Dict String) → First labels rules (match_rule rules labels)
unfolding match_rule find rule_matches
match_rule-First [] labels = first_none
match_rule-First (r ∷ rs) labels = elim (Bool-cases (all_match r.match labels)) [
  | inl e ↦ rw e (first_here ((all_match_iff r.match labels).0 e))
  | inr e ↦ rw e (
      first_later (λ a. ground (arith, e, (all_match_iff r.match labels).1 a))
        (match_rule-First rs labels))
]

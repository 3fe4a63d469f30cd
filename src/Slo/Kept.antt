-- ===== src/Slo/Kept.antt =====
-- Which objectives CheckSLOs reports, and which it drops.
use health_monitor_sre_engin.Common.{
  String, Bool, true, false, ◌&&◌, ◌||◌, Option, none, some, List, [], ◌∷◌, ◌++◌, map, filter,
  if◌then◌else◌, str_eq, ◌≡◌, refl, ap, Bool-cases, inl, inr, ◌∙◌, arith,
}
use health_monitor_sre_engin.Slo.{
  Floats, Answer, Provider, Slo, SloResult, is_ratio, is_generic, rated, breaching_result,
  slow_burn, check_ratio, with_total, with_errors, no_total, no_traffic, too_few, no_errors,
  check_latency, with_latency, with_value, initial, check_typed, incomplete, check_slo, check_flow,
  add_result, check_slos, value, failed,
}
use health_monitor_sre_engin.Slo.Queries.{Scanner}

-- The objective says what to measure: a ratio with both queries, the type latency, or a query with the type
-- ratio or none.
abbrev pub is_complete : {F : Type 0} → Slo F → Bool
is_complete s = is_ratio s || (str_eq s.type "latency" || is_generic s)

-- no provider, or a complete definition
abbrev pub is_reported : {F : Type 0} → Option (Provider F) → Slo F → Bool
is_reported none s = true
is_reported (some ask) s = is_complete s

abbrev pub Name : Type 0
Name = String × String

abbrev pub name_of : {F : Type 0} → SloResult F → Name
name_of r = (r.flow_id, r.slo_id)

abbrev pub names_of : {F : Type 0} → Option (Provider F) → List (String × List (Slo F)) → List Name
names_of ask [] = []
names_of ask ((flow, slos) ∷ flows) =
    map (λ s. (flow, s.id)) (filter (is_reported ask) slos) ++ names_of ask flows

module _ {F : Type 0} (ops : Floats F) where
  slow_burn-name_of :
      (allowed : F) (total errors : Answer F) (r : SloResult F)
      → name_of (slow_burn ops allowed total errors r) ≡ name_of r
  unfolding slow_burn
  slow_burn-name_of allowed (value total) (value errors) r =
      elim (Bool-cases (ops.less (ops.of_int 0) total && ops.less (ops.of_int 0) allowed)) [
        | inl h ↦ rw h refl
        | inr h ↦ rw h refl
      ]
  slow_burn-name_of allowed (value total) (failed e) r = refl
  slow_burn-name_of allowed (failed e) errors r = refl

  breaching_result-name_of :
      (met : Bool) (r : SloResult F) → name_of (breaching_result ops met r) ≡ name_of r
  unfolding breaching_result
  breaching_result-name_of true r = refl
  breaching_result-name_of false r = refl

  rated-name_of :
      (ask : Provider F) (s : Slo F) (rate : F) (r : SloResult F)
      → name_of (rated ops ask s rate r) ≡ name_of r
  unfolding rated
  rated-name_of ask s rate r =
      breaching_result-name_of (ops.at_most s.objective rate) _ ∙ slow_burn-name_of _ _ _ _

  check_ratio-name_of :
      (scanner : Scanner) (ask : Provider F) (s : Slo F) (r : SloResult F)
      → name_of (check_ratio ops scanner ask s r) ≡ name_of r
  unfolding check_ratio with_total with_errors no_total no_traffic too_few no_errors
  check_ratio-name_of scanner ask s r = grind (arith, rated-name_of)

  check_latency-name_of :
      (ask : Provider F) (s : Slo F) (r : SloResult F)
      → name_of (check_latency ops ask s r) ≡ name_of r
  unfolding check_latency with_latency
  check_latency-name_of ask s r = ground arith

  with_value-name_of :
      (s : Slo F) (a : Answer F) (r : SloResult F) → name_of (with_value ops s a r) ≡ name_of r
  unfolding with_value
  with_value-name_of s a r = ground arith

  abbrev name_in : Option (SloResult F) → Option Name
  name_in none = none
  name_in (some r) = some (name_of r)

  check_typed-name_in :
      (scanner : Scanner) (ask : Provider F) (flow : String) (s : Slo F)
      → name_in (check_typed ops scanner ask s (initial ops flow s))
        ≡ (if is_complete s then some (flow, s.id) else none)
  unfolding check_typed incomplete initial
  check_typed-name_in scanner ask flow s = elim (Bool-cases (is_ratio s)) [
    | inl h ↦ rw h (ap some (check_ratio-name_of scanner ask s _))
    | inr h ↦ elim (Bool-cases (str_eq s.type "latency")) [
      | inl l ↦ rw (h, l) (ap some (check_latency-name_of ask s _))
      | inr l ↦ elim (Bool-cases (is_generic s)) [
        | inl g ↦ rw (h, l, g) (ap some (with_value-name_of s (ask s.prom_ql) _))
        | inr g ↦ rw (h, l, g) refl
      ]
    ]
  ]

  check_slo-name_in :
      (scanner : Scanner) (ask : Option (Provider F)) (flow : String) (s : Slo F)
      → name_in (check_slo ops scanner ask flow s)
        ≡ (if is_reported ask s then some (flow, s.id) else none)
  unfolding check_slo initial
  check_slo-name_in scanner none flow s = refl
  check_slo-name_in scanner (some ask) flow s = check_typed-name_in scanner ask flow s

  abbrev prepend : Option Name → List Name → List Name
  prepend none ns = ns
  prepend (some n) ns = n ∷ ns

  add_result-name_of :
      (o : Option (SloResult F)) (rs : List (SloResult F))
      → map name_of (add_result ops o rs) ≡ prepend (name_in o) (map name_of rs)
  add_result-name_of none rs = refl
  add_result-name_of (some r) rs = refl

  -- The names of the results of a flow, before those of the rest.
  check_flow-name_of :
      (scanner : Scanner) (ask : Option (Provider F)) (flow : String) (slos : List (Slo F))
      (rest : List (SloResult F))
      → map name_of (check_flow ops scanner ask flow slos rest)
        ≡ map (λ s. (flow, s.id)) (filter (is_reported ask) slos) ++ map name_of rest
  unfolding check_flow filter
  check_flow-name_of scanner ask flow [] rest = refl
  check_flow-name_of scanner ask flow (s ∷ ss) rest =
      let ih = check_flow-name_of scanner ask flow ss rest in
      let name = check_slo-name_in scanner ask flow s in
      add_result-name_of (check_slo ops scanner ask flow s)
        (check_flow ops scanner ask flow ss rest)
      ∙ elim (Bool-cases (is_reported ask s)) [
        | inl h ↦ rw (name, ih, h) refl
        | inr h ↦ rw (name, ih, h) refl
      ]

  -- CheckSLOs gives one result for each objective that is reported, in the order of the flows and of the
  -- objectives in them: for every one where there is no provider, and else for those with a complete
  -- definition. An incomplete one has no result, not even one that says so.
  pub check_slos-names :
      (scanner : Scanner) (ask : Option (Provider F)) (flows : List (String × List (Slo F)))
      → map name_of (check_slos ops scanner ask flows) ≡ names_of ask flows
  unfolding check_slos
  check_slos-names scanner ask [] = refl
  check_slos-names scanner ask ((flow, slos) ∷ flows) =
      check_flow-name_of scanner ask flow slos (check_slos ops scanner ask flows)
      ∙ ap (λ ns. map (λ s. (flow, s.id)) (filter (is_reported ask) slos) ++ ns)
          (check_slos-names scanner ask flows)

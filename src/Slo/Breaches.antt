-- ===== src/Slo/Breaches.antt =====
-- When CheckSLOs reports a ratio as breached.
use health_monitor_sre_engin.Common.{
  String, Bool, true, false, if◌then◌else◌, ◌≡◌, ◌↔◌, refl, sym, subst, Bool-cases, inl, inr, arith,
  texts_differ, ◌≢◌,
}
use health_monitor_sre_engin.Slo.{
  Floats, Answer, Provider, Slo, SloResult, rated, breaching_result, clamp, success, check_ratio,
  with_total, with_errors, no_total, no_traffic, too_few, no_errors, value, failed, nil, hundred,
}
use health_monitor_sre_engin.Slo.Queries.{Scanner, format_query, parse_prometheus_window}

abbrev IsOther : String → Type 0
IsOther s = s ≢ "BREACHING"

ok_differs : IsOther "OK"
ok_differs = texts_differ "OK" "BREACHING" refl

traffic_differs : IsOther "NO_TRAFFIC"
traffic_differs = texts_differ "NO_TRAFFIC" "BREACHING" refl

data_differs : IsOther "NO_DATA"
data_differs = texts_differ "NO_DATA" "BREACHING" refl

error_differs : IsOther "ERROR"
error_differs = texts_differ "ERROR" "BREACHING" refl

module _ {F : Type 0} (ops : Floats F) where
  abbrev judged : Bool → String
  judged met = if met then "OK" else "BREACHING"

  breaching_result-judged :
      (met : Bool) (r : SloResult F) → (breaching_result ops met r).compliance ≡ judged met
  unfolding breaching_result
  breaching_result-judged true r = refl
  breaching_result-judged false r = refl

  rated-compliance :
      (ask : Provider F) (s : Slo F) (rate : F) (r : SloResult F)
      → (rated ops ask s rate r).compliance ≡ judged (ops.at_most s.objective rate)
  unfolding rated
  rated-compliance ask s rate r = breaching_result-judged (ops.at_most s.objective rate) _

  abbrev verdict : Bool → Bool → Bool → String
  verdict idle few met = if idle then "NO_TRAFFIC" else if few then "NO_DATA" else judged met

  verdict-breaching :
      (idle few met : Bool)
      → (verdict idle few met ≡ "BREACHING") ↔ ((idle ≡ false) × (few ≡ false) × (met ≡ false))
  verdict-breaching idle few met = ground (arith, ok_differs, traffic_differs, data_differs)

  -- Both queries have an answer, there is traffic, at least two requests by estimate, and the success rate is
  -- not at least the objective.
  abbrev pub IsBreached : Scanner → Slo F → Answer F → Answer F → Type 0
  IsBreached scanner s (value total) (value errors) =
      (ops.same total (nil ops) ≡ false)
      × (ops.less (ops.times total (ops.seconds (parse_prometheus_window scanner s.window)))
            (ops.of_int 2)
          ≡ false)
      × (ops.at_most s.objective (clamp ops (nil ops) (hundred ops) (success ops errors total))
          ≡ false)
  IsBreached scanner s (value total) (failed e) = ⊥
  IsBreached scanner s (failed e) errors = ⊥

  with_total-verdict :
      (scanner : Scanner) (ask : Provider F) (s : Slo F) (r : SloResult F) (total errors : F)
      → ask (format_query s.error_query s.window) ≡ value errors
      → (with_total ops scanner ask s (value total) r).compliance
        ≡ verdict
            (ops.same total (nil ops))
            (ops.less
              (ops.times total (ops.seconds (parse_prometheus_window scanner s.window)))
              (ops.of_int 2))
            (ops.at_most s.objective (clamp ops (nil ops) (hundred ops) (success ops errors total)))
  unfolding with_total with_errors no_traffic too_few
  with_total-verdict scanner ask s r total errors e =
      let count = ops.times total (ops.seconds (parse_prometheus_window scanner s.window)) in
      elim (Bool-cases (ops.same total (nil ops))) [
        | inl h ↦ rw h refl
        | inr h ↦ elim (Bool-cases (ops.less count (ops.of_int 2))) [
          | inl few ↦ rw (h, few) refl
          | inr few ↦ rw (h, few, e) (rated-compliance ask s _ r)
        ]
      ]

  with_total-IsBreached :
      (scanner : Scanner) (ask : Provider F) (s : Slo F) (r : SloResult F) (total errors : Answer F)
      → ask (format_query s.error_query s.window) ≡ errors
      → ((with_total ops scanner ask s total r).compliance ≡ "BREACHING")
        ↔ IsBreached scanner s total errors
  unfolding with_total with_errors no_total no_traffic too_few no_errors
  with_total-IsBreached scanner ask s r (value total) (value errors) e =
      let count = ops.times total (ops.seconds (parse_prometheus_window scanner s.window)) in
      let rate = clamp ops (nil ops) (hundred ops) (success ops errors total) in
      let met = ops.at_most s.objective rate in
      subst
        (λ word. (word ≡ "BREACHING") ↔ (
          (ops.same total (nil ops) ≡ false)
          × (ops.less count (ops.of_int 2) ≡ false)
          × (met ≡ false)))
        (sym (with_total-verdict scanner ask s r total errors e))
        (verdict-breaching (ops.same total (nil ops)) (ops.less count (ops.of_int 2)) met)
  with_total-IsBreached scanner ask s r (value total) (failed x) e =
      rw e (ground (arith, traffic_differs, data_differs, error_differs))
  with_total-IsBreached scanner ask s r (failed x) errors e =
      ground (arith, data_differs, error_differs)

  -- For a ratio CheckSLOs says "BREACHING" exactly when both queries have an answer, there is traffic, at least
  -- two requests by estimate, and the success rate, kept between 0 and 100, does not reach the objective.
  -- Missing or scarce data and a failing provider never count as a breach.
  pub check_ratio-IsBreached :
      (scanner : Scanner) (ask : Provider F) (s : Slo F) (r : SloResult F)
      → ((check_ratio ops scanner ask s r).compliance ≡ "BREACHING")
        ↔ IsBreached scanner s
            (ask (format_query s.total_query s.window))
            (ask (format_query s.error_query s.window))
  unfolding check_ratio
  check_ratio-IsBreached scanner ask s r = with_total-IsBreached scanner ask s r _ _ refl

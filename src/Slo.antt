-- ===== src/Slo.antt =====
-- internal/slo/service.go: CheckSLOs with the queries it forms. The arithmetic of float64, the durations of
-- the standard library and the metrics provider are parameters. Within one check of an SLO the provider
-- answers a query that comes again as it did before.
pub mod Queries
pub mod Breaches
pub mod Kept
use Prim.Native.String
use health_monitor_sre_engin.Common.{
  ℕ, String, Bool, true, false, not, ◌&&◌, ◌||◌, Option, none, some, List, [], ◌∷◌, ◌++◌, ℤ,
  if◌then◌else◌, str_eq, is_empty, contains,
}
use Queries.{Scanner, format_query, offset_query, parse_prometheus_window}

pub record Floats (F : Type 0) : Type 0 where
  pub of_int : ℕ → F
  -- the first number divided by 10 to the second
  pub literal : ℕ → ℕ → F
  pub negative : F → F
  pub minus : F → F → F
  pub times : F → F → F
  pub over : F → F → F
  -- a < b, a <= b and a == b, false for a NaN
  pub less : F → F → Bool
  pub at_most : F → F → Bool
  pub same : F → F → Bool
  -- time.Duration.Seconds
  pub seconds : ℤ → F
  -- the format %.1f
  pub one_decimal : F → String

-- the error of a query; errors.Is(err, metrics.ErrNoData) and its text
pub record QueryError : Type 0 where
  pub is_no_data : Bool
  pub text : String

pub data Answer (F : Type 0) : Type 0 where
  value : F → Answer F
  failed : QueryError → Answer F

-- metrics.MetricProvider
abbrev pub Provider : Type 0 → Type 0
Provider F = String → Answer F

pub record Slo (F : Type 0) : Type 0 where
  pub id : String
  pub service : String
  pub objective : F
  pub window : String
  pub prom_ql : String
  pub type : String
  pub error_query : String
  pub total_query : String

pub data SloStatus : Type 0 where
  healthy warning breaching unknown : SloStatus

-- the arrows up, down and right, "-" and ""
pub data Trend : Type 0 where
  up down right no_history unset : Trend

pub record SloResult (F : Type 0) : Type 0 where
  pub flow_id : String
  pub slo_id : String
  pub service : String
  pub objective : F
  pub window : String
  pub type : String
  pub current : F
  pub burn_rate : F
  pub burn_rate_slow : F
  pub budget_remaining : F
  pub trend : Trend
  pub status : SloStatus
  pub compliance : String
  pub risk : String
  -- the message of the error, `none` for nil
  pub error : Option String
  pub no_traffic_reason : String
  pub data_quality : String

-- the type is "ratio" and both queries are given
unfoldable pub is_ratio : {F : Type 0} → Slo F → Bool
is_ratio s = str_eq s.type "ratio" && (not (is_empty s.error_query) && not (is_empty s.total_query))

unfoldable pub is_generic : {F : Type 0} → Slo F → Bool
is_generic s = (is_empty s.type || str_eq s.type "ratio") && not (is_empty s.prom_ql)

-- the final fallback
unfoldable pub incomplete : {F : Type 0} → SloResult F → Option (SloResult F)
incomplete r =
    if is_empty r.compliance
    then some (record r {
      compliance = "UNKNOWN";
      error = some "SLO definition is incomplete (missing ratio fields, latency fields, or PromQL)";
    })
    else none

module _ {F : Type 0} (ops : Floats F) where
  abbrev pub hundred : F
  hundred = ops.of_int 100

  abbrev pub nil : F
  nil = ops.of_int 0

  -- x where it is within the bounds, and else the bound it passes
  unfoldable pub clamp : F → F → F → F
  clamp low high x =
      let raised = if ops.less x low then low else x in
      if ops.less high raised then high else raised

  -- 100 * (1 - errors / total)
  abbrev pub success : F → F → F
  success errors total = ops.times hundred (ops.minus (ops.of_int 1) (ops.over errors total))

  unfoldable pub initial : String → Slo F → SloResult F
  initial flow s = record {
    flow_id = flow;
    slo_id = s.id;
    service = s.service;
    objective = s.objective;
    window = s.window;
    type = s.type;
    current = nil;
    burn_rate = nil;
    burn_rate_slow = nil;
    budget_remaining = nil;
    trend = unset;
    status = unknown;
    compliance = "UNKNOWN";
    risk = "";
    error = none;
    no_traffic_reason = "";
    data_quality = "unknown";
  }

  unfoldable pub no_total : QueryError → SloResult F → SloResult F
  no_total e r =
      if e.is_no_data || contains e.text "no data"
      then record r {
        compliance = "NO_DATA";
        data_quality = "missing";
        error = some (String.◌++◌ "service not found in metrics: " e.text);
      }
      else record r {
        compliance = "ERROR";
        data_quality = "missing";
        error = some (String.◌++◌ "prometheus query failed: " e.text);
      }

  unfoldable pub no_traffic : SloResult F → SloResult F
  no_traffic r = record r {
    compliance = "NO_TRAFFIC";
    no_traffic_reason = "no_requests_in_window";
    data_quality = "insufficient";
    current = nil;
    burn_rate = nil;
    budget_remaining = hundred;
    trend = right;
  }

  unfoldable pub too_few : F → SloResult F → SloResult F
  too_few count r = record r {
    compliance = "NO_DATA";
    no_traffic_reason = String.◌++◌ "insufficient_data: " (
        String.◌++◌ (ops.one_decimal count)
          (String.◌++◌ " total requests (< " (String.◌++◌ (ops.one_decimal (ops.of_int 2)) ")")));
    data_quality = "insufficient";
    current = nil;
  }

  unfoldable pub no_errors : QueryError → SloResult F → SloResult F
  no_errors e r =
      if contains e.text "no data" || contains e.text "ErrNoData"
      then record r {
        compliance = "NO_DATA";
        data_quality = "missing";
        error = some (String.◌++◌ "error metrics not found: " e.text);
      }
      else record r {
        compliance = "ERROR";
        data_quality = "missing";
        error = some (String.◌++◌ "prometheus error query failed: " e.text);
      }

  -- the burn rate of the last hour
  unfoldable pub slow_burn : F → Answer F → Answer F → SloResult F → SloResult F
  slow_burn allowed (value total) (value errors) r =
      let rate = ops.over (ops.minus hundred (clamp nil hundred (success errors total))) allowed in
      if ops.less nil total && ops.less nil allowed then record r { burn_rate_slow = rate } else r
  slow_burn allowed (value total) (failed e) r = r
  slow_burn allowed (failed e) errors r = r

  -- ((allowed - error) / allowed) * 100, where there is an allowed error
  abbrev pub budget_of : F → F → F → F
  budget_of allowed error otherwise =
      if ops.less nil allowed
      then ops.times (ops.over (ops.minus allowed error) allowed) hundred
      else otherwise

  -- the error budget over thirty days, from the present window where that has no answer
  unfoldable pub budget : F → F → Answer F → Answer F → F → F
  budget allowed error (value total) (value errors) otherwise =
      if ops.less nil total
      then budget_of allowed (ops.minus hundred (success errors total)) otherwise
      else budget_of allowed error otherwise
  budget allowed error (value total) (failed e) otherwise = budget_of allowed error otherwise
  budget allowed error (failed e) errors otherwise = budget_of allowed error otherwise

  unfoldable pub trend_of : F → Option F → Trend
  trend_of error none = no_history
  trend_of error (some previous) =
      let diff = ops.minus error (ops.minus hundred previous) in
      if ops.less (ops.literal 5 2) diff
      then down
      else if ops.less diff (ops.negative (ops.literal 5 2))
      then up
      else right

  -- the risk of a burn rate
  unfoldable pub risk_of : F → String
  risk_of burn =
      if ops.less (ops.of_int 10) burn
      then "CRITICAL"
      else if ops.less (ops.of_int 2) burn
      then "HIGH"
      else "LOW"

  unfoldable pub breaching_result : Bool → SloResult F → SloResult F
  breaching_result met r =
      if met
      then record r { compliance = "OK"; status = healthy }
      else record r { compliance = "BREACHING"; status = breaching }

  -- the success rate of the window before, `none` for an error
  unfoldable pub previous_ratio : Provider F → Slo F → Option F
  previous_ratio ask s =
      from_total (ask (offset_query s.total_query s.window))
        (ask (offset_query s.error_query s.window))
    where
      from_total : Answer F → Answer F → Option F
      from_total (value total) (value errors) =
          if ops.same total nil then none else some (clamp nil hundred (success errors total))
      from_total (value total) (failed e) = none
      from_total (failed e) errors = none

  -- what CheckSLOs reports of a success rate
  unfoldable pub rated : Provider F → Slo F → F → SloResult F → SloResult F
  rated ask s rate r =
      let allowed = ops.minus hundred s.objective in
      let error = ops.minus hundred rate in
      let burn = if ops.less nil allowed then ops.over error allowed else nil in
      let slow =
        slow_burn allowed (ask (format_query s.total_query "1h"))
          (ask (format_query s.error_query "1h"))
          (record r { current = rate; data_quality = "good"; burn_rate = burn }) in
      let remaining =
        budget allowed error (ask (format_query s.total_query "30d"))
          (ask (format_query s.error_query "30d")) nil in
      let judged = breaching_result (ops.at_most s.objective rate) (record slow {
        budget_remaining = clamp (ops.negative hundred) hundred remaining;
        trend = trend_of error (previous_ratio ask s);
      }) in
      record judged { risk = risk_of burn }

  unfoldable pub with_errors : Provider F → Slo F → F → Answer F → SloResult F → SloResult F
  with_errors ask s total (value errors) r =
      rated ask s (clamp nil hundred (success errors total)) r
  with_errors ask s total (failed e) r = no_errors e r

  unfoldable pub with_total : Scanner → Provider F → Slo F → Answer F → SloResult F → SloResult F
  with_total scanner ask s (value total) r =
      let count = ops.times total (ops.seconds (parse_prometheus_window scanner s.window)) in
      if ops.same total nil
      then no_traffic r
      else if ops.less count (ops.of_int 2)
      then too_few count r
      else with_errors ask s total (ask (format_query s.error_query s.window)) r
  with_total scanner ask s (failed e) r = no_total e r

  unfoldable pub check_ratio : Scanner → Provider F → Slo F → SloResult F → SloResult F
  check_ratio scanner ask s r =
      with_total scanner ask s (ask (format_query s.total_query s.window)) r

  unfoldable pub with_latency : Answer F → SloResult F → SloResult F
  with_latency (value latency) r =
      let ms = ops.times latency (ops.of_int 1000) in
      let measured = record r { current = ms } in
      if ops.at_most ms r.objective
      then record measured { compliance = "COMPLIANT"; status = healthy; risk = "LOW" }
      else record measured {
        compliance = "BREACHING";
        status = breaching;
        risk =
            if ops.less (ops.times r.objective (ops.of_int 10)) ms
            then "CRITICAL"
            else if ops.less (ops.times r.objective (ops.of_int 2)) ms
            then "HIGH"
            else "MEDIUM";
      }
  with_latency (failed e) r =
      if e.is_no_data || contains e.text "no data"
      then record r {
        compliance = "NO_DATA";
        data_quality = "missing";
        error = some (String.◌++◌ "no latency metrics found: " e.text);
        risk = "-";
      }
      else record r {
        compliance = "ERROR";
        error = some (String.◌++◌ "metrics provider query failed: " e.text);
        risk = "-";
      }

  unfoldable pub check_latency : Provider F → Slo F → SloResult F → SloResult F
  check_latency ask s r =
      let answered = with_latency (ask s.prom_ql) r in
      if is_empty s.prom_ql
      then record r {
        error = some "missing PromQL for latency SLO";
        compliance = "ERROR";
        risk = "-";
      }
      else answered

  unfoldable pub with_value : Slo F → Answer F → SloResult F → SloResult F
  with_value s (value v) r =
      let shown =
        if ops.less (ops.of_int 1) s.objective && ops.at_most v (ops.of_int 1)
        then ops.times v hundred
        else v in
      let measured = record r { current = shown } in
      if ops.at_most (ops.minus s.objective (ops.literal 1 4)) shown
      then record measured { status = healthy; compliance = "COMPLIANT"; risk = "LOW" }
      else record measured { status = breaching; compliance = "BREACHING"; risk = "HIGH" }
  with_value s (failed e) r = record r {
    error = some e.text;
    compliance = "ERROR";
    status = unknown;
  }

  unfoldable pub check_typed : Scanner → Provider F → Slo F → SloResult F → Option (SloResult F)
  check_typed scanner ask s r =
      if is_ratio s
      then some (check_ratio scanner ask s r)
      else if str_eq s.type "latency"
      then some (check_latency ask s r)
      else if is_generic s
      then some (with_value s (ask s.prom_ql) r)
      else incomplete r

  -- the result for one SLO of a flow; the provider is `none` for nil
  unfoldable pub check_slo : Scanner → Option (Provider F) → String → Slo F → Option (SloResult F)
  check_slo scanner none flow s =
      some (record (initial flow s) { error = some "metrics provider not configured" })
  check_slo scanner (some ask) flow s = check_typed scanner ask s (initial flow s)

  abbrev pub add_result : Option (SloResult F) → List (SloResult F) → List (SloResult F)
  add_result none rs = rs
  add_result (some r) rs = r ∷ rs

  -- the results of the SLOs of a flow, before those of the other flows
  unfoldable pub check_flow :
      Scanner
      → Option (Provider F)
      → String
      → List (Slo F)
      → List (SloResult F)
      → List (SloResult F)
  check_flow scanner ask flow [] rest = rest
  check_flow scanner ask flow (s ∷ ss) rest =
      add_result (check_slo scanner ask flow s) (check_flow scanner ask flow ss rest)

  -- CheckSLOs, for the ids of flows with their SLOs
  unfoldable pub check_slos :
      Scanner → Option (Provider F) → List (String × List (Slo F)) → List (SloResult F)
  check_slos scanner ask [] = []
  check_slos scanner ask ((flow, slos) ∷ flows) =
      check_flow scanner ask flow slos (check_slos scanner ask flows)

-- ===== src/Tests/Slos.antt =====
-- The theorems on objectives, at concrete inputs. Numbers are hundredths.
use health_monitor_sre_engin.Common.{
  ℕ, ◌-◌, ◌*◌, ◌/◌, ltb, leb, ◌==◌, String, some, List, [], ◌∷◌, ◌≡◌, ◌↔◌, map, pos, ℤ, negsuc,
  filter, contains, if◌then◌else◌,
}
use health_monitor_sre_engin.Slo.{
  Floats, value, Provider, Slo, check_ratio, check_slos, initial, is_ratio, is_generic,
}
use health_monitor_sre_engin.Slo.Queries.{Scanner, format_query}
use health_monitor_sre_engin.Slo.Kept.{name_of, check_slos-names}
use health_monitor_sre_engin.Slo.Breaches.{IsBreached, check_ratio-IsBreached}

abbrev seconds_of : ℤ → ℕ
seconds_of (pos n) = n / 10000000
seconds_of (negsuc n) = 0

abbrev hundredths : Floats ℕ
hundredths = record {
  of_int = λ n. n * 100;
  literal = λ n decimals. n;
  negative = λ a. 0;
  minus = λ a b. a - b;
  times = λ a b. a * b / 100;
  over = λ a b. a * 100 / b;
  less = λ a b. ltb a b;
  at_most = λ a b. leb a b;
  same = λ a b. a == b;
  seconds = seconds_of;
  one_decimal = λ a. "";
}

abbrev scanner : Scanner
scanner = record { parse_duration = λ text. some (pos 300000000000); scan_int = λ text. pos 0 }

-- ten requests in a second, five of them failing
abbrev half_failing : Provider ℕ
half_failing = λ query. if contains query "requests" then value 1000 else value 500

abbrev slo_of : String → String → Slo ℕ
slo_of id type = record {
  id = id;
  service = "api";
  objective = 9900;
  window = "5m";
  prom_ql = "";
  type = type;
  error_query = "failures_total";
  total_query = "requests_total";
}

abbrev flows : List (String × List (Slo ℕ))
flows = ("checkout", slo_of "availability" "ratio" ∷ slo_of "typo" "rate" ∷ []) ∷ []

check_slos-names_example :
    map name_of (check_slos hundredths scanner (some half_failing) flows)
    ≡ ("checkout", "availability") ∷ []
unfolding filter is_ratio is_generic
check_slos-names_example = check_slos-names hundredths scanner (some half_failing) flows

check_ratio-IsBreached_example :
    ((check_ratio hundredths scanner half_failing
        (slo_of "availability" "ratio")
        (initial hundredths "checkout" (slo_of "availability" "ratio"))).compliance
      ≡ "BREACHING")
    ↔ IsBreached hundredths scanner
        (slo_of "availability" "ratio")
        (half_failing (format_query "requests_total" "5m"))
        (half_failing (format_query "failures_total" "5m"))
check_ratio-IsBreached_example =
    check_ratio-IsBreached hundredths scanner half_failing (slo_of "availability" "ratio")
      (initial hundredths "checkout" (slo_of "availability" "ratio"))

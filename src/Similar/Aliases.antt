-- ===== src/Similar/Aliases.antt =====
-- serviceAliases and areAliases of internal/incident/similarity.go.
use health_monitor_sre_engin.Common.{
  String, Bool, true, false, ◌&&◌, ◌||◌, none, some, List, [], ◌∷◌, ◌≡◌, refl, str_eq, Dict, lookup,
  any, arith,
}

unfoldable pub service_aliases : Dict (List String)
service_aliases =
    ("billing_api", "billing-service" ∷ "billing" ∷ "billing-api" ∷ [])
    ∷ ("postgres_db", "postgres" ∷ "postgresql" ∷ "postgres-db" ∷ [])
    ∷ ("redis_cache", "redis" ∷ "redis-cache" ∷ [])
    ∷ ("auth_service", "auth" ∷ "auth-service" ∷ "authentication" ∷ [])
    ∷ ("payment_api", "payment" ∷ "payment-service" ∷ "payment-api" ∷ [])
    ∷ ("notification", "notifier" ∷ "notification-service" ∷ [])
    ∷ []

-- one of the two is the key, the other in its list
unfoldable pub names_alias : Dict (List String) → String → String → Bool
unfolding lookup
names_alias known key alias = elim (lookup key known) [
  | none ↦ false
  | some aliases ↦ any (λ a. str_eq a alias) aliases
]

-- both are in the list of one service
unfoldable pub share_service : Dict (List String) → String → String → Bool
share_service [] comp1 comp2 = false
share_service ((_, aliases) ∷ known) comp1 comp2 =
    (any (λ a. str_eq a comp1) aliases && any (λ a. str_eq a comp2) aliases)
    || share_service known comp1 comp2

unfoldable pub are_aliases : Dict (List String) → String → String → Bool
are_aliases known comp1 comp2 =
    names_alias known comp1 comp2
    || (names_alias known comp2 comp1 || share_service known comp1 comp2)

share_service_comm :
    (known : Dict (List String)) (a b : String) → share_service known a b ≡ share_service known b a
unfolding share_service
share_service_comm [] a b = refl
share_service_comm ((_, aliases) ∷ known) a b = ground (arith, share_service_comm known a b)

pub are_aliases_comm :
    (known : Dict (List String)) (a b : String) → are_aliases known a b ≡ are_aliases known b a
unfolding are_aliases
are_aliases_comm known a b = ground (arith, share_service_comm known a b)

renamed : are_aliases service_aliases "postgres" "postgres-db" ≡ true
unfolding are_aliases service_aliases names_alias share_service any
renamed = refl

-- ===== src/Tests/Limits.antt =====
-- Requests to the rate limiter, and the costs of calls.
use multi_tenant_agentic_wor.Base.{
  ◌<◌, ◌+◌, ◌*◌, ◌≤◌, ◌≡◌, ◌↔◌, refl, none, [], arith, count_where, string_eq, nat_eq, option_eq,
}
use multi_tenant_agentic_wor.Base.Dict
use multi_tenant_agentic_wor.RateLimit.{admit, recorded, get_key, serve}
use multi_tenant_agentic_wor.RateLimit.Full.{admit_iff}
use multi_tenant_agentic_wor.RateLimit.Window.{in_window, serve-InWindow}
use multi_tenant_agentic_wor.Store.{status_eq}
use multi_tenant_agentic_wor.Cost.{price_table, calculate_cost}
use multi_tenant_agentic_wor.Cost.Families.{calculate_cost_bounds, calculate_cost_dated_mini}
use multi_tenant_agentic_wor.Tests.{settings, api_request, moments}

serve-InWindow_example :
    count_where (in_window settings "tenant:1" 71) (serve settings moments [] []).0 ≤ 1
serve-InWindow_example =
    serve-InWindow settings moments "tenant:1" 71 (omega arith, (omega arith, (omega arith, tt)))
      (omega arith)

calculate_cost_bounds_example :
    (10 * 15 + 20 * 60 ≤ calculate_cost (λ s. s) "claude-sonnet" 10 20)
    × (calculate_cost (λ s. s) "claude-sonnet" 10 20 ≤ 10 * 1500 + 20 * 7500)
calculate_cost_bounds_example = calculate_cost_bounds (λ s. s) "claude-sonnet" 10 20

dated_mini_is_new : Dict.get? price_table "gpt-4o-mini-2024-07-18" ≡ none
unfolding Dict.get?
dated_mini_is_new = refl

calculate_cost_dated_mini_example :
    calculate_cost (λ s. s) "gpt-4o-mini-2024-07-18" 10 20 ≡ 10 * 250 + 20 * 1000
calculate_cost_dated_mini_example =
    calculate_cost_dated_mini (λ s. s) "gpt-4o-mini-2024-07-18" 10 20 dated_mini_is_new refl

admit_iff_example :
    ((admit settings 90 api_request (serve settings moments [] []).1).0
      ≡ recorded (get_key settings api_request))
    ↔ (count_where
          (in_window settings (get_key settings api_request) 90)
          (serve settings moments [] []).0
        < 1)
admit_iff_example =
    admit_iff settings moments 90 api_request (omega arith, (omega arith, (omega arith, tt)))
      (omega arith) refl refl

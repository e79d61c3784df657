-- ===== src/Alerts/Cooldown.antt =====
-- A delivery of alerts respects the cooldown of the policy.
use multi_tenant_agentic_wor.Base.{
  ℕ, ◌+◌, ◌≡◌, refl, sym, subst, Bool, true, false, not, ◌&&◌, Option, none, some, List, [], ◌∷◌,
  ◌==◌, arith, is_empty, All, All-map, select_where, count_where, Bool-cases, inl, inr, ok,
  ok-value, string_eq,
}
use multi_tenant_agentic_wor.Base.Json.{Json}
use multi_tenant_agentic_wor.Tables.{AlertCode, Route, AlertChannel}
use multi_tenant_agentic_wor.Store.{World}
use multi_tenant_agentic_wor.Texts.{Texts}
use multi_tenant_agentic_wor.Health.{Alert, get_dispatch_health}
use multi_tenant_agentic_wor.Alerts.{Policy, get_alert_policy, is_matched, matched_alerts}
use multi_tenant_agentic_wor.Alerts.Sending.{
  DeliveryReport, Mailer, channel_of, deliver_dispatch_alerts, deliver_matched, deliver_routes,
  deliver_to, empty_delivery_report, is_held, is_in_cooldown, notify, send,
}
use multi_tenant_agentic_wor.Alerts.Spacing.{
  IsSpaced, AreDistinct, IsFree, AreDistinct-select_where, dispatch_alerts-AreDistinct,
  IsFree-of_cooldown, record_deliveries-IsSpaced,
}

All-chosen :
    (p : Alert → Bool) (alerts : List Alert) → All (λ a. p a ≡ true) (select_where p alerts)
unfolding select_where
All-chosen p [] = tt
All-chosen p (a ∷ alerts) = elim (Bool-cases (p a)) [
  | inl hit ↦ rw hit (hit, All-chosen p alerts)
  | inr miss ↦ rw miss (All-chosen p alerts)
]

matched_alerts-AreDistinct :
    (t : Texts) (w : World) (tenant hours : ℕ) (p : Policy)
    → AreDistinct (matched_alerts t w tenant hours p)
unfolding matched_alerts get_dispatch_health
matched_alerts-AreDistinct t w tenant hours p =
    let h = get_dispatch_health t w tenant hours in
    AreDistinct-select_where (is_matched p) h.alerts (
      dispatch_alerts-AreDistinct h.paused_workflows h.throttled_triggers h.deferred_retries
        h.dead_lettered_executions)

-- What happens during a request to a channel adds no deliveries.
abbrev pub KeepsDeliveries : Mailer → Type 0
KeepsDeliveries m =
    (c : Json) (alerts : List Alert) (w : World)
    → (m.post c alerts w).1.alert_deliveries ≡ w.alert_deliveries

module _ (m : Mailer) (keeps : KeepsDeliveries m) where
  pub notify-deliveries :
      (c : AlertChannel) (alerts : List Alert) (w : World)
      → (notify m c alerts w).1.alert_deliveries ≡ w.alert_deliveries
  unfolding notify
  notify-deliveries c alerts w = elim (Bool-cases (c.channel_type == "webhook")) [
    | inl web ↦ rw web (keeps c.encrypted_config alerts w)
    | inr other ↦ rw other refl
  ]

  module _ (tenant minutes now channel : ℕ) (code : AlertCode) where
    send-IsSpaced :
        (route : Route) (c : AlertChannel) (alerts : List Alert) (w : World) (r : DeliveryReport)
        → AreDistinct alerts
        → All (λ a. IsFree tenant minutes now c.id a.code w.alert_deliveries) alerts
        → IsSpaced tenant minutes channel code w.alert_deliveries
        → IsSpaced tenant minutes channel code
            (send m tenant now route c alerts w r).0.alert_deliveries
    unfolding send
    send-IsSpaced route c [] w r distinct free spaced = spaced
    send-IsSpaced route c (a ∷ alerts) w r distinct free spaced =
        let (n, w') = notify m c (a ∷ alerts) w in
        let same = sym (notify-deliveries c (a ∷ alerts) w) in
        record_deliveries-IsSpaced m tenant minutes now channel code c route n (a ∷ alerts) w' r
          distinct
          (subst (λ rows. All (λ a. IsFree tenant minutes now c.id a.code rows) (a ∷ alerts)) same
            free)
          (subst (IsSpaced tenant minutes channel code) same spaced)

    deliver_to-IsSpaced :
        (alerts : List Alert) (route : Route) (c : Option AlertChannel) (w : World)
        (r : DeliveryReport)
        → AreDistinct alerts
        → IsSpaced tenant minutes channel code w.alert_deliveries
        → IsSpaced tenant minutes channel code
            (deliver_to m true tenant minutes now alerts route c w r).0.alert_deliveries
    unfolding deliver_to
    deliver_to-IsSpaced alerts route none w r distinct spaced = spaced
    deliver_to-IsSpaced alerts route (some c) w r distinct spaced =
        let chosen = λ (a : Alert). not (is_held m true w tenant c.id minutes now a) in
        send-IsSpaced route c (select_where chosen alerts) w
          (record r {
            skipped = r.skipped + count_where (is_held m true w tenant c.id minutes now) alerts;
          })
          (AreDistinct-select_where chosen alerts distinct)
          (All-map (λ a. chosen a ≡ true)
            (λ a. IsFree tenant minutes now c.id a.code w.alert_deliveries)
            (λ a open_.
              IsFree-of_cooldown w tenant c.id a.code minutes now
                (opened (is_in_cooldown w tenant c.id a.code minutes now) open_))
            (select_where chosen alerts) (All-chosen chosen alerts))
          spaced
      where
        opened : (b : Bool) → not (true && b) ≡ true → b ≡ false
        opened b h = ground arith

    deliver_routes-IsSpaced :
        (alerts : List Alert) (routes : List Route) (w : World) (r : DeliveryReport)
        → AreDistinct alerts
        → IsSpaced tenant minutes channel code w.alert_deliveries
        → IsSpaced tenant minutes channel code
            (deliver_routes m true tenant minutes now alerts routes w r).0.alert_deliveries
    unfolding deliver_routes
    deliver_routes-IsSpaced alerts [] w r distinct spaced = spaced
    deliver_routes-IsSpaced alerts (route ∷ routes) w r distinct spaced =
        elim (Bool-cases route.enabled) [
          | inl on ↦
              let (w₁, r₁) =
                deliver_to m true tenant minutes now alerts route (channel_of m w tenant route) w
                  r in
              rw on (
                deliver_routes-IsSpaced alerts routes w₁ r₁ distinct (
                  deliver_to-IsSpaced alerts route (channel_of m w tenant route) w r distinct
                    spaced))
          | inr off ↦ rw off (deliver_routes-IsSpaced alerts routes w r distinct spaced)
        ]

  deliver_matched-IsSpaced :
      (tenant channel : ℕ) (code : AlertCode) (p : Policy) (alerts : List Alert) (w : World)
      → AreDistinct alerts
      → IsSpaced tenant p.cooldown_minutes channel code w.alert_deliveries
      → IsSpaced tenant p.cooldown_minutes channel code
          (deliver_matched m true tenant p alerts w).0.alert_deliveries
  unfolding deliver_matched
  deliver_matched-IsSpaced tenant channel code p alerts w distinct spaced =
      elim (Bool-cases (p.enabled && not (is_empty alerts))) [
        | inl on ↦ rw on (
            deliver_routes-IsSpaced tenant p.cooldown_minutes w.clock channel code alerts p.channels
              w empty_delivery_report distinct spaced)
        | inr off ↦ rw off spaced
      ]

  -- If requests to a channel leave the table of deliveries as it is, a delivery of alerts that
  -- enforces the cooldown keeps any two deliveries of an alert to a channel of the tenant farther
  -- apart than the cooldown of its policy.
  pub deliver_dispatch_alerts-IsSpaced :
      (t : Texts) (w : World) (tenant hours channel : ℕ) (code : AlertCode) (p : Policy)
      (w' : World) (r : DeliveryReport)
      → get_alert_policy w tenant ≡ ok p
      → IsSpaced tenant p.cooldown_minutes channel code w.alert_deliveries
      → deliver_dispatch_alerts m t true w tenant hours ≡ ok (w', r)
      → IsSpaced tenant p.cooldown_minutes channel code w'.alert_deliveries
  unfolding deliver_dispatch_alerts
  deliver_dispatch_alerts-IsSpaced t w tenant hours channel code p w' r found spaced h =
      subst (λ s. IsSpaced tenant p.cooldown_minutes channel code s.0.alert_deliveries)
        (ok-value (rw found at h))
        (deliver_matched-IsSpaced tenant channel code p (matched_alerts t w tenant hours p) w
          (matched_alerts-AreDistinct t w tenant hours p) spaced)

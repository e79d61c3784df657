-- ===== src/Alerts/Delivered.antt =====
-- The counters and the rows of a delivery of alerts.
use multi_tenant_agentic_wor.Base.{
  ℕ, ◌+◌, ◌*◌, ◌≡◌, refl, subst, Bool, not, Option, none, some, List, [], ◌∷◌, ◌++◌, arith,
  if◌then◌else◌, is_empty, length, length-append, select_where, count_where, Bool-cases, inl, inr,
  ok, ok-value,
}
use multi_tenant_agentic_wor.Tables.{Route, AlertChannel}
use multi_tenant_agentic_wor.Store.{World}
use multi_tenant_agentic_wor.Texts.{Texts}
use multi_tenant_agentic_wor.Health.{Alert}
use multi_tenant_agentic_wor.Alerts.{Policy, get_alert_policy, matched_alerts}
use multi_tenant_agentic_wor.Alerts.Sending.{
  DeliveryReport, Mailer, Notice, channel_of, deliver_dispatch_alerts, deliver_matched,
  deliver_routes, deliver_to, empty_delivery_report, is_held, notify, record_deliveries,
  record_delivery, send,
}
use multi_tenant_agentic_wor.Alerts.Cooldown.{KeepsDeliveries}
use multi_tenant_agentic_wor.Alerts.Rows.{deliver_matched-AreRows}

-- The report after so many alerts were considered for a channel.
pub record DeliveryAddsUp (n : ℕ) (r : DeliveryReport) : Type 0 where
  pub attempted : r.attempted ≡ r.delivered + r.failed
  pub items : length r.items ≡ r.attempted
  pub considered : r.attempted + r.skipped ≡ n

length-split :
    (p : Alert → Bool) (alerts : List Alert)
    → length (select_where (λ a. not (p a)) alerts) + count_where p alerts ≡ length alerts
unfolding select_where count_where
length-split p [] = omega arith
length-split p (a ∷ alerts) = ground (arith, length-split p alerts)

module _ (m : Mailer) where
  record_delivery-AddsUp :
      (tenant now : ℕ) (c : AlertChannel) (route : Route) (notice : Notice) (a : Alert) (w : World)
      (r : DeliveryReport) (n : ℕ)
      → DeliveryAddsUp n r
      → DeliveryAddsUp (n + 1) (record_delivery m tenant now c route notice a (w, r)).1
  unfolding record_delivery
  record_delivery-AddsUp tenant now c route notice a w r n h = elim (Bool-cases notice.delivered) [
    | inl sent ↦ rw sent (record {
      attempted = omega (arith, h.attempted);
      items = omega (arith, h.items, length-append {0} r.items);
      considered = omega (arith, h.considered);
    })
    | inr lost ↦ rw lost (record {
      attempted = omega (arith, h.attempted);
      items = omega (arith, h.items, length-append {0} r.items);
      considered = omega (arith, h.considered);
    })
  ]

  record_deliveries-AddsUp :
      (tenant now : ℕ) (c : AlertChannel) (route : Route) (notice : Notice) (alerts : List Alert)
      (w : World) (r : DeliveryReport) (n : ℕ)
      → DeliveryAddsUp n r
      → DeliveryAddsUp
          (n + length alerts)
          (record_deliveries m tenant now c route notice alerts (w, r)).1
  unfolding record_deliveries
  record_deliveries-AddsUp tenant now c route notice [] w r n h =
      subst (λ k. DeliveryAddsUp k r) (omega arith) h
  record_deliveries-AddsUp tenant now c route notice (a ∷ alerts) w r n h =
      let (w₁, r₁) = record_delivery m tenant now c route notice a (w, r) in
      subst
        (λ k.
          DeliveryAddsUp k (record_deliveries m tenant now c route notice (a ∷ alerts) (w, r)).1)
        (omega arith)
        (record_deliveries-AddsUp tenant now c route notice alerts w₁ r₁ (n + 1)
          (record_delivery-AddsUp tenant now c route notice a w r n h))

  send-AddsUp :
      (tenant now : ℕ) (route : Route) (c : AlertChannel) (alerts : List Alert) (w : World)
      (r : DeliveryReport) (n : ℕ)
      → DeliveryAddsUp n r
      → DeliveryAddsUp (n + length alerts) (send m tenant now route c alerts w r).1
  unfolding send
  send-AddsUp tenant now route c [] w r n h = subst (λ k. DeliveryAddsUp k r) (omega arith) h
  send-AddsUp tenant now route c (a ∷ alerts) w r n h =
      let (notice, w') = notify m c (a ∷ alerts) w in
      record_deliveries-AddsUp tenant now c route notice (a ∷ alerts) w' r n h

  module _ (enforce : Bool) (tenant minutes now : ℕ) (alerts : List Alert) where
    deliver_to-AddsUp :
        (route : Route) (c : Option AlertChannel) (w : World) (r : DeliveryReport) (n : ℕ)
        → DeliveryAddsUp n r
        → DeliveryAddsUp
            (n + length alerts)
            (deliver_to m enforce tenant minutes now alerts route c w r).1
    unfolding deliver_to
    deliver_to-AddsUp route none w r n h = record {
      attempted = h.attempted;
      items = h.items;
      considered = omega (arith, h.considered);
    }
    deliver_to-AddsUp route (some c) w r n h =
        let held = is_held m enforce w tenant c.id minutes now in
        let fresh = select_where (λ a. not (held a)) alerts in
        subst
          (λ k.
            DeliveryAddsUp k (deliver_to m enforce tenant minutes now alerts route (some c) w r).1)
          (omega (arith, length-split held alerts))
          (send-AddsUp tenant now route c fresh w
            (record r { skipped = r.skipped + count_where held alerts })
            (n + count_where held alerts)
            (record {
              attempted = h.attempted;
              items = h.items;
              considered = omega (arith, h.considered);
            }))

    deliver_routes-AddsUp :
        (routes : List Route) (w : World) (r : DeliveryReport) (n : ℕ)
        → DeliveryAddsUp n r
        → DeliveryAddsUp
            (n + length alerts * count_where (λ c. c.enabled) routes)
            (deliver_routes m enforce tenant minutes now alerts routes w r).1
    unfolding deliver_routes count_where
    deliver_routes-AddsUp [] w r n h = subst (λ k. DeliveryAddsUp k r) (omega arith) h
    deliver_routes-AddsUp (route ∷ routes) w r n h = elim (Bool-cases route.enabled) [
      | inl on ↦
          let s =
            deliver_to m enforce tenant minutes now alerts route (channel_of m w tenant route) w
              r in
          rw on (
            subst
              (λ k.
                DeliveryAddsUp k
                  (deliver_routes m enforce tenant minutes now alerts routes s.0 s.1).1)
              (omega arith)
              (deliver_routes-AddsUp routes s.0 s.1 (n + length alerts)
                (deliver_to-AddsUp route (channel_of m w tenant route) w r n h)))
      | inr off ↦ rw off (
          subst
            (λ k.
              DeliveryAddsUp k (deliver_routes m enforce tenant minutes now alerts routes w r).1)
            (omega arith) (deliver_routes-AddsUp routes w r n h))
    ]

  -- How many pairs of an alert and a route a delivery considers.
  abbrev pub considered : Policy → List Alert → ℕ
  considered p alerts =
      if p.enabled then length alerts * count_where (λ c. c.enabled) p.channels else 0

  empty-AddsUp : DeliveryAddsUp 0 empty_delivery_report
  empty-AddsUp = record { attempted = refl; items = refl; considered = refl }

  deliver_matched-AddsUp :
      (enforce : Bool) (tenant : ℕ) (p : Policy) (alerts : List Alert) (w : World)
      → DeliveryAddsUp (considered p alerts) (deliver_matched m enforce tenant p alerts w).1
  unfolding deliver_matched
  deliver_matched-AddsUp enforce tenant p alerts w = elim (Bool-cases p.enabled) [
    | inl on ↦ rw on (some_alerts alerts)
    | inr off ↦ rw off empty-AddsUp
  ]
    where
      some_alerts :
          (alerts : List Alert)
          → DeliveryAddsUp
              (length alerts * count_where (λ c. c.enabled) p.channels)
              (if not (is_empty alerts)
                then deliver_routes m enforce tenant p.cooldown_minutes w.clock alerts p.channels w
                    empty_delivery_report
                else (w, empty_delivery_report)).1
      some_alerts [] =
          subst (λ k. DeliveryAddsUp k empty_delivery_report) (omega arith) empty-AddsUp
      some_alerts (a ∷ alerts) =
          subst
            (λ k.
              DeliveryAddsUp k
                (deliver_routes m enforce tenant p.cooldown_minutes w.clock (a ∷ alerts) p.channels
                  w empty_delivery_report).1)
            (omega arith)
            (deliver_routes-AddsUp enforce tenant p.cooldown_minutes w.clock (a ∷ alerts) p.channels
              w empty_delivery_report 0 empty-AddsUp)

  -- If what happens during a request to a channel adds no deliveries, the report of a delivery
  -- adds up: the deliveries that were attempted are those that succeeded and those that failed,
  -- each left a row, for the table of deliveries is what it was and then the items of the report,
  -- and with those that were skipped they are the matched alerts times the enabled routes of the
  -- policy, or none where the policy is disabled.
  pub deliver_dispatch_alerts-AddsUp :
      (t : Texts) (enforce : Bool) (w : World) (tenant hours : ℕ) (p : Policy) (w' : World)
      (r : DeliveryReport)
      → KeepsDeliveries m
      → get_alert_policy w tenant ≡ ok p
      → deliver_dispatch_alerts m t enforce w tenant hours ≡ ok (w', r)
      → DeliveryAddsUp (considered p (matched_alerts t w tenant hours p)) r
        × (w'.alert_deliveries ≡ w.alert_deliveries ++ r.items)
  unfolding deliver_dispatch_alerts
  deliver_dispatch_alerts-AddsUp t enforce w tenant hours p w' r keeps found h =
      let alerts = matched_alerts t w tenant hours p in
      subst
        (λ s.
          DeliveryAddsUp (considered p alerts) s.1
          × (s.0.alert_deliveries ≡ w.alert_deliveries ++ s.1.items))
        (ok-value (rw found at h))
        (
          deliver_matched-AddsUp enforce tenant p alerts w,
          deliver_matched-AreRows m keeps enforce tenant p alerts w,
        )

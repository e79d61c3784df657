-- ===== src/Alerts/Rows.antt =====
-- The rows that a delivery of alerts leaves in the table of deliveries.
use mathlib.Core.List.{append_assoc, append-nil}
use multi_tenant_agentic_wor.Base.{
  ℕ, ◌+◌, ◌≡◌, sym, ap, ◌∙◌, Bool, not, Option, none, some, List, [], ◌∷◌, ◌++◌, select_where,
  count_where, Bool-cases, inl, inr,
}
use multi_tenant_agentic_wor.Tables.{Route, AlertChannel, Delivery}
use multi_tenant_agentic_wor.Store.{World}
use multi_tenant_agentic_wor.Health.{Alert}
use multi_tenant_agentic_wor.Alerts.{Policy}
use multi_tenant_agentic_wor.Alerts.Sending.{
  DeliveryReport, Mailer, Notice, channel_of, deliver_matched, deliver_routes, deliver_to,
  empty_delivery_report, is_held, new_delivery, notify, record_deliveries, record_delivery, send,
}
use multi_tenant_agentic_wor.Alerts.Cooldown.{KeepsDeliveries, notify-deliveries}

-- The table is the rows there were before, and then the items of the report.
abbrev pub AreRows : List Delivery → World × DeliveryReport → Type 0
AreRows rows s = s.0.alert_deliveries ≡ rows ++ s.1.items

module _ (m : Mailer) (keeps : KeepsDeliveries m) (rows : List Delivery) (tenant now : ℕ) where
  record_delivery-AreRows :
      (c : AlertChannel) (route : Route) (n : Notice) (a : Alert) (s : World × DeliveryReport)
      → AreRows rows s
      → AreRows rows (record_delivery m tenant now c route n a s)
  unfolding record_delivery
  record_delivery-AreRows c route n a (w, r) h =
      let d = new_delivery m tenant now c route n w a in
      ap (λ rows'. rows' ++ d ∷ []) h ∙ append_assoc rows r.items (d ∷ [])

  record_deliveries-AreRows :
      (c : AlertChannel) (route : Route) (n : Notice) (alerts : List Alert)
      (s : World × DeliveryReport)
      → AreRows rows s
      → AreRows rows (record_deliveries m tenant now c route n alerts s)
  unfolding record_deliveries
  record_deliveries-AreRows c route n [] s h = h
  record_deliveries-AreRows c route n (a ∷ alerts) s h =
      record_deliveries-AreRows c route n alerts (record_delivery m tenant now c route n a s)
        (record_delivery-AreRows c route n a s h)

  send-AreRows :
      (route : Route) (c : AlertChannel) (alerts : List Alert) (w : World) (r : DeliveryReport)
      → AreRows rows (w, r)
      → AreRows rows (send m tenant now route c alerts w r)
  unfolding send
  send-AreRows route c [] w r h = h
  send-AreRows route c (a ∷ alerts) w r h =
      let (n, w') = notify m c (a ∷ alerts) w in
      record_deliveries-AreRows c route n (a ∷ alerts) (w', r)
        (notify-deliveries m keeps c (a ∷ alerts) w ∙ h)

  module _ (enforce : Bool) (minutes : ℕ) (alerts : List Alert) where
    deliver_to-AreRows :
        (route : Route) (c : Option AlertChannel) (w : World) (r : DeliveryReport)
        → AreRows rows (w, r)
        → AreRows rows (deliver_to m enforce tenant minutes now alerts route c w r)
    unfolding deliver_to
    deliver_to-AreRows route none w r h = h
    deliver_to-AreRows route (some c) w r h =
        let held = is_held m enforce w tenant c.id minutes now in
        send-AreRows route c (select_where (λ a. not (held a)) alerts) w
          (record r { skipped = r.skipped + count_where held alerts }) h

    deliver_routes-AreRows :
        (routes : List Route) (w : World) (r : DeliveryReport)
        → AreRows rows (w, r)
        → AreRows rows (deliver_routes m enforce tenant minutes now alerts routes w r)
    unfolding deliver_routes
    deliver_routes-AreRows [] w r h = h
    deliver_routes-AreRows (route ∷ routes) w r h = elim (Bool-cases route.enabled) [
      | inl on ↦ rw on (
          let s =
            deliver_to m enforce tenant minutes now alerts route (channel_of m w tenant route) w
              r in
          deliver_routes-AreRows routes s.0 s.1
            (deliver_to-AreRows route (channel_of m w tenant route) w r h))
      | inr off ↦ rw off (deliver_routes-AreRows routes w r h)
    ]

pub deliver_matched-AreRows :
    (m : Mailer) (keeps : KeepsDeliveries m) (enforce : Bool) (tenant : ℕ) (p : Policy)
    (alerts : List Alert) (w : World)
    → AreRows w.alert_deliveries (deliver_matched m enforce tenant p alerts w)
unfolding deliver_matched
deliver_matched-AreRows m keeps enforce tenant p [] w = elim (Bool-cases p.enabled) [
  | inl on ↦ rw on (sym (append-nil w.alert_deliveries))
  | inr off ↦ rw off (sym (append-nil w.alert_deliveries))
]
deliver_matched-AreRows m keeps enforce tenant p (a ∷ alerts) w = elim (Bool-cases p.enabled) [
  | inl on ↦ rw on (
      deliver_routes-AreRows m keeps w.alert_deliveries tenant w.clock enforce p.cooldown_minutes
        (a ∷ alerts) p.channels w empty_delivery_report (sym (append-nil w.alert_deliveries)))
  | inr off ↦ rw off (sym (append-nil w.alert_deliveries))
]

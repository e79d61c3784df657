-- ===== src/Alerts/Sending.antt =====
-- The delivery of alerts to channels, with the cooldown, in backend/app/services/analytics_service.py.
-- The HTTP client with the decryption is a field of Mailer, and so is `sanitize_error`.
use multi_tenant_agentic_wor.Base.{
  ℕ, suc, ◌+◌, ◌-◌, ◌*◌, String, Bool, true, false, not, ◌&&◌, Option, none, some, List, [], ◌∷◌,
  ◌++◌, ◌==◌, if◌then◌else◌, leb, is_empty, length, take, find_where, select_where, count_where,
  Result, ok, err, ◌>>=◌, nat_eq, string_eq,
}
use multi_tenant_agentic_wor.Base.Json
use multi_tenant_agentic_wor.Base.Json.{Json, Fields}
use multi_tenant_agentic_wor.Tables.{
  AlertCode, Route, AlertChannel, Delivery, alert_code_eq, severity_eq,
}
use multi_tenant_agentic_wor.Store.{World}
use multi_tenant_agentic_wor.Texts.{Texts, first_chars}
use multi_tenant_agentic_wor.Health.{Alert}
use multi_tenant_agentic_wor.Automation.{clean_message}
use multi_tenant_agentic_wor.Alerts.{AlertError, Policy, get_alert_policy, matched_alerts}

-- `_get_dispatch_alert_channel`.
unfoldable pub find_channel : World → ℕ → ℕ → Option AlertChannel
find_channel w tenant i =
    find_where (λ c. c.id == i && c.tenant_id == tenant && c.is_active) w.alert_channels

abbrev pub is_own_channel : ℕ → Option ℕ → Bool
is_own_channel channel none = false
is_own_channel channel (some i) = i == channel

abbrev pub is_recent_delivery : ℕ → ℕ → AlertCode → ℕ → Delivery → Bool
is_recent_delivery tenant channel code cutoff d =
    d.tenant_id == tenant
    && is_own_channel channel d.channel_id
    && d.alert_code == code
    && leb cutoff d.created_at

-- `_alert_is_in_cooldown`.
unfoldable pub is_in_cooldown : World → ℕ → ℕ → AlertCode → ℕ → ℕ → Bool
is_in_cooldown w tenant channel code minutes now = not (
    leb
      (count_where (is_recent_delivery tenant channel code (now - minutes * 60)) w.alert_deliveries)
      0)

-- What a delivery reports: whether it succeeded, the code of the response, the error.
pub record Notice : Type 0 where
  pub delivered : Bool
  pub status_code : Option ℕ
  pub error_message : Option String

abbrev pub or_text : String → String → String
or_text s other = if s == "" then other else s

-- `str(channel.config_preview.get("url") or route.target)`, where a URL is a text.
abbrev pub target_preview : Option Json → String → String
target_preview (some (Json.str s)) target = or_text s target
target_preview _ target = target

-- `DispatchAlertDeliveryResponse`.
pub record DeliveryReport : Type 0 where
  pub attempted : ℕ
  pub delivered : ℕ
  pub failed : ℕ
  pub skipped : ℕ
  pub items : List Delivery

abbrev pub empty_delivery_report : DeliveryReport
empty_delivery_report = record { attempted = 0; delivered = 0; failed = 0; skipped = 0; items = [] }

-- `post` is `pinned_http_request` with the decrypted configuration of the channel: the status code and
-- the text of the response, or the text of what it raises, and the world after it.
pub record Mailer : Type 0 where
  pub post : Json → List Alert → World → Result String (ℕ × String) × World
  pub clean : String → String

module _ (m : Mailer) where
  -- `_deliver_webhook_notification`.
  unfoldable pub notice_of : Result String (ℕ × String) → Notice
  notice_of (err e) = record {
    delivered = false;
    status_code = none;
    error_message = some (m.clean e);
  }
  notice_of (ok (code, body)) =
      if leb 400 code
      then record {
        delivered = false;
        status_code = some code;
        error_message = some (m.clean (or_text (first_chars 500 body) "Webhook delivery failed."));
      }
      else record { delivered = true; status_code = some code; error_message = none }

  unfoldable pub notify : AlertChannel → List Alert → World → Notice × World
  unfolding notice_of
  notify c alerts w =
      let (reply, w') = m.post c.encrypted_config alerts w in
      if c.channel_type == "webhook" then (notice_of reply, w') else (
        record {
          delivered = false;
          status_code = none;
          error_message = some "Unsupported dispatch alert channel.";
        },
        w,
      )

  abbrev pub new_delivery : ℕ → ℕ → AlertChannel → Route → Notice → World → Alert → Delivery
  new_delivery tenant now c route n w a = record {
    id = w.next_id;
    tenant_id = tenant;
    channel_id = some c.id;
    alert_code = a.code;
    channel_type = c.channel_type;
    target_preview = target_preview (Json.get "url" c.config_preview) route.target;
    status = if n.delivered then "delivered" else "failed";
    status_code = n.status_code;
    error_message = clean_message m.clean n.error_message;
    created_at = now;
  }

  unfoldable pub record_delivery :
      ℕ
      → ℕ
      → AlertChannel
      → Route
      → Notice
      → Alert
      → World × DeliveryReport
      → World × DeliveryReport
  record_delivery tenant now c route n a (w, r) =
      let d = new_delivery tenant now c route n w a in
      (
        record w { alert_deliveries = w.alert_deliveries ++ d ∷ []; next_id = suc w.next_id },
        record r {
          attempted = r.attempted + 1;
          delivered = if n.delivered then r.delivered + 1 else r.delivered;
          failed = if n.delivered then r.failed else r.failed + 1;
          items = r.items ++ d ∷ [];
        },
      )

  unfoldable pub record_deliveries :
      ℕ
      → ℕ
      → AlertChannel
      → Route
      → Notice
      → List Alert
      → World × DeliveryReport
      → World × DeliveryReport
  unfolding record_delivery
  record_deliveries tenant now c route n [] s = s
  record_deliveries tenant now c route n (a ∷ alerts) s =
      record_deliveries tenant now c route n alerts (record_delivery tenant now c route n a s)

  -- The alerts that the cooldown holds back for a channel.
  abbrev pub is_held : Bool → World → ℕ → ℕ → ℕ → ℕ → Alert → Bool
  is_held enforce w tenant channel minutes now a =
      enforce && is_in_cooldown w tenant channel a.code minutes now

  unfoldable pub send :
      ℕ → ℕ → Route → AlertChannel → List Alert → World → DeliveryReport → World × DeliveryReport
  unfolding notify record_deliveries
  send tenant now route c [] w r = (w, r)
  send tenant now route c (a ∷ alerts) w r =
      let (n, w') = notify c (a ∷ alerts) w in
      record_deliveries tenant now c route n (a ∷ alerts) (w', r)

  unfoldable pub deliver_to :
      Bool
      → ℕ
      → ℕ
      → ℕ
      → List Alert
      → Route
      → Option AlertChannel
      → World
      → DeliveryReport
      → World × DeliveryReport
  unfolding is_in_cooldown send
  deliver_to enforce tenant minutes now alerts route none w r =
      (w, record r { skipped = r.skipped + length alerts })
  deliver_to enforce tenant minutes now alerts route (some c) w r =
      send tenant now route c
        (select_where (λ a. not (is_held enforce w tenant c.id minutes now a)) alerts) w
        (record r {
          skipped = r.skipped + count_where (is_held enforce w tenant c.id minutes now) alerts;
        })

  abbrev pub channel_of : World → ℕ → Route → Option AlertChannel
  channel_of w tenant route = elim route.credential_id [
    | none ↦ none
    | some i ↦ find_channel w tenant i
  ]

  unfoldable pub deliver_routes :
      Bool → ℕ → ℕ → ℕ → List Alert → List Route → World → DeliveryReport → World × DeliveryReport
  unfolding find_channel deliver_to
  deliver_routes enforce tenant minutes now alerts [] w r = (w, r)
  deliver_routes enforce tenant minutes now alerts (route ∷ routes) w r =
      let s =
        if route.enabled
        then deliver_to enforce tenant minutes now alerts route (channel_of w tenant route) w r
        else (w, r) in
      deliver_routes enforce tenant minutes now alerts routes s.0 s.1

  -- The time of a row is that of the start of its transaction.
  unfoldable pub deliver_matched : Bool → ℕ → Policy → List Alert → World → World × DeliveryReport
  unfolding deliver_routes
  deliver_matched enforce tenant p alerts w =
      if p.enabled && not (is_empty alerts)
      then deliver_routes enforce tenant p.cooldown_minutes w.clock alerts p.channels w
          empty_delivery_report
      else (w, empty_delivery_report)

  unfoldable pub deliver_dispatch_alerts :
      Texts → Bool → World → ℕ → ℕ → Result AlertError (World × DeliveryReport)
  unfolding get_alert_policy matched_alerts deliver_matched
  deliver_dispatch_alerts t enforce w tenant hours = do
    p ← get_alert_policy w tenant
    ok (deliver_matched enforce tenant p (matched_alerts t w tenant hours p) w)

-- `order_by(created_at.desc())`.
unfoldable pub insert_delivery : Delivery → List Delivery → List Delivery
insert_delivery x [] = x ∷ []
insert_delivery x (y ∷ ys) =
    let rest = insert_delivery x ys in
    if leb y.created_at x.created_at then x ∷ y ∷ ys else y ∷ rest

unfoldable pub order_deliveries : List Delivery → List Delivery
unfolding insert_delivery
order_deliveries [] = []
order_deliveries (x ∷ xs) = insert_delivery x (order_deliveries xs)

unfoldable pub list_deliveries : World → ℕ → ℕ → List Delivery
unfolding order_deliveries
list_deliveries w tenant limit =
    take limit (order_deliveries (select_where (λ d. d.tenant_id == tenant) w.alert_deliveries))

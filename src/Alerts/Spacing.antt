-- ===== src/Alerts/Spacing.antt =====
-- The cooldown of alerts: how far apart the deliveries of an alert to a channel are.
use multi_tenant_agentic_wor.Base.{
  ℕ, ◌+◌, ◌-◌, ◌*◌, ◌<◌, ◌≡◌, refl, subst, Bool, true, false, not, ◌&&◌, List, [], ◌∷◌, ◌++◌, ◌==◌,
  arith, leb, All, All-append, All-map, All-both, All-select_where, select_where, count_where,
  Bool-cases, inl, inr, nat_eq,
}
use multi_tenant_agentic_wor.Tables.{
  AlertCode, dispatch_paused, trigger_throttled, deferred_retries, dead_lettered, Severity,
  critical, warning, info, Route, AlertChannel, Delivery, alert_code_eq, alert_code_beq_iff,
}
use multi_tenant_agentic_wor.Store.{World}
use multi_tenant_agentic_wor.Health.{Alert, alert_if, dispatch_alerts}
use multi_tenant_agentic_wor.Alerts.Sending.{
  DeliveryReport, Mailer, Notice, is_in_cooldown, is_own_channel, is_recent_delivery, new_delivery,
  record_deliveries, record_delivery,
}

abbrev pub is_slot : ℕ → ℕ → AlertCode → Delivery → Bool
is_slot tenant channel code d =
    d.tenant_id == tenant && is_own_channel channel d.channel_id && d.alert_code == code

-- No two deliveries of an alert to a channel of the tenant are as close as the cooldown.
abbrev pub IsSpaced : ℕ → ℕ → ℕ → AlertCode → List Delivery → Type 0
IsSpaced tenant minutes channel code [] = Unit
IsSpaced tenant minutes channel code (e ∷ rows) =
    (is_slot tenant channel code e ≡ true
      → All (λ d. is_slot tenant channel code d ≡ true → e.created_at + minutes * 60 < d.created_at)
          rows)
    × IsSpaced tenant minutes channel code rows

-- The codes of the alerts differ.
abbrev pub AreDistinct : List Alert → Type 0
AreDistinct [] = Unit
AreDistinct (a ∷ alerts) = All (λ b. (a.code == b.code) ≡ false) alerts × AreDistinct alerts

-- The deliveries of an alert to a channel were made before the cooldown began.
abbrev pub IsFree : ℕ → ℕ → ℕ → ℕ → AlertCode → List Delivery → Type 0
IsFree tenant minutes now channel code =
    All (λ e. is_slot tenant channel code e ≡ true → e.created_at + minutes * 60 < now)

IsSpaced-append :
    (tenant minutes channel : ℕ) (code : AlertCode) (rows : List Delivery) (d : Delivery)
    → IsSpaced tenant minutes channel code rows
    → (is_slot tenant channel code d ≡ true → IsFree tenant minutes d.created_at channel code rows)
    → IsSpaced tenant minutes channel code (rows ++ d ∷ [])
IsSpaced-append tenant minutes channel code [] d spaced free = ((λ own. tt), tt)
IsSpaced-append tenant minutes channel code (e ∷ rows) d spaced free = (
  λ own.
      All-append
        (λ d. is_slot tenant channel code d ≡ true → e.created_at + minutes * 60 < d.created_at)
        rows (d ∷ []) (spaced.0 own) ((λ slot. (free slot).0 own), tt),
  IsSpaced-append tenant minutes channel code rows d spaced.1 (λ slot. (free slot).1),
)

none_counted :
    (p : Delivery → Bool) (rows : List Delivery)
    → not (leb (count_where p rows) 0) ≡ false
    → All (λ d. p d ≡ false) rows
unfolding count_where
none_counted p [] h = tt
none_counted p (d ∷ rows) h = elim (Bool-cases (p d)) [
  | inl hit ↦ absurd (ground arith)
  | inr miss ↦ (miss, none_counted p rows (ground arith))
]

pub AreDistinct-select_where :
    (p : Alert → Bool) (alerts : List Alert)
    → AreDistinct alerts
    → AreDistinct (select_where p alerts)
unfolding select_where
AreDistinct-select_where p [] h = tt
AreDistinct-select_where p (a ∷ alerts) h = elim (Bool-cases (p a)) [
  | inl hit ↦ rw hit (
    All-select_where (λ b. (a.code == b.code) ≡ false) p alerts h.0,
    AreDistinct-select_where p alerts h.1,
  )
  | inr miss ↦ rw miss (AreDistinct-select_where p alerts h.1)
]

abbrev IsOther : AlertCode → Alert → Type 0
IsOther code b = (code == b.code) ≡ false

alert_if-IsOther :
    (k code : AlertCode) (severity : Severity) (n : ℕ) (rest : List Alert)
    → (k == code) ≡ false
    → All (IsOther k) rest
    → All (IsOther k) (alert_if code severity n ++ rest)
alert_if-IsOther k code severity n rest other h = elim (Bool-cases (n == 0)) [
  | inl e ↦ rw e h
  | inr e ↦ rw e (other, h)
]

alert_if-AreDistinct :
    (code : AlertCode) (severity : Severity) (n : ℕ) (rest : List Alert)
    → All (IsOther code) rest
    → AreDistinct rest
    → AreDistinct (alert_if code severity n ++ rest)
alert_if-AreDistinct code severity n rest other h = elim (Bool-cases (n == 0)) [
  | inl e ↦ rw e h
  | inr e ↦ rw e (other, h)
]

-- No two alerts of the health of dispatches have one code.
pub dispatch_alerts-AreDistinct : (a b c d : ℕ) → AreDistinct (dispatch_alerts a b c d)
unfolding dispatch_alerts
dispatch_alerts-AreDistinct a b c d =
    let dead = alert_if dead_lettered critical d in
    let deferred = alert_if deferred_retries info c ++ dead in
    let only : AreDistinct dead = elim (Bool-cases (d == 0)) [
      | inl e ↦ rw e tt
      | inr e ↦ rw e (tt, tt)
    ] in
    let last : (k : AlertCode) → (k == dead_lettered) ≡ false → All (IsOther k) dead =
      λ k other. elim (Bool-cases (d == 0)) [ inl e ↦ rw e tt | inr e ↦ rw e (other, tt) ] in
    alert_if-AreDistinct dispatch_paused warning a
      (alert_if trigger_throttled warning b ++ deferred)
      (alert_if-IsOther dispatch_paused trigger_throttled warning b deferred refl (
        alert_if-IsOther dispatch_paused deferred_retries info c dead refl
          (last dispatch_paused refl)))
      (alert_if-AreDistinct trigger_throttled warning b deferred
        (alert_if-IsOther trigger_throttled deferred_retries info c dead refl
          (last trigger_throttled refl))
        (alert_if-AreDistinct deferred_retries info c dead (last deferred_retries refl) only))

-- Where the cooldown holds nothing back, the deliveries of the alert were made before it.
pub IsFree-of_cooldown :
    (w : World) (tenant channel : ℕ) (code : AlertCode) (minutes now : ℕ)
    → is_in_cooldown w tenant channel code minutes now ≡ false
    → IsFree tenant minutes now channel code w.alert_deliveries
unfolding is_in_cooldown
IsFree-of_cooldown w tenant channel code minutes now h =
    All-map (λ d. is_recent_delivery tenant channel code (now - minutes * 60) d ≡ false)
      (λ e. is_slot tenant channel code e ≡ true → e.created_at + minutes * 60 < now)
      (λ d old own. before d old own) w.alert_deliveries
      (none_counted (is_recent_delivery tenant channel code (now - minutes * 60)) w.alert_deliveries
        h)
  where
    before :
        (d : Delivery)
        → is_recent_delivery tenant channel code (now - minutes * 60) d ≡ false
        → is_slot tenant channel code d ≡ true
        → d.created_at + minutes * 60 < now
    before d old own = ground arith

module _ (m : Mailer) (tenant minutes now channel : ℕ) (code : AlertCode) where
  -- The slot of a new row.
  new_slot :
      (c : AlertChannel) (route : Route) (n : Notice) (w : World) (a : Alert)
      → is_slot tenant channel code (new_delivery m tenant now c route n w a) ≡ true
      → (c.id ≡ channel) × (a.code ≡ code)
  new_slot c route n w a h = (ground arith, (alert_code_beq_iff a.code code).0 (ground arith))

  other_slot :
      (c : AlertChannel) (route : Route) (n : Notice) (w : World) (a b : Alert)
      → (a.code == b.code) ≡ false
      → is_slot tenant c.id b.code (new_delivery m tenant now c route n w a) ≡ true
      → ⊥
  other_slot c route n w a b differ own = ground arith

  pub record_deliveries-IsSpaced :
      (c : AlertChannel) (route : Route) (n : Notice) (alerts : List Alert) (w : World)
      (r : DeliveryReport)
      → AreDistinct alerts
      → All (λ a. IsFree tenant minutes now c.id a.code w.alert_deliveries) alerts
      → IsSpaced tenant minutes channel code w.alert_deliveries
      → IsSpaced tenant minutes channel code
          (record_deliveries m tenant now c route n alerts (w, r)).0.alert_deliveries
  unfolding record_deliveries record_delivery
  record_deliveries-IsSpaced c route n [] w r distinct free spaced = spaced
  record_deliveries-IsSpaced c route n (a ∷ alerts) w r distinct free spaced =
      let d = new_delivery m tenant now c route n w a in
      let (w₁, r₁) = record_delivery m tenant now c route n a (w, r) in
      record_deliveries-IsSpaced c route n alerts w₁ r₁ distinct.1
        (All-both (λ b. (a.code == b.code) ≡ false)
          (λ b. IsFree tenant minutes now c.id b.code w.alert_deliveries)
          (λ b. IsFree tenant minutes now c.id b.code (w.alert_deliveries ++ d ∷ []))
          (λ b differ old.
            All-append
              (λ e. is_slot tenant c.id b.code e ≡ true → e.created_at + minutes * 60 < now)
              w.alert_deliveries (d ∷ []) old
              ((λ own. absurd (other_slot c route n w a b differ own)), tt))
          alerts distinct.0 free.1)
        (IsSpaced-append tenant minutes channel code w.alert_deliveries d spaced (λ own.
          let (at, it) = new_slot c route n w a own in
          subst (λ k. IsFree tenant minutes now k code w.alert_deliveries) at
            (subst (λ k. IsFree tenant minutes now c.id k w.alert_deliveries) it free.0)))

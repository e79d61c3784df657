-- ===== src/Alerts/Open.antt =====
-- The open incidents: no two rows of a key are acknowledged, so the lookup never fails.
use multi_tenant_agentic_wor.Base.{
  ℕ, ◌+◌, ◌≤◌, ◌≡◌, refl, sym, subst, ◌∙◌, String, Bool, true, false, ◌&&◌, Option, none, some,
  List, [], ◌∷◌, length, arith, ◌==◌, if◌then◌else◌, select_where, update_where, count_where,
  count_where-append, Bool-cases, inl, inr, ok, >>=-eq-ok, ok-value, nat_eq, nat_beq_iff, string_eq,
  eq_iff,
}
use multi_tenant_agentic_wor.Tables.{User, Acknowledgement}
use multi_tenant_agentic_wor.Store.{World}
use multi_tenant_agentic_wor.Texts.{Texts}
use multi_tenant_agentic_wor.Health.{Alert}
use multi_tenant_agentic_wor.Alerts.Incidents.{
  is_open, one_or_none, open_acknowledgement, incident_key_for_alerts, current_context,
  found_key_or, acknowledged_row, new_acknowledgement, renewed, resolved_row, write_acknowledgement,
  write_resolution, acknowledge_incident, resolve_incident,
}

-- At most one row of a tenant and a key is acknowledged.
abbrev pub HasOneOpen : World → Type 0
HasOneOpen w = (tenant : ℕ) (key : String) → count_where (is_open tenant key) w.acknowledgements ≤ 1

length-select_where :
    (p : Acknowledgement → Bool) (rows : List Acknowledgement)
    → length (select_where p rows) ≡ count_where p rows
unfolding select_where count_where
length-select_where p [] = refl
length-select_where p (a ∷ rows) = ground (arith, length-select_where p rows)

one_or_none-found :
    (rows : List Acknowledgement)
    → length rows ≤ 1
    → (found : Option Acknowledgement) × (one_or_none rows ≡ ok found)
one_or_none-found [] h = (none, refl)
one_or_none-found (a ∷ []) h = (some a, refl)
one_or_none-found (a ∷ b ∷ rows) h = absurd (omega (arith, h))

one_or_none-none : (rows : List Acknowledgement) → one_or_none rows ≡ ok none → length rows ≡ 0
one_or_none-none [] h = refl
one_or_none-none (a ∷ []) h = cc
one_or_none-none (a ∷ b ∷ rows) h = cc

count_where-rewrite-le :
    (p q : Acknowledgement → Bool) (f : Acknowledgement → Acknowledgement)
    (rows : List Acknowledgement)
    → ((a : Acknowledgement) → q a ≡ true → p (f a) ≡ true → p a ≡ true)
    → count_where p (update_where q f rows) ≤ count_where p rows
unfolding count_where update_where
count_where-rewrite-le p q f [] keep = omega arith
count_where-rewrite-le p q f (a ∷ rows) keep =
    ground (arith, keep a, count_where-rewrite-le p q f rows keep)

stays_open :
    (a b c d e : Bool) → (a && b && c) ≡ true → (d && e && true) ≡ true → (d && e && c) ≡ true
stays_open a b c d e own other = ground arith

is_closed : (c d e : Bool) → (d && e && false) ≡ true → (d && e && c) ≡ true
is_closed c d e closed = ground arith

grows_to_one : {n : ℕ} (b : Bool) → n ≡ 0 → n + (if b then 1 else 0) ≤ 1
grows_to_one true h = omega (arith, h)
grows_to_one false h = omega (arith, h)

stays_at_most : {n : ℕ} {b : Bool} → n ≤ 1 → b ≡ false → n + (if b then 1 else 0) ≤ 1
stays_at_most h e = ground arith

both_true : (d e : Bool) → (d && e && true) ≡ true → (d ≡ true) × (e ≡ true)
both_true d e h = (ground arith, ground arith)

module _ (clean : String → String) (w : World) (user : User) (remark : Option String) where
  write_acknowledgement-HasOneOpen :
      (tenant : ℕ) (alerts : List Alert) (key : String) (found : Option Acknowledgement)
      → open_acknowledgement w tenant (some key) ≡ ok found
      → HasOneOpen w
      → HasOneOpen (write_acknowledgement clean w tenant user alerts remark key found)
  unfolding write_acknowledgement open_acknowledgement new_acknowledgement renewed acknowledged_row
  write_acknowledgement-HasOneOpen tenant alerts key none h one tenant' key' =
      let row = new_acknowledgement clean w.clock user alerts remark w.next_id tenant key in
      let rows = w.acknowledgements in
      let grown = count_where-append (is_open tenant' key') rows row in
      elim (Bool-cases (is_open tenant' key' row)) [
        | inl own ↦
            let same = both_true (tenant == tenant') (key == key') own in
            let closed =
              subst (λ k. count_where (is_open tenant' k) rows ≡ 0) ((eq_iff key key').0 same.1)
                (subst (λ i. count_where (is_open i key) rows ≡ 0)
                  ((nat_beq_iff tenant tenant').0 same.0)
                  (sym (length-select_where (is_open tenant key) rows)
                    ∙ one_or_none-none (select_where (is_open tenant key) rows) h)) in
            subst (λ n. n ≤ 1) (sym grown) (grows_to_one (is_open tenant' key' row) closed)
        | inr other ↦ subst (λ n. n ≤ 1) (sym grown) (stays_at_most (one tenant' key') other)
      ]
  write_acknowledgement-HasOneOpen tenant alerts key (some a) h one tenant' key' = omega (
    arith,
    one tenant' key',
    count_where-rewrite-le (is_open tenant' key') (is_open tenant key)
        (renewed clean w.clock user alerts remark) w.acknowledgements
        (λ a own other.
          stays_open (a.tenant_id == tenant) (a.incident_key == key) (a.status == "acknowledged")
            (a.tenant_id == tenant') (a.incident_key == key') own other),
  )

  write_resolution-HasOneOpen :
      (w' : World) (tenant : ℕ) (key : Option String) (found : Option Acknowledgement)
      → write_resolution clean w tenant user remark key found ≡ ok w'
      → HasOneOpen w
      → HasOneOpen w'
  unfolding write_resolution
  write_resolution-HasOneOpen w' tenant none found h one = cc
  write_resolution-HasOneOpen w' tenant (some key) none h one = cc
  write_resolution-HasOneOpen w' tenant (some key) (some a) h one =
      subst HasOneOpen (ok-value h) (λ tenant' key'. omega (
        arith,
        one tenant' key',
        count_where-rewrite-le (is_open tenant' key') (is_open tenant key)
            (resolved_row clean w.clock user remark) w.acknowledgements
            (λ a own other.
              is_closed (a.status == "acknowledged") (a.tenant_id == tenant')
                (a.incident_key == key') other),
      ))

-- The requests of users; `elsewhere` is any other part of the system.
pub data IncidentStep (t : Texts) (clean : String → String) : World → World → Type 0 where
  acknowledges :
      {w w' : World} (tenant hours : ℕ) (user : User) (remark : Option String)
      → acknowledge_incident t clean w tenant user remark hours ≡ ok w'
      → IncidentStep t clean w w'
  resolves :
      {w w' : World} (tenant hours : ℕ) (user : User) (remark : Option String)
      → resolve_incident t clean w tenant user remark hours ≡ ok w'
      → IncidentStep t clean w w'
  elsewhere : {w w' : World} → w'.acknowledgements ≡ w.acknowledgements → IncidentStep t clean w w'

pub data IncidentReach (t : Texts) (clean : String → String) (w : World) : World → Type 0 where
  here : IncidentReach t clean w w
  next :
      {v u : World}
      → IncidentReach t clean w v
      → IncidentStep t clean v u
      → IncidentReach t clean w u

-- Every lookup of an open incident answers.
abbrev pub LookupAnswers : World → Type 0
LookupAnswers w =
    (tenant : ℕ) (key : Option String)
    → (found : Option Acknowledgement) × (open_acknowledgement w tenant key ≡ ok found)

HasOneOpen-LookupAnswers : (w : World) → HasOneOpen w → LookupAnswers w
unfolding open_acknowledgement
HasOneOpen-LookupAnswers w one tenant none = (none, refl)
HasOneOpen-LookupAnswers w one tenant (some key) =
    let rows = w.acknowledgements in
    one_or_none-found (select_where (is_open tenant key) rows)
      (omega (arith, length-select_where (is_open tenant key) rows, one tenant key))

module _ (t : Texts) (clean : String → String) where
  IncidentStep-HasOneOpen :
      {w w' : World} → IncidentStep t clean w w' → HasOneOpen w → HasOneOpen w'
  unfolding acknowledge_incident resolve_incident
  IncidentStep-HasOneOpen (acknowledges {w} tenant hours user remark h) one =
      let ((p, alerts), _, h₁) = >>=-eq-ok (current_context t w tenant hours) _ h in
      let (key, _, h₂) = >>=-eq-ok (found_key_or (incident_key_for_alerts alerts)) _ h₁ in
      let (found, looked, h₃) = >>=-eq-ok (open_acknowledgement w tenant (some key)) _ h₂ in
      subst HasOneOpen (ok-value h₃)
        (write_acknowledgement-HasOneOpen clean w user remark tenant alerts key found looked one)
  IncidentStep-HasOneOpen (resolves {w} {w'} tenant hours user remark h) one =
      let ((p, alerts), _, h₁) = >>=-eq-ok (current_context t w tenant hours) _ h in
      let key = incident_key_for_alerts alerts in
      let (found, looked, h₂) = >>=-eq-ok (open_acknowledgement w tenant key) _ h₁ in
      write_resolution-HasOneOpen clean w user remark w' tenant key found h₂ one
  IncidentStep-HasOneOpen (elsewhere same) one = λ tenant key.
      subst (λ rows. count_where (is_open tenant key) rows ≤ 1) (sym same) (one tenant key)

  IncidentReach-HasOneOpen : {w v : World} → IncidentReach t clean w v → HasOneOpen w → HasOneOpen v
  IncidentReach-HasOneOpen here one = one
  IncidentReach-HasOneOpen (next r s) one =
      IncidentStep-HasOneOpen s (IncidentReach-HasOneOpen r one)

  -- If at most one acknowledgement of a tenant is open for each incident, this holds after any
  -- sequence of acknowledgements, resolutions and steps elsewhere that leave the acknowledgements
  -- as they are, and then the lookup of an open acknowledgement never finds several rows.
  pub IncidentReach-LookupAnswers :
      {w v : World} → IncidentReach t clean w v → HasOneOpen w → HasOneOpen v × LookupAnswers v
  IncidentReach-LookupAnswers {v = v} r one =
      let open_once = IncidentReach-HasOneOpen r one in
      (open_once, HasOneOpen-LookupAnswers v open_once)

-- ===== src/Automation/Claims.antt =====
-- The plans that a run of the worker claims are ready for it, and what the run shows of the plans.
use multi_tenant_agentic_wor.Base.{
  ℕ, zero, suc, ◌≡◌, Bool, true, Option, none, some, List, [], ◌∷◌, map, take, arith, All,
  select_where, nat_eq, Bool-cases, inl, inr,
}
use multi_tenant_agentic_wor.Tables.{Plan, approved, plan_status_eq, plan_status_beq_iff}
use multi_tenant_agentic_wor.Store.{World}
use multi_tenant_agentic_wor.Texts.{Texts}
use multi_tenant_agentic_wor.Automation.{empty_result}
use multi_tenant_agentic_wor.Automation.Plans.{find_plan}
use multi_tenant_agentic_wor.Automation.Worker.{
  Outside, is_asked, is_earlier, insert_approved, order_approved, claim, run_once,
}
use multi_tenant_agentic_wor.Automation.Approval.{Lives, view}
use multi_tenant_agentic_wor.Automation.Moves.{IsKeyed}
use multi_tenant_agentic_wor.Automation.Runs.{IsReady, process_plans-Lives}

module _ {κ} (P : Plan → Type κ) where
  All-selected :
      (q : Plan → Bool) (ps : List Plan)
      → All P ps
      → All (λ p. P p × (q p ≡ true)) (select_where q ps)
  unfolding select_where
  All-selected q [] h = tt
  All-selected q (p ∷ ps) h = elim (Bool-cases (q p)) [
    | inl hit ↦ rw hit ((h.0, hit), All-selected q ps h.1)
    | inr miss ↦ rw miss (All-selected q ps h.1)
  ]

  All-take : (n : ℕ) (ps : List Plan) → All P ps → All P (take n ps)
  All-take zero ps h = tt
  All-take (suc n) [] h = tt
  All-take (suc n) (p ∷ ps) h = (h.0, All-take n ps h.1)

  module _ (t : Texts) (o : Outside) where
    All-insert_approved :
        (x : Plan) (ps : List Plan) → P x → All P ps → All P (insert_approved t o x ps)
    unfolding insert_approved
    All-insert_approved x [] hx h = (hx, tt)
    All-insert_approved x (p ∷ ps) hx h = elim (Bool-cases (is_earlier t o x p)) [
      | inl before ↦ rw before (hx, (h.0, h.1))
      | inr after ↦ rw after (h.0, All-insert_approved x ps hx h.1)
    ]

    All-order_approved : (ps : List Plan) → All P ps → All P (order_approved t o ps)
    unfolding order_approved
    All-order_approved [] h = tt
    All-order_approved (p ∷ ps) h =
        All-insert_approved p (order_approved t o ps) h.0 (All-order_approved ps h.1)

module _ (t : Texts) (o : Outside) where
  asked_is_approved :
      (tenant : Option ℕ) (p : Plan) → is_asked t o tenant p ≡ true → p.status ≡ approved
  asked_is_approved none p h = (plan_status_beq_iff p.status approved).0 h
  asked_is_approved (some tenant) p h = (plan_status_beq_iff p.status approved).0 (ground arith)

  ids-IsReady :
      (w : World) (ps : List Plan)
      → All (λ p. (find_plan w p.id ≡ some p) × (p.status ≡ approved)) ps
      → All (λ i. IsReady (view w i)) (map (λ p. p.id) ps)
  ids-IsReady w [] h = tt
  ids-IsReady w (p ∷ ps) h = (rw (h.0.0) (inl (h.0.1)), ids-IsReady w ps h.1)

  pub claim-IsReady :
      (w : World) (limit : ℕ) (tenant : Option ℕ)
      → IsKeyed w
      → All (λ i. IsReady (view w i)) (map (λ p. p.id) (claim t o w limit tenant))
  unfolding claim
  claim-IsReady w limit tenant keyed =
      let P = λ (p : Plan). (find_plan w p.id ≡ some p) × (p.status ≡ approved) in
      ids-IsReady w _ (
        All-take P limit _ (
          All-order_approved P t o _ (
            All-weaken (select_where (is_asked t o tenant) w.plans) (
              All-selected (λ p. find_plan w p.id ≡ some p) (is_asked t o tenant) w.plans
                keyed.unique))))
    where
      All-weaken :
          (ps : List Plan)
          → All (λ p. (find_plan w p.id ≡ some p) × (is_asked t o tenant p ≡ true)) ps
          → All (λ p. (find_plan w p.id ≡ some p) × (p.status ≡ approved)) ps
      All-weaken [] h = tt
      All-weaken (p ∷ ps) h = ((h.0.0, asked_is_approved tenant p (h.0.1)), All-weaken ps (h.1))

  pub run_once-Lives :
      (w : World) (limit : ℕ) (tenant : Option ℕ)
      → IsKeyed w
      → (j : ℕ) → Lives (view w j) (view (run_once t o w limit tenant).0 j)
  unfolding run_once
  run_once-Lives w limit tenant keyed j =
      process_plans-Lives t o _ w empty_result (claim-IsReady w limit tenant keyed) j

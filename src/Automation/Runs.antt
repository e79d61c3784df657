-- ===== src/Automation/Runs.antt =====
-- A run of the plan worker ends plans that were approved, and leaves the others. The plans under any
-- sequence of operations follow their life.
use multi_tenant_agentic_wor.Base.{
  ℕ, ◌+◌, ◌≡◌, ◌⊎◌, refl, sym, ap, subst, ◌∙◌, String, true, Option, none, some, List, [], ◌∷◌,
  arith, ◌==◌, is_empty, All, All-map, find_where, find_where-holds, nat_eq, nat_beq_iff, string_eq,
  Bool-cases, inl, inr, Result, ok, err, >>=-eq-ok, >>-eq-ok,
}
use multi_tenant_agentic_wor.Tables.{Plan, PlanStatus, approved, plan_failed, plan_status_eq}
use multi_tenant_agentic_wor.Store.{World, Execution}
use multi_tenant_agentic_wor.Texts.{Texts}
use multi_tenant_agentic_wor.Executions.{
  HttpError, or_raise, find_own, retry_dead_letter_execution, insert_execution,
}
use multi_tenant_agentic_wor.Executions.Admission.{create_execution_ok}
use multi_tenant_agentic_wor.Store.Writes.{invalidate_tenant_cache}
use multi_tenant_agentic_wor.Automation.{WorkerResult}
use multi_tenant_agentic_wor.Automation.Plans.{find_plan, write_plan}
use multi_tenant_agentic_wor.Health.{get_dispatch_health}
use multi_tenant_agentic_wor.Automation.Worker.{
  Outside, Outcome, is_terminal, reasons, retry_actor_id, execute_resume_guard, resume_workflows,
  find_dead_letter_retry_source, retried, retry_from, execute_approval_gated_retry, execute_plan,
  start, finish, fail, carry_out, process_found, process_plan, process_plans,
}
use multi_tenant_agentic_wor.Automation.Approval.{
  View, is_end, Life, Lives, Lives-trans, view_of, view,
}
use multi_tenant_agentic_wor.Automation.Moves.{find_plan-write_other, find_plan-write_self}

-- What carrying a plan out may do: it ends in success or blocked, and writes no plan.
pub record Carries (w : World) (r : Outcome × World) : Type 0 where
  pub ends : is_end r.0.0 ≡ true
  pub plans : r.1.plans ≡ w.plans

-- What a run shows of a plan: nothing, or that an approved plan ended.
pub data Settled (u v : View) : Type 0 where
  kept : v ≡ u → Settled u v
  ended :
      (a : Option ℕ) (s : PlanStatus)
      → u ≡ some (approved, a)
      → is_end s ≡ true
      → v ≡ some (s, a)
      → Settled u v

module _ (t : Texts) (o : Outside) where
  retry-plans :
      (w w' : World) (tenant i user : ℕ) (x : Execution)
      → retry_dead_letter_execution t w tenant i user ≡ ok (x, w')
      → w'.plans ≡ w.plans
  unfolding retry_dead_letter_execution insert_execution invalidate_tenant_cache
  retry-plans w w' tenant i user x h =
      let (y, _, h₁) = >>=-eq-ok (or_raise (find_own w tenant i) _) _ h in
      let (_, h₂) = (>>-eq-ok _ _).0 h₁ in
      let (_, (_, same)) = create_execution_ok t w tenant y.workflow_id _ x w' h₂ in rw same refl

  retried-Carries :
      (w : World) (p : Plan) (source : Execution) (r : Result HttpError (Execution × World))
      → retry_dead_letter_execution t w p.tenant_id source.id (retry_actor_id p) ≡ r
      → Carries w (retried t o w p source r)
  unfolding retried
  retried-Carries w p source (err e) h = record { ends = refl; plans = refl }
  retried-Carries w p source (ok (x, w')) h = record {
    ends = refl;
    plans = retry-plans w w' p.tenant_id source.id (retry_actor_id p) x h;
  }

  retry_from-Carries :
      (w : World) (p : Plan) (source : Option Execution) → Carries w (retry_from t o w p source)
  unfolding retry_from
  retry_from-Carries w p none = record { ends = refl; plans = refl }
  retry_from-Carries w p (some x) = retried-Carries w p x _ refl

  guard-Carries : (w : World) (p : Plan) → Carries w (execute_resume_guard t o w p)
  unfolding execute_resume_guard resume_workflows
  guard-Carries w p =
      elim (Bool-cases (is_empty (reasons (get_dispatch_health t w p.tenant_id 24)))) [
        | inl safe ↦ rw safe (record { ends = refl; plans = refl })
        | inr unsafe ↦ rw unsafe (record { ends = refl; plans = refl })
      ]

  pub execute_plan-Carries : (w : World) (p : Plan) → Carries w (execute_plan t o w p)
  unfolding execute_plan execute_approval_gated_retry
  execute_plan-Carries w p = elim (Bool-cases (p.automation_type == "resume_guard")) [
    | inl resumes ↦ rw resumes (guard-Carries w p)
    | inr other ↦ rw other (elim (Bool-cases (p.automation_type == "approval_gated_retry")) [
      | inl retries ↦ rw retries (retry_from-Carries w p (find_dead_letter_retry_source t o w p))
      | inr unknown ↦ rw unknown (record { ends = refl; plans = refl })
    ])
  ]

  -- The two writes of a plan that is carried out.
  settle :
      (g : Plan → Plan) (s : PlanStatus) (w v : World) (p : Plan)
      → ((q : Plan) → (g q).id ≡ q.id)
      → ((q : Plan) → (g q).approved_by ≡ q.approved_by)
      → ((q : Plan) → (g q).status ≡ s)
      → is_end s ≡ true
      → find_plan w p.id ≡ some p
      → p.status ≡ approved
      → v.plans ≡ (write_plan p.id (start t o) w).plans
      → (j : ℕ) → Settled (view w j) (view (write_plan p.id g v) j)
  unfolding find_plan start
  settle g s w v p same approver status end found ready plans j = elim (Bool-cases (p.id == j)) [
    | inl own ↦
        let it : p.id ≡ j = (nat_beq_iff p.id j).0 own in
        let there : find_plan v p.id ≡ some (start t o p) =
          ap (find_where (λ q. q.id == p.id)) plans
          ∙ find_plan-write_self (start t o) p.id w (λ q. refl) p found in
        subst (λ k. Settled (view w k) (view (write_plan p.id g v) k)) it
          (Settled.ended p.approved_by s (rw (found, ready) refl) end (
            rw (find_plan-write_self g p.id v same (start t o p) there)
              (rw (status (start t o p), approver (start t o p)) refl)))
    | inr other ↦ Settled.kept (
        ap view_of (
          find_plan-write_other g p.id v same j other
          ∙ ap (find_where (λ q. q.id == j)) plans
          ∙ find_plan-write_other (start t o) p.id w (λ q. refl) j other))
  ]

-- A plan that the worker may be given: it is approved, or it is skipped.
abbrev pub IsReady : View → Type 0
IsReady none = ⊥
IsReady (some (s, a)) = (s ≡ approved) ⊎ (is_terminal s ≡ true)

pub end_is_terminal : (s : PlanStatus) → is_end s ≡ true → is_terminal s ≡ true
end_is_terminal s h = ground arith

pub Settled-IsReady : {u v : View} → Settled u v → IsReady u → IsReady v
Settled-IsReady (kept same) h = subst IsReady (sym same) h
Settled-IsReady (ended a s was end now) h = subst IsReady (sym now) (inr (end_is_terminal s end))

pub Settled-Lives : {u v : View} → Settled u v → Lives u v
Settled-Lives {u} (kept same) = subst (Lives u) (sym same) Lives.here
Settled-Lives {u} {v} (ended a s was end now) =
    subst (λ x. Lives x v) (sym was)
      (subst (Lives (some (approved, a))) (sym now)
        (Lives.next (Lives.next Lives.here (Life.starts a)) (Life.ends a s end)))

module _ (t : Texts) (o : Outside) where
  carry_out-Settled :
      (error : Option String) (w : World) (p : Plan) (r : WorkerResult)
      → find_plan w p.id ≡ some p
      → p.status ≡ approved
      → (j : ℕ)
      → Settled
          (view w j)
          (view (carry_out t o error (start t o p) (write_plan p.id (start t o) w) r).0 j)
  unfolding carry_out start
  carry_out-Settled (some error) w p r found ready j =
      settle t o (fail t o w.clock error) plan_failed w (write_plan p.id (start t o) w) p
        (unfold fail in (λ q. refl)) (unfold fail in (λ q. refl)) (unfold fail in (λ q. refl)) refl
        found ready refl j
  carry_out-Settled none w p r found ready j =
      let w₁ = write_plan p.id (start t o) w in
      let done = execute_plan t o w₁ (start t o p) in
      let c = execute_plan-Carries t o w₁ (start t o p) in
      settle t o (finish t o done.1.clock done.0) done.0.0 w done.1 p (unfold finish in (λ q. refl))
        (unfold finish in (λ q. refl)) (unfold finish in (λ q. refl)) c.ends found ready c.plans j

  process_found-Settled :
      (found : Option Plan) (w : World) (r : WorkerResult)
      → ((p : Plan) → found ≡ some p → find_plan w p.id ≡ some p)
      → IsReady (view_of found)
      → (j : ℕ) → Settled (view w j) (view (process_found t o found w r).0 j)
  unfolding process_found
  process_found-Settled none w r row ready j = kept refl
  process_found-Settled (some p) w r row ready j = elim (Bool-cases (is_terminal p.status)) [
    | inl over ↦ rw over (kept refl)
    | inr open_ ↦
        let live : p.status ≡ approved = elim ready [ inl e ↦ e | inr e ↦ cc ] in
        rw open_ (
          carry_out-Settled (o.interrupted (write_plan p.id (start t o) w) (start t o p)) w p
            (record r { claimed = r.claimed + 1 }) (row p refl) live j)
  ]

  process_plan-Settled :
      (i : ℕ) (w : World) (r : WorkerResult)
      → IsReady (view w i)
      → (j : ℕ) → Settled (view w j) (view (process_plan t o i w r).0 j)
  unfolding process_plan find_plan
  process_plan-Settled i w r ready j =
      process_found-Settled (find_plan w i) w r
        (λ p found.
          let own : p.id ≡ i =
            (nat_beq_iff p.id i).0 (find_where-holds (λ q. q.id == i) w.plans p found) in
          subst (λ k. find_plan w k ≡ some p) (sym own) found)
        ready j

  pub process_plans-Lives :
      (is : List ℕ) (w : World) (r : WorkerResult)
      → All (λ i. IsReady (view w i)) is
      → (j : ℕ) → Lives (view w j) (view (process_plans t o is w r).0 j)
  unfolding process_plans
  process_plans-Lives [] w r ready j = Lives.here
  process_plans-Lives (i ∷ is) w r ready j =
      let (w₁, r₁) = process_plan t o i w r in
      let settled = process_plan-Settled i w r (ready.0) in
      Lives-trans (Settled-Lives (settled j)) (
        process_plans-Lives is w₁ r₁
          (All-map (λ k. IsReady (view w k)) (λ k. IsReady (view w₁ k))
            (λ k h. Settled-IsReady (settled k) h) is (ready.1))
          j)

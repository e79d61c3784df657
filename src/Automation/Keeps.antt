-- ===== src/Automation/Keeps.antt =====
-- What a request and a write of the worker keep of what holds between its steps.
use multi_tenant_agentic_wor.Base.{
  ℕ, ◌≡◌, refl, sym, subst, true, false, some, List, ◌==◌, All, All-map, nat_eq, inl, inr,
}
use multi_tenant_agentic_wor.Tables.{Plan, PlanStatus, approved, plan_status_eq}
use multi_tenant_agentic_wor.Store.{World}
use multi_tenant_agentic_wor.Texts.{Texts}
use multi_tenant_agentic_wor.Automation.Plans.{find_plan, write_plan}
use multi_tenant_agentic_wor.Automation.Worker.{Outside, is_terminal, start}
use multi_tenant_agentic_wor.Automation.Approval.{
  is_end, Ask, Life, Lives, Shows, Shows-Lives, view_of, view,
}
use multi_tenant_agentic_wor.Automation.Moves.{find_plan-write_self, view-write_plan}
use multi_tenant_agentic_wor.Automation.Runs.{IsReady}
use multi_tenant_agentic_wor.Automation.Sites.{Doing, idle, started, carried, site}
use multi_tenant_agentic_wor.Automation.Ready.{
  IsExecuting, IsDoing, ReadyFor, Sound, asked, executing_fixed, ready_fixed, executing_plan,
  written-others, written-IsReady,
}

asked-IsDoing :
    (w w' : World) (d : Doing)
    → ((i : ℕ) → Shows Ask (view w i) (view w' i))
    → IsDoing d w
    → IsDoing d w'
asked-IsDoing w w' idle asks h = tt
asked-IsDoing w w' (started i) asks h = asked IsExecuting executing_fixed (asks i) h
asked-IsDoing w w' (carried i r) asks h = (asked IsExecuting executing_fixed (asks i) (h.0), h.1)

asked-ReadyFor :
    (w w' : World) (d : Doing)
    → ((i : ℕ) → Shows Ask (view w i) (view w' i))
    → (k : ℕ) → ReadyFor d w k
    → ReadyFor d w' k
asked-ReadyFor w w' idle asks k h = asked IsReady ready_fixed (asks k) h
asked-ReadyFor w w' (started i) asks k h = λ other. asked IsReady ready_fixed (asks k) (h other)
asked-ReadyFor w w' (carried i r) asks k h = λ other. asked IsReady ready_fixed (asks k) (h other)

pub asked-Sound :
    (w w' : World) (left : List ℕ) (d : Doing)
    → ((i : ℕ) → Shows Ask (view w i) (view w' i))
    → Sound (site w left d)
    → Sound (site w' left d)
asked-Sound w w' left d asks h = record {
  doing = asked-IsDoing w w' d asks h.doing;
  left = All-map (ReadyFor d w) (ReadyFor d w') (asked-ReadyFor w w' d asks) left h.left;
}

-- A plan that is ready and has not ended is approved.
pub ready_live :
    (w : World) (i : ℕ) (p : Plan)
    → find_plan w i ≡ some p
    → IsReady (view w i)
    → is_terminal p.status ≡ false
    → p.status ≡ approved
ready_live w i p found ready live = elim (subst (λ o. IsReady (view_of o)) found ready) [
  | inl e ↦ e
  | inr over ↦ cc
]

-- A write that ends the plan at which the worker is, which is executing.
module _ (f : Plan → Plan) (s : PlanStatus) (i : ℕ) (w : World)
    (same : (p : Plan) → (f p).id ≡ p.id)
    (approver : (p : Plan) → (f p).approved_by ≡ p.approved_by)
    (status : (p : Plan) → (f p).status ≡ s) (end : is_end s ≡ true)
    (live : IsExecuting (view w i)) where
  pub ended-Lives : (j : ℕ) → Lives (view w j) (view (write_plan i f w) j)
  ended-Lives j =
      let (p, found, executes) = executing_plan w i live in
      Shows-Lives (
        view-write_plan f i w same Life p found
          (rw (status p, approver p, executes) (Life.ends p.approved_by s end)) j)

  pub ended-Sound :
      (is : List ℕ)
      → All (λ k. (i == k) ≡ false → IsReady (view w k)) is
      → Sound (site (write_plan i f w) is idle)
  ended-Sound is ready =
      let (p, found, executes) = executing_plan w i live in
      record { doing = tt; left = written-IsReady f i w same p found (rw (status p) end) is ready }

module _ (t : Texts) (o : Outside) where
  pub start-Lives :
      (w : World) (i : ℕ) (p : Plan)
      → find_plan w i ≡ some p
      → p.status ≡ approved
      → (j : ℕ) → Lives (view w j) (view (write_plan i (start t o) w) j)
  unfolding start
  start-Lives w i p found live j = Shows-Lives (
      view-write_plan (start t o) i w (λ q. refl) Life p found (rw live (Life.starts p.approved_by))
        j)

  pub start-Sound :
      (w : World) (i : ℕ) (is : List ℕ) (p : Plan)
      → find_plan w i ≡ some p
      → All (λ k. IsReady (view w k)) is
      → Sound (site (write_plan i (start t o) w) is (started i))
  unfolding start
  start-Sound w i is p found ready = record {
    doing =
        subst (λ q. IsExecuting (view_of q))
          (sym (find_plan-write_self (start t o) i w (λ q. refl) p found)) refl;
    left =
        written-others (start t o) i w (λ q. refl) is
          (All-map (λ k. IsReady (view w k)) (λ k. (i == k) ≡ false → IsReady (view w k))
            (λ k h _. h) is ready);
  }

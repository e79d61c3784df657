-- ===== src/Automation/Lifetime.antt =====
-- The plans under any steps of the users and of the worker follow their life.
use multi_tenant_agentic_wor.Base.{ℕ, ◌≡◌, refl, sym, subst, false, [], ◌==◌, nat_eq, All-map}
use multi_tenant_agentic_wor.Tables.{plan_failed}
use multi_tenant_agentic_wor.Store.{World}
use multi_tenant_agentic_wor.Texts.{Texts}
use multi_tenant_agentic_wor.Automation.Worker.{Outside, finish, fail, execute_plan}
use multi_tenant_agentic_wor.Automation.Approval.{
  HasApprover, Lives, Lives-trans, Lives-HasApprover, Asks-Lives, view,
}
use multi_tenant_agentic_wor.Automation.Moves.{IsKeyed}
use multi_tenant_agentic_wor.Automation.Runs.{IsReady, execute_plan-Carries}
use multi_tenant_agentic_wor.Automation.Claims.{claim-IsReady, run_once-Lives}
use multi_tenant_agentic_wor.Automation.Sites.{
  idle, Site, site, Request-Asks, PlanStep, kept-view, requests, claims, skips, begins, carries,
  finishes, fails, aborts, dies, runs,
}
use multi_tenant_agentic_wor.Automation.Ready.{IsExecuting, IsDoing, Sound}
use multi_tenant_agentic_wor.Automation.Keeps.{
  asked-Sound, ready_live, ended-Lives, ended-Sound, start-Lives, start-Sound,
}

-- The database keeps the identifiers of the table apart.
pub data PlanReach (t : Texts) (o : Outside) (s : Site) : Site → Type 0 where
  here : PlanReach t o s s
  next : {v u : Site} → PlanReach t o s v → IsKeyed v.world → PlanStep t o v u → PlanReach t o s u

module _ (t : Texts) (o : Outside) where
  PlanStep-Lives :
      {s s' : Site}
      → PlanStep t o s s'
      → IsKeyed s.world
      → Sound s
      → (j : ℕ) → Lives (view s.world j) (view s'.world j)
  unfolding finish fail
  PlanStep-Lives (requests left d q) keyed h j = Asks-Lives (Request-Asks q keyed j)
  PlanStep-Lives (claims w limit tenant) keyed h j = Lives.here
  PlanStep-Lives (skips w i is p found over) keyed h j = Lives.here
  PlanStep-Lives (begins w i is p found live) keyed h j =
      start-Lives t o w i p found (ready_live w i p found (h.left.0) live) j
  PlanStep-Lives (carries w i is p found) keyed h j =
      let same = kept-view w (execute_plan t o w p).1 (execute_plan-Carries t o w p).plans j in
      subst (Lives (view w j)) (sym same) Lives.here
  PlanStep-Lives (finishes w i is r) keyed h j =
      ended-Lives (finish t o w.clock r) r.0 i w (λ p. refl) (λ p. refl) (λ p. refl) (h.doing.1)
        (h.doing.0) j
  PlanStep-Lives (fails w i is error) keyed h j =
      ended-Lives (fail t o w.clock error) plan_failed i w (λ p. refl) (λ p. refl) (λ p. refl) refl
        h.doing j
  PlanStep-Lives (aborts w i is r error) keyed h j =
      ended-Lives (fail t o w.clock error) plan_failed i w (λ p. refl) (λ p. refl) (λ p. refl) refl
        (h.doing.0) j
  PlanStep-Lives (dies w is d) keyed h j = Lives.here
  PlanStep-Lives (runs w limit tenant) keyed h j = run_once-Lives t o w limit tenant keyed j

  PlanStep-Sound : {s s' : Site} → PlanStep t o s s' → IsKeyed s.world → Sound s → Sound s'
  unfolding finish fail
  PlanStep-Sound (requests {w} {w'} left d q) keyed h =
      asked-Sound w w' left d (Request-Asks q keyed) h
  PlanStep-Sound (claims w limit tenant) keyed h = record {
    doing = tt;
    left = claim-IsReady t o w limit tenant keyed;
  }
  PlanStep-Sound (skips w i is p found over) keyed h = record { doing = tt; left = h.left.1 }
  PlanStep-Sound (begins w i is p found live) keyed h = start-Sound t o w i is p found (h.left.1)
  PlanStep-Sound (carries w i is p found) keyed h =
      let c = execute_plan-Carries t o w p in
      let v = (execute_plan t o w p).1 in
      let same = kept-view w v c.plans in
      record {
        doing = (subst IsExecuting (sym (same i)) h.doing, c.ends);
        left =
            All-map (λ k. (i == k) ≡ false → IsReady (view w k))
              (λ k. (i == k) ≡ false → IsReady (view v k))
              (λ k ready other. subst IsReady (sym (same k)) (ready other)) is h.left;
      }
  PlanStep-Sound (finishes w i is r) keyed h =
      ended-Sound (finish t o w.clock r) r.0 i w (λ p. refl) (λ p. refl) (λ p. refl) (h.doing.1)
        (h.doing.0) is h.left
  PlanStep-Sound (fails w i is error) keyed h =
      ended-Sound (fail t o w.clock error) plan_failed i w (λ p. refl) (λ p. refl) (λ p. refl) refl
        h.doing is h.left
  PlanStep-Sound (aborts w i is r error) keyed h =
      ended-Sound (fail t o w.clock error) plan_failed i w (λ p. refl) (λ p. refl) (λ p. refl) refl
        (h.doing.0) is h.left
  PlanStep-Sound (dies w is d) keyed h = record { doing = tt; left = tt }
  PlanStep-Sound (runs w limit tenant) keyed h = record { doing = tt; left = tt }

  PlanReach-Sound : {s u : Site} → Sound s → PlanReach t o s u → Sound u
  PlanReach-Sound h here = h
  PlanReach-Sound h (next r keyed step) = PlanStep-Sound step keyed (PlanReach-Sound h r)

  Sound-Lives :
      {s u : Site} → Sound s → PlanReach t o s u → (i : ℕ) → Lives (view s.world i) (view u.world i)
  Sound-Lives h here i = Lives.here
  Sound-Lives h (next r keyed step) i =
      Lives-trans (Sound-Lives h r i) (PlanStep-Lives step keyed (PlanReach-Sound h r) i)

  -- With no plan in the hands of the worker, the system takes any sequence of creations, approvals
  -- and rejections by users, of steps elsewhere that leave the plans as they are, and of runs of
  -- the one worker, whole or in parts with other steps between them, and also cut short, where the
  -- identifiers of the plans differ before each step. Then what is seen of a plan has followed the
  -- abstract life of a plan: it is proposed, then approved by a user or rejected, only an approved
  -- plan is executing, and only an executing one ends as executed, blocked or failed. And the plan
  -- at which the worker is is seen as executing.
  pub PlanReach-Lives :
      (w : World) {u : Site}
      → PlanReach t o (site w [] idle) u
      → (i : ℕ) → Lives (view w i) (view u.world i) × IsDoing u.doing u.world
  PlanReach-Lives w r i =
      let nothing : Sound (site w [] idle) = record { doing = tt; left = tt } in
      (Sound-Lives nothing r i, (PlanReach-Sound nothing r).doing)

  -- If every plan that is approved, is executing or has ended has an approver before, it is so after.
  pub PlanReach-HasApprover :
      (w : World) {u : Site}
      → ((i : ℕ) → HasApprover (view w i))
      → PlanReach t o (site w [] idle) u
      → (i : ℕ) → HasApprover (view u.world i)
  PlanReach-HasApprover w approved_before r i =
      Lives-HasApprover (PlanReach-Lives w r i).0 (approved_before i)

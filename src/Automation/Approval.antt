-- ===== src/Automation/Approval.antt =====
-- The life of a plan as its users see it: its status and who approved it. A plan is proposed, approved or
-- rejected by a user, the worker starts an approved plan, and a plan that is executing ends.
use multi_tenant_agentic_wor.Base.{
  ◌⊎◌, inl, inr, sym, subst, ℕ, ◌≡◌, ◌≢◌, refl, Bool, true, ◌||◌, ◌==◌, Option, none, some, nat_eq,
}
use multi_tenant_agentic_wor.Tables.{
  Plan, PlanStatus, pending_approval, approved, rejected, executing, executed, blocked, plan_failed,
  plan_status_eq,
}
use multi_tenant_agentic_wor.Store.{World}
use multi_tenant_agentic_wor.Automation.Plans.{find_plan}

abbrev pub View : Type 0
View = Option (PlanStatus × Option ℕ)

-- The statuses that the worker leaves.
abbrev pub is_end : PlanStatus → Bool
is_end s = s == executed || s == blocked || s == plan_failed

-- What the requests of users do.
pub data Ask : View → View → Type 0 where
  proposes : Ask none (some (pending_approval, none))
  approves :
      (a : Option ℕ) (user : ℕ) → Ask (some (pending_approval, a)) (some (approved, some user))
  rejects : (a : Option ℕ) → Ask (some (pending_approval, a)) (some (rejected, a))

pub data Life : View → View → Type 0 where
  asks : {u v : View} → Ask u v → Life u v
  starts : (a : Option ℕ) → Life (some (approved, a)) (some (executing, a))
  ends :
      (a : Option ℕ) (s : PlanStatus) → is_end s ≡ true → Life (some (executing, a)) (some (s, a))

pub data Lives (v : View) : View → Type 0 where
  here : Lives v v
  next : {u x : View} → Lives v u → Life u x → Lives v x

pub Lives-trans : {u v x : View} → Lives u v → Lives v x → Lives u x
Lives-trans l here = l
Lives-trans l (next m s) = next (Lives-trans l m) s

abbrev pub view_of : Option Plan → View
view_of none = none
view_of (some p) = some (p.status, p.approved_by)

abbrev pub view : World → ℕ → View
view w i = view_of (find_plan w i)

-- A plan that is approved, is executing or has ended has an approver.
abbrev pub HasApprover : View → Type 0
HasApprover none = Unit
HasApprover (some (s, a)) = ((a ≡ none) → (s == approved || s == executing || is_end s) ≢ true)

Ask-HasApprover : {u v : View} → Ask u v → HasApprover v
Ask-HasApprover proposes = λ _ e. cc
Ask-HasApprover (approves a user) = λ e _. cc
Ask-HasApprover (rejects a) = λ _ e. cc

Life-HasApprover : {u v : View} → Life u v → HasApprover u → HasApprover v
Life-HasApprover (asks q) h = Ask-HasApprover q
Life-HasApprover (starts a) h = λ e _. h e refl
Life-HasApprover (ends a s end) h = λ e _. h e cc

pub Lives-HasApprover : {u v : View} → Lives u v → HasApprover u → HasApprover v
Lives-HasApprover here h = h
Lives-HasApprover (next l s) h = Life-HasApprover s (Lives-HasApprover l h)

-- A change of what is seen, by one step of a relation, or none.
abbrev pub Shows : (View → View → Type 0) → View → View → Type 0
Shows R u v = (v ≡ u) ⊎ R u v

pub Asks-Lives : {u v : View} → Shows Ask u v → Lives u v
Asks-Lives {u} (inl same) = subst (Lives u) (sym same) Lives.here
Asks-Lives (inr q) = Lives.next Lives.here (Life.asks q)

pub Shows-Lives : {u v : View} → Shows Life u v → Lives u v
Shows-Lives {u} (inl same) = subst (Lives u) (sym same) Lives.here
Shows-Lives (inr l) = Lives.next Lives.here l

-- A request changes only a plan that waits for its approval.
abbrev pub IsWaiting : View → Type 0
IsWaiting none = Unit
IsWaiting (some (s, a)) = s ≡ pending_approval

pub Ask-IsWaiting : {u v : View} → Ask u v → IsWaiting u
Ask-IsWaiting proposes = tt
Ask-IsWaiting (approves a user) = refl
Ask-IsWaiting (rejects a) = refl

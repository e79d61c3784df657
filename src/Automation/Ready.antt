-- ===== src/Automation/Ready.antt =====
-- What holds between the steps of the worker: the plan at which it is is executing, and those it claimed
-- are ready.
use multi_tenant_agentic_wor.Base.{
  ℕ, ◌≡◌, sym, subst, true, false, none, some, List, arith, ◌==◌, All, All-map, nat_eq, Bool-cases,
  Option-cases, inl, inr,
}
use multi_tenant_agentic_wor.Tables.{Plan, executing, plan_status_eq}
use multi_tenant_agentic_wor.Store.{World}
use multi_tenant_agentic_wor.Automation.Plans.{find_plan, write_plan}
use multi_tenant_agentic_wor.Automation.Approval.{
  View, is_end, Ask, Ask-IsWaiting, IsWaiting, Shows, view_of, view,
}
use multi_tenant_agentic_wor.Automation.Moves.{find_plan-write_other, find_plan-write_self}
use multi_tenant_agentic_wor.Automation.Runs.{IsReady, end_is_terminal}
use multi_tenant_agentic_wor.Automation.Sites.{Doing, idle, started, carried, Site}

abbrev pub IsExecuting : View → Type 0
IsExecuting none = ⊥
IsExecuting (some (s, a)) = s ≡ executing

-- The plan at which the worker is is seen as executing, and how it will end is an end.
abbrev pub IsDoing : Doing → World → Type 0
IsDoing idle w = Unit
IsDoing (started i) w = IsExecuting (view w i)
IsDoing (carried i r) w = IsExecuting (view w i) × (is_end r.0 ≡ true)

-- A claimed plan is ready, unless it is the one at which the worker is.
abbrev pub ReadyFor : Doing → World → ℕ → Type 0
ReadyFor idle w k = IsReady (view w k)
ReadyFor (started i) w k = (i == k) ≡ false → IsReady (view w k)
ReadyFor (carried i r) w k = (i == k) ≡ false → IsReady (view w k)

pub record Sound (s : Site) : Type 0 where
  pub doing : IsDoing s.doing s.world
  pub left : All (ReadyFor s.doing s.world) s.left

-- A request leaves what does not wait for an approval.
pub asked {ℓ} :
    (P : View → Type ℓ) {u v : View}
    → ((x : View) → P x → IsWaiting x → ⊥)
    → Shows Ask u v
    → P u
    → P v
asked P fixed (inl same) h = subst P (sym same) h
asked P {u} fixed (inr q) h = absurd (fixed u h (Ask-IsWaiting q))

pub executing_fixed : (x : View) → IsExecuting x → IsWaiting x → ⊥
executing_fixed none h k = h
executing_fixed (some (s, a)) h k = cc

pub ready_fixed : (x : View) → IsReady x → IsWaiting x → ⊥
ready_fixed none h k = h
ready_fixed (some (s, a)) h k = elim h [ inl e ↦ cc | inr e ↦ cc (rw k at e) ]

pub executing_plan :
    (w : World) (i : ℕ)
    → IsExecuting (view w i)
    → (p : Plan) × (find_plan w i ≡ some p) × (p.status ≡ executing)
executing_plan w i h = elim (Option-cases (find_plan w i)) [
  | inl gone ↦ absurd (subst (λ o. IsExecuting (view_of o)) gone h)
  | inr (p, e) ↦ (p, e, subst (λ o. IsExecuting (view_of o)) e h)
]

module _ (f : Plan → Plan) (i : ℕ) (w : World) (same : (p : Plan) → (f p).id ≡ p.id) where
  -- What the write leaves ready.
  pub written-others :
      (ks : List ℕ)
      → All (λ k. (i == k) ≡ false → IsReady (view w k)) ks
      → All (λ k. (i == k) ≡ false → IsReady (view (write_plan i f w) k)) ks
  written-others ks h =
      All-map (λ k. (i == k) ≡ false → IsReady (view w k))
        (λ k. (i == k) ≡ false → IsReady (view (write_plan i f w) k))
        (λ k ready other.
          subst (λ o. IsReady (view_of o)) (sym (find_plan-write_other f i w same k other))
            (ready other))
        ks h

  pub written-IsReady :
      (p : Plan)
      → find_plan w i ≡ some p
      → is_end (f p).status ≡ true
      → (ks : List ℕ) → All (λ k. (i == k) ≡ false → IsReady (view w k)) ks
      → All (λ k. IsReady (view (write_plan i f w) k)) ks
  written-IsReady p found end ks h =
      All-map (λ k. (i == k) ≡ false → IsReady (view (write_plan i f w) k))
        (λ k. IsReady (view (write_plan i f w) k)) (λ k ready. one k ready) ks (written-others ks h)
    where
      one :
          (k : ℕ)
          → ((i == k) ≡ false → IsReady (view (write_plan i f w) k))
          → IsReady (view (write_plan i f w) k)
      one k ready = elim (Bool-cases (i == k)) [
        | inl own ↦
            let it : i ≡ k = ground arith in
            subst (λ j. IsReady (view (write_plan i f w) j)) it
              (subst (λ o. IsReady (view_of o)) (sym (find_plan-write_self f i w same p found))
                (inr (end_is_terminal (f p).status end)))
        | inr other ↦ ready other
      ]

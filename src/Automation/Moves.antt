-- ===== src/Automation/Moves.antt =====
-- What a write of a plan shows, and the requests of users.
use multi_tenant_agentic_wor.Base.{
  ℕ, ◌≡◌, refl, sym, subst, String, true, false, ◌&&◌, Option, none, some, List, [], ◌∷◌, arith,
  ◌==◌, All, All-find_where, find_where, find_where-update_where, update_where, find_where-holds,
  nat_eq, nat_beq_iff, Bool-cases, inl, inr, ok, >>=-eq-ok, >>-eq-ok, require-eq-ok, ok-value,
}
use multi_tenant_agentic_wor.Tables.{
  User, Plan, PlanStatus, pending_approval, approved, rejected, plan_status_eq, plan_status_beq_iff,
}
use multi_tenant_agentic_wor.Store.{World}
use multi_tenant_agentic_wor.Automation.{found_plan_or, plan_not_found}
use multi_tenant_agentic_wor.Automation.Plans.{
  find_plan, find_own_plan, write_plan, approve, reject, approve_plan, reject_plan,
}
use multi_tenant_agentic_wor.Automation.Approval.{View, Ask, Shows, view}

-- The rows of the table are told apart by their identifiers.
pub record IsKeyed (w : World) : Type 0 where
  pub unique : All (λ p. find_plan w p.id ≡ some p) w.plans

find_where-elsewhere :
    (f : Plan → Plan) (i k : ℕ) (ps : List Plan)
    → ((p : Plan) → (f p).id ≡ p.id)
    → (k == i) ≡ false
    → find_where (λ p. p.id == i) (update_where (λ p. p.id == k) f ps)
      ≡ find_where (λ p. p.id == i) ps
unfolding find_where update_where
find_where-elsewhere f i k [] same other = refl
find_where-elsewhere f i k (p ∷ ps) same other =
    ground (arith, same p, find_where-elsewhere f i k ps same other)

module _ (f : Plan → Plan) (k : ℕ) (w : World) (same : (p : Plan) → (f p).id ≡ p.id) where
  pub find_plan-write_other :
      (i : ℕ) → (k == i) ≡ false → find_plan (write_plan k f w) i ≡ find_plan w i
  unfolding find_plan write_plan
  find_plan-write_other i other = find_where-elsewhere f i k w.plans same other

  pub find_plan-write_self :
      (p : Plan) → find_plan w k ≡ some p → find_plan (write_plan k f w) k ≡ some (f p)
  unfolding find_plan write_plan
  find_plan-write_self p found =
      find_where-update_where (λ p. p.id == k) (λ p. p.id == k) f w.plans p (λ q. rw (same q) refl)
        (find_where-holds (λ p. p.id == k) w.plans p found) found

  -- What one write shows.
  pub view-write_plan :
      (R : View → View → Type 0) (p : Plan)
      → find_plan w k ≡ some p
      → R (some (p.status, p.approved_by)) (some ((f p).status, (f p).approved_by))
      → (i : ℕ) → Shows R (view w i) (view (write_plan k f w) i)
  view-write_plan R p found step i = elim (Bool-cases (k == i)) [
    | inl own ↦
        let it : k ≡ i = (nat_beq_iff k i).0 own in
        subst (λ j. Shows R (view w j) (view (write_plan k f w) j)) it
          (rw (found, find_plan-write_self p found) (inr step))
    | inr other ↦ rw (find_plan-write_other i other) (inl refl)
  ]

-- A plan of the tenant is the row of its identifier.
own-find_plan :
    (w : World) (tenant i : ℕ) (p : Plan)
    → IsKeyed w
    → find_own_plan w tenant i ≡ some p
    → find_plan w p.id ≡ some p
unfolding find_own_plan
own-find_plan w tenant i p keyed found =
    (All-find_where (λ p. find_plan w p.id ≡ some p) (λ p. p.id == i && p.tenant_id == tenant)
      w.plans p keyed.unique found).0

pending_status : (s : PlanStatus) → (s == pending_approval) ≡ true → s ≡ pending_approval
pending_status s h = (plan_status_beq_iff s pending_approval).0 h

found_plan_or-eq-ok {ℓ} :
    {A : Type ℓ} (o : Option A) {a : A} → found_plan_or o plan_not_found ≡ ok a → o ≡ some a
found_plan_or-eq-ok none h = cc
found_plan_or-eq-ok (some a) h = ground arith

pub approve_plan-Asks :
    (w w' : World) (tenant i : ℕ) (user : User)
    → IsKeyed w
    → approve_plan w tenant user i ≡ ok w'
    → (j : ℕ) → Shows Ask (view w j) (view w' j)
unfolding approve_plan approve
approve_plan-Asks w w' tenant i user keyed h j =
    let (p, found, h₁) = >>=-eq-ok (found_plan_or (find_own_plan w tenant i) _) _ h in
    let (waiting, h₂) = (>>-eq-ok _ _).0 h₁ in
    let row = own-find_plan w tenant i p keyed (found_plan_or-eq-ok _ found) in
    let status = pending_status p.status ((require-eq-ok _ _).0 waiting) in
    subst (λ v. Shows Ask (view w j) (view v j)) (ok-value h₂)
      (view-write_plan (approve w.clock user.id) p.id w (λ q. refl) Ask p row
        (subst (λ s. Ask (some (s, p.approved_by)) (some (approved, some user.id))) (sym status)
          (Ask.approves p.approved_by user.id))
        j)

pub reject_plan-Asks :
    (clean : String → String) (w w' : World) (tenant i : ℕ) (user : User) (remark : Option String)
    → IsKeyed w
    → reject_plan clean w tenant user i remark ≡ ok w'
    → (j : ℕ) → Shows Ask (view w j) (view w' j)
unfolding reject_plan reject
reject_plan-Asks clean w w' tenant i user remark keyed h j =
    let (p, found, h₁) = >>=-eq-ok (found_plan_or (find_own_plan w tenant i) _) _ h in
    let (waiting, h₂) = (>>-eq-ok _ _).0 h₁ in
    let row = own-find_plan w tenant i p keyed (found_plan_or-eq-ok _ found) in
    let status = pending_status p.status ((require-eq-ok _ _).0 waiting) in
    subst (λ v. Shows Ask (view w j) (view v j)) (ok-value h₂)
      (view-write_plan _ p.id w (λ q. refl) Ask p row
        (subst (λ s. Ask (some (s, p.approved_by)) (some (rejected, p.approved_by))) (sym status)
          (Ask.rejects p.approved_by))
        j)

-- ===== src/Workflows/Limits.antt =====
-- The operations on workflows as steps, and the limit of the tenant's plan under them.
use multi_tenant_agentic_wor.Base.{
  ℕ, ◌≤◌, ◌<◌, ◌≡◌, refl, ◌⊎◌, String, true, Option, none, some, arith, ap, sym, subst, ◌∙◌,
  eq_of_some, ◌==◌, if◌then◌else◌, count_where-append, count_where-update_where-le, nat_eq,
  nat_beq_iff, ok, >>=-eq-ok, >>-eq-ok, require-eq-ok, not-leb→lt, ok-pair, ok-value, Bool-cases,
  inl, inr,
}
use multi_tenant_agentic_wor.Graph.{Definition}
use multi_tenant_agentic_wor.Store.{Tenant, Workflow, World, find_tenant, find_workflow}
use multi_tenant_agentic_wor.Workflows.{
  WorkflowError, or_error, empty_definition, check_new_definition, is_listed, count_workflows,
  check_workflow_limit, get_workflow, insert_workflow, create_workflow, write_workflow,
  WorkflowChanges, apply_changes, gives_any, update_workflow, pause, resume,
  pause_workflow_dispatch, resume_workflow_dispatch, duplicate_workflow, deactivate,
  delete_workflow,
}

pub or_error-eq-ok {ℓ} :
    {A : Type ℓ} (o : Option A) (e : WorkflowError) {a : A} → or_error o e ≡ ok a → o ≡ some a
or_error-eq-ok none e h = cc
or_error-eq-ok (some a) e h = ground arith

-- The operations that write.
pub data WorkflowStep : World → World → Type 0 where
  creates :
      {w w' : World} {f : Workflow} (tenant user : ℕ) (name description pattern : String)
      → create_workflow w tenant user name description pattern ≡ ok (f, w')
      → WorkflowStep w w'
  duplicates :
      {w w' : World} {f : Workflow} (tenant user i : ℕ)
      → duplicate_workflow w tenant user i ≡ ok (f, w')
      → WorkflowStep w w'
  updates :
      {w w' : World} (tenant i : ℕ) (c : WorkflowChanges)
      → update_workflow w tenant i c ≡ ok w'
      → WorkflowStep w w'
  pauses :
      {w w' : World} (tenant i user : ℕ)
      → pause_workflow_dispatch w tenant i user ≡ ok w'
      → WorkflowStep w w'
  resumes :
      {w w' : World} (tenant i : ℕ)
      → resume_workflow_dispatch w tenant i ≡ ok w'
      → WorkflowStep w w'
  deletes : {w w' : World} (tenant i : ℕ) → delete_workflow w tenant i ≡ ok w' → WorkflowStep w w'

pub data WorkflowReach (w : World) : World → Type 0 where
  here : WorkflowReach w w
  next : {v v' : World} → WorkflowReach w v → WorkflowStep v v' → WorkflowReach w v'

-- No tenant has more active workflows than it may have.
pub record WithinLimits (w : World) : Type 0 where
  pub at_tenant :
      (i : ℕ) (u : Tenant) → find_tenant w i ≡ some u → count_workflows w i ≤ u.max_workflows

pub check_workflow_limit_ok :
    (w : World) (tenant : ℕ)
    → check_workflow_limit w tenant ≡ ok tt
    → (u : Tenant) × (find_tenant w tenant ≡ some u) × (count_workflows w tenant < u.max_workflows)
unfolding check_workflow_limit
check_workflow_limit_ok w tenant h =
    let (u, found, r) = >>=-eq-ok (or_error (find_tenant w tenant) _) _ h in
    (u, or_error-eq-ok _ _ found, not-leb→lt _ _ ((require-eq-ok _ _).0 r))

insert_workflow-WithinLimits :
    (w : World) (tenant : ℕ) (f : Workflow)
    → check_workflow_limit w tenant ≡ ok tt
    → f.tenant_id ≡ tenant
    → WithinLimits w
    → WithinLimits (insert_workflow f w)
unfolding find_tenant count_workflows insert_workflow
insert_workflow-WithinLimits w tenant f room owned within =
    let (u, found, less) = check_workflow_limit_ok w tenant room in
    let at = within.at_tenant in
    record {
      at_tenant = λ i v e.
          rw (count_where-append (is_listed i) w.workflows f)
            (elim (Bool-cases (f.tenant_id == i)) [
              | inl mine ↦
                  let same : tenant ≡ i = sym owned ∙ (nat_beq_iff f.tenant_id i).0 mine in
                  let owner : u ≡ v = eq_of_some (sym found ∙ ap (find_tenant w) same ∙ e) in
                  let few : count_workflows w i < v.max_workflows =
                    subst (λ k. count_workflows w k < v.max_workflows) same
                      (subst (λ x. count_workflows w tenant < x.max_workflows) owner less) in
                  rw mine (ground (arith, few))
              | inr other ↦ rw other (omega (arith, at i v e))
            ]);
    }

-- A write that leaves the owner and activates nothing.
write_workflow-WithinLimits :
    (w : World) (k : ℕ) (change : Workflow → Workflow)
    → ((i : ℕ) (f : Workflow) → is_listed i (change f) ≡ true → is_listed i f ≡ true)
    → WithinLimits w
    → WithinLimits (write_workflow k change w)
unfolding find_tenant count_workflows write_workflow
write_workflow-WithinLimits w k change keep within =
    let at = within.at_tenant in
    record {
      at_tenant = λ i v e. omega (
        arith,
        at i v e,
        count_where-update_where-le (is_listed i) (λ f. f.id == k)
            (λ f. record (change f) { updated_at = w.clock }) w.workflows (keep i),
      );
    }

-- What a step is: a row is inserted, rows are written, or nothing changes.
pub data Change (w w' : World) : Type 0 where
  inserts :
      (tenant : ℕ) (f : Workflow) (room : check_workflow_limit w tenant ≡ ok tt)
      (owned : f.tenant_id ≡ tenant)
      (drawn : (f.definition ≡ some empty_definition)
        ⊎ ((i : ℕ) × (g : Workflow) × (find_workflow w tenant i ≡ some g)
            × (f.definition ≡ g.definition)))
      (same : w' ≡ insert_workflow f w)
      → Change w w'
  writes :
      (k : ℕ) (change : Workflow → Workflow)
      (keep : (i : ℕ) (f : Workflow) → is_listed i (change f) ≡ true → is_listed i f ≡ true)
      (drawn : ((f : Workflow) → (change f).definition ≡ f.definition)
        ⊎ ((d : Definition) × (check_new_definition (some d) ≡ ok tt)
            × ((f : Workflow) → (change f).definition ≡ some d)))
      (same : w' ≡ write_workflow k change w)
      → Change w w'
  leaves : (same : w' ≡ w) → Change w w'

pub get_workflow_ok :
    (w : World) (tenant i : ℕ) {f : Workflow}
    → get_workflow w tenant i ≡ ok f
    → find_workflow w tenant i ≡ some f
unfolding get_workflow
get_workflow_ok w tenant i h = or_error-eq-ok _ _ h

update_shape :
    (w : World) (k : ℕ) (c : WorkflowChanges) (d : Option Definition)
    → c.definition ≡ d
    → check_new_definition d ≡ ok tt
    → Change w (if gives_any c then write_workflow k (apply_changes c) w else w)
unfolding apply_changes
update_shape w k c none none_given checked = elim (Bool-cases (gives_any c)) [
  | inl some_given ↦
      rw some_given (writes k (apply_changes c) (λ i f h. h) (inl (λ f. rw none_given refl)) refl)
  | inr nothing ↦ rw nothing (leaves refl)
]
update_shape w k c (some d) d_given checked = elim (Bool-cases (gives_any c)) [
  | inl some_given ↦
      rw some_given
        (writes k (apply_changes c) (λ i f h. h) (inr (d, checked, λ f. rw d_given refl)) refl)
  | inr nothing ↦ rw nothing (leaves refl)
]

pub WorkflowStep-Change : {w w' : World} → WorkflowStep w w' → Change w w'
unfolding create_workflow duplicate_workflow update_workflow pause_workflow_dispatch
    resume_workflow_dispatch delete_workflow pause resume deactivate
WorkflowStep-Change (creates {w} tenant user name description pattern h) =
    let (room, h₁) = (>>-eq-ok _ _).0 h in
    let (_, same) = ok-pair h₁ in inserts tenant _ room refl (inl refl) same
WorkflowStep-Change (duplicates {w} tenant user i h) =
    let (f, found, h₁) = >>=-eq-ok (get_workflow w tenant i) _ h in
    let (room, h₂) = (>>-eq-ok _ _).0 h₁ in
    let (_, same) = ok-pair h₂ in
    inserts tenant _ room refl (inr (i, f, get_workflow_ok w tenant i found, refl)) same
WorkflowStep-Change (updates {w} tenant i c h) =
    let (f, found, h₁) = >>=-eq-ok (get_workflow w tenant i) _ h in
    let (checked, h₂) = (>>-eq-ok _ _).0 h₁ in
    subst (Change w) (ok-value h₂) (update_shape w f.id c c.definition refl checked)
WorkflowStep-Change (pauses {w} tenant i user h) =
    let (f, found, h₁) = >>=-eq-ok (get_workflow w tenant i) _ h in
    writes f.id (pause w.clock user) (λ i f h. h) (inl (λ f. refl)) (sym (ok-value h₁))
WorkflowStep-Change (resumes {w} tenant i h) =
    let (f, found, h₁) = >>=-eq-ok (get_workflow w tenant i) _ h in
    writes f.id resume (λ i f h. h) (inl (λ f. refl)) (sym (ok-value h₁))
WorkflowStep-Change (deletes {w} tenant i h) =
    let (f, found, h₁) = >>=-eq-ok (get_workflow w tenant i) _ h in
    let (idle, h₂) = (>>-eq-ok _ _).0 h₁ in
    writes f.id deactivate (λ i f h. ground arith) (inl (λ f. refl)) (sym (ok-value h₂))

Change-WithinLimits : (w w' : World) → Change w w' → WithinLimits w → WithinLimits w'
Change-WithinLimits w w' (inserts tenant f room owned drawn same) within =
    rw same (insert_workflow-WithinLimits w tenant f room owned within)
Change-WithinLimits w w' (writes k change keep drawn same) within =
    rw same (write_workflow-WithinLimits w k change keep within)
Change-WithinLimits w w' (leaves same) within = rw same within

-- If no tenant has more active workflows than it may have, none has after any sequence of
-- creations, duplications, updates, pauses, resumptions and deletions.
pub WorkflowReach-WithinLimits : {w v : World} → WithinLimits w → WorkflowReach w v → WithinLimits v
WorkflowReach-WithinLimits within here = within
WorkflowReach-WithinLimits {w} within (next {v} {v'} r s) =
    Change-WithinLimits v v' (WorkflowStep-Change s) (WorkflowReach-WithinLimits within r)

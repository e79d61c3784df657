-- ===== src/Executions/Admission.antt =====
-- When an execution is admitted, and what that does to the tenant's concurrency.
use multi_tenant_agentic_wor.Base.{
  ℕ, suc, ◌+◌, ◌≤◌, ◌<◌, ◌≡◌, ◌↔◌, refl, true, ◌&&◌, Option, none, some, arith, ap, sym, subst,
  ==-refl, eq_of_some, ◌∙◌, ◌==◌, if◌then◌else◌, is_empty, is_empty-eq-nil, count_where-append,
  nat_eq, nat_beq_iff, Result, ok, err, >>=-eq-ok, >>-eq-ok, require-eq-ok, not-leb→lt, lt→not-leb,
  ok-pair, Bool-cases, inl, inr,
}
use multi_tenant_agentic_wor.Base.Json.{Json}
use multi_tenant_agentic_wor.Graph.{Definition, CompilationError, validate_definition}
use multi_tenant_agentic_wor.Graph.Valid.{IsValid, validate_definition_iff}
use multi_tenant_agentic_wor.Store.{
  Tenant, Workflow, Execution, World, is_active_status, find_tenant, find_workflow,
}
use multi_tenant_agentic_wor.Store.Writes.{invalidate_tenant_cache}
use multi_tenant_agentic_wor.Texts.{Texts}
use multi_tenant_agentic_wor.Executions.{
  HttpError, as_http, or_raise, check_definition, has_nodes, count_active, concurrent_limit,
  new_execution, insert_execution, create_execution,
}

pub or_raise-eq-ok {ℓ} :
    {A : Type ℓ} (o : Option A) (e : HttpError) {a : A} → or_raise o e ≡ ok a → o ≡ some a
or_raise-eq-ok none e h = cc
or_raise-eq-ok (some a) e h = ground arith

as_http-eq-ok : (r : Result CompilationError (Unit {0})) → (as_http r ≡ ok tt) ↔ (r ≡ ok tt)
as_http-eq-ok (ok tt) = (λ h. refl, λ h. refl)
as_http-eq-ok (err e) = (λ h. cc, λ h. cc)

IsValid-of_checked :
    (d : Option Definition)
    → check_definition d ≡ ok tt
    → (g : Definition) × (d ≡ some g) × IsValid g
IsValid-of_checked none h = cc
IsValid-of_checked (some g) h =
    (g, refl, (validate_definition_iff g).0 ((as_http-eq-ok (validate_definition g)).0 h))

module _ (t : Texts) (w : World) (tenant workflow : ℕ) where
  -- The workflow is the tenant's and active, its graph is valid, and the tenant has tokens and a slot.
  pub record IsAdmissible : Type 0 where
    pub row : Workflow
    pub graph : Definition
    pub owner : Tenant
    pub found : find_workflow w tenant workflow ≡ some row
    pub defined : row.definition ≡ some graph
    pub valid : IsValid graph
    pub owned : find_tenant w tenant ≡ some owner
    pub budget : owner.tokens_used < owner.token_budget
    pub room : count_active w tenant < concurrent_limit t owner.plan

  -- Every execution that the service creates is admissible, and is the new pending row.
  pub create_execution_ok :
      (input : Option Json) (x : Execution) (w' : World)
      → create_execution t w tenant workflow input ≡ ok (x, w')
      → IsAdmissible
        × ((x ≡ new_execution t w tenant workflow input)
            × (w'
                ≡ invalidate_tenant_cache tenant
                    (insert_execution t (new_execution t w tenant workflow input) w)))
  unfolding create_execution
  create_execution_ok input x w' h =
      let (f, f_found, h₁) = >>=-eq-ok (or_raise (find_workflow w tenant workflow) _) _ h in
      let (n, h₂) = (>>-eq-ok _ _).0 h₁ in
      let (c, h₃) = (>>-eq-ok _ _).0 h₂ in
      let (u, u_found, h₄) = >>=-eq-ok (or_raise (find_tenant w tenant) _) _ h₃ in
      let (b, h₅) = (>>-eq-ok _ _).0 h₄ in
      let (r, h₆) = (>>-eq-ok _ _).0 h₅ in
      let (g, defined, valid) = IsValid-of_checked f.definition c in
      (
        record {
          row = f;
          graph = g;
          owner = u;
          found = or_raise-eq-ok _ _ f_found;
          defined = defined;
          valid = valid;
          owned = or_raise-eq-ok _ _ u_found;
          budget = not-leb→lt _ _ ((require-eq-ok _ _).0 b);
          room = not-leb→lt _ _ ((require-eq-ok _ _).0 r);
        },
        ok-pair h₆,
      )

  not_empty_of_valid : (g : Definition) → IsValid g → has_nodes (some g) ≡ true
  not_empty_of_valid g v = elim (Bool-cases (is_empty g.nodes)) [
    | inl e ↦ absurd (v.some_nodes (is_empty-eq-nil g.nodes e))
    | inr e ↦ rw e
  ]

  -- And every admissible request is served.
  pub create_execution_serves :
      (input : Option Json)
      → IsAdmissible
      → create_execution t w tenant workflow input
        ≡ ok (
          new_execution t w tenant workflow input,
          invalidate_tenant_cache tenant
              (insert_execution t (new_execution t w tenant workflow input) w),
        )
  unfolding create_execution
  create_execution_serves input a = rw (
    a.found,
    a.defined,
    not_empty_of_valid a.graph a.valid,
    (validate_definition_iff a.graph).1 a.valid,
    a.owned,
    lt→not-leb _ _ a.budget,
    lt→not-leb _ _ a.room,
  )

-- A request to create an execution succeeds exactly when the workflow is an active one of the tenant
-- with a valid graph, the tenant has used less than its token budget, and it has fewer active
-- executions than its plan allows.
pub create_execution_iff :
    (t : Texts) (w : World) (tenant workflow : ℕ) (input : Option Json)
    → ((r : Execution × World) × (create_execution t w tenant workflow input ≡ ok r))
      ↔ IsAdmissible t w tenant workflow
create_execution_iff t w tenant workflow input = (
  λ h. (create_execution_ok t w tenant workflow input h.0.0 h.0.1 h.1).0,
  λ a. (_, create_execution_serves t w tenant workflow input a),
)

-- No tenant has more active executions than its plan allows.
pub record WithinPlan (t : Texts) (w : World) : Type 0 where
  pub at_tenant :
      (i : ℕ) (u : Tenant) → find_tenant w i ≡ some u → count_active w i ≤ concurrent_limit t u.plan

count_active-create :
    (t : Texts) (w : World) (tenant workflow i : ℕ) (input : Option Json)
    → count_active
        (invalidate_tenant_cache tenant
          (insert_execution t (new_execution t w tenant workflow input) w))
        i
      ≡ count_active w i + (if tenant == i then 1 else 0)
unfolding count_active invalidate_tenant_cache insert_execution
count_active-create t w tenant workflow i input =
    count_where-append (λ x. x.tenant_id == i && is_active_status x.status) w.executions
      (new_execution t w tenant workflow input)
    ∙ ap (λ n. count_active w i + n) (ground arith)

room_after :
    (t : Texts) (w : World) (tenant workflow : ℕ)
    → IsAdmissible t w tenant workflow
    → WithinPlan t w
    → (i : ℕ) (u : Tenant) → find_tenant w i ≡ some u
    → count_active w i + (if tenant == i then 1 else 0) ≤ concurrent_limit t u.plan
room_after t w tenant workflow a within i u e = elim (Bool-cases (tenant == i)) [
  | inl same ↦
      let at : tenant ≡ i = (nat_beq_iff tenant i).0 same in
      let owner : a.owner ≡ u = eq_of_some (sym a.owned ∙ ap (find_tenant w) at ∙ e) in
      rw same (
        subst (λ k. count_active w k + 1 ≤ concurrent_limit t u.plan) at
          (subst (λ v. count_active w tenant + 1 ≤ concurrent_limit t v.plan) owner
            (omega (arith, a.room))))
  | inr other ↦ rw other (omega (arith, within.at_tenant i u e))
]

-- If no tenant has more active executions than its plan allows, none has after the creation of an
-- execution, and the creation took one slot of its own tenant.
pub create_execution-WithinPlan :
    (t : Texts) (w : World) (tenant workflow : ℕ) (input : Option Json) (x : Execution) (w' : World)
    → WithinPlan t w
    → create_execution t w tenant workflow input ≡ ok (x, w')
    → WithinPlan t w' × (count_active w' tenant ≡ suc (count_active w tenant))
unfolding find_tenant invalidate_tenant_cache insert_execution
create_execution-WithinPlan t w tenant workflow input x w' within h =
    let (a, (ex, ew)) = create_execution_ok t w tenant workflow input x w' h in
    rw ew (
      record {
        at_tenant = λ i u e. rw count_active-create (room_after t w tenant workflow a within i u e);
      },
      count_active-create t w tenant workflow tenant input ∙ rw (==-refl tenant) (omega arith),
    )

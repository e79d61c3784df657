-- ===== src/Workflows.antt =====
-- backend/app/services/workflow_service.py: the workflows of a tenant. An operation that raises leaves
-- the world as it was. The proofs are in the modules below.
pub mod Definitions
pub mod Lifecycle
pub mod Limits
use Prim.Native.String.{◌++◌ as text_append}
use multi_tenant_agentic_wor.Base.{
  ℕ, suc, ◌-◌, ◌*◌, ◌+◌, String, Bool, true, false, not, ◌&&◌, ◌||◌, Option, none, some, List, [],
  ◌∷◌, ◌++◌, ◌==◌, if◌then◌else◌, leb, is_empty, take, drop, length, find_where, select_where,
  update_where, count_where, Result, ok, err, require, ◌>>=◌, ◌>>◌, nat_eq,
}
use multi_tenant_agentic_wor.Graph.{Definition, CompilationError, validate_definition, is_set}
use multi_tenant_agentic_wor.Store.{
  Tenant, Workflow, World, is_active_status, find_tenant, find_workflow,
}

pub data WorkflowError : Type 0 where
  workflow_not_found tenant_missing workflow_limit has_active_executions : WorkflowError
  invalid_workflow_graph : CompilationError → WorkflowError

abbrev pub or_error {ℓ} : {A : Type ℓ} → Option A → WorkflowError → Result WorkflowError A
or_error none e = err e
or_error (some a) e = ok a

-- `get_workflow`: an active workflow of the tenant.
unfoldable pub get_workflow : World → ℕ → ℕ → Result WorkflowError Workflow
unfolding find_workflow
get_workflow w tenant i = or_error (find_workflow w tenant i) workflow_not_found

abbrev pub is_listed : ℕ → Workflow → Bool
is_listed tenant f = f.tenant_id == tenant && f.is_active

unfoldable pub count_workflows : World → ℕ → ℕ
count_workflows w tenant = count_where (is_listed tenant) w.workflows

-- The test that creation and duplication share.
unfoldable pub check_workflow_limit : World → ℕ → Result WorkflowError (Unit {0})
unfolding find_tenant count_workflows
check_workflow_limit w tenant = do
  u ← or_error (find_tenant w tenant) tenant_missing
  require (not (leb u.max_workflows (count_workflows w tenant))) workflow_limit

-- A new row, with the defaults of the other columns.
abbrev pub new_workflow : World → ℕ → ℕ → String → String → Option Definition → String → Workflow
new_workflow w tenant user name description definition pattern = record {
  id = w.next_id;
  tenant_id = tenant;
  name = name;
  description = description;
  definition = definition;
  execution_pattern = pattern;
  is_active = true;
  dispatch_paused = false;
  dispatch_paused_at = none;
  dispatch_paused_by = none;
  created_by = user;
  updated_at = w.clock;
}

abbrev pub empty_definition : Definition
empty_definition = record { nodes = []; edges = [] }

unfoldable pub insert_workflow : Workflow → World → World
insert_workflow f w = record w { workflows = w.workflows ++ f ∷ []; next_id = suc w.next_id }

unfoldable pub create_workflow :
    World → ℕ → ℕ → String → String → String → Result WorkflowError (Workflow × World)
unfolding check_workflow_limit insert_workflow
create_workflow w tenant user name description pattern = do
  check_workflow_limit w tenant
  let f = new_workflow w tenant user name description (some empty_definition) pattern
  ok (f, insert_workflow f w)

-- `order_by(updated_at.desc())`.
unfoldable pub insert_recent : Workflow → List Workflow → List Workflow
insert_recent x [] = x ∷ []
insert_recent x (y ∷ ys) =
    let rest = insert_recent x ys in if leb y.updated_at x.updated_at then x ∷ y ∷ ys else y ∷ rest

unfoldable pub order_recent : List Workflow → List Workflow
unfolding insert_recent
order_recent [] = []
order_recent (x ∷ xs) = insert_recent x (order_recent xs)

-- `matches pattern name` is the database's ILIKE; an empty search asks for all.
abbrev pub is_searched : (matches : String → String → Bool) → Option String → ℕ → Workflow → Bool
is_searched matches none tenant f = is_listed tenant f
is_searched matches (some s) tenant f =
    is_listed tenant f
    && (not (is_set (some s)) || matches (text_append "%" (text_append s "%")) f.name)

-- A page of the workflows, and how many there are in all.
unfoldable pub list_workflows :
    (String → String → Bool) → World → ℕ → ℕ → ℕ → Option String → List Workflow × ℕ
unfolding order_recent
list_workflows matches w tenant page per_page search =
    let p = is_searched matches search tenant in
    (
      take per_page (drop ((page - 1) * per_page) (order_recent (select_where p w.workflows))),
      count_where p w.workflows,
    )

-- The write of a row; `onupdate` sets its time.
unfoldable pub write_workflow : ℕ → (Workflow → Workflow) → World → World
write_workflow i change w = record w {
  workflows =
      update_where (λ f. f.id == i) (λ f. record (change f) { updated_at = w.clock }) w.workflows;
}

abbrev pub given {ℓ} : {A : Type ℓ} → Option A → A → A
given none old = old
given (some a) old = a

abbrev pub given_definition : Option Definition → Option Definition → Option Definition
given_definition none old = old
given_definition (some d) old = some d

-- `definition.get("nodes") or definition.get("edges")`.
abbrev pub is_drawn : Definition → Bool
is_drawn d = not (is_empty d.nodes) || not (is_empty d.edges)

abbrev pub as_invalid : Result CompilationError (Unit {0}) → Result WorkflowError (Unit {0})
as_invalid (ok u) = ok tt
as_invalid (err e) = err (invalid_workflow_graph e)

unfoldable pub check_new_definition : Option Definition → Result WorkflowError (Unit {0})
check_new_definition none = ok tt
check_new_definition (some d) = if is_drawn d then as_invalid (validate_definition d) else ok tt

-- What a request to update gives; `none` leaves a column.
pub record WorkflowChanges : Type 0 where
  pub name : Option String
  pub description : Option String
  pub definition : Option Definition
  pub execution_pattern : Option String

unfoldable pub apply_changes : WorkflowChanges → Workflow → Workflow
apply_changes c f = record f {
  name = given c.name f.name;
  description = given c.description f.description;
  definition = given_definition c.definition f.definition;
  execution_pattern = given c.execution_pattern f.execution_pattern;
}

-- Where nothing is given, no row is written.
abbrev pub gives {ℓ} : {A : Type ℓ} → Option A → Bool
gives none = false
gives (some a) = true

abbrev pub gives_any : WorkflowChanges → Bool
gives_any c = gives c.name || gives c.description || gives c.definition || gives c.execution_pattern

unfoldable pub update_workflow : World → ℕ → ℕ → WorkflowChanges → Result WorkflowError World
unfolding get_workflow check_new_definition apply_changes write_workflow
update_workflow w tenant i c = do
  f ← get_workflow w tenant i
  check_new_definition c.definition
  ok (if gives_any c then write_workflow f.id (apply_changes c) w else w)

unfoldable pub pause : ℕ → ℕ → Workflow → Workflow
pause now user f = record f {
  dispatch_paused = true;
  dispatch_paused_at = some now;
  dispatch_paused_by = some user;
}

unfoldable pub resume : Workflow → Workflow
resume f = record f {
  dispatch_paused = false;
  dispatch_paused_at = none;
  dispatch_paused_by = none;
}

unfoldable pub pause_workflow_dispatch : World → ℕ → ℕ → ℕ → Result WorkflowError World
unfolding get_workflow write_workflow pause
pause_workflow_dispatch w tenant i user = do
  f ← get_workflow w tenant i
  ok (write_workflow f.id (pause w.clock user) w)

unfoldable pub resume_workflow_dispatch : World → ℕ → ℕ → Result WorkflowError World
unfolding get_workflow write_workflow resume
resume_workflow_dispatch w tenant i = do
  f ← get_workflow w tenant i
  ok (write_workflow f.id resume w)

unfoldable pub duplicate_workflow : World → ℕ → ℕ → ℕ → Result WorkflowError (Workflow × World)
unfolding get_workflow check_workflow_limit insert_workflow
duplicate_workflow w tenant user i = do
  f ← get_workflow w tenant i
  check_workflow_limit w tenant
  let g =
      new_workflow w tenant user (text_append f.name " (Copy)") f.description f.definition
        f.execution_pattern
  ok (g, insert_workflow g w)

unfoldable pub count_active_of : World → ℕ → ℕ → ℕ
count_active_of w tenant i =
    count_where (λ x. x.tenant_id == tenant && x.workflow_id == i && is_active_status x.status)
      w.executions

unfoldable pub deactivate : Workflow → Workflow
deactivate f = record f { is_active = false }

-- `delete_workflow`: the row stays, inactive.
unfoldable pub delete_workflow : World → ℕ → ℕ → Result WorkflowError World
unfolding get_workflow count_active_of write_workflow deactivate
delete_workflow w tenant i = do
  f ← get_workflow w tenant i
  require (leb (count_active_of w tenant i) 0) has_active_executions
  ok (write_workflow f.id deactivate w)

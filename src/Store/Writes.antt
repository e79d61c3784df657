-- ===== src/Store/Writes.antt =====
-- The single writes that the executor and the services make.
use multi_tenant_agentic_wor.Base.{
  ℕ, suc, ◌+◌, String, Bool, true, false, ◌&&◌, not, Option, none, some, List, [], ◌∷◌, ◌++◌, map,
  ◌==◌, leb, nat_eq, if◌then◌else◌, select_where, update_where, is_empty,
}
use multi_tenant_agentic_wor.Base.Dict
use multi_tenant_agentic_wor.Base.Dict.{Dict}
use multi_tenant_agentic_wor.Base.Json.{Json}
use multi_tenant_agentic_wor.Store.{
  Tenant, Status, Execution, ExecutionLog, Event, Queue, World, pending, running, completed, failed,
  cancelled, find_execution, status_eq,
}

-- `invalidate_tenant_cache` of backend/app/services/analytics_service.py.
unfoldable pub invalidate_tenant_cache : ℕ → World → World
invalidate_tenant_cache tenant w = record w {
  cache = select_where (λ c. not (c.tenant_key == tenant)) w.cache;
}

abbrev pub invalidate_of : Option Execution → World → World
invalidate_of none w = w
invalidate_of (some x) w = invalidate_tenant_cache x.tenant_id w

abbrev close : Status → String → ℕ → Execution → Execution
close s message now x = record x {
  status = s;
  error_message = some message;
  completed_at = some now;
}

-- `_fail_execution`: whatever the status was.
unfoldable pub fail_execution : ℕ → String → World → World
unfolding invalidate_tenant_cache find_execution
fail_execution i message w =
    let w' = record w {
      executions = update_where (λ x. x.id == i) (close failed message w.clock) w.executions;
    } in
    invalidate_of (find_execution w' i) w'

-- `_cancel_execution`.
unfoldable pub cancel_running : ℕ → String → World → World
unfolding invalidate_tenant_cache find_execution
cancel_running i message w =
    let w' = record w {
      executions = update_where (λ x. x.id == i) (close cancelled message w.clock) w.executions;
    } in
    invalidate_of (find_execution w' i) w'

-- The update of a pending execution to running, and its `rowcount`.
abbrev pub is_pending : ℕ → Execution → Bool
is_pending i x = x.id == i && x.status == pending

unfoldable pub start_running : ℕ → World → World
start_running i w = record w {
  executions =
      update_where (is_pending i) (λ x. record x { status = running; started_at = some w.clock })
        w.executions;
}

unfoldable pub complete_execution : ℕ → Dict String Json → World → World
complete_execution i outputs w = record w {
  executions =
      update_where (λ x. x.id == i)
        (λ x. record x {
          status = completed;
          output_data = some outputs;
          completed_at = some w.clock;
        })
        w.executions;
}

unfoldable pub add_totals : ℕ → ℕ → ℕ → World → World
add_totals i tokens cost w = record w {
  executions =
      update_where (λ x. x.id == i)
        (λ x. record x { total_tokens = x.total_tokens + tokens; total_cost = x.total_cost + cost })
        w.executions;
}

unfoldable pub add_log : ExecutionLog → World → World
add_log l w = record w { logs = w.logs ++ l ∷ [] }

-- The conditional update of the tenant's usage, and its `rowcount`.
abbrev pub can_charge : ℕ → ℕ → Tenant → Bool
can_charge i tokens t = t.id == i && leb (t.tokens_used + tokens) t.token_budget

unfoldable pub charge_tenant : ℕ → ℕ → World → World
charge_tenant i tokens w = record w {
  tenants =
      update_where (can_charge i tokens) (λ t. record t { tokens_used = t.tokens_used + tokens })
        w.tenants;
}

-- `_active_executions`.
unfoldable pub register : ℕ → World → World
register i w = record w { active_executions = Dict.put w.active_executions i false }

unfoldable pub unregister : ℕ → World → World
unregister i w = record w { active_executions = Dict.pop w.active_executions i }

unfoldable pub request_cancel : ℕ → World → Bool × World
request_cancel i w =
    if Dict.has w.active_executions i
    then (true, record w { active_executions = Dict.put w.active_executions i true })
    else (false, w)

unfoldable pub is_cancelled : ℕ → World → Bool
is_cancelled i w = Dict.get_or w.active_executions i false

-- `subscribe_ws`, `unsubscribe_ws` and `_broadcast_ws`.
unfoldable pub subscribe_ws : ℕ → World → Queue × World
subscribe_ws i w =
    let queue : Queue = record { queue_id = w.next_id; events = [] } in
    (
      queue,
      record w {
        subscribers = Dict.put w.subscribers i (Dict.get_or w.subscribers i [] ++ queue ∷ []);
        next_id = suc w.next_id;
      },
    )

-- `list.remove`: the first of them.
unfoldable pub remove_queue : ℕ → List Queue → List Queue
remove_queue q [] = []
remove_queue q (x ∷ xs) = if x.queue_id == q then xs else x ∷ remove_queue q xs

unfoldable pub unsubscribe_ws : ℕ → ℕ → World → World
unfolding remove_queue
unsubscribe_ws i q w =
    if Dict.has w.subscribers i
    then (let left = remove_queue q (Dict.get_or w.subscribers i []) in
        record w {
          subscribers =
              if is_empty left then Dict.pop w.subscribers i else Dict.put w.subscribers i left;
        })
    else w

unfoldable pub receive : Event → Queue → Queue
receive e q = record q { events = q.events ++ e ∷ [] }

unfoldable pub broadcast_to : ℕ → Event → Dict ℕ (List Queue) → Dict ℕ (List Queue)
unfolding receive
broadcast_to i e [] = []
broadcast_to i e ((j, qs) ∷ d) =
    if j == i then (j, map (receive e) qs) ∷ d else (j, qs) ∷ broadcast_to i e d

unfoldable pub broadcast_ws : ℕ → Event → World → World
unfolding broadcast_to
broadcast_ws i e w = record w { subscribers = broadcast_to i e w.subscribers }

-- The last event, with the totals of the execution's row.
abbrev pub complete_event : Status → Option Execution → Event
complete_event s none = Event.execution_complete s 0 0 (some [])
complete_event s (some x) = Event.execution_complete s x.total_tokens x.total_cost x.output_data

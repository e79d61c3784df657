-- ===== src/Tests/Runs.antt =====
-- Runs, cancellations and subscribers of the small instance.
use multi_tenant_agentic_wor.Base.{
  suc, map, ◌==◌, ◌&&◌, ltb, count_where, [], ◌∷◌, All, ◌≡◌, refl, true, false, none, some, arith,
  ok, err, find_where, string_eq, nat_eq, option_eq,
}
use multi_tenant_agentic_wor.Base.Dict
use multi_tenant_agentic_wor.Base.Json.{Fields}
use multi_tenant_agentic_wor.Store.{Event, Queue, World, pending, running, cancelled, status_eq}
use multi_tenant_agentic_wor.Store.Sockets.{
  queues_of, broadcast_ws_lem, unsubscribe_ws-subscribe_ws,
}
use multi_tenant_agentic_wor.Store.Writes.{
  broadcast_ws, subscribe_ws, unsubscribe_ws, receive, request_cancel,
}
use multi_tenant_agentic_wor.Executor.{
  Run, Step, go, stop, raises, returned, replies, is_cyclic, max_iterations, follow,
}
use multi_tenant_agentic_wor.Executor.Steps.{agent_replied, record_step}
use multi_tenant_agentic_wor.Executor.Loop.{run_execution, run_loop}
use multi_tenant_agentic_wor.Executor.Ends.{run_execution_total}
use multi_tenant_agentic_wor.Executor.Settles.{HasEnded, IsIdle, run_execution-HasEnded}
use multi_tenant_agentic_wor.Executor.Isolation.{OnlyOwn, run_execution-OnlyOwn}
use multi_tenant_agentic_wor.Executor.Budget.{InBudget, run_execution-InBudget}
use multi_tenant_agentic_wor.Executor.Totals.{IsBalanced, run_execution-IsBalanced}
use multi_tenant_agentic_wor.Executions.{
  cancel_execution, cancelled_by_user, not_cancellable, find_own,
}
use multi_tenant_agentic_wor.Executions.Cancel.{
  IsCancelledRow, cancel_execution_pending, cancel_execution_running,
}
use multi_tenant_agentic_wor.Executions.Waiting.{Point, resume}
use multi_tenant_agentic_wor.Tests.{
  env, config, answer, execution, pending_world, failed_world, running_world, job, between_steps,
  watched_world,
}

pending_world-IsIdle : IsIdle 7 pending_world
pending_world-IsIdle = (λ same e. cc, tt)

run_execution-HasEnded_example :
    (w : World) × (run_execution env 7 2 1 none pending_world ≡ returned w) × HasEnded 7 w
run_execution-HasEnded_example =
    run_execution-HasEnded env 7 2 1 none pending_world pending_world-IsIdle

run_execution-InBudget_example :
    (w : World) × (run_execution env 7 2 1 none pending_world ≡ returned w) × InBudget w
run_execution-InBudget_example =
    run_execution-InBudget env 7 2 1 none pending_world (λ c s v h. h) (λ n v h. h)
      (omega arith, tt)

run_execution-IsBalanced_example :
    (w : World) × (run_execution env 7 2 1 none pending_world ≡ returned w) × IsBalanced w
run_execution-IsBalanced_example =
    run_execution-IsBalanced env 7 2 1 none pending_world (λ c s v h. h) (λ n v h. h)
      ((refl, refl), tt)

run_execution_total_example : (w : World) × (run_execution env 7 2 1 none failed_world ≡ returned w)
run_execution_total_example = run_execution_total env 7 2 1 none failed_world

found_pending : find_own pending_world 1 7 ≡ some (execution pending Fields.end)
unfolding find_own find_where
found_pending = refl

cancel_execution_pending_example :
    (w : World) × (cancel_execution (λ w. w) pending_world 1 7
      ≡ ok (cancelled_by_user 100 (execution pending Fields.end), w))
    × IsCancelledRow 7 w
    × (cancel_execution (λ w. w) w 1 7 ≡ err (not_cancellable cancelled))
cancel_execution_pending_example =
    cancel_execution_pending (λ w. w) pending_world 1 7 (execution pending Fields.end) found_pending
      refl

found_running : find_own running_world 1 7 ≡ some (execution running Fields.end)
unfolding find_own find_where
found_running = refl

running_known : Dict.has running_world.active_executions 7 ≡ true
unfolding Dict.has
running_known = refl

-- The run awaits its first agent.
abbrev awaiting : Point
awaiting =
    Point.in_agent (some "a") (config 3 "a") (record between_steps { queue = some "b" ∷ [] })
      (replies answer)

abbrev flagged_world : World
flagged_world = (request_cancel 7 running_world).1

abbrev run_of : Step → Run
run_of (go r) = r
run_of (stop w) = between_steps
run_of (raises message w) = between_steps

abbrev resumed : Run
resumed = run_of (resume env job awaiting flagged_world)

went_on : resume env job awaiting flagged_world ≡ go resumed
unfolding resume agent_replied request_cancel count_where find_where Dict.has Dict.put
went_on = refl

b_is_left : resumed.queue ≡ some "b" ∷ []
unfolding resume agent_replied record_step follow request_cancel count_where find_where Dict.has
    Dict.put
b_is_left = refl

within_limit : (is_cyclic job && ltb max_iterations (suc resumed.iteration)) ≡ false
within_limit = refl

cancel_execution_running_example :
    (cancel_execution (λ w. w) running_world 1 7 ≡ ok (execution running Fields.end, flagged_world))
    × ((u : World) × (run_loop env job 1 resumed.queue resumed ≡ returned u) × IsCancelledRow 7 u)
cancel_execution_running_example =
    cancel_execution_running (λ w. w) running_world 1 7 (execution running Fields.end) env job
      awaiting flagged_world (some "b") [] 0 resumed found_running refl running_known refl
      (λ flag. flag) went_on b_is_left within_limit

run_execution-OnlyOwn_example :
    (w : World) × (run_execution env 7 2 1 none pending_world ≡ returned w)
    × OnlyOwn 7 1 pending_world w
run_execution-OnlyOwn_example =
    run_execution-OnlyOwn env 7 2 1 none pending_world
      (λ c s v. record { tenants = refl; executions = refl; logs = refl; tables = refl })
      (λ n v. record { tenants = refl; executions = refl; logs = refl; tables = refl })

broadcast_ws_lem_example :
    queues_of (broadcast_ws 7 (Event.step_start "a" 1) watched_world) 7
    ≡ map (receive (Event.step_start "a" 1)) (queues_of watched_world 7)
broadcast_ws_lem_example = broadcast_ws_lem 7 7 (Event.step_start "a" 1) watched_world

watched_fresh : All (λ (p : Queue). (p.queue_id == 20) ≡ false) (queues_of watched_world 7)
unfolding Dict.get_or
watched_fresh = (refl, tt)

unsubscribe_ws-subscribe_ws_example :
    queues_of
      (unsubscribe_ws 7 (subscribe_ws 7 watched_world).0.queue_id (subscribe_ws 7 watched_world).1)
      7
    ≡ queues_of watched_world 7
unsubscribe_ws-subscribe_ws_example = unsubscribe_ws-subscribe_ws 7 7 watched_world watched_fresh

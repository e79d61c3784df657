-- ===== src/Executions/Cancel.antt =====
-- Cancellation, from the request of a user to the round of the executor that obeys it.
use multi_tenant_agentic_wor.Base.{
  ℕ, suc, ◌≡◌, refl, sym, ap, subst, Bool, true, false, ◌&&◌, Option, none, some, List, [], ◌∷◌,
  arith, ok, err, All, ◌==◌, nat_eq, ltb, update_where, find_where-update_where, ==-refl,
}
use multi_tenant_agentic_wor.Base.Dict
use multi_tenant_agentic_wor.Base.Dict.{Dict}
use multi_tenant_agentic_wor.Graph.{NodeId}
use multi_tenant_agentic_wor.Store.{
  Execution, World, Status, pending, running, cancelled, is_active_status, status_eq,
}
use multi_tenant_agentic_wor.Store.Writes.{
  is_cancelled, request_cancel, cancel_running, invalidate_of, invalidate_tenant_cache,
  broadcast_ws,
}
use multi_tenant_agentic_wor.Executor.{
  Env, Job, Run, Step, go, stop, raises, returned, raised, announce_cancelled, is_cyclic,
  max_iterations,
}
use multi_tenant_agentic_wor.Executor.Steps.{visit}
use multi_tenant_agentic_wor.Executor.Loop.{take_round, run_loop}
use multi_tenant_agentic_wor.Executions.Waiting.{Point, resume, resume-FlagsKept}
use multi_tenant_agentic_wor.Executions.{
  not_cancellable, find_own, cancel_by_status, cancel_execution, cancelled_by_user,
}

-- The rows with the identifier are cancelled.
abbrev pub IsCancelledRow : ℕ → World → Type 0
IsCancelledRow i w = All (λ x. (x.id == i) ≡ true → x.status ≡ cancelled) w.executions

update-IsCancelledRow :
    (i : ℕ) (f : Execution → Execution) (xs : List Execution)
    → ((x : Execution) → (f x).status ≡ cancelled)
    → All (λ x. (x.id == i) ≡ true → x.status ≡ cancelled) (update_where (λ x. x.id == i) f xs)
unfolding update_where
update-IsCancelledRow i f [] e = tt
update-IsCancelledRow i f (x ∷ xs) e = (ground (arith, e x), update-IsCancelledRow i f xs e)

invalidate_of-IsCancelledRow :
    (i : ℕ) (x : Option Execution) (w : World)
    → IsCancelledRow i w
    → IsCancelledRow i (invalidate_of x w)
unfolding invalidate_tenant_cache
invalidate_of-IsCancelledRow i none w h = h
invalidate_of-IsCancelledRow i (some x) w h = h

-- The executor's next round obeys the flag.
visit_cancels :
    (env : Env) (j : Job) (n : NodeId) (r : Run)
    → is_cancelled j.execution_id r.world ≡ true
    → (is_cyclic j && ltb max_iterations r.iteration) ≡ false
    → (v : World) × (visit env j n r ≡ stop v) × IsCancelledRow j.execution_id v
unfolding visit announce_cancelled broadcast_ws cancel_running
visit_cancels env j n r flag limit = (
  announce_cancelled j.execution_id
      (cancel_running j.execution_id "Execution cancelled by user" r.world),
  rw (limit, flag),
  invalidate_of-IsCancelledRow j.execution_id _ _
      (update-IsCancelledRow j.execution_id _ r.world.executions (λ x. refl)),
)

get_or-put_self : (d : Dict ℕ Bool) (i : ℕ) (b : Bool) → Dict.get_or (Dict.put d i b) i false ≡ b
unfolding Dict.get_or Dict.put
get_or-put_self [] i b = ground arith
get_or-put_self ((j, c) ∷ d) i b = ground (arith, get_or-put_self d i b)

abbrev row_cancelled : World → ℕ → Execution → World
row_cancelled w tenant x = invalidate_tenant_cache tenant (record w {
  executions = update_where (λ y. y.id == x.id) (cancelled_by_user w.clock) w.executions;
})

refused :
    (meanwhile : World → World) (w : World) (tenant : ℕ) (x : Execution) (s : Status)
    → is_active_status s ≡ false
    → cancel_by_status meanwhile w tenant x s ≡ err (not_cancellable s)
unfolding cancel_by_status
refused meanwhile w tenant x pending h = cc
refused meanwhile w tenant x running h = cc
refused meanwhile w tenant x _ h = refl

found_again :
    (w : World) (tenant i : ℕ) (x : Execution)
    → find_own w tenant i ≡ some x
    → find_own (row_cancelled w tenant x) tenant i ≡ some (cancelled_by_user w.clock x)
unfolding find_own invalidate_tenant_cache
found_again w tenant i x found =
    find_where-update_where (λ y. y.id == i && y.tenant_id == tenant) (λ y. y.id == x.id)
      (cancelled_by_user w.clock) w.executions x (λ y. refl) (==-refl x.id) found

-- A pending execution of the tenant is cancelled at once: the reply and every row with its identifier
-- are cancelled, and a second cancellation is refused.
pub cancel_execution_pending :
    (meanwhile : World → World) (w : World) (tenant i : ℕ) (x : Execution)
    → find_own w tenant i ≡ some x
    → x.status ≡ pending
    → (w' : World) × (cancel_execution meanwhile w tenant i ≡ ok (cancelled_by_user w.clock x, w'))
      × IsCancelledRow x.id w'
      × (cancel_execution meanwhile w' tenant i ≡ err (not_cancellable cancelled))
unfolding cancel_execution cancel_by_status
cancel_execution_pending meanwhile w tenant i x found p = (
  row_cancelled w tenant x,
  rw (found, p),
  update-IsCancelledRow x.id _ w.executions (λ y. refl),
  rw (found_again w tenant i x found) refl,
)

-- A round that finds the flag ends the run.
run_loop_cancels :
    (env : Env) (j : Job) (n : NodeId) (ns : List NodeId) (f : ℕ) (r : Run)
    → is_cancelled j.execution_id r.world ≡ true
    → (is_cyclic j && ltb max_iterations (suc r.iteration)) ≡ false
    → (u : World) × (run_loop env j (suc f) (n ∷ ns) r ≡ returned u)
      × IsCancelledRow j.execution_id u
unfolding run_loop
run_loop_cancels env j n ns f r flag limit =
    let (u, e, cancelled_row) = visit_cancels env j n (take_round env j n ns r) flag limit in
    (
      u,
      ap
          (λ (s : Step). elim s [
            | go r' ↦ run_loop env j f r'.queue r'
            | stop w ↦ returned w
            | raises message w ↦ raised message w
          ])
          e,
      cancelled_row,
    )

flagged :
    (w : World) (i : ℕ)
    → Dict.has w.active_executions i ≡ true
    → is_cancelled i (request_cancel i w).1 ≡ true
unfolding request_cancel is_cancelled
flagged w i known = rw known (get_or-put_self w.active_executions i true)

replied :
    (meanwhile : World → World) (w : World) (tenant i : ℕ) (x : Execution)
    → find_own w tenant i ≡ some x
    → x.status ≡ running
    → Dict.has w.active_executions x.id ≡ true
    → cancel_execution meanwhile w tenant i ≡ ok (x, (request_cancel x.id w).1)
unfolding cancel_execution request_cancel
replied meanwhile w tenant i x found run known = rw (found, run, known) refl

-- A tenant's cancellation of a running execution that the executor knows replies with the execution and
-- the world with its flag set, wherever it reaches the run: while an agent or a connector is awaited,
-- or between two rounds. If whatever else happens until the run goes on, in the world `v`, keeps the
-- flag, the awaited reply lets the run go on, a node is left in its queue, and no cyclic workflow is
-- over its limit of rounds then, the next round is the last: the run returns, with the execution
-- cancelled.
pub cancel_execution_running :
    (meanwhile : World → World) (w : World) (tenant i : ℕ) (x : Execution) (env : Env) (j : Job)
    (p : Point) (v : World) (n : NodeId) (ns : List NodeId) (f : ℕ) (r : Run)
    → find_own w tenant i ≡ some x
    → x.status ≡ running
    → Dict.has w.active_executions x.id ≡ true
    → j.execution_id ≡ x.id
    → (is_cancelled x.id (request_cancel x.id w).1 ≡ true → is_cancelled x.id v ≡ true)
    → resume env j p v ≡ go r
    → r.queue ≡ n ∷ ns
    → (is_cyclic j && ltb max_iterations (suc r.iteration)) ≡ false
    → (cancel_execution meanwhile w tenant i ≡ ok (x, (request_cancel x.id w).1))
      × ((u : World) × (run_loop env j (suc f) r.queue r ≡ returned u) × IsCancelledRow x.id u)
unfolding is_cancelled
cancel_execution_running meanwhile w tenant i x env j p v n ns f r found run known same keeps went
      queue limit =
    let flags : r.world.active_executions ≡ v.active_executions =
      rw went at (resume-FlagsKept env j p v) in
    let flag : is_cancelled j.execution_id r.world ≡ true =
      rw (flags, same) (keeps (flagged w x.id known)) in
    (
      replied meanwhile w tenant i x found run known,
      subst
          (λ k. (u : World) × (run_loop env j (suc f) r.queue r ≡ returned u) × IsCancelledRow k u)
          same
          (subst
            (λ ms.
              (u : World) × (run_loop env j (suc f) ms r ≡ returned u)
              × IsCancelledRow j.execution_id u)
            (sym queue) (run_loop_cancels env j n ns f r flag limit)),
    )

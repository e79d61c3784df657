-- ===== src/Dispatcher/Report.antt =====
-- The report of a dispatch, and the end of its loop.
use multi_tenant_agentic_wor.Base.{
  ℕ, suc, ◌+◌, ◌≤◌, ◌<◌, ◌≡◌, refl, sym, ap, ◌∙◌, subst, false, not, Option, none, some, List, [],
  ◌∷◌, ◌++◌, arith, leb, max, length, length-append, Bool-cases, Option-cases, inl, inr, ◌==◌,
  nat_eq,
}
use multi_tenant_agentic_wor.Store.{Execution, World}
use multi_tenant_agentic_wor.Executor.{Env, returned}
use multi_tenant_agentic_wor.Executor.Loop.{run_execution}
use multi_tenant_agentic_wor.Executor.Ends.{run_execution_total}
use multi_tenant_agentic_wor.Texts.{Texts, is_webhook_trigger}
use multi_tenant_agentic_wor.Dispatcher.Rounds.{Rounds, full, EndsAfter, dispatch_loop-EndsAfter}
use multi_tenant_agentic_wor.Dispatcher.{
  DispatchReport, empty_report, RetryPolicy, RetryResult, nothing_to_do, retry_scheduled,
  dead_letter, pending_scan_limit, pending_execution_candidates, is_workflow_dispatch_paused,
  is_retry_due, apply_retry_policy, count_retry, count_run, consider, dispatch_loop,
  dispatch_pending,
}

-- Every scanned execution is counted once, and as many are named as were dispatched.
pub record AddsUp (r : DispatchReport) : Type 0 where
  pub counted : r.scanned ≡ r.dispatched + r.skipped + r.deferred + r.paused
  pub named : length r.execution_ids ≡ r.dispatched
  pub retried : r.retries_scheduled + r.dead_lettered ≤ r.dispatched

empty_report-AddsUp : AddsUp empty_report
empty_report-AddsUp = record { counted = refl; named = refl; retried = omega arith }

leb→false : (a b : ℕ) → leb a b ≡ false → b < a
leb→false a b h = ground arith

module _ (t : Texts) (env : Env) (policy : RetryPolicy) (now : ℕ) where
  -- A round that succeeds adds up again, and dispatches one execution at most.
  abbrev Counts : DispatchReport → Option (World × DispatchReport) → Type 0
  Counts r none = ⊥
  Counts r (some (w, r')) = AddsUp r' × (r'.dispatched ≤ r.dispatched + 1)

  counted-Counts :
      (result : RetryResult) (w : World) (r : DispatchReport) (n : ℕ)
      → r.scanned ≡ r.dispatched + r.skipped + r.deferred + r.paused
      → length r.execution_ids ≡ r.dispatched
      → suc (r.retries_scheduled + r.dead_lettered) ≤ r.dispatched
      → r.dispatched ≤ n + 1
      → AddsUp (count_retry result r) × ((count_retry result r).dispatched ≤ n + 1)
  counted-Counts nothing_to_do w r n s l k m =
      (record { counted = s; named = l; retried = omega arith }, m)
  counted-Counts retry_scheduled w r n s l k m =
      (record { counted = s; named = l; retried = omega arith }, m)
  counted-Counts dead_letter w r n s l k m =
      (record { counted = s; named = l; retried = omega arith }, m)

  count_run-Counts :
      (x : Execution) (r : DispatchReport) (w : World)
      → r.scanned ≡ suc (r.dispatched + r.skipped + r.deferred + r.paused)
      → length r.execution_ids ≡ r.dispatched
      → r.retries_scheduled + r.dead_lettered ≤ r.dispatched
      → Counts r (count_run t policy now x r (returned w))
  unfolding count_run
  count_run-Counts x r w s n k =
      counted-Counts (apply_retry_policy t policy now w x.id).0
        (apply_retry_policy t policy now w x.id).1
        (record r { dispatched = r.dispatched + 1; execution_ids = r.execution_ids ++ x.id ∷ [] })
        r.dispatched (omega arith) (length-append r.execution_ids (x.id ∷ []) ∙ ap (λ m. m + 1) n)
        (omega arith) (omega arith)

  dispatched-Counts :
      (x : Execution) (w : World) (r : DispatchReport)
      → AddsUp r
      → Counts r (
          count_run t policy now x
            (record r { scanned = r.scanned + 1 })
            (run_execution env x.id x.workflow_id x.tenant_id x.input_data w))
  dispatched-Counts x w r a =
      let (w', e) = run_execution_total env x.id x.workflow_id x.tenant_id x.input_data w in
      rw e (
        count_run-Counts x (record r { scanned = r.scanned + 1 }) w' (omega (arith, a.counted))
          a.named a.retried)

  consider-Counts :
      (x : Execution) (w : World) (r : DispatchReport)
      → AddsUp r
      → Counts r (consider t env policy now x w r)
  unfolding consider
  consider-Counts x w r a = elim (Bool-cases (not (is_webhook_trigger x.input_data))) [
    | inl e ↦ rw e (
      record { counted = omega (arith, a.counted); named = a.named; retried = a.retried },
      omega arith,
    )
    | inr e ↦ rw e (elim (Bool-cases (is_workflow_dispatch_paused w x.workflow_id)) [
      | inl p ↦ rw p (
        record { counted = omega (arith, a.counted); named = a.named; retried = a.retried },
        omega arith,
      )
      | inr p ↦ rw p (elim (Bool-cases (not (is_retry_due t x.input_data now))) [
        | inl d ↦ rw d (
          record { counted = omega (arith, a.counted); named = a.named; retried = a.retried },
          omega arith,
        )
        | inr d ↦ rw d (dispatched-Counts x w r a)
      ])
    ])
  ]

  -- The loop ends, its report adds up, and it dispatches no more than the limit.
  abbrev Ends : ℕ → Option (World × DispatchReport) → Type 0
  Ends limit o =
      (w : World) × (r : DispatchReport) × (o ≡ some (w, r)) × AddsUp r × (r.dispatched ≤ limit)

  dispatch_loop-Ends :
      (limit : ℕ) (xs : List Execution) (w : World) (r : DispatchReport)
      → AddsUp r
      → r.dispatched ≤ limit
      → Ends limit (dispatch_loop t env policy now limit xs w r)
  unfolding dispatch_loop
  dispatch_loop-Ends limit [] w r a h = (w, r, refl, a, h)
  dispatch_loop-Ends limit (x ∷ xs) w r a h = elim (Bool-cases (leb limit r.dispatched)) [
    | inl e ↦ (w, r, rw e refl, a, h)
    | inr e ↦ elim (Option-cases (consider t env policy now x w r)) [
      | inl n ↦ absurd (subst (Counts r) n (consider-Counts x w r a))
      | inr ((w₁, r₁), s) ↦
          let c = subst (Counts r) s (consider-Counts x w r a) in
          let room = leb→false limit r.dispatched e in
          let (w₂, r₂, d, a₂, h₂) =
            dispatch_loop-Ends limit xs w₁ r₁ c.0 (omega (arith, c.1, room)) in
          (w₂, r₂, rw e (rw s d), a₂, h₂)
    ]
  ]

  -- A dispatch always ends. The executions that its report names are those that it ran, in order: of
  -- the candidates, one by one until the limit, each that came by a webhook, belongs to no paused
  -- workflow and is due is run and then given to the retry policy, and the others change nothing. The
  -- report counts each scanned execution as exactly one of dispatched, skipped, deferred and paused,
  -- names as many as it dispatched, schedules or dead-letters at most one retry for each of these, and
  -- there are no more of them than the limit.
  pub dispatch_pending_total :
      (limit : ℕ) (w : World)
      → (w' : World) × (r : DispatchReport) × (dispatch_pending t env policy now limit w
          ≡ some (w', r))
        × Rounds t env policy now limit
            (pending_execution_candidates w (max pending_scan_limit limit))
            w
            r.execution_ids
            w'
        × AddsUp r
        × (r.dispatched ≤ limit)
  unfolding dispatch_pending
  dispatch_pending_total limit w = elim (Bool-cases (limit == 0)) [
    | inl z ↦
        let candidates = pending_execution_candidates w (max pending_scan_limit limit) in
        let zero_limit : 0 ≡ limit = ground (arith, z) in
        (
          w,
          empty_report,
          rw z refl,
          subst (λ n. Rounds t env policy now n candidates w [] w) zero_limit (full candidates w),
          empty_report-AddsUp,
          omega arith,
        )
    | inr z ↦
        let candidates = pending_execution_candidates w (max pending_scan_limit limit) in
        let (w', r, e, sums, few) =
          dispatch_loop-Ends limit candidates w empty_report empty_report-AddsUp (omega arith) in
        let (ids, rounds, named) =
          subst (EndsAfter t env policy now limit candidates w empty_report) e (
            dispatch_loop-EndsAfter t env policy now limit limit candidates w empty_report
              (omega arith)) in
        (
          w',
          r,
          rw z e,
          subst (λ k. Rounds t env policy now limit candidates w k w') (sym named) rounds,
          sums,
          few,
        )
  ]

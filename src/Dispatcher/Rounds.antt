-- ===== src/Dispatcher/Rounds.antt =====
-- The rounds of a dispatch: which candidates it runs, and in which world.
use mathlib.Core.List.{append_assoc, append-nil}
use multi_tenant_agentic_wor.Base.{
  ℕ, zero, suc, ◌+◌, ◌≡◌, ◌⊎◌, refl, sym, ◌∙◌, subst, Bool, true, false, not, ◌&&◌, Option, none,
  some, List, [], ◌∷◌, ◌++◌, arith, leb, Bool-cases, Option-cases, inl, inr,
}
use multi_tenant_agentic_wor.Store.{Execution, World}
use multi_tenant_agentic_wor.Executor.{Env, returned}
use multi_tenant_agentic_wor.Executor.Loop.{run_execution}
use multi_tenant_agentic_wor.Executor.Ends.{run_execution_total}
use multi_tenant_agentic_wor.Texts.{Texts, is_webhook_trigger}
use multi_tenant_agentic_wor.Dispatcher.{
  DispatchReport, RetryPolicy, RetryResult, nothing_to_do, retry_scheduled, dead_letter,
  is_workflow_dispatch_paused, is_retry_due, apply_retry_policy, count_retry, count_run, consider,
  dispatch_loop,
}

module _ (t : Texts) (env : Env) (policy : RetryPolicy) (now : ℕ) where
  -- The candidate came by a webhook, its workflow is not paused, and it is due.
  abbrev pub is_ready : World → Execution → Bool
  is_ready w x =
      is_webhook_trigger x.input_data
      && not (is_workflow_dispatch_paused w x.workflow_id)
      && is_retry_due t x.input_data now

  -- With room for `n` more runs, the candidates are taken in order: one that is not ready changes
  -- nothing, and one that is ready is run and then given to the retry policy. The numbers are the
  -- identifiers of those that were run.
  pub data Rounds : ℕ → List Execution → World → List ℕ → World → Type 0 where
    full : (xs : List Execution) (w : World) → Rounds 0 xs w [] w
    done : (n : ℕ) (w : World) → Rounds n [] w [] w
    passes :
        (n : ℕ) (x : Execution) (xs : List Execution) (w w' : World) (ids : List ℕ)
        → is_ready w x ≡ false
        → Rounds (suc n) xs w ids w'
        → Rounds (suc n) (x ∷ xs) w ids w'
    runs :
        (n : ℕ) (x : Execution) (xs : List Execution) (w v w' : World) (ids : List ℕ)
        → is_ready w x ≡ true
        → run_execution env x.id x.workflow_id x.tenant_id x.input_data w ≡ returned v
        → Rounds n xs (apply_retry_policy t policy now v x.id).1 ids w'
        → Rounds (suc n) (x ∷ xs) w (x.id ∷ ids) w'

  -- A round that passes the candidate by.
  record Passed (x : Execution) (w : World) (r : DispatchReport) (w' : World) (r' : DispatchReport)
      : Type 0 where
    ready : is_ready w x ≡ false
    world : w' ≡ w
    dispatched : r'.dispatched ≡ r.dispatched
    ids : r'.execution_ids ≡ r.execution_ids

  -- A round that runs the candidate.
  record Ran (x : Execution) (w : World) (r : DispatchReport) (w' : World) (r' : DispatchReport)
      : Type 0 where
    ready : is_ready w x ≡ true
    after : World
    run : run_execution env x.id x.workflow_id x.tenant_id x.input_data w ≡ returned after
    world : w' ≡ (apply_retry_policy t policy now after x.id).1
    dispatched : r'.dispatched ≡ r.dispatched + 1
    ids : r'.execution_ids ≡ r.execution_ids ++ x.id ∷ []

  abbrev IsRound : Execution → World → DispatchReport → Option (World × DispatchReport) → Type 0
  IsRound x w r none = Unit
  IsRound x w r (some (w', r')) = Passed x w r w' r' ⊎ Ran x w r w' r'

  count_retry-dispatched :
      (result : RetryResult) (r : DispatchReport)
      → ((count_retry result r).dispatched ≡ r.dispatched)
        × ((count_retry result r).execution_ids ≡ r.execution_ids)
  count_retry-dispatched nothing_to_do r = (refl, refl)
  count_retry-dispatched retry_scheduled r = (refl, refl)
  count_retry-dispatched dead_letter r = (refl, refl)

  ran-IsRound :
      (x : Execution) (w v : World) (r : DispatchReport)
      → is_ready w x ≡ true
      → run_execution env x.id x.workflow_id x.tenant_id x.input_data w ≡ returned v
      → IsRound x w r (count_run t policy now x (record r { scanned = r.scanned + 1 }) (returned v))
  unfolding count_run
  ran-IsRound x w v r ready run =
      let (result, w') = apply_retry_policy t policy now v x.id in
      let same = count_retry-dispatched result (record r {
        scanned = r.scanned + 1;
        dispatched = r.dispatched + 1;
        execution_ids = r.execution_ids ++ x.id ∷ [];
      }) in
      inr (record {
        ready = ready;
        after = v;
        run = run;
        world = refl;
        dispatched = same.0;
        ids = same.1;
      })

  consider-IsRound :
      (x : Execution) (w : World) (r : DispatchReport)
      → IsRound x w r (consider t env policy now x w r)
  unfolding consider
  consider-IsRound x w r = elim (Bool-cases (is_webhook_trigger x.input_data)) [
    | inr e ↦ rw e (inl (record { ready = rw e refl; world = refl; dispatched = refl; ids = refl }))
    | inl e ↦ rw e (elim (Bool-cases (is_workflow_dispatch_paused w x.workflow_id)) [
      | inl p ↦
          rw p
            (inl (record { ready = rw (e, p) refl; world = refl; dispatched = refl; ids = refl }))
      | inr p ↦ rw p (elim (Bool-cases (is_retry_due t x.input_data now)) [
        | inr d ↦ rw d (
            inl (record { ready = rw (e, p, d) refl; world = refl; dispatched = refl; ids = refl }))
        | inl d ↦
            let (v, run) = run_execution_total env x.id x.workflow_id x.tenant_id x.input_data w in
            rw d (rw run (ran-IsRound x w v r (rw (e, p, d) refl) run))
      ])
    ])
  ]

  -- The rounds of a loop with room for `n` more runs.
  abbrev LoopHas : ℕ → List Execution → World → DispatchReport → World → DispatchReport → Type 0
  LoopHas n xs w r w' r' =
      (ids : List ℕ) × Rounds n xs w ids w' × (r'.execution_ids ≡ r.execution_ids ++ ids)

  round-LoopHas :
      (n : ℕ) (x : Execution) (xs : List Execution) (w w₁ w' : World) (r r₁ r' : DispatchReport)
      → Passed x w r w₁ r₁
      → LoopHas (suc n) xs w₁ r₁ w' r'
      → LoopHas (suc n) (x ∷ xs) w r w' r'
  round-LoopHas n x xs w w₁ w' r r₁ r' p (ids, rounds, e) = (
    ids,
    passes n x xs w w' ids p.ready (subst (λ u. Rounds (suc n) xs u ids w') p.world rounds),
    rw⁻¹ p.ids e,
  )

  run-LoopHas :
      (n : ℕ) (x : Execution) (xs : List Execution) (w w₁ w' : World) (r r₁ r' : DispatchReport)
      → Ran x w r w₁ r₁
      → LoopHas n xs w₁ r₁ w' r'
      → LoopHas (suc n) (x ∷ xs) w r w' r'
  run-LoopHas n x xs w w₁ w' r r₁ r' p (ids, rounds, e) = (
    x.id ∷ ids,
    runs n x xs w p.after w' ids p.ready p.run (subst (λ u. Rounds n xs u ids w') p.world rounds),
    e
        ∙ subst (λ k. k ++ ids ≡ r.execution_ids ++ x.id ∷ ids) (sym p.ids)
            (append_assoc r.execution_ids (x.id ∷ []) ids),
  )

  abbrev pub EndsAfter :
      ℕ → List Execution → World → DispatchReport → Option (World × DispatchReport) → Type 0
  EndsAfter n xs w r none = Unit
  EndsAfter n xs w r (some (w', r')) = LoopHas n xs w r w' r'

  next-EndsAfter :
      (limit n : ℕ) (x : Execution) (xs : List Execution) (w : World) (r : DispatchReport)
      (s : World × DispatchReport)
      → r.dispatched + suc n ≡ limit
      → Passed x w r s.0 s.1 ⊎ Ran x w r s.0 s.1
      → ((k : ℕ)
          → s.1.dispatched + k ≡ limit
          → EndsAfter k xs s.0 s.1 (dispatch_loop t env policy now limit xs s.0 s.1))
      → EndsAfter (suc n) (x ∷ xs) w r (dispatch_loop t env policy now limit xs s.0 s.1)
  next-EndsAfter limit n x xs w r s room round rest =
      elim (Option-cases (dispatch_loop t env policy now limit xs s.0 s.1)) [
        | inl stuck ↦ rw stuck tt
        | inr ((w', r'), e) ↦ rw e (elim round [
          | inl p ↦
              round-LoopHas n x xs w s.0 w' r s.1 r' p
                (rw e at (rest (suc n) (omega (arith, room, p.dispatched))))
          | inr p ↦
              run-LoopHas n x xs w s.0 w' r s.1 r' p
                (rw e at (rest n (omega (arith, room, p.dispatched))))
        ])
      ]

  pub dispatch_loop-EndsAfter :
      (limit n : ℕ) (xs : List Execution) (w : World) (r : DispatchReport)
      → r.dispatched + n ≡ limit
      → EndsAfter n xs w r (dispatch_loop t env policy now limit xs w r)
  unfolding dispatch_loop
  dispatch_loop-EndsAfter limit n [] w r room = ([], done n w, sym (append-nil r.execution_ids))
  dispatch_loop-EndsAfter limit zero (x ∷ xs) w r room =
      let reached : leb limit r.dispatched ≡ true = ground arith in
      rw reached ([], full (x ∷ xs) w, sym (append-nil r.execution_ids))
  dispatch_loop-EndsAfter limit (suc n) (x ∷ xs) w r room =
      let has_room : leb limit r.dispatched ≡ false = ground arith in
      rw has_room (elim (Option-cases (consider t env policy now x w r)) [
        | inl stuck ↦ rw stuck tt
        | inr (s, e) ↦ rw e (
            next-EndsAfter limit n x xs w r s room (rw e at (consider-IsRound x w r))
              (λ k. dispatch_loop-EndsAfter limit k xs s.0 s.1))
      ])

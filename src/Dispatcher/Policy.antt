-- ===== src/Dispatcher/Policy.antt =====
-- What becomes of a failed webhook execution: the next attempt, or the dead letter.
use multi_tenant_agentic_wor.Base.{
  ℕ, suc, ◌+◌, ◌<◌, ◌≤◌, ◌≡◌, refl, ap, ◌∙◌, ◌++◌, [], ◌∷◌, true, false, Option, some, arith, ◌==◌,
  nat_eq, string_eq, leb, leb→le, Bool-cases, inl, inr, find_where-update_where, ==-refl,
}
use multi_tenant_agentic_wor.Base.Int.{pos, at_least_one}
use multi_tenant_agentic_wor.Base.Json
use multi_tenant_agentic_wor.Base.Json.{Json, Fields, is_true, get-put}
use multi_tenant_agentic_wor.Store.{Execution, World, pending, failed, status_eq, find_execution}
use multi_tenant_agentic_wor.Texts.{
  Texts, dispatch_metadata, is_webhook_trigger, attempt_number, to_int, attempt_of,
}
use multi_tenant_agentic_wor.Executions.{is_dead_letter}
use multi_tenant_agentic_wor.Dispatcher.{
  RetryPolicy, RetryResult, retry_scheduled, dead_letter, has_retryable_failure,
  with_dispatch_metadata, next_metadata, retry_row, schedule_retry_execution, dead_letter_metadata,
  mark_dead_lettered, retry_failed, apply_retry_policy, is_retry_due, is_due_at, parse_datetime,
}

at_least_one-next : (n : ℕ) → at_least_one (pos (n + 1)) ≡ n + 1
at_least_one-next n = ground arith

-- The texts that the times of a retry are written as can be read again.
pub record ReadsBack (t : Texts) (n : ℕ) : Type 0 where
  pub written : (t.show_time n == "") ≡ false
  pub read_again : t.read_time (t.show_time n) ≡ some n

module _ (t : Texts) (x : Execution) (policy : RetryPolicy) (now : ℕ) where
  abbrev next_input : Option Json
  next_input = some (with_dispatch_metadata x.input_data (next_metadata t x policy now))

  dispatch_metadata-next : dispatch_metadata next_input ≡ next_metadata t x policy now
  dispatch_metadata-next = simp get-put

  is_webhook_trigger-next : is_webhook_trigger next_input ≡ is_webhook_trigger x.input_data
  is_webhook_trigger-next = simp get-put

  attempt-next :
      Json.get "attempt" (next_metadata t x policy now)
      ≡ some (Json.num (pos (attempt_number t x.input_data + 1)))
  attempt-next = simp get-put

  parent-next :
      Json.get "parent_execution_id" (next_metadata t x policy now)
      ≡ some (Json.str (t.show_id x.id))
  parent-next = simp get-put

  alive-next : Json.get "dead_lettered" (next_metadata t x policy now) ≡ some (Json.bool false)
  alive-next = simp get-put

  due-next :
      Json.get "next_attempt_at" (next_metadata t x policy now)
      ≡ some (Json.str (t.show_time (now + policy.backoff_seconds)))
  due-next = simp get-put

  attempt_number-next : attempt_number t next_input ≡ attempt_number t x.input_data + 1
  unfolding attempt_number
  attempt_number-next =
      ap (λ d. attempt_of t (to_int t (Json.get "attempt" d))) dispatch_metadata-next
      ∙ ap (λ v. attempt_of t (to_int t v)) attempt-next
      ∙ at_least_one-next (attempt_number t x.input_data)

  parse_datetime-str :
      ReadsBack t (now + policy.backoff_seconds)
      → parse_datetime t (some (Json.str (t.show_time (now + policy.backoff_seconds))))
        ≡ some (now + policy.backoff_seconds)
  parse_datetime-str h = rw h.written h.read_again

  is_retry_due-next :
      ReadsBack t (now + policy.backoff_seconds)
      → (later : ℕ) → is_retry_due t next_input later ≡ leb (now + policy.backoff_seconds) later
  unfolding is_retry_due
  is_retry_due-next h later =
      ap (λ d. is_due_at t (parse_datetime t (Json.get "next_attempt_at" d)) later)
        dispatch_metadata-next
      ∙ ap (λ v. is_due_at t (parse_datetime t v) later) due-next
      ∙ ap (λ o. is_due_at t o later) (parse_datetime-str h)

-- `y` is the next attempt at the webhook execution `x`, after the backoff of the policy.
pub record IsNextAttempt (t : Texts) (policy : RetryPolicy) (now : ℕ) (x y : Execution)
    : Type 0 where
  pub waits : y.status ≡ pending
  pub same_workflow : y.workflow_id ≡ x.workflow_id
  pub same_tenant : y.tenant_id ≡ x.tenant_id
  pub webhook : is_webhook_trigger y.input_data ≡ is_webhook_trigger x.input_data
  pub attempt : attempt_number t y.input_data ≡ attempt_number t x.input_data + 1
  pub parent :
      Json.get "parent_execution_id" (dispatch_metadata y.input_data)
      ≡ some (Json.str (t.show_id x.id))
  pub alive : is_true (Json.get "dead_lettered" (dispatch_metadata y.input_data)) ≡ false
  pub due :
      (later : ℕ) → is_retry_due t y.input_data later ≡ leb (now + policy.backoff_seconds) later

retry_row-IsNextAttempt :
    (t : Texts) (w : World) (x : Execution) (policy : RetryPolicy) (now : ℕ)
    → ReadsBack t (now + policy.backoff_seconds)
    → IsNextAttempt t policy now x (retry_row t w x policy now)
unfolding retry_row
retry_row-IsNextAttempt t w x policy now h = record {
  waits = refl;
  same_workflow = refl;
  same_tenant = refl;
  webhook = is_webhook_trigger-next t x policy now;
  attempt = attempt_number-next t x policy now;
  parent =
      ap (Json.get "parent_execution_id") (dispatch_metadata-next t x policy now)
      ∙ parent-next t x policy now;
  alive =
      ap (λ d. is_true (Json.get "dead_lettered" d)) (dispatch_metadata-next t x policy now)
      ∙ ap is_true (alive-next t x policy now);
  due = is_retry_due-next t x policy now h;
}

-- What the policy does with the failed execution `x` of `w`.
pub data Decision (t : Texts) (policy : RetryPolicy) (now : ℕ) (w : World) (x : Execution)
    : RetryResult → World → Type 0 where
  retried :
      (y : Execution)
      → attempt_number t x.input_data < policy.max_attempts
      → IsNextAttempt t policy now x y
      → Decision t policy now w x retry_scheduled
          (record w { executions = w.executions ++ y ∷ []; next_id = suc w.next_id })
  buried :
      (w' : World) (y : Execution)
      → policy.max_attempts ≤ attempt_number t x.input_data
      → find_execution w' x.id ≡ some y
      → is_dead_letter t y ≡ true
      → Decision t policy now w x dead_letter w'

abbrev bury : Texts → ℕ → Execution → Execution → Execution
bury t now x y = record y {
  input_data = some (with_dispatch_metadata x.input_data (dead_letter_metadata t x now));
}

dead_letter_metadata-is_true :
    (t : Texts) (x : Execution) (now : ℕ)
    → is_true (Json.get "dead_lettered" (dispatch_metadata (bury t now x x).input_data)) ≡ true
dead_letter_metadata-is_true t x now = simp get-put

is_webhook_trigger-bury :
    (t : Texts) (x : Execution) (now : ℕ)
    → is_webhook_trigger (bury t now x x).input_data ≡ is_webhook_trigger x.input_data
is_webhook_trigger-bury t x now = simp get-put

bury-is_dead_letter :
    (t : Texts) (x : Execution) (now : ℕ)
    → (x.status == failed) ≡ true
    → is_webhook_trigger x.input_data ≡ true
    → is_dead_letter t (bury t now x x) ≡ true
bury-is_dead_letter t x now s h =
    rw s (rw (is_webhook_trigger-bury t x now) (rw h (dead_letter_metadata-is_true t x now)))

abbrev pub Decided :
    (t : Texts) → RetryPolicy → ℕ → World → Execution → RetryResult × World → Type 0
Decided t policy now w x (result, w') = Decision t policy now w x result w'

-- A failed webhook execution with a retryable failure gets a next attempt, which is due exactly from
-- the end of the backoff, if attempts are left. Otherwise its row becomes a dead letter.
pub apply_retry_policy_lem :
    (t : Texts) (policy : RetryPolicy) (now : ℕ) (w : World) (x : Execution)
    → find_execution w x.id ≡ some x
    → (x.status == failed) ≡ true
    → is_webhook_trigger x.input_data ≡ true
    → has_retryable_failure w x.id ≡ true
    → ReadsBack t (now + policy.backoff_seconds)
    → Decided t policy now w x (apply_retry_policy t policy now w x.id)
unfolding apply_retry_policy retry_failed schedule_retry_execution mark_dead_lettered find_execution
apply_retry_policy_lem t policy now w x found s hook retry reads = rw found (
    rw s (
      rw retry (elim (Bool-cases (leb policy.max_attempts (attempt_number t x.input_data))) [
        | inl e ↦ rw e (
            buried _ (bury t now x x) (leb→le _ _ e)
              (find_where-update_where (λ y. y.id == x.id) (λ y. y.id == x.id) (bury t now x)
                w.executions x (λ y. refl) (==-refl x.id) found)
              (bury-is_dead_letter t x now s hook))
        | inr e ↦ rw e (
            retried (retry_row t w x policy now) (ground arith)
              (retry_row-IsNextAttempt t w x policy now reads))
      ])))

-- ===== src/Executions/Retry.antt =====
-- What a manual retry makes of a dead-lettered webhook execution.
use multi_tenant_agentic_wor.Base.{
  ℕ, ◌+◌, ◌≡◌, refl, sym, ap, subst, ◌∙◌, Bool, true, false, ◌&&◌, none, some, arith, ok, >>=-eq-ok,
  >>-eq-ok, require-eq-ok,
}
use multi_tenant_agentic_wor.Base.Int.{pos, at_least_one}
use multi_tenant_agentic_wor.Base.Json
use multi_tenant_agentic_wor.Base.Json.{Json, Fields, is_true, get-put, get-pop}
use multi_tenant_agentic_wor.Store.{Execution, World, pending, status_eq}
use multi_tenant_agentic_wor.Texts.{
  Texts, dispatch_metadata, is_webhook_trigger, attempt_number, to_int, attempt_of,
}
use multi_tenant_agentic_wor.Executions.{
  or_raise, find_own, is_dead_letter, retry_metadata, retry_input, new_execution,
  retry_dead_letter_execution,
}
use multi_tenant_agentic_wor.Executions.Admission.{create_execution_ok, or_raise-eq-ok}

&&-middle : (a b c : Bool) → (a && b && c) ≡ true → b ≡ true
&&-middle a b c h = ground arith

at_least_one-suc : (n : ℕ) → at_least_one (pos (n + 1)) ≡ n + 1
at_least_one-suc n = ground arith

webhook_of_dead :
    (t : Texts) (x : Execution) → is_dead_letter t x ≡ true → is_webhook_trigger x.input_data ≡ true
webhook_of_dead t x h = &&-middle _ _ _ h

module _ (t : Texts) (x : Execution) (user : ℕ) where
  dispatch_metadata-retry :
      dispatch_metadata (some (retry_input t x user)) ≡ retry_metadata t x user
  unfolding retry_input
  dispatch_metadata-retry = simp get-put

  is_webhook_trigger-retry :
      is_webhook_trigger (some (retry_input t x user)) ≡ is_webhook_trigger x.input_data
  unfolding retry_input
  is_webhook_trigger-retry = simp get-put

  attempt-retry :
      Json.get "attempt" (retry_metadata t x user)
      ≡ some (Json.num (pos (attempt_number t x.input_data + 1)))
  attempt-retry = simp (get-put, get-pop)

  dead_lettered-retry : Json.get "dead_lettered" (retry_metadata t x user) ≡ some (Json.bool false)
  dead_lettered-retry = simp (get-put, get-pop)

  next_attempt_at-retry : Json.get "next_attempt_at" (retry_metadata t x user) ≡ none
  next_attempt_at-retry = simp (get-put, get-pop)

  parent-retry :
      Json.get "parent_execution_id" (retry_metadata t x user) ≡ some (Json.str (t.show_id x.id))
  parent-retry = simp (get-put, get-pop)

  attempt_number-retry :
      attempt_number t (some (retry_input t x user)) ≡ attempt_number t x.input_data + 1
  unfolding attempt_number
  attempt_number-retry =
      ap (λ d. attempt_of t (to_int t (Json.get "attempt" d))) dispatch_metadata-retry
      ∙ ap (λ v. attempt_of t (to_int t v)) attempt-retry
      ∙ at_least_one-suc (attempt_number t x.input_data)

-- `y` takes up the webhook trigger of `x` once more, as its next attempt.
pub record IsRetryOf (t : Texts) (x y : Execution) : Type 0 where
  pub waits : y.status ≡ pending
  pub same_workflow : y.workflow_id ≡ x.workflow_id
  pub webhook : is_webhook_trigger y.input_data ≡ true
  pub attempt : attempt_number t y.input_data ≡ attempt_number t x.input_data + 1
  pub parent :
      Json.get "parent_execution_id" (dispatch_metadata y.input_data)
      ≡ some (Json.str (t.show_id x.id))
  pub due : Json.get "next_attempt_at" (dispatch_metadata y.input_data) ≡ none
  pub alive : is_true (Json.get "dead_lettered" (dispatch_metadata y.input_data)) ≡ false

retry-IsRetryOf :
    (t : Texts) (w : World) (tenant : ℕ) (x : Execution) (user : ℕ)
    → is_webhook_trigger x.input_data ≡ true
    → IsRetryOf t x (new_execution t w tenant x.workflow_id (some (retry_input t x user)))
retry-IsRetryOf t w tenant x user hook = record {
  waits = refl;
  same_workflow = refl;
  webhook = is_webhook_trigger-retry t x user ∙ hook;
  attempt = attempt_number-retry t x user;
  parent =
      ap (Json.get "parent_execution_id") (dispatch_metadata-retry t x user)
      ∙ parent-retry t x user;
  due =
      ap (Json.get "next_attempt_at") (dispatch_metadata-retry t x user)
      ∙ next_attempt_at-retry t x user;
  alive =
      ap (λ d. is_true (Json.get "dead_lettered" d)) (dispatch_metadata-retry t x user)
      ∙ ap is_true (dead_lettered-retry t x user);
}

-- A retry that succeeds was asked for a failed, dead-lettered webhook execution of the tenant, and
-- creates a pending execution of its workflow that is a webhook execution again, the next attempt,
-- names it as its parent, is due at once and is not dead-lettered.
pub retry_dead_letter_execution_ok :
    (t : Texts) (w : World) (tenant i user : ℕ) (y : Execution) (w' : World)
    → retry_dead_letter_execution t w tenant i user ≡ ok (y, w')
    → (x : Execution) × (find_own w tenant i ≡ some x)
      × (is_dead_letter t x ≡ true)
      × IsRetryOf t x y
unfolding retry_dead_letter_execution
retry_dead_letter_execution_ok t w tenant i user y w' h =
    let (x, found, h₁) = >>=-eq-ok (or_raise (find_own w tenant i) _) _ h in
    let (d, h₂) = (>>-eq-ok _ _).0 h₁ in
    let dead : is_dead_letter t x ≡ true = (require-eq-ok _ _).0 d in
    let (_, (e, _)) =
      create_execution_ok t w tenant x.workflow_id (some (retry_input t x user)) y w' h₂ in
    (
      x,
      or_raise-eq-ok _ _ found,
      dead,
      subst (IsRetryOf t x) (sym e) (retry-IsRetryOf t w tenant x user (webhook_of_dead t x dead)),
    )

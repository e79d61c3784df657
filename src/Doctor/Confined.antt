-- ===== src/Doctor/Confined.antt =====
-- What an applied patch may change: models of the tenant's agents, and two fields of its tools.
use multi_tenant_agentic_wor.Base.{
  ℕ, String, ◌≡◌, refl, sym, subst, Bool, true, false, Option, none, some, arith, ◌==◌, find_where,
  find_where-of_update, contains, Bool-cases, inl, inr, ok, err, >>=-eq-ok, >>-eq-ok, ok-value,
  nat_eq, string_eq,
}
use multi_tenant_agentic_wor.Base.Json
use multi_tenant_agentic_wor.Base.Json.{Json, Fields, Items, is_text}
use multi_tenant_agentic_wor.Tables.{Suggestion, applied}
use multi_tenant_agentic_wor.Store.{World}
use multi_tenant_agentic_wor.Texts.{Texts}
use multi_tenant_agentic_wor.Store.Writes.{invalidate_tenant_cache}
use multi_tenant_agentic_wor.Agents.{valid_models}
use multi_tenant_agentic_wor.Executions.{find_own, insert_execution}
use multi_tenant_agentic_wor.Doctor.{
  DoctorError, target_of, found_or_fail, model_of, is_own_suggestion, find_agent, find_tool,
  patch_agent, patch_tool, apply_agent_operation, apply_tool_operation, apply_operation,
  apply_operations, operations_of, find_suggestion, write_suggestion, mark_applied, retry_suggested,
  apply_suggestion, suggestion_closed,
}
use multi_tenant_agentic_wor.Doctor.Patched.{
  Rows, AgentPatched, ToolPatched, IsConfined, IsConfined-refl, IsConfined-trans,
  set_model-IsConfined, set_config-IsConfined, url_known, method_known,
}

module _ (tenant : ℕ) where
  model_of-valid :
      (v : Json) (model : String) → model_of v ≡ ok model → contains valid_models model ≡ true
  unfolding model_of
  model_of-valid (Json.str s) model h = elim (Bool-cases (contains valid_models s)) [
    | inl hit ↦ subst (λ m. contains valid_models m ≡ true) (ok-value (rw hit at h)) hit
    | inr miss ↦ cc (rw miss at h)
  ]
  model_of-valid Json.null model h = cc
  model_of-valid (Json.bool b) model h = cc
  model_of-valid (Json.num n) model h = cc
  model_of-valid (Json.arr xs) model h = cc
  model_of-valid (Json.obj d) model h = cc

  module _ (t : Texts) where
    apply_agent_operation-IsConfined :
        (d : Fields) (w w' : World)
        → apply_agent_operation t tenant d w ≡ ok w'
        → IsConfined tenant w w'
    unfolding apply_agent_operation patch_agent
    apply_agent_operation-IsConfined d w w' h =
        let (i, _, h₁) = >>=-eq-ok (target_of t d) _ h in
        let (_, _, h₂) = >>=-eq-ok (found_or_fail (find_agent w tenant i) _) _ h₁ in
        elim (Bool-cases (is_text (Json.get "path" d) "/model")) [
          | inl hit ↦
              let (v, _, h₃) = >>=-eq-ok (found_or_fail (Json.get "value" d) _) _ (rw hit at h₂) in
              let (model, known, h₄) = >>=-eq-ok (model_of v) _ h₃ in
              subst (IsConfined tenant w) (ok-value h₄)
                (set_model-IsConfined tenant i model w (model_of-valid v model known))
          | inr miss ↦
              subst (IsConfined tenant w) (ok-value (rw miss at h₂)) (IsConfined-refl tenant w)
        ]

    patch_tool-IsConfined :
        (i : ℕ) (key : String) (d : Fields) (w w' : World)
        → ((k : String) → (k == "url") ≡ false → (k == "method") ≡ false → (k == key) ≡ false)
        → patch_tool tenant i key d w ≡ ok w'
        → IsConfined tenant w w'
    unfolding patch_tool
    patch_tool-IsConfined i key d w w' known h =
        let (v, _, h₁) = >>=-eq-ok (found_or_fail (Json.get "value" d) _) _ h in
        subst (IsConfined tenant w) (ok-value h₁) (set_config-IsConfined tenant i key v w known)

    apply_tool_operation-IsConfined :
        (d : Fields) (w w' : World)
        → apply_tool_operation t tenant d w ≡ ok w'
        → IsConfined tenant w w'
    unfolding apply_tool_operation
    apply_tool_operation-IsConfined d w w' h =
        let (i, _, h₁) = >>=-eq-ok (target_of t d) _ h in
        let (_, _, h₂) = >>=-eq-ok (found_or_fail (find_tool w tenant i) _) _ h₁ in
        elim (Bool-cases (is_text (Json.get "path" d) "/config/url")) [
          | inl url ↦ patch_tool-IsConfined i "url" d w w' (url_known tenant) (rw url at h₂)
          | inr other ↦ elim (Bool-cases (is_text (Json.get "path" d) "/config/method")) [
            | inl method ↦
                patch_tool-IsConfined i "method" d w w' (method_known tenant)
                  (rw (other, method) at h₂)
            | inr miss ↦
                subst (IsConfined tenant w) (ok-value (rw (other, miss) at h₂))
                  (IsConfined-refl tenant w)
          ]
        ]

    apply_operation-IsConfined :
        (x : Json) (w w' : World) → apply_operation t tenant x w ≡ ok w' → IsConfined tenant w w'
    unfolding apply_operation
    apply_operation-IsConfined x w w' h =
        let d = Json.as_dict (some x) in
        elim (Bool-cases (is_text (Json.get "target_type" d) "agent_config")) [
          | inl agent ↦ apply_agent_operation-IsConfined d w w' (rw agent at h)
          | inr other ↦ elim (Bool-cases (is_text (Json.get "target_type" d) "tool")) [
            | inl tool ↦ apply_tool_operation-IsConfined d w w' (rw (other, tool) at h)
            | inr miss ↦
                subst (IsConfined tenant w) (ok-value (rw (other, miss) at h))
                  (IsConfined-refl tenant w)
          ]
        ]

    apply_operations-IsConfined :
        (xs : Items) (w w' : World)
        → apply_operations t tenant xs w ≡ ok w'
        → IsConfined tenant w w'
    unfolding apply_operations
    apply_operations-IsConfined Items.nil w w' h =
        subst (IsConfined tenant w) (ok-value h) (IsConfined-refl tenant w)
    apply_operations-IsConfined (Items.cons x xs) w w' h =
        let (v, first, rest) = >>=-eq-ok (apply_operation t tenant x w) _ h in
        IsConfined-trans tenant (apply_operation-IsConfined x w v first)
          (apply_operations-IsConfined xs v w' rest)

    retry_suggested-IsConfined :
        (s : Suggestion) (retry : Bool) (w w' : World) (k : Option ℕ)
        → retry_suggested t tenant s retry w ≡ ok (k, w')
        → IsConfined tenant w w'
    unfolding retry_suggested insert_execution invalidate_tenant_cache
    retry_suggested-IsConfined s false w w' k h =
        subst (λ r. IsConfined tenant w r.1) (ok-value h) (IsConfined-refl tenant w)
    retry_suggested-IsConfined s true w w' k h =
        let (x, _, h₁) = >>=-eq-ok (found_or_fail (find_own w tenant s.execution_id) _) _ h in
        let kept : IsConfined tenant w _ = record {
          agents = (IsConfined-refl tenant w).agents;
          tools = (IsConfined-refl tenant w).tools;
          suggestions = refl;
        } in
        subst (λ r. IsConfined tenant w r.1) (ok-value h₁) kept

found_or_fail-eq-ok {ℓ} :
    {A : Type ℓ} (o : Option A) {a : A} (e : DoctorError) → found_or_fail o e ≡ ok a → o ≡ some a
found_or_fail-eq-ok none e h = cc
found_or_fail-eq-ok (some a) e h = ground arith

refused_when_applied :
    (t : Texts) (w : World) (tenant i user : ℕ) (retry : Bool) (s : Suggestion)
    → find_suggestion w tenant i ≡ some s
    → s.status ≡ applied
    → apply_suggestion t w tenant i user retry ≡ err (suggestion_closed applied)
unfolding apply_suggestion
refused_when_applied t w tenant i user retry s found closed = rw (found, closed) refl

-- When a suggestion is applied, every agent configuration is as it was or belongs to the tenant
-- and has only another model, one of those that are supported; every tool is as it was or belongs
-- to the tenant and has only another configuration, which agrees with the former at every key but
-- the URL and the method; and the suggestion can not be applied again.
pub apply_suggestion-IsConfined :
    (t : Texts) (w : World) (tenant i user : ℕ) (retry : Bool) (k : Option ℕ) (w' : World)
    → apply_suggestion t w tenant i user retry ≡ ok (k, w')
    → Rows (AgentPatched tenant) w.agent_configs w'.agent_configs
      × Rows (ToolPatched tenant) w.tools w'.tools
      × ((user' : ℕ) (retry' : Bool)
          → apply_suggestion t w' tenant i user' retry' ≡ err (suggestion_closed applied))
unfolding apply_suggestion write_suggestion find_suggestion mark_applied
apply_suggestion-IsConfined t w tenant i user retry k w' h =
    let (s, found, h₁) = >>=-eq-ok (found_or_fail (find_suggestion w tenant i) _) _ h in
    let (_, h₂) = (>>-eq-ok _ _).0 h₁ in
    let (_, h₃) = (>>-eq-ok _ _).0 h₂ in
    let (w₁, patched, h₄) = >>=-eq-ok (apply_operations t tenant (operations_of s.patch) w) _ h₃ in
    let ((k', w₂), retried, h₅) = >>=-eq-ok (retry_suggested t tenant s retry w₁) _ h₄ in
    let c =
      IsConfined-trans tenant
        (apply_operations-IsConfined tenant t (operations_of s.patch) w w₁ patched)
        (retry_suggested-IsConfined tenant t s retry w₁ w₂ k' retried) in
    let own = is_own_suggestion tenant i in
    let change = mark_applied w.clock user in
    let (y, again) =
      find_where-of_update own own change w₂.suggestions s (λ z e. e) (λ z. refl)
        (subst (λ rows. find_where own rows ≡ some s) (sym c.suggestions)
          (found_or_fail-eq-ok _ _ found)) in
    subst
      (λ r.
        Rows (AgentPatched tenant) w.agent_configs r.1.agent_configs
        × Rows (ToolPatched tenant) w.tools r.1.tools
        × ((user' : ℕ) (retry' : Bool)
            → apply_suggestion t r.1 tenant i user' retry' ≡ err (suggestion_closed applied)))
      (ok-value h₅)
      (
        c.agents,
        c.tools,
        λ user' retry'.
            refused_when_applied t (write_suggestion tenant i change w₂) tenant i user' retry'
              (change y) again refl,
      )

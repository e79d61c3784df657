-- ===== src/Agents/Limits.antt =====
-- What holds of the agent configurations under any sequence of the service's operations.
use multi_tenant_agentic_wor.Base.{
  ℕ, ◌≤◌, ◌<◌, ◌≡◌, refl, sym, ap, subst, ◌∙◌, String, true, not, Option, none, some, List, [], ◌∷◌,
  ◌++◌, arith, ◌==◌, All, All-append, All-update_where, All-select_where, count_where, find_where,
  contains, count_where-append, count_where-update_where-le, count_where-select_where-le,
  count_where-eq-0, nat_eq, string_eq, option_eq, nat_beq_iff, Bool-cases, inl, inr, ok, >>=-eq-ok,
  >>-eq-ok, require-eq-ok, not-leb→lt, ok-pair, ok-value, eq_of_some,
}
use multi_tenant_agentic_wor.Graph.{NodeId}
use multi_tenant_agentic_wor.Store.{Tenant, AgentConfig, World, find_tenant, find_workflow}
use multi_tenant_agentic_wor.Agents.{
  AgentError, found_or, valid_roles, valid_models, valid_memory_types, check_choice,
  validate_fields, AgentFields, is_agent_of, is_at_node, count_agents, find_at_node, is_free,
  new_agent, add_agent, create_agent, AgentChanges, or_old, change_agent, find_agent, write_agent,
  update_agent, remove_agent, delete_agent, invalid_role, invalid_model, invalid_memory_type,
}

pub found_or-eq-ok {ℓ} :
    {A : Type ℓ} (o : Option A) (e : AgentError) {a : A} → found_or o e ≡ ok a → o ≡ some a
found_or-eq-ok none e h = cc
found_or-eq-ok (some a) e h = ground arith

-- The enumerated fields hold one of their values.
pub record HasValidFields (a : AgentConfig) : Type 0 where
  pub role : contains valid_roles a.role ≡ true
  pub model : contains valid_models a.model ≡ true
  pub memory_type : contains valid_memory_types a.memory_type ≡ true

-- No node of a workflow has two configurations, no tenant has more of them in a workflow than it may,
-- and their fields are valid.
pub record IsOrderly (w : World) : Type 0 where
  pub single :
      (workflow : ℕ) (node : NodeId) → count_where (is_at_node workflow node) w.agent_configs ≤ 1
  pub limits :
      (tenant workflow : ℕ) (u : Tenant)
      → find_tenant w tenant ≡ some u
      → count_agents w tenant workflow ≤ u.max_agents_per_workflow
  pub fields : All HasValidFields w.agent_configs

check_choice-given :
    (choices : List String) (error : String → AgentError) (given : Option String) (old : String)
    → check_choice choices error given ≡ ok tt
    → contains choices old ≡ true
    → contains choices (or_old given old) ≡ true
unfolding check_choice
check_choice-given choices error none old h valid = valid
check_choice-given choices error (some s) old h valid = (require-eq-ok _ _).0 h

-- What passes `_validate_fields` may be stored.
pub validate_fields-HasValidFields :
    (c : AgentChanges) (a : AgentConfig)
    → validate_fields c.role c.model c.memory_type ≡ ok tt
    → HasValidFields a
    → HasValidFields (change_agent c a)
unfolding validate_fields change_agent
validate_fields-HasValidFields c a h valid =
    let (r, h₁) = (>>-eq-ok _ _).0 h in
    let (m, k) = (>>-eq-ok _ _).0 h₁ in
    record {
      role = check_choice-given valid_roles invalid_role c.role a.role r valid.role;
      model = check_choice-given valid_models invalid_model c.model a.model m valid.model;
      memory_type =
          check_choice-given valid_memory_types invalid_memory_type c.memory_type a.memory_type k
            valid.memory_type;
    }

new_agent-HasValidFields :
    (w : World) (tenant workflow : ℕ) (a : AgentFields)
    → validate_fields (some a.role) (some a.model) (some a.memory_type) ≡ ok tt
    → HasValidFields (new_agent w tenant workflow a)
unfolding validate_fields check_choice
new_agent-HasValidFields w tenant workflow a h =
    let (r, h₁) = (>>-eq-ok _ _).0 h in
    let (m, k) = (>>-eq-ok _ _).0 h₁ in
    record {
      role = (require-eq-ok _ _).0 r;
      model = (require-eq-ok _ _).0 m;
      memory_type = (require-eq-ok _ _).0 k;
    }

is_free-eq-none {ℓ} : {A : Type ℓ} (o : Option A) → is_free o ≡ true → o ≡ none
is_free-eq-none none h = refl
is_free-eq-none (some a) h = cc

-- What a successful creation found, and what it did.
pub create_agent_ok :
    (w w' : World) (tenant workflow : ℕ) (a : AgentFields) (x : AgentConfig)
    → create_agent w tenant workflow a ≡ ok (x, w')
    → (validate_fields (some a.role) (some a.model) (some a.memory_type) ≡ ok tt)
      × ((u : Tenant) × (find_tenant w tenant ≡ some u)
          × (count_agents w tenant workflow < u.max_agents_per_workflow))
      × (find_at_node w workflow a.node_id ≡ none)
      × (w' ≡ add_agent (new_agent w tenant workflow a) w)
unfolding create_agent
create_agent_ok w w' tenant workflow a x h =
    let (_, _, h₁) = >>=-eq-ok (found_or (find_workflow w tenant workflow) _) _ h in
    let (valid, h₂) = (>>-eq-ok _ _).0 h₁ in
    let (u, owned, h₃) = >>=-eq-ok (found_or (find_tenant w tenant) _) _ h₂ in
    let (room, h₄) = (>>-eq-ok _ _).0 h₃ in
    let (free, h₅) = (>>-eq-ok _ _).0 h₄ in
    let (_, same) = ok-pair h₅ in
    (
      valid,
      (u, found_or-eq-ok _ _ owned, not-leb→lt _ _ ((require-eq-ok _ _).0 room)),
      is_free-eq-none _ ((require-eq-ok _ _).0 free),
      same,
    )

module _ (w : World) (tenant workflow : ℕ) (a : AgentFields) where
  create-single :
      find_at_node w workflow a.node_id ≡ none
      → IsOrderly w
      → (f : ℕ) (n : NodeId)
      → count_where (is_at_node f n) (w.agent_configs ++ new_agent w tenant workflow a ∷ []) ≤ 1
  unfolding find_at_node
  create-single free o f n =
      rw (count_where-append (is_at_node f n) w.agent_configs (new_agent w tenant workflow a))
        (elim (Bool-cases (is_at_node f n (new_agent w tenant workflow a))) [
          | inl hit ↦
              let at : workflow ≡ f = ground (arith, nat_beq_iff workflow f) in
              let node : a.node_id ≡ n = ground (arith, option_eq.equals_iff a.node_id n) in
              let nowhere : count_where (is_at_node f n) w.agent_configs ≡ 0 =
                count_where-eq-0 (is_at_node f n) w.agent_configs (
                  subst (λ k. find_where (is_at_node k n) w.agent_configs ≡ none) at
                    (subst (λ k. find_where (is_at_node workflow k) w.agent_configs ≡ none) node
                      free)) in
              rw hit (omega (arith, nowhere))
          | inr miss ↦ rw miss (omega (arith, o.single f n))
        ])

  create-limits :
      (u : Tenant)
      → find_tenant w tenant ≡ some u
      → count_agents w tenant workflow < u.max_agents_per_workflow
      → IsOrderly w
      → (i f : ℕ) (v : Tenant) → find_tenant w i ≡ some v
      → count_where (is_agent_of i f) (w.agent_configs ++ new_agent w tenant workflow a ∷ [])
        ≤ v.max_agents_per_workflow
  unfolding count_agents
  create-limits u owned room o i f v e =
      rw (count_where-append (is_agent_of i f) w.agent_configs (new_agent w tenant workflow a))
        (elim (Bool-cases (is_agent_of i f (new_agent w tenant workflow a))) [
          | inl hit ↦
              let at : workflow ≡ f = ground (arith, nat_beq_iff workflow f) in
              let by : tenant ≡ i = ground (arith, nat_beq_iff tenant i) in
              let owner : u ≡ v = eq_of_some (sym owned ∙ ap (find_tenant w) by ∙ e) in
              let few : count_agents w i f < v.max_agents_per_workflow =
                subst (λ k. count_agents w k f < v.max_agents_per_workflow) by
                  (subst (λ k. count_agents w tenant k < v.max_agents_per_workflow) at
                    (subst (λ y. count_agents w tenant workflow < y.max_agents_per_workflow) owner
                      room)) in
              rw hit (ground (arith, few))
          | inr miss ↦ rw miss (omega (arith, o.limits i f v e))
        ])

-- The operations that write.
pub data AgentStep : World → World → Type 0 where
  creates :
      {w w' : World} {x : AgentConfig} (tenant workflow : ℕ) (a : AgentFields)
      → create_agent w tenant workflow a ≡ ok (x, w')
      → AgentStep w w'
  updates :
      {w w' : World} (tenant workflow i : ℕ) (c : AgentChanges)
      → update_agent w tenant workflow i c ≡ ok w'
      → AgentStep w w'
  deletes :
      {w w' : World} (tenant workflow i : ℕ)
      → delete_agent w tenant workflow i ≡ ok w'
      → AgentStep w w'

pub data AgentReach (w : World) : World → Type 0 where
  here : AgentReach w w
  next : {v v' : World} → AgentReach w v → AgentStep v v' → AgentReach w v'

write-IsOrderly :
    (w : World) (k : ℕ) (c : AgentChanges)
    → validate_fields c.role c.model c.memory_type ≡ ok tt
    → IsOrderly w
    → IsOrderly (write_agent k (change_agent c) w)
unfolding write_agent find_tenant count_agents
write-IsOrderly w k c valid o = record {
  single = λ f n. omega (
    arith,
    o.single f n,
    count_where-update_where-le (is_at_node f n) (λ a. a.id == k) (change_agent c) w.agent_configs
        (unfold change_agent in (λ a h. h)),
  );
  limits = λ i f u e. omega (
    arith,
    o.limits i f u e,
    count_where-update_where-le (is_agent_of i f) (λ a. a.id == k) (change_agent c) w.agent_configs
        (unfold change_agent in (λ a h. h)),
  );
  fields =
      All-update_where HasValidFields (λ a. a.id == k) (change_agent c) w.agent_configs
        (λ a hit old. validate_fields-HasValidFields c a valid old) o.fields;
}

remove-IsOrderly : (w : World) (k : ℕ) → IsOrderly w → IsOrderly (remove_agent k w)
unfolding remove_agent find_tenant count_agents
remove-IsOrderly w k o = record {
  single = λ f n. omega (
    arith,
    o.single f n,
    count_where-select_where-le (is_at_node f n) (λ a. not (a.id == k)) w.agent_configs,
  );
  limits = λ i f u e. omega (
    arith,
    o.limits i f u e,
    count_where-select_where-le (is_agent_of i f) (λ a. not (a.id == k)) w.agent_configs,
  );
  fields = All-select_where HasValidFields (λ a. not (a.id == k)) w.agent_configs o.fields;
}

AgentStep-IsOrderly : {w w' : World} → AgentStep w w' → IsOrderly w → IsOrderly w'
unfolding add_agent find_tenant count_agents update_agent delete_agent
AgentStep-IsOrderly (creates {w} {w'} {x} tenant workflow a h) o =
    let (valid, (u, owned, room), free, same) = create_agent_ok w w' tenant workflow a x h in
    rw same (record {
      single = create-single w tenant workflow a free o;
      limits = create-limits w tenant workflow a u owned room o;
      fields =
          All-append HasValidFields w.agent_configs (new_agent w tenant workflow a ∷ []) o.fields
            (new_agent-HasValidFields w tenant workflow a valid, tt);
    })
AgentStep-IsOrderly (updates {w} tenant workflow i c h) o =
    let (_, _, h₁) = >>=-eq-ok (found_or (find_workflow w tenant workflow) _) _ h in
    let (valid, h₂) = (>>-eq-ok _ _).0 h₁ in
    let (a, _, h₃) = >>=-eq-ok (found_or (find_agent w tenant workflow i) _) _ h₂ in
    subst IsOrderly (ok-value h₃) (write-IsOrderly w a.id c valid o)
AgentStep-IsOrderly (deletes {w} tenant workflow i h) o =
    let (_, _, h₁) = >>=-eq-ok (found_or (find_workflow w tenant workflow) _) _ h in
    let (a, _, h₂) = >>=-eq-ok (found_or (find_agent w tenant workflow i) _) _ h₁ in
    subst IsOrderly (ok-value h₂) (remove-IsOrderly w a.id o)

-- If no node of a workflow has two configurations, no tenant has more configurations in a workflow
-- than it may, and the role, model and memory type of each are among the allowed ones, all this
-- holds after any sequence of creations, updates and deletions of configurations.
pub AgentReach-IsOrderly : {w v : World} → IsOrderly w → AgentReach w v → IsOrderly v
AgentReach-IsOrderly o here = o
AgentReach-IsOrderly o (next r s) = AgentStep-IsOrderly s (AgentReach-IsOrderly o r)

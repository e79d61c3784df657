-- ===== src/Executions/Waiting.antt =====
-- Where a request can reach a run: while the executor awaits an agent or a connector, or between two
-- rounds. What the run does from there leaves the cancel flags alone.
use multi_tenant_agentic_wor.Base.{
  ◌≡◌, refl, ap, some, ◌==◌, ltb, count_where, Bool-cases, inl, inr, string_eq,
}
use multi_tenant_agentic_wor.Graph.{NodeId, Node}
use multi_tenant_agentic_wor.Store.{AgentConfig, World}
use multi_tenant_agentic_wor.Store.Writes.{
  add_log, add_totals, charge_tenant, can_charge, invalidate_tenant_cache, broadcast_ws,
}
use multi_tenant_agentic_wor.Executor.{
  AgentResult, AgentReply, replies, agent_raises, ConnectorReply, connector_returns,
  connector_fails, connector_raises, Env, Job, Run, Step, go, stop, raises,
}
use multi_tenant_agentic_wor.Executor.Steps.{spent, record_step, connector_replied, agent_replied}
use multi_tenant_agentic_wor.Executor.Keeps.{follow-world}

-- The run awaits the reply of an agent, which will be `reply`, or that of a connector, or it is between
-- two rounds.
pub data Point : Type 0 where
  in_agent : NodeId → AgentConfig → Run → (reply : AgentReply) → Point
  in_connector : NodeId → Node → Run → (reply : ConnectorReply) → Point
  between : Run → Point

module _ (env : Env) (j : Job) where
  -- The rest of the round, when the run goes on in the world `v`.
  unfoldable pub resume : Point → World → Step
  unfolding agent_replied connector_replied
  resume (in_agent i c r reply) v = agent_replied env j i c r (reply, v)
  resume (in_connector i n r reply) v = connector_replied env j i n r (reply, v)
  resume (between r) v = go (record r { world = v })

  -- The cancel flags are those of `v` where the run goes on.
  abbrev pub FlagsKept : World → Step → Type 0
  FlagsKept v (go r) = r.world.active_executions ≡ v.active_executions
  FlagsKept v (stop w) = Unit
  FlagsKept v (raises message w) = Unit

  record_step-FlagsKept :
      (i : NodeId) (c : AgentConfig) (a : AgentResult) (r : Run) (v : World)
      → FlagsKept v (record_step env j i c a r v)
  unfolding record_step add_log add_totals charge_tenant invalidate_tenant_cache broadcast_ws
  record_step-FlagsKept i c a r v =
      ap (λ (u : World). u.active_executions) (follow-world env j i (some a.action) a.reasoning _)

  agent_replied-FlagsKept :
      (i : NodeId) (c : AgentConfig) (r : Run) (reply : AgentReply) (v : World)
      → FlagsKept v (agent_replied env j i c r (reply, v))
  unfolding agent_replied
  agent_replied-FlagsKept i c r (agent_raises message) v = tt
  agent_replied-FlagsKept i c r (replies a) v = elim (Bool-cases (a.action == "error")) [
    | inl e ↦ rw e tt
    | inr e ↦
        rw e (elim (Bool-cases (ltb 0 (count_where (can_charge j.tenant_id (spent a)) v.tenants))) [
          | inl fits ↦ rw fits (record_step-FlagsKept i c a r v)
          | inr over ↦ rw over tt
        ])
  ]

  connector_replied-FlagsKept :
      (i : NodeId) (n : Node) (r : Run) (reply : ConnectorReply) (v : World)
      → FlagsKept v (connector_replied env j i n r (reply, v))
  unfolding connector_replied add_log broadcast_ws
  connector_replied-FlagsKept i n r (connector_raises message) v = tt
  connector_replied-FlagsKept i n r (connector_fails e) v = tt
  connector_replied-FlagsKept i n r (connector_returns c) v =
      ap (λ (u : World). u.active_executions)
        (follow-world env j i (some "connector_call") (some "") _)

  pub resume-FlagsKept : (p : Point) (v : World) → FlagsKept v (resume p v)
  unfolding resume
  resume-FlagsKept (in_agent i c r reply) v = agent_replied-FlagsKept i c r reply v
  resume-FlagsKept (in_connector i n r reply) v = connector_replied-FlagsKept i n r reply v
  resume-FlagsKept (between r) v = refl

-- ===== src/Controller/Status.antt =====
-- internal/controller/agent_controller.go: status, conditions, events and history of an agent.
use k8sagent_orchestrator.Prelude.{
  String, ◌==◌, Option, none, some, List, [], ◌∷◌, if◌then◌else◌, ◌<>◌,
}
use k8sagent_orchestrator.Cache.{Time}
use k8sagent_orchestrator.Api.{
  Agent, AgentPhase, AgentStatus, AgentCondition, pending, running, failed, stopped,
}
use k8sagent_orchestrator.Io.{Io, ◌>>=◌, pure, Result, ok, err}
use k8sagent_orchestrator.History.{HistoryStore}
use k8sagent_orchestrator.Kube.{Env}

unfoldable pub pod_phase_to_agent_phase : String → AgentPhase
pod_phase_to_agent_phase phase =
    if phase == "Pending"
    then pending
    else if phase == "Running"
    then running
    else if phase == "Succeeded"
    then stopped
    else if phase == "Failed"
    then failed
    else pending

-- The loop over the conditions, and the append behind it.
set_condition_in :
    String → String → String → String → Time → List AgentCondition → List AgentCondition
set_condition_in cond_type status reason message now [] =
    record {
      condition_type = cond_type;
      status = status;
      last_transition_time = now;
      reason = reason;
      message = message;
    }
    ∷ []
set_condition_in cond_type status reason message now (c ∷ conditions) =
    if c.condition_type == cond_type
    then record c {
      status = status;
      last_transition_time = now;
      reason = reason;
      message = message;
    }
      ∷ conditions
    else c ∷ set_condition_in cond_type status reason message now conditions

abbrev pub with_status : Agent → AgentStatus → Agent
with_status agent status = record agent { status = status }

-- The object that a patch leaves in the program's hands: the server's answer, or what was sent.
abbrev pub answered : Agent → Result Agent → Agent
answered sent (err e) = sent
answered sent (ok agent) = agent

module _ {W : Type 0} (env : Env W) where
  unfoldable pub set_condition : Agent → String → String → String → String → Io W Agent
  unfolding set_condition_in
  set_condition agent cond_type status reason message = do
    now ← env.now
    pure (
        with_status agent (record agent.status {
          conditions = set_condition_in cond_type status reason message now agent.status.conditions;
        }))

  -- The agent as the code holds it afterwards, and the error of the patch.
  unfoldable pub update_status : Agent → AgentPhase → String → String → Io W (Agent × Result Agent)
  update_status agent phase pod_name message = do
    now ← env.now
    let updated = with_status agent (record agent.status {
      phase = phase;
      pod_name = pod_name;
      message = message;
      observed_generation = agent.meta.generation;
      last_updated = some now;
    })
    reply ← env.patch_status agent updated
    pure (answered updated reply, reply)

  -- "[%s] text" at the current time.
  unfoldable pub stamped : String → Io W String
  stamped text = do now ← env.now; pure ("[" <> env.timestamp now <> "] " <> text)

  -- `r.Recorder.Eventf(agent, eventType, reason, "[%s] …", now)`
  unfoldable pub emit : Agent → String → String → String → W → W
  unfolding stamped
  emit agent event_type reason text w =
      let (message, w') = stamped text w in env.event agent event_type reason message w'

  append_if : Option (HistoryStore W) → Agent → String → String → String → W → W
  append_if none agent event_type reason message w = w
  append_if (some history) agent event_type reason message w =
      history.append agent.meta.namespace agent.meta.name event_type reason message w

  unfoldable pub append_history : Agent → String → String → String → W → W
  unfolding append_if
  append_history agent event_type reason message w =
      append_if env.history agent event_type reason message w

  -- `r.appendHistory(ctx, agent, eventType, reason, fmt.Sprintf("[%s] …", now))`
  unfoldable pub log_history : Agent → String → String → String → W → W
  unfolding append_history stamped
  log_history agent event_type reason text w =
      let (message, w') = stamped text w in append_history agent event_type reason message w'

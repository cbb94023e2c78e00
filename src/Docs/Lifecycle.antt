-- ===== src/Docs/Lifecycle.antt =====
-- docs/docs.go: the documented operations on the lifecycle of an agent.
use k8sagent_orchestrator.Prelude.{[], ◌∷◌, false, none}
use k8sagent_orchestrator.Docs.Spec.{Operation, agent_name, answer, object, texts, integer}

abbrev pub disable_healing_operation : Operation
disable_healing_operation = record {
  path = "/api/v1/agents/{name}/disable-healing";
  method = "post";
  description =
      "Sets spec.selfHealingDisabled=true. The Agent CR will NOT be recreated automatically when deleted externally.";
  consumes = [];
  produces = "application/json" ∷ [];
  tags = "lifecycle" ∷ [];
  summary = "Disable self-healing";
  parameters = agent_name ∷ [];
  responses =
      answer 200 "selfHealingDisabled: true" object
      ∷ answer 404 "Not Found" texts
      ∷ answer 500 "Internal Server Error" texts
      ∷ [];
}

abbrev pub enable_healing_operation : Operation
enable_healing_operation = record {
  path = "/api/v1/agents/{name}/enable-healing";
  method = "post";
  description =
      "Sets spec.selfHealingDisabled=false. The Agent CR will be automatically recreated when deleted externally (this is the default behaviour).";
  consumes = [];
  produces = "application/json" ∷ [];
  tags = "lifecycle" ∷ [];
  summary = "Enable self-healing";
  parameters = agent_name ∷ [];
  responses =
      answer 200 "selfHealingDisabled: false" object
      ∷ answer 404 "Not Found" texts
      ∷ answer 500 "Internal Server Error" texts
      ∷ [];
}

abbrev pub keepalive_operation : Operation
keepalive_operation = record {
  path = "/api/v1/agents/{name}/keepalive";
  method = "post";
  description =
      "Resets the idle timer for the agent. If the agent is paused (idle-stopped), wakes it and waits up to 30s for it to reach Running phase. Returns current status and the ClusterIP service URL for direct A2A communication. Call this endpoint periodically (e.g. every idleTimeout/2 seconds) during active A2A sessions to prevent auto-stop.";
  consumes = [];
  produces = "application/json" ∷ [];
  tags = "lifecycle" ∷ [];
  summary = "Agent keepalive / wake-on-demand";
  parameters =
      agent_name
      ∷ record {
        name = "wait";
        place = "query";
        description = "Max seconds to wait for Running (default 30, max 120)";
        required = false;
        schema = integer;
        default = none;
      }
      ∷ [];
  responses =
      answer 200 "status + svcUrl" object
      ∷ answer 404 "Not Found" texts
      ∷ answer 500 "Internal Server Error" texts
      ∷ [];
}

abbrev pub restart_operation : Operation
restart_operation = record {
  path = "/api/v1/agents/{name}/restart";
  method = "post";
  description = "Forces pod recreation by bumping the orchestrator.dev/restart-at annotation";
  consumes = [];
  produces = "application/json" ∷ [];
  tags = "lifecycle" ∷ [];
  summary = "Restart agent";
  parameters = agent_name ∷ [];
  responses =
      answer 200 "restarted: true" object
      ∷ answer 404 "Not Found" texts
      ∷ answer 500 "Internal Server Error" texts
      ∷ [];
}

abbrev pub start_operation : Operation
start_operation = record {
  path = "/api/v1/agents/{name}/start";
  method = "post";
  description = "Resumes a paused agent: sets spec.paused=false and forces pod recreation";
  consumes = [];
  produces = "application/json" ∷ [];
  tags = "lifecycle" ∷ [];
  summary = "Start agent";
  parameters = agent_name ∷ [];
  responses =
      answer 200 "started: true" object
      ∷ answer 404 "Not Found" texts
      ∷ answer 500 "Internal Server Error" texts
      ∷ [];
}

abbrev pub stop_operation : Operation
stop_operation = record {
  path = "/api/v1/agents/{name}/stop";
  method = "post";
  description =
      "Pauses the agent: sets spec.paused=true, which causes the controller to delete the Pod and stop reconciling";
  consumes = [];
  produces = "application/json" ∷ [];
  tags = "lifecycle" ∷ [];
  summary = "Stop agent";
  parameters = agent_name ∷ [];
  responses =
      answer 200 "stopped: true" object
      ∷ answer 404 "Not Found" texts
      ∷ answer 500 "Internal Server Error" texts
      ∷ [];
}

-- ===== src/Docs/Agents.antt =====
-- docs/docs.go: the documented operations on creating, reading, updating and deleting agents.
use k8sagent_orchestrator.Prelude.{[], ◌∷◌, true, none}
use k8sagent_orchestrator.Docs.Spec.{Operation, agent_name, answer, definition, object, texts}

abbrev pub list_agents_operation : Operation
list_agents_operation = record {
  path = "/api/v1/agents";
  method = "get";
  description = "Returns all Agent CRs in the given namespace";
  consumes = [];
  produces = "application/json" ∷ [];
  tags = "agents" ∷ [];
  summary = "List agents";
  parameters = [];
  responses = answer 200 "list of agents" object ∷ answer 500 "Internal Server Error" texts ∷ [];
}

abbrev pub create_agent_operation : Operation
create_agent_operation = record {
  path = "/api/v1/agents";
  method = "post";
  description = "Creates a new Agent CR; the controller then creates a Pod for it";
  consumes = "application/json" ∷ [];
  produces = "application/json" ∷ [];
  tags = "agents" ∷ [];
  summary = "Create agent";
  parameters =
      record {
        name = "body";
        place = "body";
        description = "Agent specification";
        required = true;
        schema = definition "#/definitions/internal_rest.CreateAgentRequest";
        default = none;
      }
      ∷ [];
  responses =
      answer 201 "created" object
      ∷ answer 400 "invalid body" texts
      ∷ answer 409 "agent already exists" texts
      ∷ answer 500 "internal error" texts
      ∷ [];
}

abbrev pub list_agent_services_operation : Operation
list_agent_services_operation = record {
  path = "/api/v1/agents/services";
  method = "get";
  description = "Returns the ClusterIP DNS URL for every Agent that has a ServicePort configured";
  consumes = [];
  produces = "application/json" ∷ [];
  tags = "agents" ∷ [];
  summary = "List agent service URLs";
  parameters = [];
  responses =
      answer 200 "list of agent service URLs" object
      ∷ answer 500 "Internal Server Error" texts
      ∷ [];
}

abbrev pub get_agent_operation : Operation
get_agent_operation = record {
  path = "/api/v1/agents/{name}";
  method = "get";
  description = "Returns a single Agent CR with its current status (phase, podName, conditions)";
  consumes = [];
  produces = "application/json" ∷ [];
  tags = "agents" ∷ [];
  summary = "Get agent";
  parameters = agent_name ∷ [];
  responses =
      answer 200 "OK" object
      ∷ answer 404 "Not Found" texts
      ∷ answer 500 "Internal Server Error" texts
      ∷ [];
}

abbrev pub update_agent_operation : Operation
update_agent_operation = record {
  path = "/api/v1/agents/{name}";
  method = "put";
  description =
      "Updates Agent spec fields; only non-zero fields are applied. Triggers pod recreation.";
  consumes = "application/json" ∷ [];
  produces = "application/json" ∷ [];
  tags = "agents" ∷ [];
  summary = "Update agent";
  parameters =
      agent_name
      ∷ record {
        name = "body";
        place = "body";
        description = "Fields to update";
        required = true;
        schema = definition "#/definitions/internal_rest.CreateAgentRequest";
        default = none;
      }
      ∷ [];
  responses =
      answer 200 "OK" object
      ∷ answer 400 "Bad Request" texts
      ∷ answer 404 "Not Found" texts
      ∷ answer 500 "Internal Server Error" texts
      ∷ [];
}

abbrev pub delete_agent_operation : Operation
delete_agent_operation = record {
  path = "/api/v1/agents/{name}";
  method = "delete";
  description =
      "Permanently deletes the Agent CR and its Pod. Self-healing is disabled before deletion so the agent is not resurrected. Also clears the in-memory cache.";
  consumes = [];
  produces = "application/json" ∷ [];
  tags = "agents" ∷ [];
  summary = "Delete agent";
  parameters = agent_name ∷ [];
  responses =
      answer 200 "deleted" texts
      ∷ answer 404 "Not Found" texts
      ∷ answer 500 "Internal Server Error" texts
      ∷ [];
}

abbrev pub get_agent_history_operation : Operation
get_agent_history_operation = record {
  path = "/api/v1/agents/{name}/history";
  method = "get";
  description = "Returns the full lifecycle event history stored in Agent status";
  consumes = [];
  produces = "application/json" ∷ [];
  tags = "agents" ∷ [];
  summary = "Get agent lifecycle history";
  parameters = agent_name ∷ [];
  responses =
      answer 200 "OK" object
      ∷ answer 404 "Not Found" texts
      ∷ answer 500 "Internal Server Error" texts
      ∷ [];
}

-- ===== src/Docs/Probes.antt =====
-- docs/docs.go: the documented operations on logs and probes.
use k8sagent_orchestrator.Prelude.{[], ◌∷◌, false, none, some}
use k8sagent_orchestrator.Docs.Spec.{Operation, agent_name, answer, texts, text, integer, boolean}

abbrev pub get_logs_operation : Operation
get_logs_operation = record {
  path = "/api/v1/agents/{name}/logs";
  method = "get";
  description =
      "Returns or streams logs from the agent's pod. Use follow=true for live streaming (chunked transfer).";
  consumes = [];
  produces = "text/plain" ∷ [];
  tags = "logs" ∷ [];
  summary = "Get pod logs";
  parameters =
      agent_name
      ∷ record {
        name = "tailLines";
        place = "query";
        description = "Number of lines from the end";
        required = false;
        schema = integer;
        default = some "100";
      }
      ∷ record {
        name = "sinceSeconds";
        place = "query";
        description = "Only lines newer than N seconds";
        required = false;
        schema = integer;
        default = none;
      }
      ∷ record {
        name = "container";
        place = "query";
        description = "Container name";
        required = false;
        schema = text;
        default = some "\"agent\"";
      }
      ∷ record {
        name = "follow";
        place = "query";
        description = "Stream logs (chunked transfer)";
        required = false;
        schema = boolean;
        default = some "false";
      }
      ∷ [];
  responses =
      answer 200 "log lines" text
      ∷ answer 404 "Not Found" texts
      ∷ answer 500 "Internal Server Error" texts
      ∷ [];
}

abbrev pub healthz_operation : Operation
healthz_operation = record {
  path = "/healthz";
  method = "get";
  description = "Returns 200 OK if the process is alive";
  consumes = [];
  produces = "application/json" ∷ [];
  tags = "health" ∷ [];
  summary = "Liveness probe";
  parameters = [];
  responses = answer 200 "ok" texts ∷ [];
}

abbrev pub readyz_operation : Operation
readyz_operation = record {
  path = "/readyz";
  method = "get";
  description = "Returns 200 if the Kubernetes API server is reachable, 503 otherwise";
  consumes = [];
  produces = "application/json" ∷ [];
  tags = "health" ∷ [];
  summary = "Readiness probe";
  parameters = [];
  responses = answer 200 "ready" texts ∷ answer 503 "k8s api not reachable" texts ∷ [];
}

-- ===== src/Docs/Environment.antt =====
-- docs/docs.go: the documented operations on the environment variables of an agent.
use k8sagent_orchestrator.Prelude.{[], ◌∷◌, true, none}
use k8sagent_orchestrator.Docs.Spec.{Operation, agent_name, answer, definition, object, texts, text}

abbrev pub get_env_operation : Operation
get_env_operation = record {
  path = "/api/v1/agents/{name}/env";
  method = "get";
  description = "Returns the current list of environment variables for the agent container";
  consumes = [];
  produces = "application/json" ∷ [];
  tags = "env" ∷ [];
  summary = "Get env vars";
  parameters = agent_name ∷ [];
  responses =
      answer 200 "list of EnvVar" object
      ∷ answer 404 "Not Found" texts
      ∷ answer 500 "Internal Server Error" texts
      ∷ [];
}

abbrev pub set_env_operation : Operation
set_env_operation = record {
  path = "/api/v1/agents/{name}/env";
  method = "put";
  description = "Replaces the entire env list (destructive). Triggers pod recreation.";
  consumes = "application/json" ∷ [];
  produces = "application/json" ∷ [];
  tags = "env" ∷ [];
  summary = "Replace env vars";
  parameters =
      agent_name
      ∷ record {
        name = "body";
        place = "body";
        description = "New env list";
        required = true;
        schema = definition "#/definitions/internal_rest.EnvSetRequest";
        default = none;
      }
      ∷ [];
  responses =
      answer 200 "OK" object
      ∷ answer 400 "Bad Request" texts
      ∷ answer 404 "Not Found" texts
      ∷ answer 500 "Internal Server Error" texts
      ∷ [];
}

abbrev pub merge_env_operation : Operation
merge_env_operation = record {
  path = "/api/v1/agents/{name}/env";
  method = "patch";
  description =
      "Upserts env vars by name — existing keys are updated, new keys are appended, unmentioned keys are left intact. Triggers pod recreation.";
  consumes = "application/json" ∷ [];
  produces = "application/json" ∷ [];
  tags = "env" ∷ [];
  summary = "Merge env vars";
  parameters =
      agent_name
      ∷ record {
        name = "body";
        place = "body";
        description = "Env vars to merge";
        required = true;
        schema = definition "#/definitions/internal_rest.EnvMergeRequest";
        default = none;
      }
      ∷ [];
  responses =
      answer 200 "OK" object
      ∷ answer 400 "Bad Request" texts
      ∷ answer 404 "Not Found" texts
      ∷ answer 500 "Internal Server Error" texts
      ∷ [];
}

abbrev pub delete_env_key_operation : Operation
delete_env_key_operation = record {
  path = "/api/v1/agents/{name}/env/{key}";
  method = "delete";
  description = "Removes a single environment variable by name. Triggers pod recreation.";
  consumes = [];
  produces = "application/json" ∷ [];
  tags = "env" ∷ [];
  summary = "Delete env var";
  parameters =
      agent_name
      ∷ record {
        name = "key";
        place = "path";
        description = "Env var name to delete";
        required = true;
        schema = text;
        default = none;
      }
      ∷ [];
  responses =
      answer 200 "OK" object
      ∷ answer 404 "Not Found" texts
      ∷ answer 500 "Internal Server Error" texts
      ∷ [];
}

-- ===== src/Docs.antt =====
-- docs/docs.go, the generated documentation that the server offers under /swagger: its paths, as one operation
-- for each path and method, with all their texts.
pub mod Spec
pub mod Agents
pub mod Caching
pub mod Environment
pub mod Lifecycle
pub mod Probes
use k8sagent_orchestrator.Prelude.{
  ℕ, String, Bool, Option, none, some, List, [], ◌∷◌, map, false, ◌==◌, eqb, ◌&&◌, ◌||◌,
  if◌then◌else◌,
}
use k8sagent_orchestrator.Docs.Agents.{
  list_agents_operation, create_agent_operation, list_agent_services_operation, get_agent_operation,
  update_agent_operation, delete_agent_operation, get_agent_history_operation,
}
use k8sagent_orchestrator.Docs.Caching.{
  list_cache_operation, clear_cache_operation, get_cache_field_operation, set_cache_field_operation,
  delete_cache_field_operation,
}
use k8sagent_orchestrator.Docs.Environment.{
  get_env_operation, set_env_operation, merge_env_operation, delete_env_key_operation,
}
use k8sagent_orchestrator.Docs.Lifecycle.{
  disable_healing_operation, enable_healing_operation, keepalive_operation, restart_operation,
  start_operation, stop_operation,
}
use k8sagent_orchestrator.Docs.Probes.{get_logs_operation, healthz_operation, readyz_operation}
use k8sagent_orchestrator.Docs.Spec.{Operation, SwaggerInfo}

-- The `paths`, in their order.
unfoldable pub operations : List Operation
operations =
    list_agents_operation ∷ create_agent_operation ∷ list_agent_services_operation
    ∷ get_agent_operation ∷ update_agent_operation ∷ delete_agent_operation ∷ list_cache_operation
    ∷ clear_cache_operation ∷ get_cache_field_operation ∷ set_cache_field_operation
    ∷ delete_cache_field_operation ∷ disable_healing_operation ∷ enable_healing_operation
    ∷ get_env_operation ∷ set_env_operation ∷ merge_env_operation ∷ delete_env_key_operation
    ∷ get_agent_history_operation ∷ keepalive_operation ∷ get_logs_operation ∷ restart_operation
    ∷ start_operation ∷ stop_operation ∷ healthz_operation ∷ readyz_operation ∷ []

abbrev pub swagger_info : SwaggerInfo
swagger_info = record {
  version = "1.0";
  host = "localhost:8082";
  base_path = "/";
  schemes = "http" ∷ [];
  title = "K8s Agent Orchestrator API";
  description =
      "REST API for managing Kubernetes Agents (pods) — lifecycle control, env patching, log streaming and per-agent cache.";
  info_instance_name = "swagger";
}

-- The documented operation at a path, for a method in capitals.
abbrev pub method_of : Operation → String
method_of op =
    if op.method == "get"
    then "GET"
    else if op.method == "post"
    then "POST"
    else if op.method == "put"
    then "PUT"
    else if op.method == "patch"
    then "PATCH"
    else "DELETE"

abbrev pub find_operation : List Operation → (method path : String) → Option Operation
find_operation [] method path = none
find_operation (op ∷ ops) method path =
    let rest = find_operation ops method path in
    if (method_of op == method) && (op.path == path) then some op else rest

abbrev pub codes : Operation → List ℕ
codes op = map (λ a. a.code) op.responses

abbrev pub has_code : List ℕ → ℕ → Bool
has_code [] code = false
has_code (c ∷ rest) code = eqb c code || has_code rest code

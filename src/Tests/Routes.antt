-- ===== src/Tests/Routes.antt =====
-- The theorem on the route table, at the environment of an agent.
use k8sagent_orchestrator.Prelude.{◌≡◌, refl, true, [], ◌∷◌, map, eq_iff, arith}
use k8sagent_orchestrator.Prelude.Map
use k8sagent_orchestrator.Rest.{ns_name}
use k8sagent_orchestrator.Rest.Routes.{
  matches, match_path, register_routes, register_agent_routes, request_of, get_env,
}
use k8sagent_orchestrator.Rest.Routes.Groups.{seen, matches-default_namespace}

get_env_found :
    map
      (seen "default")
      (matches match_path register_routes "GET" ("api" ∷ "v1" ∷ "agents" ∷ "demo" ∷ "env" ∷ []))
    ≡ (get_env, (true, (("default", "demo"), ("", "")))) ∷ []
unfolding matches match_path register_routes register_agent_routes ns_name request_of Map.lookup
get_env_found = refl

matches-default_namespace_example :
    map
      (seen "default")
      (matches match_path register_routes "GET" ("api" ∷ "v1" ∷ "agents" ∷ "demo" ∷ "env" ∷ []))
    ≡ map (seen "default") (
        matches match_path register_routes "GET"
          ("api" ∷ "v1" ∷ "namespaces" ∷ "default" ∷ "agents" ∷ "demo" ∷ "env" ∷ []))
matches-default_namespace_example =
    matches-default_namespace match_path "GET" "default" ("demo" ∷ "env" ∷ [])
      (λ pattern path. refl) (λ e. ground (arith, (eq_iff "default" "").1 e))

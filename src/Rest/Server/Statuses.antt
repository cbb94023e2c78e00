-- ===== src/Rest/Server/Statuses.antt =====
-- The statuses that the handlers answer with.
use k8sagent_orchestrator.Prelude.{
  ℕ, String, ◌≡◌, ◌≢◌, refl, true, none, some, List, [], ◌∷◌, arith,
}
use k8sagent_orchestrator.Prelude.Map.{Map}
use k8sagent_orchestrator.Docs.{has_code}
use k8sagent_orchestrator.Rest.{Request, with_agent, patched}
use k8sagent_orchestrator.Rest.Crud.{
  handle_info, handle_healthz, handle_readyz, handle_create_agent, handle_list_agents,
  handle_list_agent_services, handle_get_agent, handle_get_agent_history, handle_update_agent,
  handle_delete_agent,
}
use k8sagent_orchestrator.Rest.Lifecycle.{
  handle_restart_agent, handle_stop_agent, handle_start_agent, handle_disable_self_healing,
  handle_enable_self_healing,
}
use k8sagent_orchestrator.Rest.Environment.{
  handle_get_env, handle_set_env, handle_merge_env, handle_delete_env_key,
}
use k8sagent_orchestrator.Rest.Wake.{handle_keepalive}
use k8sagent_orchestrator.Rest.CacheRoutes.{
  handle_list_cache, handle_get_cache_field, handle_set_cache_field, handle_delete_cache_field,
  handle_clear_cache,
}
use k8sagent_orchestrator.Rest.Logs.{
  handle_get_logs, answer_agent, answer_clientset, answer_stream, deliver,
}
use k8sagent_orchestrator.Rest.Routes.{Handler}
use k8sagent_orchestrator.Rest.Server.{Server, HttpRequest, run_handler}

-- The statuses that a handler answers with.
abbrev pub codes_of : Handler → List ℕ
codes_of Handler.healthz = 200 ∷ []
codes_of Handler.readyz = 200 ∷ 503 ∷ []
codes_of Handler.create_agent = 201 ∷ 400 ∷ 409 ∷ 500 ∷ []
codes_of Handler.list_agents = 200 ∷ 500 ∷ []
codes_of Handler.list_agent_services = 200 ∷ 500 ∷ []
codes_of Handler.get_agent = 200 ∷ 404 ∷ 500 ∷ []
codes_of Handler.get_agent_history = 200 ∷ 404 ∷ 500 ∷ []
codes_of Handler.update_agent = 200 ∷ 400 ∷ 404 ∷ 500 ∷ []
codes_of Handler.delete_agent = 200 ∷ 404 ∷ 500 ∷ []
codes_of Handler.restart_agent = 200 ∷ 404 ∷ 500 ∷ []
codes_of Handler.stop_agent = 200 ∷ 404 ∷ 500 ∷ []
codes_of Handler.start_agent = 200 ∷ 404 ∷ 500 ∷ []
codes_of Handler.disable_self_healing = 200 ∷ 404 ∷ 500 ∷ []
codes_of Handler.enable_self_healing = 200 ∷ 404 ∷ 500 ∷ []
codes_of Handler.keepalive = 200 ∷ 404 ∷ 500 ∷ []
codes_of Handler.get_env = 200 ∷ 404 ∷ 500 ∷ []
codes_of Handler.set_env = 200 ∷ 400 ∷ 404 ∷ 500 ∷ []
codes_of Handler.merge_env = 200 ∷ 400 ∷ 404 ∷ 500 ∷ []
codes_of Handler.delete_env_key = 200 ∷ 404 ∷ 500 ∷ []
codes_of Handler.get_logs = 200 ∷ 404 ∷ 500 ∷ []
codes_of Handler.list_cache = 200 ∷ []
codes_of Handler.get_cache_field = 200 ∷ 404 ∷ []
codes_of Handler.set_cache_field = 200 ∷ 400 ∷ []
codes_of Handler.delete_cache_field = 200 ∷ []
codes_of Handler.clear_cache = 200 ∷ []
codes_of Handler.info = 200 ∷ []
codes_of Handler.swagger = []

module _ {W C K : Type 0} (s : Server W C K) where
  pub run_handler-codes :
      (h : Handler)
      → h ≢ Handler.swagger
      → (c : Request) (params : Map String) (r : HttpRequest) (w : W)
      → elim (run_handler s h c params r w).0 as (λ _. Type 0) [
        | none ↦ Unit
        | some answer ↦ has_code (codes_of h) answer.code ≡ true
      ]
  unfolding run_handler handle_info handle_healthz handle_readyz handle_create_agent
      handle_list_agents handle_list_agent_services handle_get_agent with_agent
      handle_get_agent_history handle_update_agent handle_delete_agent handle_restart_agent patched
      handle_stop_agent handle_start_agent handle_disable_self_healing handle_enable_self_healing
      handle_keepalive handle_get_env handle_set_env handle_merge_env handle_delete_env_key
      handle_get_logs answer_agent answer_clientset answer_stream deliver handle_list_cache
      handle_get_cache_field handle_set_cache_field handle_delete_cache_field handle_clear_cache
  run_handler-codes Handler.swagger d c params r w = absurd (d refl)
  run_handler-codes Handler.info d c params r w = refl
  run_handler-codes Handler.healthz d c params r w = ground arith
  run_handler-codes Handler.readyz d c params r w = ground arith
  run_handler-codes Handler.create_agent d c params r w = ground arith
  run_handler-codes Handler.list_agents d c params r w = ground arith
  run_handler-codes Handler.list_agent_services d c params r w = ground arith
  run_handler-codes Handler.get_agent d c params r w = ground arith
  run_handler-codes Handler.get_agent_history d c params r w = ground arith
  run_handler-codes Handler.update_agent d c params r w = ground arith
  run_handler-codes Handler.delete_agent d c params r w = ground arith
  run_handler-codes Handler.restart_agent d c params r w = ground arith
  run_handler-codes Handler.stop_agent d c params r w = ground arith
  run_handler-codes Handler.start_agent d c params r w = ground arith
  run_handler-codes Handler.disable_self_healing d c params r w = ground arith
  run_handler-codes Handler.enable_self_healing d c params r w = ground arith
  run_handler-codes Handler.keepalive d c params r w = ground arith
  run_handler-codes Handler.get_env d c params r w = ground arith
  run_handler-codes Handler.set_env d c params r w = ground arith
  run_handler-codes Handler.merge_env d c params r w = ground arith
  run_handler-codes Handler.delete_env_key d c params r w = ground arith
  run_handler-codes Handler.get_logs d c params r w = ground arith
  run_handler-codes Handler.list_cache d c params r w = ground arith
  run_handler-codes Handler.get_cache_field d c params r w = ground arith
  run_handler-codes Handler.set_cache_field d c params r w = ground arith
  run_handler-codes Handler.delete_cache_field d c params r w = ground arith
  run_handler-codes Handler.clear_cache d c params r w = ground arith

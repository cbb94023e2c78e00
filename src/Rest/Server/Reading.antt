-- ===== src/Rest/Server/Reading.antt =====
-- Requests that only read.
use mathlib.Core.List.{Memᴰ}
use k8sagent_orchestrator.Prelude.{
  String, ◌≡◌, refl, subst, ◌∙◌, ◌⊎◌, inl, inr, Bool, true, false, List, [], ◌==◌, All, arith,
  Option-cases, if◌then◌else◌,
}
use k8sagent_orchestrator.Prelude.Map.{Map}
use k8sagent_orchestrator.Io.{Io}
use k8sagent_orchestrator.Kube.Trace.{Call, traced, traced_cache}
use k8sagent_orchestrator.Idle.{touch_activity}
use k8sagent_orchestrator.Idle.Middleware.{activity_middleware}
use k8sagent_orchestrator.Rest.{Request}
use k8sagent_orchestrator.Rest.Crud.{
  handle_readyz, handle_list_agents, handle_list_agent_services, handle_get_agent,
  handle_get_agent_history,
}
use k8sagent_orchestrator.Rest.Environment.{handle_get_env}
use k8sagent_orchestrator.Rest.CacheRoutes.{handle_list_cache, handle_get_cache_field}
use k8sagent_orchestrator.Rest.Logs.{
  Client, handle_get_logs, answer_agent, answer_clientset, raw_clientset, get_rest_config,
  kubeconfig_path,
}
use k8sagent_orchestrator.Rest.Routes.{
  Handler, Route, Match, request_of, agent_table, register_routes, matches, match_path,
}
use k8sagent_orchestrator.Rest.Routes.Taken.{Keeps, matches-All, All-implies, register_routes-All}
use k8sagent_orchestrator.Rest.Server.{
  Server, HttpRequest, Router, run_handler, run_match, cors_middleware, route, serve, IsRouter,
}

abbrev read : {W A : Type 0} → Io W A → Io (W × List Call) A
read m (w, calls) = let (a, w') = m w in (a, (w', calls))

-- The calls of client-go only read.
abbrev traced_client : {W C K : Type 0} → Client W C K → Client (W × List Call) C K
traced_client client = record {
  in_cluster_config = read client.in_cluster_config;
  getenv = λ name. read (client.getenv name);
  user_home_dir = read client.user_home_dir;
  build_config_from_flags = λ path. read (client.build_config_from_flags path);
  new_for_config = λ c. read (client.new_for_config c);
  stream = λ k namespace pod_name options. read (client.stream k namespace pod_name options);
}

-- The server, with the list of the writes that it sends.
abbrev pub traced_server : {W C K : Type 0} → Server W C K → Server (W × List Call) C K
traced_server s = record {
  env = traced s.env;
  cache = traced_cache s.cache;
  client = traced_client s.client;
  namespace = s.namespace;
  idle_watcher = s.idle_watcher;
  swagger = read s.swagger;
  quoted = s.quoted;
  float_to_int64 = s.float_to_int64;
}

-- The handlers that only read.
data Reads : Handler → Type 0 where
  reads_swagger : Reads Handler.swagger
  reads_info : Reads Handler.info
  reads_healthz : Reads Handler.healthz
  reads_readyz : Reads Handler.readyz
  reads_list_agents : Reads Handler.list_agents
  reads_list_agent_services : Reads Handler.list_agent_services
  reads_get_agent : Reads Handler.get_agent
  reads_get_agent_history : Reads Handler.get_agent_history
  reads_get_env : Reads Handler.get_env
  reads_get_logs : Reads Handler.get_logs
  reads_list_cache : Reads Handler.list_cache
  reads_get_cache_field : Reads Handler.get_cache_field

module _ {W C K : Type 0} (s : Server W C K) where
  abbrev Quiet : {A : Type 0} → Io (W × List Call) A → Type 0
  Quiet handle = (w : W) (calls : List Call) → (handle (w, calls)).1.1 ≡ calls

  run_handler-Quiet :
      {h : Handler}
      → Reads h
      → (c : Request) (params : Map String) (r : HttpRequest)
      → Quiet (run_handler (traced_server s) h c params r)
  unfolding run_handler
  run_handler-Quiet reads_swagger c params r w calls = refl
  run_handler-Quiet reads_info c params r w calls = refl
  run_handler-Quiet reads_healthz c params r w calls = refl
  run_handler-Quiet reads_readyz c params r w calls = unfold handle_readyz in ground arith
  run_handler-Quiet reads_list_agents c params r w calls = unfold handle_list_agents in ground arith
  run_handler-Quiet reads_list_agent_services c params r w calls =
      unfold handle_list_agent_services in ground arith
  run_handler-Quiet reads_get_agent c params r w calls = unfold handle_get_agent in ground arith
  run_handler-Quiet reads_get_agent_history c params r w calls =
      unfold handle_get_agent_history in ground arith
  run_handler-Quiet reads_get_env c params r w calls = unfold handle_get_env in ground arith
  run_handler-Quiet reads_get_logs c params r w calls =
      unfold handle_get_logs answer_agent answer_clientset raw_clientset get_rest_config
        kubeconfig_path in
      ground arith
  run_handler-Quiet reads_list_cache c params r w calls = unfold handle_list_cache in ground arith
  run_handler-Quiet reads_get_cache_field c params r w calls =
      unfold handle_get_cache_field in ground arith

  middleware-Quiet :
      (tracked : Bool) (c : Request) (w : W) (calls : List Call)
      → (if tracked
          then activity_middleware
              (traced s.env)
              (traced_cache s.cache)
              s.float_to_int64
              s.idle_watcher
              c
              (w, calls)
          else (w, calls)).1
        ≡ calls
  unfolding activity_middleware touch_activity
  middleware-Quiet tracked c w calls = ground arith

module _ {W C K : Type 0} (s : Server W C K) where
  run_match-Quiet :
      (m : Match) → Reads m.0 → (r : HttpRequest) → Quiet s (run_match (traced_server s) m r)
  unfolding run_match request_of
  run_match-Quiet (h, (tracked, params)) reads r w calls =
      let c = request_of s.namespace params in
      let x : W × List Call =
        if tracked
        then activity_middleware (traced s.env) (traced_cache s.cache) s.float_to_int64
            s.idle_watcher c (w, calls)
        else (w, calls) in
      run_handler-Quiet s reads c params r x.0 x.1 ∙ middleware-Quiet s tracked c w calls

infixr 4 ◌&◌
◌&◌ : {A B : Type 0} → A → B → A × B
◌&◌ a b = (a, b)

refuted : {P : Type 0} → false ≡ true → P
refuted h = cc

abbrev ReadsIfGet : Route → Type 0
ReadsIfGet r = (r.method == "GET") ≡ true → Reads r.handler

agent_table-ReadsIfGet : All ReadsIfGet agent_table
agent_table-ReadsIfGet =
    refuted
    & (λ e. reads_list_agents)
    & (λ e. reads_list_agent_services)
    & (λ e. reads_get_agent)
    & (λ e. reads_get_agent_history)
    & refuted
    & refuted
    & refuted
    & refuted
    & refuted
    & refuted
    & refuted
    & refuted
    & (λ e. reads_get_env)
    & refuted
    & refuted
    & refuted
    & (λ e. reads_get_logs)
    & (λ e. reads_list_cache)
    & (λ e. reads_get_cache_field)
    & refuted
    & refuted
    & refuted
    & tt

register_routes-ReadsIfGet : All ReadsIfGet register_routes
register_routes-ReadsIfGet =
    register_routes-All ReadsIfGet
      ((λ e. reads_swagger) & (λ e. reads_info) & (λ e. reads_healthz) & (λ e. reads_readyz) & tt)
      agent_table-ReadsIfGet agent_table-ReadsIfGet

matches-Reads :
    (path : List String) (m : Match)
    → Memᴰ m (matches match_path register_routes "GET" path)
    → Reads m.0
matches-Reads path m =
    matches-All (λ m. Reads m.0) match_path register_routes "GET" path m
      (All-implies ReadsIfGet (Keeps (λ m. Reads m.0) match_path "GET" path)
        (λ r reads params e fits. reads e) register_routes register_routes-ReadsIfGet)

module _ {W C K : Type 0} (find : Router) (s : Server W C K) where
  route-sends :
      IsRouter find
      → (r : HttpRequest) (w : W) → r.method ≡ "GET"
      → (route find (traced_server s) r (w, [])).1.1 ≡ []
  unfolding route run_match
  route-sends router r w e = elim (Option-cases (find register_routes r.method r.path)) [
    | inl none_lem ↦ rw (none_lem, route) refl
    | inr (m, found) ↦
        let reads = matches-Reads r.path m (
          subst (λ x. Memᴰ m (matches match_path register_routes x r.path)) e
            (router.takes register_routes r.method r.path m found)) in
        rw (found, route) (run_match-Quiet s m reads r w [])
  ]

  -- A GET or an OPTIONS sends no write
  pub serve-Reads :
      IsRouter find
      → (r : HttpRequest) (w : W) → (r.method ≡ "GET") ⊎ (r.method ≡ "OPTIONS")
      → (serve find (traced_server s) r (w, [])).1.1 ≡ []
  unfolding serve cors_middleware
  serve-Reads router r w (inl e) = let sends = route-sends router r w e in ground arith
  serve-Reads router r w (inr e) = rw e refl

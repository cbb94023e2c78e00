-- ===== src/System/Requests.antt =====
-- What the handlers send is justified.
use k8sagent_orchestrator.Prelude.{
  ℕ, zero, suc, ◌*◌, String, ◌≡◌, inl, inr, refl, Bool, List, ◌==◌, if◌then◌else◌, All, arith,
  Option-cases, Bool-cases,
}
use k8sagent_orchestrator.Prelude.Map.{Map}
use k8sagent_orchestrator.Cache.{Time}
use k8sagent_orchestrator.Io.{Io, Result-cases}
use k8sagent_orchestrator.Kube.Trace.{Call, traced, traced_cache}
use k8sagent_orchestrator.Idle.{touch_activity}
use k8sagent_orchestrator.Idle.Middleware.{activity_middleware}
use k8sagent_orchestrator.Rest.{Request, Body, valid, invalid, ns_name, with_agent, patched}
use k8sagent_orchestrator.Rest.Requests.{CreateAgentRequest, new_agent}
use k8sagent_orchestrator.Rest.Crud.{
  handle_readyz, handle_create_agent, handle_list_agents, handle_list_agent_services,
  handle_get_agent, handle_get_agent_history, handle_update_agent, handle_delete_agent,
}
use k8sagent_orchestrator.Rest.Lifecycle.{
  handle_restart_agent, handle_stop_agent, handle_start_agent, handle_disable_self_healing,
  handle_enable_self_healing,
}
use k8sagent_orchestrator.Rest.Environment.{
  handle_get_env, handle_set_env, handle_merge_env, handle_delete_env_key,
}
use k8sagent_orchestrator.Rest.Wake.{poll, handle_keepalive, second}
use k8sagent_orchestrator.Rest.CacheRoutes.{
  handle_list_cache, handle_get_cache_field, handle_set_cache_field, handle_delete_cache_field,
  handle_clear_cache,
}
use k8sagent_orchestrator.Rest.Logs.{
  handle_get_logs, answer_agent, answer_clientset, raw_clientset, get_rest_config, kubeconfig_path,
}
use k8sagent_orchestrator.Rest.Routes.{Handler, Match, register_routes, request_of}
use k8sagent_orchestrator.Rest.Server.{
  Server, HttpRequest, Router, run_handler, run_match, cors_middleware, route, serve,
}
use k8sagent_orchestrator.Rest.Server.Reading.{traced_server}
use k8sagent_orchestrator.System.Justified.{Deed, served, IsMeant, Justified}

module _ {W C K : Type 0} (find : Router) (s : Server W C K) (Did : Deed W → Type 0) where
  -- From a state in which all was justified, to one in which all is.
  abbrev Safe : {A : Type 0} → Io (W × List Call) A → Type 0
  Safe handle =
      (w : W) (calls : List Call)
      → All (Justified find s Did) calls
      → All (Justified find s Did) (handle (w, calls)).1.1

  -- The body of the request may be created by this handler.
  abbrev Allows : Handler → Request → HttpRequest → Type 0
  Allows h c r =
      h ≡ Handler.create_agent
      → (req : CreateAgentRequest) → r.create_body ≡ valid req
      → IsMeant find s Did (new_agent (ns_name c).0 req)

  handle_create_agent-Safe :
      (c : Request) (body : Body CreateAgentRequest)
      → ((req : CreateAgentRequest)
          → body ≡ valid req
          → IsMeant find s Did (new_agent (ns_name c).0 req))
      → Safe (handle_create_agent (traced s.env) c body)
  unfolding handle_create_agent
  handle_create_agent-Safe c (invalid message) may w calls h = h
  handle_create_agent-Safe c (valid req) may w calls h = let meant = may req refl in ground arith

  poll-calls :
      (fuel : ℕ) (namespace name : String) (deadline : Time) (phase : String) (w : W)
      (calls : List Call)
      → (poll (traced s.env) fuel namespace name deadline phase (w, calls)).1.1 ≡ calls
  unfolding poll
  poll-calls zero namespace name deadline phase w calls = refl
  poll-calls (suc fuel) namespace name deadline phase w calls =
      let (now, w₁) = s.env.now w in
      let (reply, w₂) = s.env.get_agent namespace name w₁ in
      let next = λ (p : String).
        poll-calls fuel namespace name deadline p (s.env.sleep (2 * second) w₂) calls in
      elim (Result-cases reply) [
        | inr (e, got) ↦ ground (arith, next phase)
        | inl (fresh, got) ↦ ground (arith, next fresh.status.phase)
      ]

  handle_keepalive-Safe :
      (c : Request) (wait : String) → Safe (handle_keepalive (traced s.env) c wait)
  unfolding handle_keepalive
  handle_keepalive-Safe c wait w calls h = grind (arith, poll-calls)

  run_handler-Safe :
      (h : Handler) (c : Request) (params : Map String) (r : HttpRequest)
      → Allows h c r
      → Safe (run_handler (traced_server s) h c params r)
  unfolding run_handler
  run_handler-Safe Handler.swagger c params r may w calls h = h
  run_handler-Safe Handler.info c params r may w calls h = h
  run_handler-Safe Handler.healthz c params r may w calls h = h
  run_handler-Safe Handler.readyz c params r may w calls h = unfold handle_readyz in ground arith
  run_handler-Safe Handler.create_agent c params r may w calls h =
      handle_create_agent-Safe c r.create_body (may refl) w calls h
  run_handler-Safe Handler.list_agents c params r may w calls h =
      unfold handle_list_agents in ground arith
  run_handler-Safe Handler.list_agent_services c params r may w calls h =
      unfold handle_list_agent_services in ground arith
  run_handler-Safe Handler.get_agent c params r may w calls h =
      unfold handle_get_agent with_agent in ground arith
  run_handler-Safe Handler.get_agent_history c params r may w calls h =
      unfold handle_get_agent_history with_agent in ground arith
  run_handler-Safe Handler.update_agent c params r may w calls h =
      unfold handle_update_agent with_agent in ground arith
  run_handler-Safe Handler.delete_agent c params r may w calls h =
      unfold handle_delete_agent with_agent in ground arith
  run_handler-Safe Handler.restart_agent c params r may w calls h =
      unfold handle_restart_agent with_agent patched in ground arith
  run_handler-Safe Handler.stop_agent c params r may w calls h =
      unfold handle_stop_agent with_agent patched in ground arith
  run_handler-Safe Handler.start_agent c params r may w calls h =
      unfold handle_start_agent with_agent patched in ground arith
  run_handler-Safe Handler.disable_self_healing c params r may w calls h =
      unfold handle_disable_self_healing with_agent patched in ground arith
  run_handler-Safe Handler.enable_self_healing c params r may w calls h =
      unfold handle_enable_self_healing with_agent patched in ground arith
  run_handler-Safe Handler.keepalive c params r may w calls h =
      handle_keepalive-Safe c r.wait w calls h
  run_handler-Safe Handler.get_env c params r may w calls h =
      unfold handle_get_env with_agent in ground arith
  run_handler-Safe Handler.set_env c params r may w calls h =
      unfold handle_set_env with_agent patched in ground arith
  run_handler-Safe Handler.merge_env c params r may w calls h =
      unfold handle_merge_env with_agent patched in ground arith
  run_handler-Safe Handler.delete_env_key c params r may w calls h =
      unfold handle_delete_env_key with_agent patched in ground arith
  run_handler-Safe Handler.get_logs c params r may w calls h =
      unfold handle_get_logs answer_agent answer_clientset raw_clientset get_rest_config
        kubeconfig_path in
      ground arith
  run_handler-Safe Handler.list_cache c params r may w calls h =
      unfold handle_list_cache in ground arith
  run_handler-Safe Handler.get_cache_field c params r may w calls h =
      unfold handle_get_cache_field in ground arith
  run_handler-Safe Handler.set_cache_field c params r may w calls h =
      unfold handle_set_cache_field in ground arith
  run_handler-Safe Handler.delete_cache_field c params r may w calls h =
      unfold handle_delete_cache_field in ground arith
  run_handler-Safe Handler.clear_cache c params r may w calls h =
      unfold handle_clear_cache in ground arith

  middleware-Safe :
      (tracked : Bool) (c : Request) (w : W) (calls : List Call)
      → (if tracked
          then activity_middleware
              (traced s.env)
              (traced_cache s.cache)
              s.float_to_int64
              s.idle_watcher
              c
              (w, calls)
          else (w, calls)).1
        ≡ calls
  unfolding activity_middleware touch_activity
  middleware-Safe tracked c w calls = ground arith

  run_match-Safe :
      (m : Match) (r : HttpRequest)
      → Allows m.0 (request_of s.namespace m.1.1) r
      → Safe (run_match (traced_server s) m r)
  unfolding run_match
  run_match-Safe (h, (tracked, params)) r may w calls j =
      let c = request_of s.namespace params in
      let x : W × List Call =
        if tracked
        then activity_middleware (traced s.env) (traced_cache s.cache) s.float_to_int64
            s.idle_watcher c (w, calls)
        else (w, calls) in
      run_handler-Safe h c params r may x.0 x.1 (rw (middleware-Safe tracked c w calls) j)

  route-Safe : (r : HttpRequest) → Did (served r) → Safe (route find (traced_server s) r)
  unfolding route
  route-Safe r did w calls j = elim (Option-cases (find register_routes r.method r.path)) [
    | inl none_lem ↦ rw (none_lem, route) j
    | inr (m, found) ↦
        rw (found, route)
          (run_match-Safe m r
            (λ creates req body. inl (record {
              r = r;
              did = did;
              m = m;
              found = found;
              creates = creates;
              req = req;
              body = body;
              same = refl;
            }))
            w calls j)
  ]

  pub serve-Safe :
      (r : HttpRequest) (w : W) (calls : List Call)
      → Did (served r)
      → All (Justified find s Did) calls
      → All (Justified find s Did) (serve find (traced_server s) r (w, calls)).1.1
  unfolding serve cors_middleware
  serve-Safe r w calls did j = elim (Bool-cases (r.method == "OPTIONS")) [
    | inl e ↦ rw e j
    | inr e ↦ rw e (route-Safe r did w calls j)
  ]

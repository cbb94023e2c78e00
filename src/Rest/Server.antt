-- ===== src/Rest/Server.antt =====
-- internal/rest/server.go: a request through the middleware to the handler of its route. The router that
-- chooses the route, and the handler of the documentation pages, are gin's and a parameter.
pub mod Reading
pub mod Tracking
pub mod Statuses
pub mod Documented
use mathlib.Core.List.{Memᴰ}
use k8sagent_orchestrator.Prelude.{
  ℕ, String, Bool, Option, none, some, List, [], ◌∷◌, ◌++◌, ◌==◌, ◌≡◌, if◌then◌else◌,
}
use k8sagent_orchestrator.Prelude.Int.{ℤ}
use k8sagent_orchestrator.Prelude.Map.{Map}
use k8sagent_orchestrator.Cache.{CacheStore}
use k8sagent_orchestrator.Api.{EnvVar}
use k8sagent_orchestrator.Io.{Io}
use k8sagent_orchestrator.Kube.{Env}
use k8sagent_orchestrator.Idle.{Watcher}
use k8sagent_orchestrator.Idle.Middleware.{activity_middleware}
use k8sagent_orchestrator.Rest.{Request, Response, Body, Content}
use k8sagent_orchestrator.Rest.Requests.{CreateAgentRequest, UpdateAgentRequest}
use k8sagent_orchestrator.Rest.Crud.{
  handle_info, handle_healthz, handle_readyz, handle_create_agent, handle_list_agents,
  handle_list_agent_services, handle_get_agent, handle_get_agent_history, handle_update_agent,
  handle_delete_agent,
}
use k8sagent_orchestrator.Rest.Lifecycle.{
  handle_restart_agent, handle_stop_agent, handle_start_agent, handle_disable_self_healing,
  handle_enable_self_healing,
}
use k8sagent_orchestrator.Rest.Environment.{
  handle_get_env, handle_set_env, handle_merge_env, handle_delete_env_key,
}
use k8sagent_orchestrator.Rest.Wake.{handle_keepalive}
use k8sagent_orchestrator.Rest.CacheRoutes.{
  CacheSetRequest, handle_list_cache, handle_get_cache_field, handle_set_cache_field,
  handle_delete_cache_field, handle_clear_cache,
}
use k8sagent_orchestrator.Rest.Logs.{Client, LogQuery, handle_get_logs}
use k8sagent_orchestrator.Rest.Routes.{
  Handler, Route, Match, register_routes, request_of, param_of, matches, match_path,
}

-- A request. Its one body stands four times, as the binding to each type of body leaves it; `wait` and
-- `log_query` are its query parameters.
pub record HttpRequest : Type 0 where
  pub method : String
  pub path : List String
  pub create_body : Body CreateAgentRequest
  pub update_body : Body UpdateAgentRequest
  pub env_body : Body (List EnvVar)
  pub cache_body : Body CacheSetRequest
  pub wait : String
  pub log_query : LogQuery

-- `content` is `none` where no handler wrote one.
pub record Reply : Type 0 where
  pub headers : Map String
  pub code : ℕ
  pub content : Option Content

-- `Server`, with what its handlers call outside the repository: the Kubernetes API with the event recorder
-- and the history in `env`, client-go, the documentation pages, Go's `%q` and its conversion of `float64`.
pub record Server (W C K : Type 0) : Type 0 where
  pub env : Env W
  pub cache : CacheStore W
  pub client : Client W C K
  pub namespace : String
  pub idle_watcher : Option Watcher
  pub swagger : Io W Response
  pub quoted : String → String
  pub float_to_int64 : ℕ → ℤ

-- Which route a request takes, of a table.
abbrev pub Router : Type 0
Router = List Route → (method : String) → List String → Option Match

-- What gin documents of its choice: a route that is taken fits, and one is taken where one fits.
pub record IsRouter (find : Router) : Type 0 where
  pub takes :
      (table : List Route) (method : String) (path : List String) (m : Match)
      → find table method path ≡ some m
      → Memᴰ m (matches match_path table method path)
  pub misses :
      (table : List Route) (method : String) (path : List String)
      → find table method path ≡ none
      → matches match_path table method path ≡ []

abbrev finished : {W : Type 0} → Io W Response → Io W (Option Response)
finished handle w = let (answer, w') = handle w in (some answer, w')

module _ {W C K : Type 0} (s : Server W C K) where
  -- The handler of a route; `none` if the loop of the keepalive endpoint ran out of fuel.
  unfoldable pub run_handler : Handler → Request → Map String → HttpRequest → Io W (Option Response)
  run_handler Handler.swagger c params r = finished s.swagger
  run_handler Handler.info c params r = λ w. (some (handle_info s.env c), w)
  run_handler Handler.healthz c params r = λ w. (some (handle_healthz s.env), w)
  run_handler Handler.readyz c params r = finished (handle_readyz s.env)
  run_handler Handler.create_agent c params r = finished (handle_create_agent s.env c r.create_body)
  run_handler Handler.list_agents c params r = finished (handle_list_agents s.env c)
  run_handler Handler.list_agent_services c params r = finished (handle_list_agent_services s.env c)
  run_handler Handler.get_agent c params r = finished (handle_get_agent s.env c)
  run_handler Handler.get_agent_history c params r = finished (handle_get_agent_history s.env c)
  run_handler Handler.update_agent c params r = finished (handle_update_agent s.env c r.update_body)
  run_handler Handler.delete_agent c params r = finished (handle_delete_agent s.env s.cache c)
  run_handler Handler.restart_agent c params r = finished (handle_restart_agent s.env c)
  run_handler Handler.stop_agent c params r = finished (handle_stop_agent s.env c)
  run_handler Handler.start_agent c params r = finished (handle_start_agent s.env c)
  run_handler Handler.disable_self_healing c params r =
      finished (handle_disable_self_healing s.env c)
  run_handler Handler.enable_self_healing c params r = finished (handle_enable_self_healing s.env c)
  run_handler Handler.keepalive c params r = handle_keepalive s.env c r.wait
  run_handler Handler.get_env c params r = finished (handle_get_env s.env c)
  run_handler Handler.set_env c params r = finished (handle_set_env s.env c r.env_body)
  run_handler Handler.merge_env c params r = finished (handle_merge_env s.env c r.env_body)
  run_handler Handler.delete_env_key c params r =
      finished (handle_delete_env_key s.env s.quoted c (param_of "key" params))
  run_handler Handler.get_logs c params r = finished (handle_get_logs s.env s.client c r.log_query)
  run_handler Handler.list_cache c params r = finished (handle_list_cache s.cache c)
  run_handler Handler.get_cache_field c params r =
      finished (handle_get_cache_field s.cache c (param_of "field" params))
  run_handler Handler.set_cache_field c params r =
      finished (handle_set_cache_field s.cache c (param_of "field" params) r.cache_body)
  run_handler Handler.delete_cache_field c params r =
      finished (handle_delete_cache_field s.cache c (param_of "field" params))
  run_handler Handler.clear_cache c params r = finished (handle_clear_cache s.cache c)

  -- `activityMiddleware` stands before the handlers of the group `/:name`.
  unfoldable pub run_match : Match → HttpRequest → Io W (Option Response)
  unfolding request_of run_handler
  run_match (h, (tracked, params)) r w =
      let c = request_of s.namespace params in
      run_handler h c params r (
        if tracked
        then activity_middleware s.env s.cache s.float_to_int64 s.idle_watcher c w
        else w)

abbrev pub cors_headers : Map String
cors_headers =
    ("Access-Control-Allow-Origin", "*")
    ∷ ("Access-Control-Allow-Methods", "GET, POST, PUT, PATCH, DELETE, OPTIONS")
    ∷ ("Access-Control-Allow-Headers", "Content-Type, Authorization, X-Requested-With")
    ∷ ("Access-Control-Max-Age", "86400")
    ∷ []

abbrev pub replied : Response → Reply
replied answer = record { headers = []; code = answer.code; content = some answer.content }

abbrev pub with_headers : Map String → Option Reply → Option Reply
with_headers headers none = none
with_headers headers (some reply) = some (record reply { headers = headers ++ reply.headers })

-- The headers are set first, so an answer that a later handler writes carries them. A preflight request goes
-- no further.
unfoldable pub cors_middleware :
    {W : Type 0} → (method : String) → Io W (Option Reply) → Io W (Option Reply)
cors_middleware method next w =
    let (reply, w') = next w in
    if method == "OPTIONS"
    then (some (record { headers = cors_headers; code = 204; content = none }), w)
    else (with_headers cors_headers reply, w')

-- A request that takes no route is answered 404 by gin. Its redirect of a path that is a route but for a slash
-- at the end is left out.
unfoldable pub route : {W C K : Type 0} → Router → Server W C K → HttpRequest → Io W (Option Reply)
unfolding run_match register_routes
route find s r w = elim (find register_routes r.method r.path) [
  | none ↦ (some (record { headers = []; code = 404; content = none }), w)
  | some m ↦
      let (answer, w') = run_match s m r w in
      (elim answer [ none ↦ none | some a ↦ some (replied a) ], w')
]

-- The engine that `NewServer` puts together, between its recovery and its log of requests.
unfoldable pub serve : {W C K : Type 0} → Router → Server W C K → HttpRequest → Io W (Option Reply)
unfolding cors_middleware route
serve find s r = cors_middleware r.method (route find s r)

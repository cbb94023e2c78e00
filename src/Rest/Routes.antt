-- ===== src/Rest/Routes.antt =====
-- internal/rest/server.go: the route table. A path is its segments. How gin fits a pattern to a path is a
-- parameter, and `match_path` is what its documentation says of it.
pub mod Groups
pub mod Taken
use k8sagent_orchestrator.Prelude.{
  String, Bool, true, false, Option, none, some, List, [], ◌∷◌, ◌++◌, map, ◌==◌, ◌&&◌,
  if◌then◌else◌,
}
use k8sagent_orchestrator.Prelude.Map
use k8sagent_orchestrator.Prelude.Map.{Map}
use k8sagent_orchestrator.Rest.{Request}

pub data Segment : Type 0 where
  fixed : String → Segment
  param : String → Segment
  wildcard : Segment

pub data Handler : Type 0 where
  swagger info healthz readyz : Handler
  create_agent list_agents list_agent_services get_agent get_agent_history update_agent
        delete_agent :
      Handler
  restart_agent stop_agent start_agent disable_self_healing enable_self_healing keepalive : Handler
  get_env set_env merge_env delete_env_key get_logs : Handler
  list_cache get_cache_field set_cache_field delete_cache_field clear_cache : Handler

-- `tracked` routes stand behind `activityMiddleware`.
pub record Route : Type 0 where
  pub method : String
  pub pattern : List Segment
  pub tracked : Bool
  pub handler : Handler

abbrev on_agents : String → List Segment → Handler → Route
on_agents method pattern handler = record {
  method = method;
  pattern = pattern;
  tracked = false;
  handler = handler;
}

-- A route of the group `/:name`.
abbrev on_agent : String → List Segment → Handler → Route
on_agent method pattern handler = record {
  method = method;
  pattern = param "name" ∷ pattern;
  tracked = true;
  handler = handler;
}

-- The routes of `registerAgentRoutes`, below the path of their group.
abbrev pub agent_table : List Route
agent_table =
    on_agents "POST" [] create_agent
    ∷ on_agents "GET" [] list_agents
    ∷ on_agents "GET" (fixed "services" ∷ []) list_agent_services
    ∷ on_agent "GET" [] get_agent
    ∷ on_agent "GET" (fixed "history" ∷ []) get_agent_history
    ∷ on_agent "PUT" [] update_agent
    ∷ on_agent "DELETE" [] delete_agent
    ∷ on_agent "POST" (fixed "restart" ∷ []) restart_agent
    ∷ on_agent "POST" (fixed "stop" ∷ []) stop_agent
    ∷ on_agent "POST" (fixed "start" ∷ []) start_agent
    ∷ on_agent "POST" (fixed "disable-healing" ∷ []) disable_self_healing
    ∷ on_agent "POST" (fixed "enable-healing" ∷ []) enable_self_healing
    ∷ on_agent "POST" (fixed "keepalive" ∷ []) keepalive
    ∷ on_agent "GET" (fixed "env" ∷ []) get_env
    ∷ on_agent "PUT" (fixed "env" ∷ []) set_env
    ∷ on_agent "PATCH" (fixed "env" ∷ []) merge_env
    ∷ on_agent "DELETE" (fixed "env" ∷ param "key" ∷ []) delete_env_key
    ∷ on_agent "GET" (fixed "logs" ∷ []) get_logs
    ∷ on_agent "GET" (fixed "cache" ∷ []) list_cache
    ∷ on_agent "GET" (fixed "cache" ∷ param "field" ∷ []) get_cache_field
    ∷ on_agent "PUT" (fixed "cache" ∷ param "field" ∷ []) set_cache_field
    ∷ on_agent "DELETE" (fixed "cache" ∷ param "field" ∷ []) delete_cache_field
    ∷ on_agent "DELETE" (fixed "cache" ∷ []) clear_cache
    ∷ []

abbrev pub below : List Segment → Route → Route
below base r = record r { pattern = base ++ r.pattern }

abbrev pub namespaced : List Segment
namespaced = fixed "api" ∷ fixed "v1" ∷ fixed "namespaces" ∷ param "namespace" ∷ fixed "agents" ∷ []

abbrev pub short : List Segment
short = fixed "api" ∷ fixed "v1" ∷ fixed "agents" ∷ []

-- `registerAgentRoutes`
unfoldable pub register_agent_routes : List Segment → List Route
register_agent_routes agents = map (below agents) agent_table

-- `registerRoutes`
unfoldable pub register_routes : List Route
unfolding register_agent_routes
register_routes =
    on_agents "GET" (fixed "swagger" ∷ wildcard ∷ []) swagger
    ∷ on_agents "GET" (fixed "api" ∷ fixed "v1" ∷ fixed "info" ∷ []) info
    ∷ on_agents "GET" (fixed "healthz" ∷ []) healthz
    ∷ on_agents "GET" (fixed "readyz" ∷ []) readyz
    ∷ (register_agent_routes namespaced ++ register_agent_routes short)

-- The documented behaviour: a fixed segment, a parameter for one segment that is not empty, or a wildcard for
-- a rest of at least one segment; and the parameters of a path that fits.
unfoldable pub match_path : List Segment → List String → Option (Map String)
match_path [] [] = some []
match_path [] (x ∷ xs) = none
match_path (wildcard ∷ pattern) [] = none
match_path (wildcard ∷ pattern) (x ∷ xs) = some []
match_path (fixed s ∷ pattern) [] = none
match_path (fixed s ∷ pattern) (x ∷ xs) =
    let rest = match_path pattern xs in if s == x then rest else none
match_path (param k ∷ pattern) [] = none
match_path (param k ∷ pattern) (x ∷ xs) =
    let rest = match_path pattern xs in
    if x == "" then none else elim rest [ none ↦ none | some params ↦ some ((k, x) ∷ params) ]

abbrev pub Match : Type 0
Match = Handler × (Bool × Map String)

abbrev pub Fits : Type 0
Fits = List Segment → List String → Option (Map String)

-- The routes that a request fits, in the order of the table.
unfoldable pub matches : Fits → List Route → (method : String) → List String → List Match
matches fits [] method path = []
matches fits (r ∷ rs) method path =
    let rest = matches fits rs method path in
    if r.method == method
    then elim (fits r.pattern path) [
      | none ↦ rest
      | some params ↦ (r.handler, (r.tracked, params)) ∷ rest
    ]
    else rest

-- `c.Param`, empty where there is none.
abbrev pub param_of : String → Map String → String
param_of k params = elim (Map.lookup k params) [ none ↦ "" | some v ↦ v ]

-- The request that a handler reads.
unfoldable pub request_of : (default_namespace : String) → Map String → Request
unfolding Map.lookup
request_of default_namespace params = record {
  namespace = param_of "namespace" params;
  name = param_of "name" params;
  default_namespace = default_namespace;
}

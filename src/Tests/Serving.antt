-- ===== src/Tests/Serving.antt =====
-- The theorems on requests to the server, on a cluster with one agent.
use mathlib.Core.List.{Memᴰ}
use k8sagent_orchestrator.Prelude.{String, ◌≡◌, refl, inl, true, none, some, List, [], ◌∷◌, Option}
use k8sagent_orchestrator.Prelude.Map
use k8sagent_orchestrator.Prelude.Int.{pos}
use k8sagent_orchestrator.Docs.{operations, find_operation, codes, has_code}
use k8sagent_orchestrator.Docs.Spec.{Operation}
use k8sagent_orchestrator.Idle.{Watcher, touch_activity}
use k8sagent_orchestrator.Rest.{ns_name, invalid, status_body, flag_body, respond_ok}
use k8sagent_orchestrator.Rest.Lifecycle.{handle_stop_agent}
use k8sagent_orchestrator.Rest.Logs.{Client, got}
use k8sagent_orchestrator.Rest.Routes.{
  Route, Match, stop_agent, matches, match_path, register_routes, register_agent_routes, request_of,
  fixed, param,
}
use k8sagent_orchestrator.Rest.Server.{
  Server, HttpRequest, Router, IsRouter, run_handler, run_match, serve,
}
use k8sagent_orchestrator.Rest.Server.Reading.{traced_server, serve-Reads}
use k8sagent_orchestrator.Rest.Server.Tracking.{run_match-touches}
use k8sagent_orchestrator.Rest.Server.Documented.{documented_routes, run_handler-documented}
use k8sagent_orchestrator.Tests.World.{World, cluster, agent, with_agents, cell}

-- The router that takes the first route that fits.
abbrev first : List Match → Option Match
first [] = none
first (m ∷ ms) = some m

abbrev pub first_route : Router
first_route table method path = first (matches match_path table method path)

first-takes : (l : List Match) (m : Match) → first l ≡ some m → Memᴰ m l
first-takes [] m e = absurd cc
first-takes (x ∷ l) m e = Memᴰ.head (cc)

first-misses : (l : List Match) → first l ≡ none → l ≡ []
first-misses [] e = refl
first-misses (x ∷ l) e = cc

first_route-IsRouter : IsRouter first_route
first_route-IsRouter = record {
  takes = λ table method path m. first-takes (matches match_path table method path) m;
  misses = λ table method path. first-misses (matches match_path table method path);
}

abbrev client : Client World Unit Unit
client = record {
  in_cluster_config = λ w. (got tt, w);
  getenv = λ name w. ("", w);
  user_home_dir = λ w. (none, w);
  build_config_from_flags = λ path w. (got tt, w);
  new_for_config = λ c w. (got tt, w);
  stream = λ k namespace pod_name options w. (got (record { bytes = []; failure = none }), w);
}

abbrev watcher : Watcher
watcher = record { global_timeout = pos 0; check_interval = pos 30 }

abbrev pub server : Server World Unit Unit
server = record {
  env = cluster;
  cache = cell;
  client = client;
  namespace = "default";
  idle_watcher = some watcher;
  swagger = λ w. (record { code = 200; content = status_body "" }, w);
  quoted = λ s. s;
  float_to_int64 = pos;
}

abbrev pub http_request : String → List String → HttpRequest
http_request method path = record {
  method = method;
  path = "api" ∷ "v1" ∷ "agents" ∷ path;
  create_body = invalid "EOF";
  update_body = invalid "EOF";
  env_body = invalid "EOF";
  cache_body = invalid "EOF";
  wait = "";
  log_query = record { tail_lines = ""; since_seconds = ""; container = none; follow = "" };
}

abbrev world : World
world = with_agents (agent ∷ []) []

serve-Reads_example :
    (serve first_route
      (traced_server server)
      (http_request "GET" ("demo" ∷ "env" ∷ []))
      (world, [])).1.1
    ≡ []
serve-Reads_example =
    serve-Reads first_route server first_route-IsRouter (http_request "GET" ("demo" ∷ "env" ∷ []))
      world (inl refl)

abbrev stop_match : Match
stop_match = (stop_agent, (true, ("name", "demo") ∷ []))

stop_found :
    first_route register_routes "POST" ("api" ∷ "v1" ∷ "agents" ∷ "demo" ∷ "stop" ∷ [])
    ≡ some stop_match
unfolding matches match_path register_routes register_agent_routes
stop_found = refl

run_match-touches_example :
    run_match server stop_match (http_request "POST" ("demo" ∷ "stop" ∷ [])) world
    ≡ run_handler server stop_agent
        (request_of "default" (("name", "demo") ∷ []))
        (("name", "demo") ∷ [])
        (http_request "POST" ("demo" ∷ "stop" ∷ []))
        (touch_activity cluster cell pos "default" "demo" world)
unfolding ns_name request_of Map.lookup
run_match-touches_example =
    run_match-touches first_route server first_route-IsRouter
      (http_request "POST" ("demo" ∷ "stop" ∷ [])) stop_match watcher world stop_found refl

abbrev stop_route : Route
stop_route = record {
  method = "POST";
  pattern = fixed "api" ∷ fixed "v1" ∷ fixed "agents" ∷ param "name" ∷ fixed "stop" ∷ [];
  tracked = true;
  handler = stop_agent;
}

stop_answer :
    (run_handler server stop_agent
      (request_of "default" (("name", "demo") ∷ []))
      []
      (http_request "POST" [])
      world).0
    ≡ some (respond_ok (flag_body "stopped" true))
unfolding run_handler handle_stop_agent request_of
stop_answer = refl

stop_route-mem : Memᴰ stop_route documented_routes
unfolding register_agent_routes
stop_route-mem = Memᴰ.tail (
    Memᴰ.tail (
      Memᴰ.tail (
        Memᴰ.tail (
          Memᴰ.tail (Memᴰ.tail (Memᴰ.tail (Memᴰ.tail (Memᴰ.tail (Memᴰ.tail (Memᴰ.head refl))))))))))

run_handler-documented_example :
    (op : Operation) × (find_operation operations "POST" "/api/v1/agents/{name}/stop" ≡ some op)
    × (has_code (codes op) 200 ≡ true)
run_handler-documented_example =
    run_handler-documented server stop_route stop_route-mem
      (request_of "default" (("name", "demo") ∷ [])) [] (http_request "POST" []) world
      (respond_ok (flag_body "stopped" true)) stop_answer

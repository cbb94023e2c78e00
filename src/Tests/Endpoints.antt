-- ===== src/Tests/Endpoints.antt =====
-- The theorems on the REST API and the idle watcher, at concrete agents and requests.
use k8sagent_orchestrator.Prelude.{
  ℕ, ◌+◌, ◌≤◌, ◌≡◌, refl, inr, ◌≢◌, ◌↔◌, false, none, some, [], ◌∷◌, arith, All,
}
use k8sagent_orchestrator.Prelude.Int.{ℤ, pos}
use k8sagent_orchestrator.Cache.{int64, Time}
use k8sagent_orchestrator.Cache.Memory.{new_in_memory_cache}
use k8sagent_orchestrator.Cache.Memory.Store.{in_memory, CacheLaws}
use k8sagent_orchestrator.Api.{Agent, EnvVar}
use k8sagent_orchestrator.Kube.Trace.{patches, deleted_agents, updated_agents}
use k8sagent_orchestrator.Controller.Services.{service_name_for, starts_with_digit}
use k8sagent_orchestrator.Rest.{Request, ns_name}
use k8sagent_orchestrator.Rest.Crud.{service_info}
use k8sagent_orchestrator.Rest.Requests.{UpdateAgentRequest}
use k8sagent_orchestrator.Rest.Crud.Deleting
use k8sagent_orchestrator.Rest.Crud.Deleting.{
  AnswersFlag, handle_delete_agent-StaysDeleted, handle_delete_agent-answer, StaysDeleted,
}
use k8sagent_orchestrator.Rest.Crud.Updating
use k8sagent_orchestrator.Rest.Crud.Updating.{OneUpdate, handle_update_agent-Updates}
use k8sagent_orchestrator.Rest.Crud.Listing.{address, service_url-address}
use k8sagent_orchestrator.Rest.Lifecycle.Effects.{stop, restart, Sends, sent, run-Sends, intended}
use k8sagent_orchestrator.Rest.Lifecycle.Pods.{
  OneChange, Stops, Keeps, handle_stop_agent-Stops, handle_restart_agent-Keeps, AnswersGeneration,
}
use k8sagent_orchestrator.Rest.Wake.{wait_seconds, service_url, handle_keepalive}
use k8sagent_orchestrator.Rest.Wake.Waiting.{ClockLaws, handle_keepalive-answers}
use k8sagent_orchestrator.Rest.Environment.{merge_env_vars}
use k8sagent_orchestrator.Rest.Environment.Merging.{names, merge_env_vars-upserts}
use k8sagent_orchestrator.Rest.CacheRoutes.{CacheSetRequest, handle_set_cache_field}
use k8sagent_orchestrator.Rest.CacheRoutes.Ttl.{made, read_back, handle_get_cache_field-set}
use k8sagent_orchestrator.Rest.{entry_body}
use k8sagent_orchestrator.Idle.{Watcher, last_activity}
use k8sagent_orchestrator.Idle.Pausing
use k8sagent_orchestrator.Idle.Pausing.{IsIdle, check_agent-IsIdle, Pauses, stamp}
use k8sagent_orchestrator.Idle.Middleware.{activity_middleware, check_agent-activity_middleware}
use k8sagent_orchestrator.Tests.World.{World, cluster, agent, pod, with_agents, cell}

abbrev bare : World
bare = with_agents (agent ∷ []) (pod ∷ [])

abbrev request : Request
request = record { namespace = ""; name = "demo"; default_namespace = "default" }

answers_flag : AnswersFlag cluster
answers_flag base new answer w e ne = ground arith

handle_delete_agent-StaysDeleted_example :
    All
      (StaysDeleted cluster cell request bare)
      (deleted_agents (Deleting.sent cluster cell request bare))
handle_delete_agent-StaysDeleted_example =
    handle_delete_agent-StaysDeleted cluster cell request bare answers_flag

run-Sends_example :
    Sends agent (intended stop agent.spec) (patches (sent cluster stop request bare))
run-Sends_example = (run-Sends cluster request bare agent stop refl).0

handle_stop_agent-Stops_example :
    OneChange cluster (Stops cluster) (patches (sent cluster stop request bare))
handle_stop_agent-Stops_example = handle_stop_agent-Stops cluster request bare agent refl

answers_generation : AnswersGeneration cluster
answers_generation base new answer w e same = ground arith

handle_restart_agent-Keeps_example :
    OneChange cluster (Keeps cluster agent) (patches (sent cluster restart request bare))
handle_restart_agent-Keeps_example =
    (handle_restart_agent-Keeps cluster request bare agent answers_generation refl).0

clock_laws : ClockLaws cluster
clock_laws = record {
  clock = λ w. w.clock;
  now_reads = λ w. refl;
  now_forward = λ w. omega arith;
  get_forward = λ ns name w. omega arith;
  sleep_forward = λ d w. omega arith;
}

handle_keepalive-answers_example :
    ((handle_keepalive cluster request "5" bare).0 ≢ none) × (wait_seconds "5" ≤ 120)
handle_keepalive-answers_example = handle_keepalive-answers cluster clock_laws request "5" bare

abbrev old : EnvVar
old = record { name = "A"; value = "1"; value_from = "" }

abbrev new : EnvVar
new = record { name = "B"; value = "2"; value_from = "" }

abbrev newer : EnvVar
newer = record { name = "A"; value = "3"; value_from = "" }

merge_env_vars-upserts_example :
    names (merge_env_vars (old ∷ []) (new ∷ newer ∷ [])) ≡ "A" ∷ "B" ∷ []
merge_env_vars-upserts_example = (merge_env_vars-upserts (old ∷ []) (new ∷ newer ∷ [])).1

abbrev update : UpdateAgentRequest
update = record {
  image = "img2";
  image_pull_policy = "";
  env = some (old ∷ []);
  env_from = none;
  resources = "";
  command = none;
  args = none;
  service_account = "";
  restart_policy = "";
  pod_labels = none;
  pod_annotations = none;
  idle_timeout = some (pos 0);
}

handle_update_agent-Updates_example :
    OneUpdate update agent (updated_agents (Updating.sent cluster request update bare))
handle_update_agent-Updates_example =
    (handle_update_agent-Updates cluster request update bare agent refl).0

abbrev served : Agent
served = record agent { status = record agent.status { service_name = "demo" } }

service_url-address_example :
    (service_url "default" served ≡ address (service_name_for "demo") "default" (pos 8080))
    × (((service_info "default" served).url ≡ service_url "default" served)
        ↔ starts_with_digit "demo" ≡ false)
unfolding service_name_for
service_url-address_example = service_url-address "default" served refl refl (λ e. cc (e))

abbrev ticking : ℕ → Time × ℕ
ticking t = (t, t + 1)

abbrev put : CacheSetRequest
put = record { value = int64 (pos 7); ttl = pos 60 }

handle_get_cache_field-set_example :
    (read_back ticking request "f" put new_in_memory_cache 5).content
    ≡ entry_body (made ticking request "f" put new_in_memory_cache 5 (pos 60000000000))
unfolding in_memory handle_set_cache_field
handle_get_cache_field-set_example =
    (handle_get_cache_field-set ticking request "f" put new_in_memory_cache 5 60 refl
        (omega arith)).0.1
      (inr (omega arith))

abbrev watcher : Watcher
watcher = record { global_timeout = pos 1800000000000; check_interval = pos 30000000000 }

abbrev bits : ℕ → ℤ
bits n = pos n

abbrev active : World
active = record bare { cached = some (int64 (pos 5)) }

check_agent-IsIdle_example :
    Pauses agent
      (stamp cluster cell bits agent active)
      (patches (Pausing.sent cluster cell bits watcher 60000000005 agent active))
unfolding last_activity
check_agent-IsIdle_example =
    (check_agent-IsIdle cluster cell bits watcher 60000000005 agent active 1800000000000 refl
        (omega arith) (omega arith)).0
      (record {
        unpaused = refl;
        limited = ground arith;
        last = pos 5;
        known = refl;
        elapsed = omega arith;
      })

cell_laws : CacheLaws cell
cell_laws = record { get-set = λ ns name field value w. refl }

abbrev after_request : World
after_request = activity_middleware cluster cell bits (some watcher) request bare

check_agent-activity_middleware_example :
    Pauses agent
      (stamp cluster cell bits agent after_request)
      (patches (Pausing.sent cluster cell bits watcher 60000000100 agent after_request))
unfolding ns_name
check_agent-activity_middleware_example =
    (check_agent-activity_middleware cluster cell bits cell_laws watcher 1800000000000 60000000100
        request agent bare refl refl (λ e. cc (e)) refl (omega arith) (omega arith) (omega arith)).0
      (refl, ground arith, omega arith)

-- ===== src/Tests/Recording.antt =====
-- A cluster with an in-memory history, and the history endpoint after a restart on it.
use k8sagent_orchestrator.Prelude.{◌≡◌, refl, some, List, [], ◌∷◌}
use k8sagent_orchestrator.Prelude.Int.{pos}
use k8sagent_orchestrator.Prelude.Map.{Map}
use k8sagent_orchestrator.Api.{LifecycleEvent}
use k8sagent_orchestrator.History.{HistoryStore}
use k8sagent_orchestrator.History.Memory.Store.{in_memory_history, in_memory_history_laws}
use k8sagent_orchestrator.Io.{Io}
use k8sagent_orchestrator.Kube.{Env}
use k8sagent_orchestrator.Rest.{Request}
use k8sagent_orchestrator.Rest.Crud.{handle_get_agent_history}
use k8sagent_orchestrator.Rest.Lifecycle.{handle_restart_agent}
use k8sagent_orchestrator.Rest.Lifecycle.Effects.{restart, run}
use k8sagent_orchestrator.Rest.Lifecycle.Recorded.{shown, run-shown}
use k8sagent_orchestrator.Tests.World.{World, cluster, agent, pod, with_agents}

abbrev Recorded : Type 0
Recorded = Map (List LifecycleEvent) × World

-- A call that leaves the history.
abbrev beside : {A : Type 0} → Io World A → Io Recorded A
beside m (events, w) = let (a, w') = m w in (a, (events, w'))

abbrev store : HistoryStore Recorded
store = in_memory_history (pos 1000) cluster.now

abbrev recording : Env Recorded
recording = record {
  get_agent = λ ns name. beside (cluster.get_agent ns name);
  list_agents = λ ns. beside (cluster.list_agents ns);
  create_agent = λ a. beside (cluster.create_agent a);
  update_agent = λ a. beside (cluster.update_agent a);
  patch_agent = λ base a. beside (cluster.patch_agent base a);
  patch_status = λ base a. beside (cluster.patch_status base a);
  delete_agent = λ a. beside (cluster.delete_agent a);
  list_pods = λ ns labels. beside (cluster.list_pods ns labels);
  create_pod = λ p. beside (cluster.create_pod p);
  delete_pod = λ p. beside (cluster.delete_pod p);
  get_service = λ ns name. beside (cluster.get_service ns name);
  create_service = λ s. beside (cluster.create_service s);
  patch_service = λ base s. beside (cluster.patch_service base s);
  delete_service = λ s. beside (cluster.delete_service s);
  own_pod = cluster.own_pod;
  own_service = cluster.own_service;
  event = λ a event_type reason message w. w;
  now = beside cluster.now;
  sleep = λ d (events, w). (events, cluster.sleep d w);
  timestamp = cluster.timestamp;
  rfc3339 = cluster.rfc3339;
  history = some store;
}

abbrev request : Request
request = record { namespace = ""; name = "demo"; default_namespace = "default" }

abbrev start : Recorded
start = ([], with_agents (agent ∷ []) (pod ∷ []))

run-shown_example :
    shown (handle_get_agent_history recording request (run recording restart request start).1).0
    ≡ some ("Normal", "Restarted")
unfolding handle_restart_agent in_memory_history
run-shown_example =
    run-shown recording store (in_memory_history_laws (pos 1000) cluster.now) refl
      (λ ns name w a b. refl) restart request _ start refl refl

-- ===== src/Tests/Reconciling.antt =====
-- The theorems on the controller, at concrete agents and pods.
use k8sagent_orchestrator.Prelude.{
  ◌≡◌, refl, ◌⊎◌, ◌≤◌, inl, inr, true, [], ◌∷◌, length, All, decimal, eq_iff,
}
use k8sagent_orchestrator.Prelude.Int.{pos}
use k8sagent_orchestrator.Prelude.Map
use k8sagent_orchestrator.Api.{Agent}
use k8sagent_orchestrator.Kube.{Pod, Service}
use k8sagent_orchestrator.Kube.Trace.{
  created_pods, deleted_pods, updated_agents, traced, created_agents, deleted_services, events_of,
}
use k8sagent_orchestrator.Controller.Pods.{
  first_live, build_pod, spec_changed, pod_selector, generation_annotation,
}
use k8sagent_orchestrator.Controller.Pods.Drift.{Matches, build_pod-Matches, spec_changed-exact}
use k8sagent_orchestrator.Controller.Reconcile.Safety.{
  sent, reconcile-MayCreate, reconcile-MayDelete,
}
use k8sagent_orchestrator.Io.{err, Reason}
use k8sagent_orchestrator.Kube.{Env}
use k8sagent_orchestrator.Controller.Deletion.{
  Resurrection, resurrection_of, without_finalizer, resurrect_agent_async, resurrected_agent,
}
use k8sagent_orchestrator.Controller.Deletion.Release
use k8sagent_orchestrator.Controller.Deletion.Release.{handle_deletion-PodLetsGo}
use k8sagent_orchestrator.Controller.Deletion.Resurrecting.{
  resurrect_agent_async-bounded, resurrected_agent-restores,
}
use k8sagent_orchestrator.Controller.Services.{starts_with_digit, service_name_for, build_service}
use k8sagent_orchestrator.Controller.Services.Effects
use k8sagent_orchestrator.Controller.Services.Effects.{
  reconcile_service-sends, reconcile_service-rest,
}
use k8sagent_orchestrator.Controller.Services.Names.{service_name_for-eq}
use k8sagent_orchestrator.Tests.World.{
  World, cluster, agent, paused_agent, deleted_agent, pod, with_agents,
}

abbrev owned : Pod
owned = record (build_pod agent) { owner = "u1" }

abbrev bare : World
bare = with_agents (agent ∷ []) []

abbrev paused_world : World
paused_world = with_agents (paused_agent ∷ []) (pod ∷ [])

abbrev deleted_world : World
deleted_world = with_agents (deleted_agent ∷ []) (pod ∷ [])

reconcile-MayCreate_example : created_pods (sent cluster "default" "demo" bare) ≡ owned ∷ []
unfolding first_live
reconcile-MayCreate_example =
    (reconcile-MayCreate cluster "default" "demo" bare agent owned [] refl).0.1 (
      record { unpaused = refl; not_deleted = refl; registered = refl; missing = refl },
      refl,
      refl,
    )

reconcile-MayDelete_example : deleted_pods (sent cluster "default" "demo" paused_world) ≡ pod ∷ []
unfolding first_live build_pod
reconcile-MayDelete_example =
    (reconcile-MayDelete cluster "default" "demo" paused_world paused_agent pod [] refl).1
      (record { listed = refl; cause = inr (refl, inl refl) }, refl)

-- A server that refuses pods.
abbrev full : Env World
full = record cluster {
  create_pod = λ p w. (err (record { reason = Reason.other; text = "full" }), w);
}

handle_deletion-PodLetsGo_example :
    updated_agents (Release.sent cluster deleted_agent deleted_world)
    ≡ without_finalizer deleted_agent ∷ []
unfolding first_live build_pod
handle_deletion-PodLetsGo_example =
    (handle_deletion-PodLetsGo cluster deleted_agent deleted_world).1 tt

abbrev lost : Resurrection
lost = record {
  namespace = "default";
  name = "demo";
  original_uid = "u1";
  spec = agent.spec;
  labels = ("team", "a") ∷ [];
  annotations = ("note", "x") ∷ [];
}

resurrect_agent_async-bounded_example :
    let calls = (resurrect_agent_async (traced cluster) lost (with_agents [] [], [])).1 in
    (length (created_agents calls) ≤ 15)
    × All (λ c. c ≡ resurrected_agent cluster lost 100) (created_agents calls)
    × (((events_of "Warning" calls ≡ 0) × (events_of "Normal" calls ≤ 1))
        ⊎ ((events_of "Warning" calls ≡ 1)
            × (events_of "Normal" calls ≡ 0)
            × (length (created_agents calls) ≡ 15)))
resurrect_agent_async-bounded_example =
    resurrect_agent_async-bounded cluster lost (with_agents [] [])

resurrected_agent-restores_example : (resurrected_agent cluster lost 100).spec ≡ agent.spec
unfolding resurrection_of Map.overlay Map.insert
resurrected_agent-restores_example =
    (resurrected_agent-restores cluster agent lost 100 (tt, tt) (tt, tt) refl).0

build_pod-Matches_example : Matches (pod_selector agent) (build_pod agent).labels
unfolding Map.lookup
build_pod-Matches_example = (build_pod-Matches agent tt).1 (inl refl, inl refl)

abbrev later : Agent
later = record agent { meta = record agent.meta { generation = 4 } }

abbrev annotated : Agent
annotated = record agent {
  spec = record agent.spec { pod_annotations = (generation_annotation, "x") ∷ [] };
}

spec_changed-exact_example : spec_changed later (build_pod annotated) ≡ true
unfolding Map.lookup decimal
spec_changed-exact_example =
    (spec_changed-exact annotated later (tt, tt)).1 (λ e. cc ((eq_iff "x" (decimal 4)).1 e))

abbrev service : Service
service = record (build_service agent) { owner = "someone" }

abbrev closed : Agent
closed = record agent { spec = record agent.spec { service_port = pos 0 } }

abbrev served : World
served = record bare { services = service ∷ [] }

reconcile_service-sends_example :
    deleted_services (Effects.sent cluster closed served) ≡ service ∷ []
reconcile_service-sends_example =
    (reconcile_service-sends cluster closed served service []).0.1 (refl, refl, refl)

service_name_for-eq_example : service_name_for "1" ≡ service_name_for "agt-1"
unfolding starts_with_digit
service_name_for-eq_example = (service_name_for-eq "1" "agt-1").1 (inr (inl (refl, refl)))

-- ===== src/Tests/Running.antt =====
-- The invariant of the whole program, on a run in which an agent is deleted by somebody else and comes back.
use k8sagent_orchestrator.Prelude.{◌≡◌, refl, [], ◌∷◌}
use k8sagent_orchestrator.Prelude.Map
use k8sagent_orchestrator.Kube.Trace.{traced}
use k8sagent_orchestrator.Controller.Deletion.{Resurrection, resurrect_agent_async}
use k8sagent_orchestrator.Controller.Reconcile.{reconcile}
use k8sagent_orchestrator.Rest.Server.{serve}
use k8sagent_orchestrator.Rest.Server.Reading.{traced_server}
use k8sagent_orchestrator.System.{
  State, Run, start, step, elsewhere, request, reconciliation, resurrection, left_by, reconciled,
}
use k8sagent_orchestrator.Tests.World.{World, cluster, agent, deleted_agent, with_agents}
use k8sagent_orchestrator.Tests.Serving.{first_route, server, http_request}

abbrev initial : State World
initial = record { world = with_agents (agent ∷ []) []; calls = []; pending = [] }

abbrev paused : State World
paused =
    left_by
      (serve first_route (traced_server server) (http_request "POST" ("demo" ∷ "stop" ∷ []))
        (initial.world, [])).1
      []

abbrev deleted : State World
deleted = record paused { world = with_agents (deleted_agent ∷ []) [] }

abbrev released : State World
released =
    reconciled (reconcile (traced cluster) "default" "demo" (deleted.world, deleted.calls)) []

abbrev lost : Resurrection
lost = record {
  namespace = "default";
  name = "demo";
  original_uid = "u1";
  spec = agent.spec;
  labels = agent.meta.labels;
  annotations = ("note", "x") ∷ [];
}

abbrev back : State World
back = left_by (resurrect_agent_async (traced cluster) lost (released.world, released.calls)) []

released-pending : released.pending ≡ lost ∷ []
unfolding reconcile Map.insert Map.overlay
released-pending = refl

run : Run first_route server initial back
run =
    step
      (step
        (step (step start (request (http_request "POST" ("demo" ∷ "stop" ∷ []))))
          (elsewhere (λ w. with_agents (deleted_agent ∷ []) [])))
        (reconciliation "default" "demo"))
      (resurrection [] [] lost released-pending)

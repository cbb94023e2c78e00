-- ===== src/Controller/Services/Effects.antt =====
-- Which services a reconciliation of an agent's service creates and deletes, and when it is at rest.
use k8sagent_orchestrator.Prelude.{◌≡◌, ◌↔◌, true, false, List, [], ◌∷◌, arith, eq_iff}
use k8sagent_orchestrator.Prelude.Int.{pos, eqb_ℤ}
use k8sagent_orchestrator.Api.{Agent, or_default}
use k8sagent_orchestrator.Io.{Result, ok, err, is_not_found}
use k8sagent_orchestrator.Kube.{Env, Service}
use k8sagent_orchestrator.Kube.Trace.{Call, traced, created_services, deleted_services}
use k8sagent_orchestrator.Controller.Services.{
  reconcile_service, service_name_for, build_service, ports_drifted,
}

abbrev pub IsNotFound : Result Service → Type 0
IsNotFound (ok svc) = ⊥
IsNotFound (err e) = is_not_found e ≡ true

module _ {W : Type 0} (env : Env W) (agent : Agent) (w : W) where
  abbrev pub sent : List Call
  sent = (reconcile_service (traced env) agent (w, [])).1.1

  -- The lookup of the agent's service name in its namespace.
  abbrev pub found : Result Service
  found = (env.get_service agent.meta.namespace (service_name_for agent.meta.name) w).0

  -- A service is deleted exactly if the agent's port is 0 and a service with the agent's service name was
  -- found; whoever owns it, and no second one. One is created exactly if the port is not 0, no service of
  -- the name was found, and the one that is built from the agent could be owned by it; it is that one, and
  -- no second one.
  pub reconcile_service-sends :
      (svc : Service) (rest : List Service)
      → ((deleted_services sent ≡ svc ∷ rest)
          ↔ ((eqb_ℤ agent.spec.service_port (pos 0) ≡ true) × (found ≡ ok svc) × (rest ≡ [])))
        × ((created_services sent ≡ svc ∷ rest) ↔ (
            (eqb_ℤ agent.spec.service_port (pos 0) ≡ false)
            × IsNotFound found
            × (env.own_service agent (build_service agent) ≡ ok svc)
            × (rest ≡ [])))
  unfolding reconcile_service
  reconcile_service-sends svc rest = (ground arith, ground arith)

  -- Where the port is not 0 and a service was found, nothing is sent exactly if its one port and protocol are
  -- the agent's and the status names it.
  pub reconcile_service-rest :
      (svc : Service)
      → eqb_ℤ agent.spec.service_port (pos 0) ≡ false
      → found ≡ ok svc
      → (sent ≡ []) ↔ (
          (ports_drifted svc.ports agent.spec.service_port
              (or_default agent.spec.service_protocol "TCP")
            ≡ false)
          × (agent.status.service_name ≡ service_name_for agent.meta.name))
  unfolding reconcile_service
  reconcile_service-rest svc p f =
      ground (arith, eq_iff agent.status.service_name (service_name_for agent.meta.name))

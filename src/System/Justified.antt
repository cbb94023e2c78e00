-- ===== src/System/Justified.antt =====
-- What the program may send, by what it did before.
use k8sagent_orchestrator.Prelude.{String, ◌≡◌, ◌⊎◌, false, true, some}
use k8sagent_orchestrator.Api.{Agent}
use k8sagent_orchestrator.Io.{ok}
use k8sagent_orchestrator.Kube.{Pod}
use k8sagent_orchestrator.Kube.Trace.{Call, create_pod, create_agent, patch_status}
use k8sagent_orchestrator.Controller.Pods.{build_pod}
use k8sagent_orchestrator.Controller.Deletion.{Resurrection, resurrection_of, resurrected_agent}
use k8sagent_orchestrator.Controller.Reconcile.{is_deleted}
use k8sagent_orchestrator.Controller.Reconcile.Safety.{MayCreate}
use k8sagent_orchestrator.Rest.{valid, ns_name}
use k8sagent_orchestrator.Rest.Requests.{CreateAgentRequest, new_agent}
use k8sagent_orchestrator.Rest.Routes.{Handler, Match, register_routes, request_of}
use k8sagent_orchestrator.Rest.Server.{Server, HttpRequest, Router}

-- A step that the program took: a request that it served, an object that it reconciled in some world, a
-- resurrection that ran from some world.
pub data Deed (W : Type 0) : Type 0 where
  served : HttpRequest → Deed W
  reconciled_at : (namespace name : String) → W → Deed W
  resurrected_at : Resurrection → W → Deed W
  other_deed : Deed W

-- `Did` says which steps the program took.
module _ {W C K : Type 0} (find : Router) (s : Server W C K) (Did : Deed W → Type 0) where
  -- A reconciliation that the program ran read an agent that was unpaused, not being deleted and registered,
  -- and listed no live pod of it; the pod was built for this agent.
  pub record IsBuilt (pod : Pod) : Type 0 where
    pub ns : String
    pub name : String
    pub w : W
    pub did : Did (reconciled_at ns name w)
    pub agent : Agent
    pub got : (s.env.get_agent ns name w).0 ≡ ok agent
    pub may : MayCreate s.env ns name w agent
    pub own : s.env.own_pod agent (build_pod agent) ≡ ok pod

  -- The program served a request that the router gave to the handler of creations, and the agent is the one
  -- that its body asks for, in the namespace of its path.
  pub record IsRequested (agent : Agent) : Type 0 where
    pub r : HttpRequest
    pub did : Did (served r)
    pub m : Match
    pub found : find register_routes r.method r.path ≡ some m
    pub creates : m.0 ≡ Handler.create_agent
    pub req : CreateAgentRequest
    pub body : r.create_body ≡ valid req
    pub same : agent ≡ new_agent (ns_name (request_of s.namespace m.1.1)).0 req

  -- A reconciliation that the program ran read an agent that was being deleted with self-healing on, and the
  -- resurrection is its own.
  pub record IsOfDeleted (r : Resurrection) : Type 0 where
    pub ns : String
    pub name : String
    pub w : W
    pub did : Did (reconciled_at ns name w)
    pub agent : Agent
    pub got : (s.env.get_agent ns name w).0 ≡ ok agent
    pub deleted : is_deleted agent.meta.deletion_timestamp ≡ true
    pub heals : agent.spec.self_healing_disabled ≡ false
    pub own : resurrection_of agent ≡ some r

  -- Such a resurrection ran, and the agent is the one that it is to create.
  pub record IsRestored (agent : Agent) : Type 0 where
    pub r : Resurrection
    pub w : W
    pub did : Did (resurrected_at r w)
    pub of_deleted : IsOfDeleted r
    pub same : agent ≡ resurrected_agent s.env r (s.env.now w).0

  abbrev pub IsMeant : Agent → Type 0
  IsMeant agent = IsRequested agent ⊎ IsRestored agent

  abbrev pub Justified : Call → Type 0
  Justified (create_pod pod) = IsBuilt pod
  Justified (create_agent agent) = IsMeant agent
  Justified (patch_status base new) = base.status.conditions ≡ new.status.conditions
  Justified _ = Unit

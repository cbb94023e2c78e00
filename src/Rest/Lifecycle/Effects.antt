-- ===== src/Rest/Lifecycle/Effects.antt =====
-- What the lifecycle endpoints change, and what that means for the pod of the agent.
use k8sagent_orchestrator.Prelude.{String, ◌≡◌, ◌≢◌, true, false, List, [], ◌∷◌, arith}
use k8sagent_orchestrator.Api.{Agent, AgentSpec}
use k8sagent_orchestrator.Io.{Io, ok}
use k8sagent_orchestrator.Kube.{Env}
use k8sagent_orchestrator.Kube.Trace.{Call, traced, patches, recorded, deleted_pods}
use k8sagent_orchestrator.Rest.{Request, Response, ns_name}
use k8sagent_orchestrator.Rest.Lifecycle.{
  handle_restart_agent, handle_stop_agent, handle_start_agent, handle_disable_self_healing,
  handle_enable_self_healing,
}

pub data Action : Type 0 where
  restart stop start disable_healing enable_healing : Action

abbrev pub run : {W : Type 0} → Env W → Action → Request → Io W Response
run env restart = handle_restart_agent env
run env stop = handle_stop_agent env
run env start = handle_start_agent env
run env disable_healing = handle_disable_self_healing env
run env enable_healing = handle_enable_self_healing env

-- What an action asks for in the spec.
abbrev pub intended : Action → AgentSpec → AgentSpec
intended restart spec = spec
intended stop spec = record spec { paused = true }
intended start spec = record spec { paused = false }
intended disable_healing spec = record spec { self_healing_disabled = true }
intended enable_healing spec = record spec { self_healing_disabled = false }

abbrev pub reason_of : Action → String
reason_of restart = "Restarted"
reason_of stop = "Stopped"
reason_of start = "Started"
reason_of disable_healing = "SelfHealingDisabled"
reason_of enable_healing = "SelfHealingEnabled"

-- One change is sent, from the object that was read, to one with this spec, and with its status, labels and
-- finalizers.
abbrev pub Sends : Agent → AgentSpec → List (Agent × Agent) → Type 0
Sends agent spec [] = ⊥
Sends agent spec ((base, new) ∷ rest) =
    (base ≡ agent)
    × (new.spec ≡ spec)
    × (new.status ≡ agent.status)
    × (new.meta.labels ≡ agent.meta.labels)
    × (new.meta.finalizers ≡ agent.meta.finalizers)
    × (rest ≡ [])

module _ {W : Type 0} (env : Env W) (x : Action) (c : Request) (w : W) where
  abbrev pub answer : Response
  answer = (run (traced env) x c (w, [])).0

  abbrev pub sent : List Call
  sent = (run (traced env) x c (w, [])).1.1

module _ {W : Type 0} (env : Env W) (c : Request) (w : W) (agent : Agent) where
  -- Of an agent that was read, a lifecycle endpoint sends one change, to the spec that it stands for, and
  -- deletes no pod; if the answer is 200 it records one event in the cluster, of type Normal with the
  -- reason of the endpoint, and if not, it records no event of any type.
  pub run-Sends :
      (x : Action)
      → (env.get_agent (ns_name c).0 (ns_name c).1 w).0 ≡ ok agent
      → Sends agent (intended x agent.spec) (patches (sent env x c w))
        × ((answer env x c w).code ≡ 200 → recorded (sent env x c w) ≡ ("Normal", reason_of x) ∷ [])
        × ((answer env x c w).code ≢ 200 → recorded (sent env x c w) ≡ [])
        × (deleted_pods (sent env x c w) ≡ [])
  unfolding handle_restart_agent handle_stop_agent handle_start_agent handle_disable_self_healing
      handle_enable_self_healing
  run-Sends restart got = ground arith
  run-Sends stop got = ground arith
  run-Sends start got = ground arith
  run-Sends disable_healing got = ground arith
  run-Sends enable_healing got = ground arith

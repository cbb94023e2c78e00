-- ===== src/Controller/Reconcile/Rounds.antt =====
-- One reconciliation of an agent that is to run, its calls being carried out.
use k8sagent_orchestrator.Prelude.{
  ℕ, zero, suc, ◌+◌, String, ◌≡◌, refl, Bool, true, false, Option, none, some, List, [], ◌∷◌, arith,
  if◌then◌else◌,
}
use k8sagent_orchestrator.Prelude.Map
use k8sagent_orchestrator.Prelude.Map.{HasDistinctKeys}
use k8sagent_orchestrator.Redis.{is_one_of}
use k8sagent_orchestrator.Api.{Agent}
use k8sagent_orchestrator.Io.{ok}
use k8sagent_orchestrator.Kube.{Env, Pod}
use k8sagent_orchestrator.Kube.Trace.{
  Call, update_agent, created_pods, deleted_pods, updated_agents, patches,
}
use k8sagent_orchestrator.Controller.Pods.{
  first_live, spec_changed, agent_finalizer, generation_annotation, pod_owner_label,
  managed_by_label, managed_by_value,
}
use k8sagent_orchestrator.Controller.Pods.Drift.{Agrees}
use k8sagent_orchestrator.Controller.Reconcile.{reconcile, is_deleted, with_finalizer}
use k8sagent_orchestrator.Controller.Reconcile.Carried.{Cluster, carried}
use k8sagent_orchestrator.Controller.Reconcile.Safety.{FirstLiveIs, listing, sent}

abbrev pub is_registered : Agent → Bool
is_registered agent = is_one_of agent_finalizer agent.meta.finalizers

-- The agent is to run, and its pods' annotations leave the generation alone, and their labels the owner and
-- the manager.
pub record IsActive (agent : Agent) : Type 0 where
  pub unpaused : agent.spec.paused ≡ false
  pub not_deleted : is_deleted agent.meta.deletion_timestamp ≡ false
  pub distinct : HasDistinctKeys agent.spec.pod_annotations
  pub unset : Map.lookup generation_annotation agent.spec.pod_annotations ≡ none
  pub distinct_labels : HasDistinctKeys agent.spec.pod_labels
  pub owner : Agrees pod_owner_label agent.meta.name agent.spec.pod_labels
  pub manager : Agrees managed_by_label managed_by_value agent.spec.pod_labels

-- The pods that are not being deleted.
abbrev pub live_pods : List Pod → List Pod
live_pods [] = []
live_pods (p ∷ pods) =
    let rest = live_pods pods in elim p.deletion_timestamp [ none ↦ p ∷ rest | some t ↦ rest ]

abbrev pub head : List Pod → Option Pod
head [] = none
head (p ∷ pods) = some p

pub first_live-head : (pods : List Pod) → first_live pods ≡ head (live_pods pods)
unfolding first_live
first_live-head [] = refl
first_live-head (p ∷ pods) = ground (arith, first_live-head pods)

module _ {W : Type 0} (env : Env W) (ns name : String) (w : W) (agent : Agent)
    (got : (env.get_agent ns name w).0 ≡ ok agent) (active : IsActive agent) where
  pub calls_unregistered :
      is_registered agent ≡ false → sent env ns name w ≡ update_agent (with_finalizer agent) ∷ []
  unfolding reconcile
  calls_unregistered r = ground arith

  module _ (registered : is_registered agent ≡ true) where
    pub no_update : (updated_agents (sent env ns name w) ≡ []) × (patches (sent env ns name w) ≡ [])
    unfolding reconcile
    no_update = ground arith

    pub calls_current :
        (p : Pod)
        → FirstLiveIs (some p) (listing env ns name w agent)
        → spec_changed agent p ≡ false
        → (created_pods (sent env ns name w) ≡ []) × (deleted_pods (sent env ns name w) ≡ [])
    unfolding reconcile
    calls_current p listed same = ground arith

    pub calls_stale :
        (p : Pod)
        → FirstLiveIs (some p) (listing env ns name w agent)
        → spec_changed agent p ≡ true
        → (created_pods (sent env ns name w) ≡ []) × (deleted_pods (sent env ns name w) ≡ p ∷ [])
    unfolding reconcile
    calls_stale p listed same = ground arith

-- What remains to be done for an agent: its registration, and its pods up to the first that is up to date,
-- or all and the creation of one.
abbrev pub stale : Agent → List Pod → ℕ
stale agent [] = 1
stale agent (p ∷ pods) = let rest = stale agent pods in if spec_changed agent p then suc rest else 0

unfoldable pub togo : Cluster → ℕ
togo c = (if is_registered c.agent then 0 else 1) + stale c.agent c.live

module _ {W : Type 0} (env : Env W) (effect : Call → Cluster → Cluster) (ns name : String) where
  -- The controller reads the agent and its pods as they are, and its calls are carried out.
  pub data Round (x : Cluster) : Cluster → Type 0 where
    round :
        (w : W) (pods : List Pod)
        → (env.get_agent ns name w).0 ≡ ok x.agent
        → listing env ns name w x.agent ≡ ok pods
        → live_pods pods ≡ x.live
        → Round x (carried effect (sent env ns name w) x)

  -- So many rounds, one after the other.
  pub data Rounds (x : Cluster) : ℕ → Cluster → Type 0 where
    start : Rounds x zero x
    later : {n : ℕ} {y z : Cluster} → Rounds x n y → Round y z → Rounds x (suc n) z

-- The owner reference is set, and the rest of the metadata stays.
abbrev pub Owns : {W : Type 0} → Env W → Type 0
Owns env =
    (agent : Agent) (p : Pod)
    → (q : Pod) × (env.own_pod agent p ≡ ok q)
      × (q.annotations ≡ p.annotations)
      × (q.labels ≡ p.labels)
      × (q.namespace ≡ p.namespace)

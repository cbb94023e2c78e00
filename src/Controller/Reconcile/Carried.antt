-- ===== src/Controller/Reconcile/Carried.antt =====
-- What becomes of an agent and its live pods when the calls of the controller are carried out. How the server
-- carries out a call is a parameter, with what the Kubernetes API documents of it.
use k8sagent_orchestrator.Prelude.{◌≡◌, refl, some, List, [], ◌∷◌, ◌++◌, arith}
use k8sagent_orchestrator.Prelude.Map
use k8sagent_orchestrator.Api.{Agent, ObjectMeta}
use k8sagent_orchestrator.Kube.{Pod}
use k8sagent_orchestrator.Kube.Trace.{
  Call, create_pod, delete_pod, update_agent, patch_agent, created_pods, deleted_pods,
  updated_agents, patches,
}
use k8sagent_orchestrator.Controller.Pods.{pod_owner_label, managed_by_label, managed_by_value}

-- An agent, and the pods that a listing with its selector shows and that are not being deleted.
pub record Cluster : Type 0 where
  pub agent : Agent
  pub live : List Pod

-- The pod is in the namespace of an agent with this metadata and has the labels of its selector.
abbrev pub Shows : ObjectMeta → Pod → Type 0
Shows meta p =
    (p.namespace ≡ meta.namespace)
    × (Map.lookup pod_owner_label p.labels ≡ some meta.name)
    × (Map.lookup managed_by_label p.labels ≡ some managed_by_value)

-- A created pod comes last and keeps its annotations, if the agent's listing shows it, and else is not among
-- them; a deleted pod, if it was the first live one, is gone from them.
abbrev pub Live : ObjectMeta → Call → List Pod → List Pod → Type 0
Live meta (create_pod p) before after =
    (Shows meta p → (q : Pod) × (q.annotations ≡ p.annotations) × (after ≡ before ++ q ∷ []))
    × (¬ Shows meta p → after ≡ before)
Live meta (delete_pod p) [] after = after ≡ []
Live meta (delete_pod p) (q ∷ before) after = q ≡ p → after ≡ before
Live meta _ before after = after ≡ before

-- An update that leaves the spec and the generation stores the metadata that were sent, and no call on other
-- objects or on the status changes metadata or spec.
abbrev pub Stored : Call → Agent → Agent → Type 0
Stored (update_agent a) before after =
    a.spec ≡ before.spec
    → a.meta.generation ≡ before.meta.generation
    → (after.meta ≡ a.meta) × (after.spec ≡ a.spec)
Stored (patch_agent base new) before after = Unit
Stored _ before after = (after.meta ≡ before.meta) × (after.spec ≡ before.spec)

pub record CarriesOut (effect : Call → Cluster → Cluster) : Type 0 where
  pub pods : (call : Call) (c : Cluster) → Live c.agent.meta call c.live (effect call c).live
  pub object : (call : Call) (c : Cluster) → Stored call c.agent (effect call c).agent

-- The first of the pods has the annotations of this one.
abbrev pub StartsLike : Pod → List Pod → Type 0
StartsLike p [] = ⊥
StartsLike p (q ∷ pods) = q.annotations ≡ p.annotations

module _ (effect : Call → Cluster → Cluster) where
  -- After the calls of a list, whose newest call stands first.
  abbrev pub carried : List Call → Cluster → Cluster
  carried [] c = c
  carried (call ∷ calls) c = effect call (carried calls c)

  module _ (server : CarriesOut effect) (c : Cluster) where
    pub live-kept :
        (calls : List Call)
        → created_pods calls ≡ []
        → deleted_pods calls ≡ []
        → (carried calls c).live ≡ c.live
    live-kept [] no_creation no_deletion = refl
    live-kept (call ∷ calls) no_creation no_deletion =
        let pods = server.pods call (carried calls c) in ground (arith, pods, live-kept calls)

    pub agent-kept :
        (calls : List Call)
        → updated_agents calls ≡ []
        → patches calls ≡ []
        → ((carried calls c).agent.meta ≡ c.agent.meta)
          × ((carried calls c).agent.spec ≡ c.agent.spec)
    agent-kept [] no_update no_patch = (refl, refl)
    agent-kept (call ∷ calls) no_update no_patch =
        let object = server.object call (carried calls c) in
        ground (arith, object, agent-kept calls)

    pub live-created :
        (calls : List Call) (p : Pod)
        → created_pods calls ≡ p ∷ []
        → deleted_pods calls ≡ []
        → updated_agents calls ≡ []
        → patches calls ≡ []
        → Shows c.agent.meta p
        → c.live ≡ []
        → StartsLike p (carried calls c).live
    live-created [] p one no_deletion no_update no_patch shown none_live = cc one
    live-created (call ∷ calls) p one no_deletion no_update no_patch shown none_live =
        let pods = server.pods call (carried calls c) in
        let kept = live-kept calls in
        let same = agent-kept calls in ground (arith, pods, live-created calls p)

    pub live-deleted :
        (calls : List Call) (p : Pod) (rest : List Pod)
        → created_pods calls ≡ []
        → deleted_pods calls ≡ p ∷ []
        → c.live ≡ p ∷ rest
        → (carried calls c).live ≡ rest
    live-deleted [] p rest no_creation one first = cc
    live-deleted (call ∷ calls) p rest no_creation one first =
        let pods = server.pods call (carried calls c) in
        let kept = live-kept calls in ground (arith, pods, live-deleted calls p rest)

-- ===== src/Tests/Converging.antt =====
-- An agent without a pod, reconciled twice.
use k8sagent_orchestrator.Prelude.{
  ◌≡◌, refl, ◌↔◌, inl, inr, String, Bool, true, false, Bool-cases, Option, none, some, List, [],
  ◌∷◌, ◌++◌, ◌==◌, ◌&&◌, if◌then◌else◌, eq_iff, arith,
}
use k8sagent_orchestrator.Prelude.Map
use k8sagent_orchestrator.Kube.{Pod}
use k8sagent_orchestrator.Kube.Trace.{Call, create_pod, delete_pod, update_agent}
use k8sagent_orchestrator.Controller.Pods.{
  spec_changed, pod_owner_label, managed_by_label, managed_by_value,
}
use k8sagent_orchestrator.Api.{ObjectMeta}
use k8sagent_orchestrator.Controller.Reconcile.{reconcile}
use k8sagent_orchestrator.Controller.Reconcile.Carried.{
  Cluster, CarriesOut, Live, Shows, Stored, carried,
}
use k8sagent_orchestrator.Controller.Reconcile.Converging.{rounds-settle}
use k8sagent_orchestrator.Controller.Reconcile.Rounds.{
  IsActive, round, Rounds, start, later, is_registered, Owns,
}
use k8sagent_orchestrator.Controller.Reconcile.Safety.{sent}
use k8sagent_orchestrator.Tests.World.{World, cluster, agent, with_agents}

abbrev tail : List Pod → List Pod
tail [] = []
tail (p ∷ pods) = pods

abbrev is_text : Option String → String → Bool
is_text none wanted = false
is_text (some text) wanted = text == wanted

abbrev shows : ObjectMeta → Pod → Bool
shows meta p =
    p.namespace == meta.namespace
    && (is_text (Map.lookup pod_owner_label p.labels) meta.name
        && is_text (Map.lookup managed_by_label p.labels) managed_by_value)

is_text_iff : (x : Option String) (wanted : String) → is_text x wanted ≡ true ↔ x ≡ some wanted
is_text_iff none wanted = ground arith
is_text_iff (some text) wanted = ground (arith, eq_iff text wanted)

shows_iff : (meta : ObjectMeta) (p : Pod) → shows meta p ≡ true ↔ Shows meta p
shows_iff meta p = ground (
  arith,
  eq_iff p.namespace meta.namespace,
  is_text_iff (Map.lookup pod_owner_label p.labels) meta.name,
  is_text_iff (Map.lookup managed_by_label p.labels) managed_by_value,
)

-- A server: a created pod is listed if the labels of the agent's selector are on it.
abbrev effect : Call → Cluster → Cluster
effect (create_pod p) c = if shows c.agent.meta p then record c { live = c.live ++ p ∷ [] } else c
effect (delete_pod p) c = record c { live = tail c.live }
effect (update_agent a) c = record c { agent = a }
effect _ c = c

tail-Live :
    (meta : ObjectMeta) (p : Pod) (before : List Pod)
    → Live meta (delete_pod p) before (tail before)
tail-Live meta p [] = refl
tail-Live meta p (q ∷ before) = λ e. refl

created-Live :
    (p : Pod) (c : Cluster) → Live c.agent.meta (create_pod p) c.live (effect (create_pod p) c).live
created-Live p c = elim (Bool-cases (shows c.agent.meta p)) [
  | inl e ↦ rw e (λ h. (p, refl, refl), λ h. absurd (h ((shows_iff c.agent.meta p).0 e)))
  | inr e ↦ rw e (λ h. cc ((shows_iff c.agent.meta p).1 h, e), λ h. refl)
]

effect-Live : (call : Call) (c : Cluster) → Live c.agent.meta call c.live (effect call c).live
effect-Live (create_pod p) c = created-Live p c
effect-Live (delete_pod p) c = tail-Live c.agent.meta p c.live
effect-Live (Call.create_agent a) c = refl
effect-Live (Call.update_agent a) c = refl
effect-Live (Call.delete_agent a) c = refl
effect-Live (Call.patch_agent a b) c = refl
effect-Live (Call.patch_status a b) c = refl
effect-Live (Call.create_service a) c = refl
effect-Live (Call.delete_service a) c = refl
effect-Live (Call.patch_service a b) c = refl
effect-Live (Call.event a b d e) c = refl
effect-Live (Call.append_history a b d e f) c = refl
effect-Live (Call.clear_history a b) c = refl

effect-Stored : (call : Call) (c : Cluster) → Stored call c.agent (effect call c).agent
effect-Stored call c = ground arith

server : CarriesOut effect
server = record { pods = effect-Live; object = effect-Stored }

owns : Owns cluster
owns agent p = (record p { owner = agent.meta.uid }, refl, refl, refl, refl)

abbrev initial : Cluster
initial = record { agent = agent; live = [] }

abbrev once : Cluster
once = carried effect (sent cluster "default" "demo" (with_agents (agent ∷ []) [])) initial

abbrev world : World
world = with_agents (once.agent ∷ []) once.live

abbrev twice : Cluster
twice = carried effect (sent cluster "default" "demo" world) once

rounds : Rounds cluster effect "default" "demo" initial 2 twice
unfolding reconcile Map.lookup Map.overlay
rounds =
    later (later start (round (with_agents (agent ∷ []) []) [] refl refl refl))
      (round world once.live refl refl refl)

active : IsActive agent
unfolding Map.lookup
active = record {
  unpaused = refl;
  not_deleted = refl;
  distinct = tt;
  unset = refl;
  distinct_labels = tt;
  owner = inl refl;
  manager = inl refl;
}

rounds-settle_example :
    (is_registered twice.agent ≡ true)
    × ((p : Pod) × (rest : List Pod) × (twice.live ≡ p ∷ rest)
        × (spec_changed twice.agent p ≡ false))
rounds-settle_example =
    rounds-settle cluster effect "default" "demo" server owns rounds active (omega arith)

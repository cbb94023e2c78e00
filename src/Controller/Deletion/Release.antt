-- ===== src/Controller/Deletion/Release.antt =====
-- When a deleted agent is released, and when its resurrection is scheduled.
use k8sagent_orchestrator.Prelude.{
  String, ◌≡◌, refl, ◌≢◌, ◌↔◌, true, false, not, none, some, List, [], ◌∷◌, arith, ◌==◌, keep,
  Bool-cases, inl, inr,
}
use k8sagent_orchestrator.Redis.{is_one_of}
use k8sagent_orchestrator.Api.{Agent}
use k8sagent_orchestrator.Io.{Result, ok, err, is_not_found}
use k8sagent_orchestrator.Kube.{Env, Pod}
use k8sagent_orchestrator.Kube.Trace.{Call, traced, updated_agents, deleted_pods}
use k8sagent_orchestrator.Controller.Pods.{first_live, agent_finalizer, pod_selector}
use k8sagent_orchestrator.Controller.Deletion.{
  Outcome, Resurrection, resurrection_of, without_finalizer, handle_deletion,
}

without-is_one_of :
    (f : String) (fs : List String) → is_one_of f (keep (λ g. not (g == f)) fs) ≡ false
without-is_one_of f [] = refl
without-is_one_of f (g ∷ fs) = elim (Bool-cases (g == f)) [
  | inl e ↦ rw e (without-is_one_of f fs)
  | inr e ↦ rw (e, e) (without-is_one_of f fs)
]

-- The reply to the delete of a pod that lets the deletion of the agent go on: it was accepted, which a pod
-- that terminates later is too, or it came too late.
abbrev pub LetsGo : Result (Unit {0}) → Type 0
LetsGo (ok _) = Unit
LetsGo (err e) = is_not_found e ≡ true

abbrev pub IsAccepted : Result Agent → Type 0
IsAccepted (ok _) = Unit
IsAccepted (err e) = ⊥

module _ {W : Type 0} (env : Env W) (agent : Agent) (w : W) where
  abbrev pub outcome : Outcome
  outcome = (handle_deletion (traced env) agent (w, [])).0

  abbrev pub sent : List Call
  sent = (handle_deletion (traced env) agent (w, [])).1.1

  abbrev pub listed : Result (List Pod) × W
  listed = env.list_pods agent.meta.namespace (pod_selector agent) w

  -- The listing succeeded and shows no live pod, or the delete of the first live one was accepted or came
  -- too late.
  abbrev pub PodLetsGo : Type 0
  PodLetsGo = elim listed.0 [
    | err e ↦ ⊥
    | ok pods ↦ elim (first_live pods) [
      | none ↦ Unit
      | some pod ↦ LetsGo (env.delete_pod pod listed.1).0
    ]
  ]

  -- The pods that are to be deleted: the first live one of the listing.
  abbrev pub to_delete : List Pod
  to_delete = elim listed.0 [
    | err e ↦ []
    | ok pods ↦ elim (first_live pods) [ none ↦ [] | some pod ↦ pod ∷ [] ]
  ]

  -- The world in which the finalizer is to be taken away.
  abbrev pub before_release : W
  before_release = elim listed.0 [
    | err e ↦ listed.1
    | ok pods ↦ elim (first_live pods) [
      | none ↦ listed.1
      | some pod ↦ (env.delete_pod pod listed.1).1
    ]
  ]

  -- Of a deleted agent, the delete of the first live pod of the listing is sent, and of no other. The update
  -- without the finalizer is then sent, once, exactly when the listing succeeded and shows no live pod, or that
  -- delete was accepted or answered NotFound; whether the pod has ended, and whether a second one lives, is not
  -- looked at. Otherwise no update is sent and an error is returned, so that the deletion is tried again.
  pub handle_deletion-PodLetsGo :
      (deleted_pods sent ≡ to_delete)
      × (PodLetsGo → updated_agents sent ≡ without_finalizer agent ∷ [])
      × (¬ PodLetsGo → (updated_agents sent ≡ []) × (outcome.error ≢ none))
  unfolding handle_deletion
  handle_deletion-PodLetsGo = (ground arith, λ h. ground arith, λ h. ground arith)

  -- What was sent no longer carries the finalizer.
  pub without_finalizer-released :
      is_one_of agent_finalizer (without_finalizer agent).meta.finalizers ≡ false
  without_finalizer-released = without-is_one_of agent_finalizer agent.meta.finalizers

  -- What is known once a resurrection is scheduled.
  pub record Released (r : Resurrection) : Type 0 where
    pub heals : agent.spec.self_healing_disabled ≡ false
    pub belongs : resurrection_of agent ≡ some r
    pub let_go : PodLetsGo
    pub accepted : IsAccepted (env.update_agent (without_finalizer agent) before_release).0

  resurrection_of-heals :
      (r : Resurrection) → resurrection_of agent ≡ some r → agent.spec.self_healing_disabled ≡ false
  unfolding resurrection_of
  resurrection_of-heals r e = ground arith

  spawned_only :
      (r : Resurrection)
      → outcome.spawned ≡ some r
      → (resurrection_of agent ≡ some r)
        × PodLetsGo
        × IsAccepted (env.update_agent (without_finalizer agent) before_release).0
  unfolding handle_deletion
  spawned_only r h = ground arith

  spawned_then :
      (r : Resurrection)
      → resurrection_of agent ≡ some r
      → PodLetsGo
      → IsAccepted (env.update_agent (without_finalizer agent) before_release).0
      → (outcome.spawned ≡ some r) × (outcome.error ≡ none)
  unfolding handle_deletion
  spawned_then r belongs let_go accepted = ground arith

  pub handle_deletion-spawned :
      (r : Resurrection)
      → (outcome.spawned ≡ some r ↔ Released r) × (outcome.spawned ≡ some r → outcome.error ≡ none)
  handle_deletion-spawned r =
      let released : outcome.spawned ≡ some r → Released r = λ h.
        let (belongs, let_go, accepted) = spawned_only r h in
        record {
          heals = resurrection_of-heals r belongs;
          belongs = belongs;
          let_go = let_go;
          accepted = accepted;
        } in
      (
        (released, λ x. (spawned_then r x.belongs x.let_go x.accepted).0),
        λ h. let x = released h in (spawned_then r x.belongs x.let_go x.accepted).1,
      )

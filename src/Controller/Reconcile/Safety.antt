-- ===== src/Controller/Reconcile/Safety.antt =====
-- Which pods a reconciliation creates and deletes, and what it never sends, whatever the server answers.
use k8sagent_orchestrator.Prelude.{
  String, ◌≡◌, refl, ◌≢◌, ◌↔◌, ◌⊎◌, true, false, Option, none, some, List, [], ◌∷◌, arith, All,
}
use k8sagent_orchestrator.Redis.{is_one_of}
use k8sagent_orchestrator.Api.{Agent}
use k8sagent_orchestrator.Io.{Result, ok, err, ApiError}
use k8sagent_orchestrator.Kube.{Env, Pod}
use k8sagent_orchestrator.Kube.Trace.{Call, traced, created_pods, deleted_pods, KeepsConditions}
use k8sagent_orchestrator.Controller.Pods.{
  first_live, agent_finalizer, pod_selector, build_pod, spec_changed,
}
use k8sagent_orchestrator.Controller.Reconcile.{reconcile, is_deleted}

-- The listing succeeded and its first pod that is not being deleted is this one, or there is none.
abbrev pub FirstLiveIs : Option Pod → Result (List Pod) → Type 0
FirstLiveIs found (ok pods) = first_live pods ≡ found
FirstLiveIs found (err e) = ⊥

module _ {W : Type 0} (env : Env W) (ns name : String) (w : W) where
  -- The writes of one reconciliation, the newest first.
  abbrev pub sent : List Call
  sent = (reconcile (traced env) ns name (w, [])).1.1

  -- The pods that the reconciliation of this agent sees.
  abbrev pub listing : Agent → Result (List Pod)
  listing agent =
      (env.list_pods agent.meta.namespace (pod_selector agent) (env.get_agent ns name w).1).0

  -- The agent is live, unpaused and registered, and the listing shows no live pod of it.
  pub record MayCreate (agent : Agent) : Type 0 where
    pub unpaused : agent.spec.paused ≡ false
    pub not_deleted : is_deleted agent.meta.deletion_timestamp ≡ false
    pub registered : is_one_of agent_finalizer agent.meta.finalizers ≡ true
    pub missing : FirstLiveIs none (listing agent)

  pub creates_only :
      (agent : Agent)
      → (env.get_agent ns name w).0 ≡ ok agent
      → created_pods sent ≢ []
      → MayCreate agent
  unfolding reconcile
  creates_only agent got some_pod = ground arith

  pub creates_then :
      (agent : Agent) (pod : Pod)
      → (env.get_agent ns name w).0 ≡ ok agent
      → MayCreate agent
      → env.own_pod agent (build_pod agent) ≡ ok pod
      → (created_pods sent ≡ pod ∷ []) × (deleted_pods sent ≡ [])
  unfolding reconcile
  creates_then agent pod got may own = ground arith

  unowned :
      (agent : Agent) (e : ApiError)
      → (env.get_agent ns name w).0 ≡ ok agent
      → MayCreate agent
      → env.own_pod agent (build_pod agent) ≡ err e
      → created_pods sent ≡ []
  unfolding reconcile
  unowned agent e got may own = ground arith

  creates_owned :
      (agent : Agent) (pod : Pod) (pods : List Pod) (owned : Result Pod)
      → (env.get_agent ns name w).0 ≡ ok agent
      → created_pods sent ≡ pod ∷ pods
      → MayCreate agent
      → env.own_pod agent (build_pod agent) ≡ owned
      → (owned ≡ ok pod) × (pods ≡ []) × (deleted_pods sent ≡ [])
  creates_owned agent pod pods (ok p) got e may own =
      let (one, none_deleted) = creates_then agent p got may own in
      (ground arith, ground arith, none_deleted)
  creates_owned agent pod pods (err x) got e may own = cc (unowned agent x got may own)

  asked_for :
      (agent : Agent) (pod : Pod) (pods : List Pod)
      → (env.get_agent ns name w).0 ≡ ok agent
      → created_pods sent ≡ pod ∷ pods
      → MayCreate agent
        × ((env.own_pod agent (build_pod agent) ≡ ok pod) × (pods ≡ []) × (deleted_pods sent ≡ []))
  asked_for agent pod pods got e =
      let may = creates_only agent got (λ none_lem. cc (e, none_lem)) in
      (may, creates_owned agent pod pods _ got e may refl)

  -- A reconciliation asks for a pod exactly when the agent is not paused, is not being deleted, carries
  -- the finalizer and has no live pod in the listing, and the pod that is built from it could be owned
  -- by it; it asks for that one alone, and deletes none if it asks for one.
  pub reconcile-MayCreate :
      (agent : Agent) (pod : Pod) (pods : List Pod)
      → (env.get_agent ns name w).0 ≡ ok agent
      → (created_pods sent ≡ pod ∷ pods
          ↔ (MayCreate agent × (env.own_pod agent (build_pod agent) ≡ ok pod) × (pods ≡ [])))
        × (created_pods sent ≡ pod ∷ pods → deleted_pods sent ≡ [])
  reconcile-MayCreate agent pod pods got = (
    (
      λ e. let (may, (own, rest, _)) = asked_for agent pod pods got e in (may, own, rest),
      λ h. rw h.2 (creates_then agent pod got h.0 h.1).0,
    ),
    λ e. let (_, (_, _, none_deleted)) = asked_for agent pod pods got e in none_deleted,
  )

  -- `pod` is the first live pod of the listing, and the agent is being deleted, or it is registered and
  -- is paused or has changed since the pod was built.
  pub record MayDelete (agent : Agent) (pod : Pod) : Type 0 where
    pub listed : FirstLiveIs (some pod) (listing agent)
    pub cause :
        (is_deleted agent.meta.deletion_timestamp ≡ true)
        ⊎ ((is_one_of agent_finalizer agent.meta.finalizers ≡ true)
            × ((agent.spec.paused ≡ true) ⊎ (spec_changed agent pod ≡ true)))

  module _ (agent : Agent) (pod : Pod) (got : (env.get_agent ns name w).0 ≡ ok agent) where
    deletes_listed :
        (pods : List Pod)
        → deleted_pods sent ≡ pod ∷ pods
        → FirstLiveIs (some pod) (listing agent) × (pods ≡ [])
    unfolding reconcile
    deletes_listed pods h = ground arith

    deletes_cause :
        deleted_pods sent ≢ []
        → FirstLiveIs (some pod) (listing agent)
        → (is_deleted agent.meta.deletion_timestamp ≡ true)
          ⊎ ((is_one_of agent_finalizer agent.meta.finalizers ≡ true)
              × ((agent.spec.paused ≡ true) ⊎ (spec_changed agent pod ≡ true)))
    unfolding reconcile
    deletes_cause h l = ground arith

    deletes_then : MayDelete agent pod → deleted_pods sent ≡ pod ∷ []
    unfolding reconcile
    deletes_then may = ground arith

  -- A reconciliation deletes a pod exactly when it is the first live pod of the agent's listing and the
  -- agent is being deleted, or is registered and paused or changed; it deletes no second one.
  pub reconcile-MayDelete :
      (agent : Agent) (pod : Pod) (pods : List Pod)
      → (env.get_agent ns name w).0 ≡ ok agent
      → (deleted_pods sent ≡ pod ∷ pods) ↔ (MayDelete agent pod × (pods ≡ []))
  reconcile-MayDelete agent pod pods got = (
    λ h.
        let (listed, one) = deletes_listed agent pod got pods h in
        (record { listed = listed; cause = deletes_cause agent pod got (λ e. cc (h)) listed }, one),
    λ h. rw h.1 (deletes_then agent pod got h.0),
  )

  -- No call of a reconciliation carries a change of the status conditions to the server: the condition
  -- that is set when a pod cannot be created is part of both sides of the difference that is sent.
  pub reconcile-KeepsConditions : All KeepsConditions sent
  unfolding reconcile
  reconcile-KeepsConditions = ground arith

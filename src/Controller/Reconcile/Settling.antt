-- ===== src/Controller/Reconcile/Settling.antt =====
-- What a reconciliation makes of a pod that is up to date.
use k8sagent_orchestrator.Prelude.{
  String, ◌≡◌, refl, sym, Bool, true, false, none, some, List, [], ◌∷◌, arith, inl, inr,
}
use k8sagent_orchestrator.Prelude.Map
use k8sagent_orchestrator.Prelude.Map.{HasDistinctKeys}
use k8sagent_orchestrator.Redis.{is_one_of}
use k8sagent_orchestrator.Api.{Agent}
use k8sagent_orchestrator.Io.{Result, ok, err}
use k8sagent_orchestrator.Kube.{Env, Pod}
use k8sagent_orchestrator.Kube.Trace.{created_pods, deleted_pods}
use k8sagent_orchestrator.Controller.Pods.{
  spec_changed, build_pod, agent_finalizer, generation_annotation,
}
use k8sagent_orchestrator.Controller.Pods.Drift.{spec_changed-build_pod}
use k8sagent_orchestrator.Controller.Reconcile.{is_deleted}
use k8sagent_orchestrator.Controller.Reconcile.Safety
use k8sagent_orchestrator.Controller.Reconcile.Safety.{
  FirstLiveIs, listing, creates_only, reconcile-MayDelete,
}

same_of :
    (listed : Result (List Pod)) (pod q : Pod)
    → FirstLiveIs (some pod) listed
    → FirstLiveIs (some q) listed
    → q ≡ pod
same_of (ok pods) pod q h k = ground arith
same_of (err e) pod q h k = absurd h

one_listed :
    (listed : Result (List Pod)) (pod : Pod)
    → FirstLiveIs (some pod) listed
    → FirstLiveIs none listed
    → ⊥
one_listed (ok pods) pod h k = ground arith
one_listed (err e) pod h k = h

moved :
    (seen : Agent) (pod built : Pod)
    → pod.annotations ≡ built.annotations
    → spec_changed seen pod ≡ true
    → spec_changed seen built ≡ true
unfolding spec_changed
moved seen pod built same e = rw (sym same) e

module _ {W : Type 0} (env : Env W) where
  -- What a reconciliation reads and lists: an object that is not being deleted and carries the
  -- finalizer, and the first live pod of its listing.
  pub record Reads (ns name : String) (w : W) (seen : Agent) (pod : Pod) : Type 0 where
    pub got : (env.get_agent ns name w).0 ≡ ok seen
    pub not_deleted : is_deleted seen.meta.deletion_timestamp ≡ false
    pub registered : is_one_of agent_finalizer seen.meta.finalizers ≡ true
    pub listed : FirstLiveIs (some pod) (listing env ns name w seen)

  same_listed :
      (ns name : String) (w : W) (seen : Agent) (pod q : Pod)
      → FirstLiveIs (some pod) (listing env ns name w seen)
      → FirstLiveIs (some q) (listing env ns name w seen)
      → q ≡ pod
  same_listed ns name w seen pod q h k = same_of _ pod q h k

  pub unchanged_kept :
      (ns name : String) (w : W) (seen : Agent) (pod : Pod) (pods : List Pod)
      → Reads ns name w seen pod
      → seen.spec.paused ≡ false
      → spec_changed seen pod ≡ false
      → deleted_pods (Safety.sent env ns name w) ≡ pods
      → pods ≡ []
  unchanged_kept ns name w seen pod [] r unpaused same e = refl
  unchanged_kept ns name w seen pod (q ∷ pods) r unpaused same e =
      let (may, _) = (reconcile-MayDelete env ns name w seen q pods r.got).0 e in
      let listed = same_listed ns name w seen pod q r.listed may.listed in
      elim may.cause [
        | inl gone ↦ cc r.not_deleted
        | inr (_, inl paused) ↦ cc unpaused
        | inr (_, inr changed) ↦ cc listed
      ]

  live_none :
      (ns name : String) (w : W) (seen : Agent) (pod : Pod) (pods : List Pod)
      → Reads ns name w seen pod
      → created_pods (Safety.sent env ns name w) ≡ pods
      → pods ≡ []
  live_none ns name w seen pod [] r e = refl
  live_none ns name w seen pod (p ∷ pods) r e =
      let may = creates_only env ns name w seen r.got (λ q. cc e) in
      absurd (one_listed _ pod r.listed may.missing)

  current :
      (agent seen : Agent) (pod : Pod) (changed : Bool)
      → HasDistinctKeys agent.spec.pod_annotations
      → Map.lookup generation_annotation agent.spec.pod_annotations ≡ none
      → pod.annotations ≡ (build_pod agent).annotations
      → seen.meta.generation ≡ agent.meta.generation
      → spec_changed seen pod ≡ changed
      → changed ≡ false
  current agent seen pod false d h same gen e = refl
  current agent seen pod true d h same gen e = absurd (
      (spec_changed-build_pod agent seen d h).0 (moved seen pod (build_pod agent) same e) (sym gen))

  -- Once a pod that was built for an agent is the first live one of its listing, a reconciliation of the
  -- agent at the same generation, unpaused, not being deleted and with the finalizer, creates no pod and
  -- deletes none; if the user's pod annotations leave the generation annotation alone.
  pub reconcile-settled :
      (ns name : String) (w : W) (agent seen : Agent) (pod : Pod)
      → HasDistinctKeys agent.spec.pod_annotations
      → Map.lookup generation_annotation agent.spec.pod_annotations ≡ none
      → pod.annotations ≡ (build_pod agent).annotations
      → seen.meta.generation ≡ agent.meta.generation
      → seen.spec.paused ≡ false
      → Reads ns name w seen pod
      → (created_pods (Safety.sent env ns name w) ≡ [])
        × (deleted_pods (Safety.sent env ns name w) ≡ [])
  reconcile-settled ns name w agent seen pod d h same gen unpaused r = (
    live_none ns name w seen pod _ r refl,
    unchanged_kept ns name w seen pod _ r unpaused (current agent seen pod _ d h same gen refl)
        refl,
  )

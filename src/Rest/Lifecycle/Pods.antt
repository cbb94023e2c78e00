-- ===== src/Rest/Lifecycle/Pods.antt =====
-- What stopping and restarting an agent over the REST API make of its pod, once the controller sees the
-- changed object.
use k8sagent_orchestrator.Prelude.{String, ◌≡◌, refl, ap, ◌∙◌, true, false, List, [], ◌∷◌, inl, inr}
use k8sagent_orchestrator.Api.{Agent}
use k8sagent_orchestrator.Io.{ok}
use k8sagent_orchestrator.Kube.{Env, Pod}
use k8sagent_orchestrator.Kube.Trace.{patches, created_pods, deleted_pods}
use k8sagent_orchestrator.Controller.Pods.{spec_changed}
use k8sagent_orchestrator.Controller.Reconcile.Safety
use k8sagent_orchestrator.Controller.Reconcile.Safety.{
  FirstLiveIs, listing, creates_only, reconcile-MayDelete,
}
use k8sagent_orchestrator.Controller.Reconcile.Settling.{Reads, unchanged_kept}
use k8sagent_orchestrator.Rest.{Request, ns_name}
use k8sagent_orchestrator.Rest.Lifecycle.Effects.{restart, stop, sent, intended, Sends, run-Sends}

-- A change that leaves the spec as it is leaves the generation.
abbrev pub AnswersGeneration : {W : Type 0} → Env W → Type 0
AnswersGeneration {W} env =
    (base new answer : Agent) (w : W)
    → (env.patch_agent base new w).0 ≡ ok answer
    → new.spec ≡ base.spec
    → answer.meta.generation ≡ base.meta.generation

module _ {W : Type 0} (env : Env W) where
  -- Exactly one change was sent, and this holds of the object that it asks for.
  abbrev pub OneChange : (Agent → Type 0) → List (Agent × Agent) → Type 0
  OneChange P [] = ⊥
  OneChange P ((base, new) ∷ rest) = P new × (rest ≡ [])

  paused_pod :
      (ns name : String) (w : W) (seen : Agent) (pod : Pod)
      → Reads env ns name w seen pod
      → seen.spec.paused ≡ true
      → deleted_pods (Safety.sent env ns name w) ≡ pod ∷ []
  paused_pod ns name w seen pod r paused =
      (reconcile-MayDelete env ns name w seen pod [] r.got).1
        (record { listed = r.listed; cause = inr (r.registered, inl paused) }, refl)

  paused_none :
      (ns name : String) (w : W) (seen : Agent) (pods : List Pod)
      → (env.get_agent ns name w).0 ≡ ok seen
      → seen.spec.paused ≡ true
      → created_pods (Safety.sent env ns name w) ≡ pods
      → pods ≡ []
  paused_none ns name w seen [] got paused e = refl
  paused_none ns name w seen (p ∷ pods) got paused e =
      let may = creates_only env ns name w seen got (λ q. cc e) in cc may.unpaused

  generation_only :
      (a b : Agent) (pod : Pod)
      → a.meta.generation ≡ b.meta.generation
      → spec_changed a pod ≡ spec_changed b pod
  unfolding spec_changed
  generation_only a b pod h = rw h refl

  -- The object that a stop asked for, as a reconciliation reads it: no pod is created, and the live one
  -- is deleted.
  abbrev pub Stops : Agent → Type 0
  Stops new =
      (ns name : String) (w : W) (seen : Agent) (pod : Pod)
      → Reads env ns name w seen pod
      → seen.spec ≡ new.spec
      → (created_pods (Safety.sent env ns name w) ≡ [])
        × (deleted_pods (Safety.sent env ns name w) ≡ pod ∷ [])

  stopped_of_Sends :
      (agent : Agent) (changes : List (Agent × Agent))
      → Sends agent (intended stop agent.spec) changes
      → OneChange Stops changes
  stopped_of_Sends agent [] h = absurd h
  stopped_of_Sends agent ((base, new) ∷ rest) h =
      let stops : Stops new = λ ns name w seen pod r same.
        let paused : seen.spec.paused ≡ true = cc (ap (λ s. s.paused) (same ∙ h.1)) in
        (paused_none ns name w seen _ r.got paused refl, paused_pod ns name w seen pod r paused) in
      (stops, h.5)

  -- After `handleStopAgent` read an agent, it sends exactly one change, and a reconciliation that reads an object
  -- with the spec of that change, not being deleted and with the finalizer, creates no pod and deletes the
  -- first live pod.
  pub handle_stop_agent-Stops :
      (c : Request) (w : W) (agent : Agent)
      → (env.get_agent (ns_name c).0 (ns_name c).1 w).0 ≡ ok agent
      → OneChange Stops (patches (sent env stop c w))
  handle_stop_agent-Stops c w agent got =
      stopped_of_Sends agent _ (run-Sends env c w agent stop got).0

  -- The object that the server answers to a restart, as a reconciliation reads it: an unpaused agent keeps
  -- the pod that was up to date before.
  abbrev pub Keeps : Agent → Agent → Type 0
  Keeps agent new =
      (answer : Agent) (v : W) (ns name : String) (w : W) (seen : Agent) (pod : Pod)
      → (env.patch_agent agent new v).0 ≡ ok answer
      → Reads env ns name w seen pod
      → seen.meta.generation ≡ answer.meta.generation
      → seen.spec.paused ≡ false
      → spec_changed agent pod ≡ false
      → deleted_pods (Safety.sent env ns name w) ≡ []

  kept_of_Sends :
      AnswersGeneration env
      → (agent : Agent) (changes : List (Agent × Agent))
      → Sends agent (intended restart agent.spec) changes
      → OneChange (Keeps agent) changes
  kept_of_Sends law agent [] h = absurd h
  kept_of_Sends law agent ((base, new) ∷ rest) h =
      let keeps : Keeps agent new = λ answer v ns name w seen pod reply r same unpaused current.
        let generation = same ∙ law agent new answer v reply h.1 in
        unchanged_kept env ns name w seen pod _ r unpaused
          (generation_only seen agent pod generation ∙ current) refl in
      (keeps, h.5)

  -- Where a change that leaves the spec leaves the generation, a restart recreates nothing: after
  -- `handleRestartAgent` read an agent, it sends exactly one change and deletes no pod itself, and a
  -- reconciliation that reads the answered generation deletes no pod that was up to date for the agent before.
  pub handle_restart_agent-Keeps :
      (c : Request) (w : W) (agent : Agent)
      → AnswersGeneration env
      → (env.get_agent (ns_name c).0 (ns_name c).1 w).0 ≡ ok agent
      → OneChange (Keeps agent) (patches (sent env restart c w))
        × (deleted_pods (sent env restart c w) ≡ [])
  handle_restart_agent-Keeps c w agent law got =
      let (change, _, _, none_deleted) = run-Sends env c w agent restart got in
      (kept_of_Sends law agent _ change, none_deleted)

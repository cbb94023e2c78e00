-- ===== src/Controller/Reconcile.antt =====
-- internal/controller/agent_controller.go: `Reconcile`.
pub mod Safety
pub mod Settling
pub mod Carried
pub mod Rounds
pub mod Stale
pub mod Converging
use k8sagent_orchestrator.Prelude.{
  String, ◌==◌, ◌||◌, Bool, true, false, Option, none, some, List, [], ◌∷◌, ◌++◌, if◌then◌else◌,
  ◌<>◌,
}
use k8sagent_orchestrator.Cache.{Time}
use k8sagent_orchestrator.Redis.{is_one_of}
use k8sagent_orchestrator.Api.{Agent, failed, stopped, updating}
use k8sagent_orchestrator.Io.{
  Io, ◌>>=◌, ◌>>◌, pure, Result, ok, err, ApiError, is_not_found, is_conflict,
}
use k8sagent_orchestrator.Kube.{Env, Pod}
use k8sagent_orchestrator.Controller.Pods.{
  agent_finalizer, find_agent_pod, create_pod, spec_changed, wrapped,
}
use k8sagent_orchestrator.Controller.Status.{
  update_status, set_condition, emit, log_history, pod_phase_to_agent_phase,
}
use k8sagent_orchestrator.Controller.Services.{reconcile_service}
use k8sagent_orchestrator.Controller.Deletion.{
  Outcome, done, again, after_seconds, fails, handle_deletion,
}

-- `controllerutil.AddFinalizer`, where the finalizer is not yet there
abbrev pub with_finalizer : Agent → Agent
with_finalizer agent = record agent {
  meta = record agent.meta { finalizers = agent.meta.finalizers ++ agent_finalizer ∷ [] };
}

abbrev pub is_deleted : Option Time → Bool
is_deleted none = false
is_deleted (some t) = true

module _ {W : Type 0} (env : Env W) where
  register_finalizer : Agent → Io W Outcome
  register_finalizer agent = do
    reply ← env.update_agent (with_finalizer agent)
    elim reply [
      | ok _ ↦ pure again
      | err e ↦ if is_conflict e then pure again else pure (fails (wrapped "adding finalizer: " e))
    ]

  abbrev paused_text : String
  paused_text = "Agent paused: Pod deleted and reconciliation halted"

  mark_stopped : Agent → Io W Outcome
  unfolding update_status
  mark_stopped agent = do _ ← update_status env agent stopped "" "Agent is paused"; pure done

  -- `agent.Spec.Paused`
  reconcile_paused : Agent → Option Pod → Io W Outcome
  unfolding mark_stopped emit log_history
  reconcile_paused agent none = mark_stopped agent
  reconcile_paused agent (some pod) = do
    reply ← env.delete_pod pod
    let halted : Io W Outcome = (do
      emit env agent "Normal" "Paused" paused_text
      log_history env agent "Normal" "Paused" paused_text
      mark_stopped agent)
    elim reply [
      | ok _ ↦ halted
      | err e ↦
          if is_not_found e
          then halted
          else pure (fails (wrapped "deleting pod for paused agent: " e))
    ]

  -- `pod == nil`
  reconcile_missing : Agent → Io W Outcome
  unfolding create_pod emit log_history set_condition update_status
  reconcile_missing agent = do
    reply ← create_pod env agent
    elim reply [
      | err e ↦ do
        let failure = "Failed to create Pod: " <> e.text
        emit env agent "Warning" "PodCreateFailed" failure
        agent' ← set_condition env agent "Failed" "True" "PodCreateFailed" e.text
        updated ← update_status env agent' failed "" e.text
        log_history env updated.0 "Warning" "PodCreateFailed" failure
        pure (after_seconds 10)
      | ok _ ↦ do
        let created = "Pod created successfully for Agent " <> agent.meta.name
        emit env agent "Normal" "PodCreated" created
        log_history env agent "Normal" "PodCreated" created
        pure (after_seconds 5)
    ]

  reconcile_drifted : Agent → Pod → Io W Outcome
  unfolding emit log_history update_status
  reconcile_drifted agent pod = do
    let text = "Spec change detected: deleting Pod " <> (pod.name <> " for recreation")
    emit env agent "Normal" "PodRecreated" text
    updated ← update_status env agent updating pod.name "Applying spec update"
    log_history env updated.0 "Normal" "PodRecreated" text
    reply ← env.delete_pod pod
    elim reply [
      | ok _ ↦ pure (after_seconds 3)
      | err e ↦
          if is_not_found e
          then pure (after_seconds 3)
          else pure (fails (wrapped "deleting stale pod: " e))
    ]

  reconcile_current : Agent → Pod → Io W Outcome
  unfolding update_status reconcile_service pod_phase_to_agent_phase
  reconcile_current agent pod = do
    let message = "Pod " <> (pod.name <> (" is " <> pod.phase))
    updated ← update_status env agent (pod_phase_to_agent_phase pod.phase) pod.name message
    elim updated.1 [
      | err e ↦ pure (fails e)
      | ok _ ↦ do _ ← reconcile_service env updated.0; pure (after_seconds 30)
    ]

  reconcile_pod : Agent → Option Pod → Io W Outcome
  unfolding reconcile_paused reconcile_missing reconcile_drifted reconcile_current spec_changed
  reconcile_pod agent pod = if agent.spec.paused then reconcile_paused agent pod else elim pod [
    | none ↦ reconcile_missing agent
    | some p ↦ if spec_changed agent p then reconcile_drifted agent p else reconcile_current agent p
  ]

  -- The agent was read.
  reconcile_agent : Agent → Io W Outcome
  unfolding handle_deletion register_finalizer find_agent_pod reconcile_pod
  reconcile_agent agent =
      if is_deleted agent.meta.deletion_timestamp
      then handle_deletion env agent
      else if is_one_of agent_finalizer agent.meta.finalizers
      then (do
        found ← find_agent_pod env agent
        elim found [ err e ↦ pure (fails e) | ok pod ↦ reconcile_pod agent pod ])
      else register_finalizer agent

  unfoldable pub reconcile : String → String → Io W Outcome
  unfolding reconcile_agent
  reconcile namespace name = do
    reply ← env.get_agent namespace name
    elim reply [
      | err e ↦ if is_not_found e then pure done else pure (fails (wrapped "fetching agent: " e))
      | ok agent ↦ reconcile_agent agent
    ]

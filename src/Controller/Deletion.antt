-- ===== src/Controller/Deletion.antt =====
-- internal/controller/agent_controller.go: deletion of an agent and its resurrection.
pub mod Release
pub mod Resurrecting
pub mod Recovering
use k8sagent_orchestrator.Prelude.{
  ℕ, zero, suc, ◌+◌, ◌*◌, String, ◌==◌, not, Bool, true, false, Option, none, some, List, [], ◌∷◌,
  keep, decimal, if◌then◌else◌, ◌<>◌,
}
use k8sagent_orchestrator.Prelude.Map
use k8sagent_orchestrator.Prelude.Map.{Map}
use k8sagent_orchestrator.Api.{
  Agent, AgentSpec, ObjectMeta, empty_meta, empty_status, empty_spec, or_empty,
}
use k8sagent_orchestrator.Io.{
  Io, ◌>>=◌, ◌>>◌, pure, Result, ok, err, ApiError, is_not_found, is_already_exists,
}
use k8sagent_orchestrator.Kube.{Env, Pod}
use k8sagent_orchestrator.Controller.Pods.{agent_finalizer, find_agent_pod, wrapped}
use k8sagent_orchestrator.Controller.Status.{stamped, append_history}

-- What the goroutine `resurrectAgentAsync` is started with.
pub record Resurrection : Type 0 where
  pub namespace : String
  pub name : String
  pub original_uid : String
  pub spec : AgentSpec
  pub labels : Map String
  pub annotations : Map String

-- What a call of the reconciler returns: `ctrl.Result` (delays in seconds), its error, and the
-- goroutine that it started.
pub record Outcome : Type 0 where
  pub requeue : Bool
  pub requeue_after : ℕ
  pub error : Option ApiError
  pub spawned : Option Resurrection

abbrev pub done : Outcome
done = record { requeue = false; requeue_after = 0; error = none; spawned = none }

abbrev pub again : Outcome
again = record done { requeue = true }

abbrev pub after_seconds : ℕ → Outcome
after_seconds n = record done { requeue_after = n }

abbrev pub fails : ApiError → Outcome
fails e = record done { error = some e }

-- `controllerutil.RemoveFinalizer`
abbrev pub without_finalizer : Agent → Agent
without_finalizer agent = record agent {
  meta = record agent.meta {
    finalizers = keep (λ f. not (f == agent_finalizer)) agent.meta.finalizers;
  };
}

-- The copies of labels and annotations are filled by a `range` over the originals.
unfoldable pub resurrection_of : Agent → Option Resurrection
resurrection_of agent =
    if not agent.spec.self_healing_disabled
    then some (record {
      namespace = agent.meta.namespace;
      name = agent.meta.name;
      original_uid = agent.meta.uid;
      spec = agent.spec;
      labels = Map.overlay [] agent.meta.labels;
      annotations = Map.overlay [] (or_empty agent.meta.annotations);
    })
    else none

abbrev pub max_attempts : ℕ
max_attempts = 15

-- How one attempt ended: the agent is there again, someone else made one, or the loop goes on.
pub data Attempt : Type 0 where
  recreated skipped retry : Attempt

module _ {W : Type 0} (env : Env W) where
  release : Agent → Io W Outcome
  unfolding resurrection_of
  release agent = do
    reply ← env.update_agent (without_finalizer agent)
    elim reply [
      | ok _ ↦ pure (record done { spawned = resurrection_of agent })
      | err e ↦
          if is_not_found e then pure done else pure (fails (wrapped "removing finalizer: " e))
    ]

  unfoldable pub handle_deletion : Agent → Io W Outcome
  unfolding find_agent_pod release
  handle_deletion agent = do
    found ← find_agent_pod env agent
    elim found [
      | err e ↦ pure (fails e)
      | ok none ↦ release agent
      | ok (some pod) ↦ do
        reply ← env.delete_pod pod
        elim reply [
          | ok _ ↦ release agent
          | err e ↦
              if is_not_found e
              then release agent
              else pure (fails (wrapped "deleting agent pod: " e))
        ]
    ]

  -- The object that every attempt creates a copy of; `now` is read when the goroutine starts.
  unfoldable pub resurrected_agent : Resurrection → ℕ → Agent
  resurrected_agent r now = record {
    meta = record empty_meta {
      name = r.name;
      namespace = r.namespace;
      labels = r.labels;
      annotations = some (
          Map.insert "orchestrator.dev/resurrection-uid" r.original_uid (
            Map.insert "orchestrator.dev/resurrected-at" (env.rfc3339 now)
              (Map.overlay [] r.annotations)));
    };
    spec = r.spec;
    status = empty_status;
  }

  give_up : Resurrection → W → W
  unfolding stamped
  give_up r w =
      let text =
        "Self-healing failed: could not recreate Agent "
        <> (r.namespace
            <> ("/"
                <> (r.name <> (" after 15 attempts (original UID " <> (r.original_uid <> ")"))))) in
      let stub : Agent = record {
        meta = record empty_meta { name = r.name; namespace = r.namespace };
        spec = empty_spec;
        status = empty_status;
      } in
      let (message, w') = stamped env text w in
      env.event stub "Warning" "ResurrectionFailed" message w'

  unfoldable pub attempt_once : Resurrection → Agent → ℕ → Io W Attempt
  unfolding stamped append_history
  attempt_once r resurrected attempt = do
    env.sleep (attempt * 300000000)
    message ← stamped env (
        "Agent self-healed: recreated after external deletion (original UID "
        <> (r.original_uid <> (", attempt " <> (decimal attempt <> ")"))))
    reply ← env.create_agent resurrected
    elim reply [
      | ok new_agent ↦ do
        env.event new_agent "Normal" "Resurrected" message
        append_history env new_agent "Normal" "Resurrected" message
        pure recreated
      | err e ↦ if not (is_already_exists e) then pure retry else do
        existing ← env.get_agent r.namespace r.name
        elim existing [
          | err _ ↦ pure retry
          | ok agent ↦ if agent.meta.uid == r.original_uid then pure retry else pure skipped
        ]
    ]

  -- The loop, with the number of attempts left.
  unfoldable pub attempt_from : Resurrection → Agent → ℕ → ℕ → W → W
  unfolding attempt_once give_up
  attempt_from r resurrected zero attempt w = give_up r w
  attempt_from r resurrected (suc left) attempt w =
      let (ended, w') = attempt_once r resurrected attempt w in
      elim ended [
        | recreated ↦ w'
        | skipped ↦ w'
        | retry ↦ attempt_from r resurrected left (attempt + 1) w'
      ]

  unfoldable pub resurrect_agent_async : Resurrection → W → W
  unfolding resurrected_agent
  resurrect_agent_async r w =
      let (now, w') = env.now w in attempt_from r (resurrected_agent r now) max_attempts 1 w'

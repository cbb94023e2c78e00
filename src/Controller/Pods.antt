-- ===== src/Controller/Pods.antt =====
-- internal/controller/agent_controller.go: finding, building and creating the pod of an agent.
pub mod Drift
use k8sagent_orchestrator.Prelude.{
  String, ◌==◌, not, Bool, Option, none, some, List, [], ◌∷◌, decimal, if◌then◌else◌, ◌<>◌,
}
use k8sagent_orchestrator.Prelude.Map
use k8sagent_orchestrator.Prelude.Map.{Map}
use k8sagent_orchestrator.Api.{Agent, or_default}
use k8sagent_orchestrator.Io.{Io, ◌>>=◌, ◌>>◌, pure, Result, ok, err, ApiError}
use k8sagent_orchestrator.Kube.{Env, Pod, Container}

abbrev pub agent_finalizer : String
agent_finalizer = "orchestrator.dev/finalizer"

abbrev pub pod_owner_label : String
pod_owner_label = "orchestrator.dev/agent"

abbrev pub managed_by_label : String
managed_by_label = "app.kubernetes.io/managed-by"

abbrev pub managed_by_value : String
managed_by_value = "k8s-agent-orchestrator"

abbrev pub generation_annotation : String
generation_annotation = "orchestrator.dev/generation"

-- `client.MatchingLabels` of `findAgentPod`
abbrev pub pod_selector : Agent → Map String
pod_selector agent = (pod_owner_label, agent.meta.name) ∷ (managed_by_label, managed_by_value) ∷ []

-- The loop over the pods that were listed: the first that is not being deleted.
unfoldable pub first_live : List Pod → Option Pod
first_live [] = none
first_live (p ∷ pods) =
    let rest = first_live pods in elim p.deletion_timestamp [ none ↦ some p | some t ↦ rest ]

abbrev pub wrapped : String → ApiError → ApiError
wrapped prefix e = record e { text = prefix <> e.text }

unfoldable pub build_pod : Agent → Pod
build_pod agent =
    let labels : Map String =
      (pod_owner_label, agent.meta.name)
      ∷ (managed_by_label, managed_by_value)
      ∷ ("app", agent.meta.name)
      ∷ [] in
    let annotations : Map String = (generation_annotation, decimal agent.meta.generation) ∷ [] in
    let container : Container = record {
      name = "agent";
      image = agent.spec.image;
      image_pull_policy = or_default agent.spec.image_pull_policy "IfNotPresent";
      env = agent.spec.env;
      env_from = agent.spec.env_from;
      resources = agent.spec.resources;
      command = agent.spec.command;
      args = agent.spec.args;
      volume_mounts = agent.spec.volume_mounts;
    } in
    record {
      name = "";
      generate_name = agent.meta.name <> "-";
      namespace = agent.meta.namespace;
      labels = Map.overlay labels agent.spec.pod_labels;
      annotations = Map.overlay annotations agent.spec.pod_annotations;
      deletion_timestamp = none;
      owner = "";
      phase = "";
      containers = container ∷ [];
      restart_policy = or_default agent.spec.restart_policy "Always";
      service_account_name = agent.spec.service_account_name;
      image_pull_secrets = agent.spec.image_pull_secrets;
      volumes = agent.spec.volumes;
    }

-- A missing key of a Go map reads as the empty text.
abbrev pub text_or_empty : Option String → String
text_or_empty none = ""
text_or_empty (some s) = s

unfoldable pub spec_changed : Agent → Pod → Bool
spec_changed agent pod = not (
    text_or_empty (Map.lookup generation_annotation pod.annotations)
    == decimal agent.meta.generation)

module _ {W : Type 0} (env : Env W) where
  unfoldable pub find_agent_pod : Agent → Io W (Result (Option Pod))
  unfolding first_live
  find_agent_pod agent = do
    reply ← env.list_pods agent.meta.namespace (pod_selector agent)
    elim reply [
      | err e ↦ pure (err (wrapped "listing pods: " e))
      | ok pods ↦ pure (ok (first_live pods))
    ]

  unfoldable pub create_pod : Agent → Io W (Result (Unit {0}))
  unfolding build_pod
  create_pod agent = elim (env.own_pod agent (build_pod agent)) [
    | err e ↦ pure (err (wrapped "setting controller reference: " e))
    | ok pod ↦ env.create_pod pod
  ]

  unfoldable pub get_pod_for_agent : String → String → Io W (Result (Option Pod))
  unfolding find_agent_pod
  get_pod_for_agent namespace agent_name = do
    reply ← env.get_agent namespace agent_name
    elim reply [ err e ↦ pure (err e) | ok agent ↦ find_agent_pod agent ]

-- ===== src/Controller/Pods/Drift.antt =====
-- The pod that `buildPod` builds, against what `findAgentPod` looks for and `specChanged` compares.
use k8sagent_orchestrator.Prelude.{
  String, ◌≡◌, refl, ◌≢◌, ◌↔◌, ◌⊎◌, true, none, some, [], ◌∷◌, arith, eq_iff, decimal,
  decimal_injective,
}
use k8sagent_orchestrator.Prelude.Map
use k8sagent_orchestrator.Prelude.Map.{Map, HasDistinctKeys, lookup-overlay, or_else}
use k8sagent_orchestrator.Api.{Agent}
use k8sagent_orchestrator.Controller.Pods.{
  build_pod, spec_changed, pod_selector, pod_owner_label, managed_by_label, managed_by_value,
  generation_annotation,
}

-- `client.MatchingLabels`: every label of the selector is on the object.
abbrev pub Matches : Map String → Map String → Type 0
Matches [] labels = Unit
Matches ((k, v) ∷ selector) labels = (Map.lookup k labels ≡ some v) × Matches selector labels

-- The user's map does not set the key to another value.
abbrev pub Agrees : String → String → Map String → Type 0
Agrees k v m = (Map.lookup k m ≡ none) ⊎ (Map.lookup k m ≡ some v)

overlay-Agrees :
    (k v : String) (m n : Map String)
    → HasDistinctKeys n
    → Map.lookup k m ≡ some v
    → (Map.lookup k (Map.overlay m n) ≡ some v) ↔ Agrees k v n
overlay-Agrees k v m n d h = rw (lookup-overlay k m n d, h) (ground arith)

-- A pod that was built for an agent is found again by the agent's label selector exactly when the
-- user's pod labels leave the owner label and the managed-by label alone or repeat their values.
pub build_pod-Matches :
    (agent : Agent)
    → HasDistinctKeys agent.spec.pod_labels
    → Matches (pod_selector agent) (build_pod agent).labels ↔ (
        Agrees pod_owner_label agent.meta.name agent.spec.pod_labels
        × Agrees managed_by_label managed_by_value agent.spec.pod_labels)
unfolding build_pod Map.lookup
build_pod-Matches agent d =
    let m : Map String =
      (pod_owner_label, agent.meta.name)
      ∷ (managed_by_label, managed_by_value)
      ∷ ("app", agent.meta.name)
      ∷ [] in
    let owner = overlay-Agrees pod_owner_label agent.meta.name m agent.spec.pod_labels d refl in
    let manager = overlay-Agrees managed_by_label managed_by_value m agent.spec.pod_labels d refl in
    (λ h. (owner.0 h.0, manager.0 h.1.0), λ h. (owner.1 h.0, (manager.1 h.1, tt)))

-- The pod built at one generation of an agent counts as changed at another generation exactly when the
-- two generations differ, if the user's pod annotations leave the generation annotation alone.
pub spec_changed-build_pod :
    (agent later : Agent)
    → HasDistinctKeys agent.spec.pod_annotations
    → Map.lookup generation_annotation agent.spec.pod_annotations ≡ none
    → (spec_changed later (build_pod agent) ≡ true)
      ↔ (agent.meta.generation ≢ later.meta.generation)
unfolding build_pod spec_changed Map.lookup
spec_changed-build_pod agent later d h =
    let built =
      lookup-overlay generation_annotation
        ((generation_annotation, decimal agent.meta.generation) ∷ []) agent.spec.pod_annotations
        d in
    ground (
      arith,
      eq_iff (decimal agent.meta.generation) (decimal later.meta.generation),
      decimal_injective agent.meta.generation later.meta.generation,
    )

-- Where the user's pod annotations set the generation annotation to anything but the agent's
-- generation, the pod counts as changed as soon as it is built: it is deleted and recreated for ever.
pub spec_changed-override :
    (agent : Agent) (value : String)
    → HasDistinctKeys agent.spec.pod_annotations
    → Map.lookup generation_annotation agent.spec.pod_annotations ≡ some value
    → value ≢ decimal agent.meta.generation
    → spec_changed agent (build_pod agent) ≡ true
unfolding build_pod spec_changed Map.lookup
spec_changed-override agent value d h ne =
    let built =
      lookup-overlay generation_annotation
        ((generation_annotation, decimal agent.meta.generation) ∷ []) agent.spec.pod_annotations
        d in
    ground (arith, eq_iff value (decimal agent.meta.generation))

-- What the generation annotation of a built pod says: the user's value, or the generation.
abbrev pub generation_text : Agent → String
generation_text agent = elim (Map.lookup generation_annotation agent.spec.pod_annotations) [
  | none ↦ decimal agent.meta.generation
  | some value ↦ value
]

-- The pod that was built from one state of an agent counts as changed at another exactly when the generation
-- annotation that the user's pod annotations set, or else the generation it was built at, differs from
-- the generation of the other; a user's value that is no generation counts as changed at once, and for ever.
pub spec_changed-exact :
    (agent later : Agent)
    → HasDistinctKeys agent.spec.pod_annotations
    → (spec_changed later (build_pod agent) ≡ true)
      ↔ (generation_text agent ≢ decimal later.meta.generation)
unfolding build_pod spec_changed Map.lookup
spec_changed-exact agent later d =
    let built =
      lookup-overlay generation_annotation
        ((generation_annotation, decimal agent.meta.generation) ∷ []) agent.spec.pod_annotations
        d in
    ground (arith, eq_iff (generation_text agent) (decimal later.meta.generation))

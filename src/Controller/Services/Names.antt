-- ===== src/Controller/Services/Names.antt =====
-- The names of services, and the pods that a service selects.
use Prim.Native.Char.{char}
use text.Mathlib.TextLemmas.{cons-append, append_cancel_left}
use k8sagent_orchestrator.Prelude.{
  String, ◌≡◌, refl, ◌↔◌, ◌⊎◌, inl, inr, true, false, arith, ◌<>◌, Bool-cases,
}
use k8sagent_orchestrator.Prelude.Map.{HasDistinctKeys}
use k8sagent_orchestrator.Api.{Agent}
use k8sagent_orchestrator.Controller.Pods.{
  build_pod, pod_owner_label, managed_by_label, managed_by_value,
}
use k8sagent_orchestrator.Controller.Pods.Drift.{Agrees, Matches, build_pod-Matches}
use k8sagent_orchestrator.Controller.Services.{starts_with_digit, service_name_for, build_service}

starts_with_digit-prefix : (s : String) → starts_with_digit ("agt-" <> s) ≡ false
unfolding starts_with_digit
starts_with_digit-prefix s = rw (cons-append (char b'a' tt) "gt-" s) refl

-- No service name starts with a digit, whatever the agent is called.
pub starts_with_digit-service_name_for :
    (s : String) → starts_with_digit (service_name_for s) ≡ false
unfolding service_name_for
starts_with_digit-service_name_for s = elim (Bool-cases (starts_with_digit s)) [
  | inl d ↦ rw d (starts_with_digit-prefix s)
  | inr d ↦ rw d d
]

-- Two agents share a service name exactly when they have one name, or one has a name that starts with
-- a digit and the other is called like that with "agt-" in front.
pub service_name_for-eq :
    (s t : String)
    → (service_name_for s ≡ service_name_for t) ↔ (
        (s ≡ t)
        ⊎ ((starts_with_digit s ≡ true) × (t ≡ "agt-" <> s))
        ⊎ ((starts_with_digit t ≡ true) × (s ≡ "agt-" <> t)))
unfolding service_name_for
service_name_for-eq s t =
    ground
      (arith, append_cancel_left "agt-" s t, starts_with_digit-prefix s, starts_with_digit-prefix t)

-- The service of an agent selects the pod that is built for the agent exactly when the user's pod
-- labels leave the owner label and the managed-by label alone or repeat their values.
pub build_service-build_pod :
    (agent : Agent)
    → HasDistinctKeys agent.spec.pod_labels
    → Matches (build_service agent).selector (build_pod agent).labels ↔ (
        Agrees pod_owner_label agent.meta.name agent.spec.pod_labels
        × Agrees managed_by_label managed_by_value agent.spec.pod_labels)
unfolding build_service
build_service-build_pod agent d = build_pod-Matches agent d

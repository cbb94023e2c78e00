-- ===== src/Controller/Services.antt =====
-- internal/controller/agent_controller.go: the service of an agent.
pub mod Names
pub mod Effects
use Prim.Native.Char.{Char, code}
use Prim.Native.String
use k8sagent_orchestrator.Prelude.{
  String, ◌==◌, ◌&&◌, ◌||◌, not, Bool, true, false, Option, none, some, List, [], ◌∷◌, leb,
  if◌then◌else◌, ◌<>◌,
}
use k8sagent_orchestrator.Prelude.Int.{ℤ, pos, negsuc, eqb_ℤ}
use k8sagent_orchestrator.Prelude.Map
use k8sagent_orchestrator.Prelude.Map.{Map}
use k8sagent_orchestrator.Api.{Agent, or_default}
use k8sagent_orchestrator.Io.{Io, ◌>>=◌, ◌>>◌, pure, Result, ok, err, ApiError, is_not_found}
use k8sagent_orchestrator.Kube.{Env, Service, ServicePort}
use k8sagent_orchestrator.Controller.Pods.{
  pod_selector, pod_owner_label, managed_by_label, managed_by_value, wrapped,
}
use k8sagent_orchestrator.Controller.Status.{with_status, answered}

unfoldable pub starts_with_digit : String → Bool
starts_with_digit String.[] = false
starts_with_digit (String.◌∷◌ c s) = leb b'0' (code c) && leb (code c) b'9'

unfoldable pub service_name_for : String → String
unfolding starts_with_digit
service_name_for agent_name =
    if starts_with_digit agent_name then "agt-" <> agent_name else agent_name

unfoldable pub desired_ports : Agent → List ServicePort
desired_ports agent =
    record {
      name = "agent";
      protocol = or_default agent.spec.service_protocol "TCP";
      port = agent.spec.service_port;
      target_port = agent.spec.service_port;
    }
    ∷ []

unfoldable pub build_service : Agent → Service
unfolding desired_ports service_name_for
build_service agent = record {
  name = service_name_for agent.meta.name;
  namespace = agent.meta.namespace;
  labels = (managed_by_label, managed_by_value) ∷ (pod_owner_label, agent.meta.name) ∷ [];
  owner = "";
  service_type = "ClusterIP";
  selector = pod_selector agent;
  ports = desired_ports agent;
}

-- `len(ports) != 1 || ports[0].Port != port || ports[0].Protocol != protocol`
unfoldable pub ports_drifted : List ServicePort → ℤ → String → Bool
ports_drifted (p ∷ []) port protocol = not (eqb_ℤ p.port port) || not (p.protocol == protocol)
ports_drifted _ port protocol = true

module _ {W : Type 0} (env : Env W) where
  -- The patch of the status, whose error is dropped.
  unfoldable pub sync_service_name : Agent → String → Io W Agent
  sync_service_name agent name = do
    let updated = with_status agent (record agent.status { service_name = name })
    reply ← env.patch_status agent updated
    pure (answered updated reply)

  -- `spec.servicePort == 0`
  remove_service : Agent → Result Service → Io W (Option ApiError)
  unfolding sync_service_name
  remove_service agent (err e) = pure none
  remove_service agent (ok existing) = do
    reply ← env.delete_service existing
    let done : Io W (Option ApiError) = (do _ ← sync_service_name agent ""; pure none)
    elim reply [
      | ok _ ↦ done
      | err e ↦ if is_not_found e then done else pure (some (wrapped "deleting agent service: " e))
    ]

  create_service : Agent → Io W (Option ApiError)
  unfolding sync_service_name build_service
  create_service agent = elim (env.own_service agent (build_service agent)) [
    | err e ↦ pure (some (wrapped "setting service owner reference: " e))
    | ok svc ↦ do
      reply ← env.create_service svc
      elim reply [
        | err e ↦ pure (some (wrapped "creating agent service: " e))
        | ok _ ↦ do _ ← sync_service_name agent (service_name_for agent.meta.name); pure none
      ]
  ]

  -- "Ensure status is in sync."
  sync_if_stale : Agent → Io W (Option ApiError)
  unfolding sync_service_name service_name_for
  sync_if_stale agent =
      let svc_name = service_name_for agent.meta.name in
      if not (agent.status.service_name == svc_name)
      then (do _ ← sync_service_name agent svc_name; pure none)
      else pure none

  adjust_service : Agent → Service → Io W (Option ApiError)
  unfolding sync_if_stale desired_ports ports_drifted
  adjust_service agent existing =
      let protocol = or_default agent.spec.service_protocol "TCP" in
      let patched : Io W (Option ApiError) = (do
        reply ← env.patch_service existing (record existing { ports = desired_ports agent })
        elim reply [
          | err e ↦ pure (some (wrapped "patching agent service port: " e))
          | ok _ ↦ sync_if_stale agent
        ]) in
      if ports_drifted existing.ports agent.spec.service_port protocol
      then patched
      else sync_if_stale agent

  unfoldable pub reconcile_service : Agent → Io W (Option ApiError)
  unfolding remove_service create_service adjust_service service_name_for
  reconcile_service agent = do
    found ← env.get_service agent.meta.namespace (service_name_for agent.meta.name)
    if eqb_ℤ agent.spec.service_port (pos 0) then remove_service agent found else elim found [
      | ok existing ↦ adjust_service agent existing
      | err e ↦
          if is_not_found e
          then create_service agent
          else pure (some (wrapped "getting agent service: " e))
    ]

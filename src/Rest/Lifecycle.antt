-- ===== src/Rest/Lifecycle.antt =====
-- internal/rest/handlers.go: restarting, stopping and starting an agent, and its self-healing.
pub mod Effects
pub mod Pods
pub mod Recorded
use k8sagent_orchestrator.Prelude.{String, Bool, true, false, ◌<>◌}
use k8sagent_orchestrator.Cache.{Time}
use k8sagent_orchestrator.Api.{Agent}
use k8sagent_orchestrator.Io.{Io, ◌>>=◌, ◌>>◌, pure}
use k8sagent_orchestrator.Kube.{Env}
use k8sagent_orchestrator.Rest.{
  Request, Response, flag_body, respond_ok, ns_name, annotate, with_agent, patched, emit,
  log_history,
}

abbrev pub restart_at : String
restart_at = "orchestrator.dev/restart-at"

abbrev pub started_at : String
started_at = "orchestrator.dev/started-at"

abbrev pub stopped_at : String
stopped_at = "orchestrator.dev/stopped-at"

abbrev pub with_paused : Bool → Agent → Agent
with_paused b a = record a { spec = record a.spec { paused = b } }

abbrev pub with_healing_disabled : Bool → Agent → Agent
with_healing_disabled b a = record a { spec = record a.spec { self_healing_disabled = b } }

module _ {W : Type 0} (e : Env W) where
  unfoldable pub handle_restart_agent : Request → Io W Response
  unfolding ns_name with_agent patched emit log_history
  handle_restart_agent c =
      let (namespace, name) = ns_name c in
      let text : String = "Agent pod recreation triggered via REST API" in
      with_agent e namespace name (λ a. do
        now ← e.now
        patched e a (annotate restart_at (e.rfc3339 now) a) (λ a'. do
          emit e a' "Restarted" text
          log_history e namespace name "Restarted" text
          pure (respond_ok (flag_body "restarted" true))))

  unfoldable pub handle_stop_agent : Request → Io W Response
  unfolding ns_name with_agent patched emit log_history
  handle_stop_agent c =
      let (namespace, name) = ns_name c in
      let text : String = "Agent paused via REST API (spec.paused=true, pod will be deleted)" in
      with_agent e namespace name (λ a. do
        now ← e.now
        patched e a (annotate stopped_at (e.rfc3339 now) (with_paused true a)) (λ a'. do
          emit e a' "Stopped" text
          log_history e namespace name "Stopped" text
          pure (respond_ok (flag_body "stopped" true))))

  unfoldable pub handle_start_agent : Request → Io W Response
  unfolding ns_name with_agent patched emit log_history
  handle_start_agent c =
      let (namespace, name) = ns_name c in
      let text : String =
        "Agent resumed via REST API (spec.paused=false, pod recreation triggered)" in
      with_agent e namespace name (λ a. do
        first ← e.now
        second ← e.now
        let started = annotate started_at (e.rfc3339 first) (with_paused false a)
        patched e a (annotate restart_at (e.rfc3339 second) started) (λ a'. do
          emit e a' "Started" text
          log_history e namespace name "Started" text
          pure (respond_ok (flag_body "started" true))))

  unfoldable pub handle_disable_self_healing : Request → Io W Response
  unfolding ns_name with_agent patched emit log_history
  handle_disable_self_healing c =
      let (namespace, name) = ns_name c in
      let text : String =
        "Self-healing disabled via REST API — agent will NOT be recreated on external deletion" in
      with_agent e namespace name (λ a. patched e a (with_healing_disabled true a) (λ a'. do
        emit e a' "SelfHealingDisabled" text
        log_history e namespace name "SelfHealingDisabled" text
        pure (respond_ok (flag_body "selfHealingDisabled" true))))

  unfoldable pub handle_enable_self_healing : Request → Io W Response
  unfolding ns_name with_agent patched emit log_history
  handle_enable_self_healing c =
      let (namespace, name) = ns_name c in
      let text : String =
        "Self-healing enabled via REST API — agent will be recreated automatically on external deletion" in
      with_agent e namespace name (λ a. patched e a (with_healing_disabled false a) (λ a'. do
        emit e a' "SelfHealingEnabled" text
        log_history e namespace name "SelfHealingEnabled" text
        pure (respond_ok (flag_body "selfHealingDisabled" false))))

-- ===== src/Rest/Crud.antt =====
-- internal/rest/handlers.go: health, creation, reading, update and deletion of agents.
pub mod Updating
pub mod Deleting
pub mod Listing
use k8sagent_orchestrator.Prelude.{
  ℕ, String, Bool, true, not, Option, none, some, List, [], ◌∷◌, ◌==◌, length, decimal,
  if◌then◌else◌, ◌<>◌,
}
use k8sagent_orchestrator.Prelude.Int.{ℤ, pos, negsuc, leb_ℤ, format_ℤ}
use k8sagent_orchestrator.Prelude.Map.{Map}
use k8sagent_orchestrator.Cache.{CacheStore}
use k8sagent_orchestrator.Api.{
  Json, Agent, AgentSpec, EnvVar, LifecycleEvent, empty_meta, empty_spec, empty_status, or_default,
}
use k8sagent_orchestrator.Io.{Io, ◌>>=◌, ◌>>◌, pure, Result, ok, err, is_already_exists}
use k8sagent_orchestrator.History.{HistoryStore}
use k8sagent_orchestrator.Kube.{Env}
use k8sagent_orchestrator.Rest.{
  Request, Response, Body, invalid, valid, AgentServiceInfo, agent_body, agents_body, services_body,
  history_body, text_body, status_body, deleted_body, respond_ok, respond_created, respond_error,
  ns_name, with_agent, patched, emit, log_history,
}
use k8sagent_orchestrator.Rest.Requests.{
  CreateAgentRequest, UpdateAgentRequest, new_agent, updated_spec,
}
use k8sagent_orchestrator.Rest.Lifecycle.{with_healing_disabled}

pub service_info : String → Agent → AgentServiceInfo
service_info namespace a = record {
  agent = a.meta.name;
  namespace = namespace;
  port = a.spec.service_port;
  protocol = or_default a.spec.service_protocol "TCP";
  url =
      "http://"
      <> (a.meta.name
          <> ("." <> (namespace <> (".svc.cluster.local:" <> format_ℤ a.spec.service_port))));
}

-- The loop of `handleListAgentServices`.
unfoldable pub service_infos : String → List Agent → List AgentServiceInfo
unfolding service_info
service_infos namespace [] = []
service_infos namespace (a ∷ items) =
    let rest = service_infos namespace items in
    if leb_ℤ a.spec.service_port (pos 0) then rest else service_info namespace a ∷ rest

module _ {W : Type 0} (e : Env W) where
  unfoldable pub handle_info : Request → Response
  handle_info c = respond_ok (text_body "namespace" c.default_namespace)

  unfoldable pub handle_healthz : Response
  handle_healthz = record { code = 200; content = status_body "ok" }

  unfoldable pub handle_readyz : Io W Response
  handle_readyz = do
    reply ← e.list_agents none
    elim reply [
      | err x ↦ pure (respond_error 503 ("k8s api not reachable: " <> x.text))
      | ok _ ↦ pure (record { code = 200; content = status_body "ready" })
    ]

  unfoldable pub handle_create_agent : Request → Body CreateAgentRequest → Io W Response
  unfolding ns_name emit log_history new_agent
  handle_create_agent c (invalid message) = pure (respond_error 400 ("invalid body: " <> message))
  handle_create_agent c (valid req) = do
    reply ← e.create_agent (new_agent (ns_name c).0 req)
    elim reply [
      | err x ↦
          if is_already_exists x
          then pure (respond_error 409 "agent already exists")
          else pure (respond_error 500 x.text)
      | ok a ↦ do
        let text : String = "Agent created via REST API (image: " <> (a.spec.image <> ")")
        emit e a "Created" text
        log_history e a.meta.namespace a.meta.name "Created" text
        pure (respond_created (agent_body a))
    ]

  unfoldable pub handle_list_agent_services : Request → Io W Response
  unfolding ns_name service_infos
  handle_list_agent_services c = do
    reply ← e.list_agents (some (ns_name c).0)
    elim reply [
      | err x ↦ pure (respond_error 500 x.text)
      | ok items ↦ pure (respond_ok (services_body (service_infos (ns_name c).0 items)))
    ]

  unfoldable pub handle_list_agents : Request → Io W Response
  unfolding ns_name
  handle_list_agents c = do
    reply ← e.list_agents (some (ns_name c).0)
    elim reply [
      | err x ↦ pure (respond_error 500 x.text)
      | ok items ↦ pure (respond_ok (agents_body items))
    ]

  unfoldable pub handle_get_agent : Request → Io W Response
  unfolding ns_name with_agent
  handle_get_agent c =
      let (namespace, name) = ns_name c in
      with_agent e namespace name (λ a. pure (respond_ok (agent_body a)))

  list_if : Option (HistoryStore W) → String → String → Io W (List LifecycleEvent)
  list_if none namespace name = pure []
  list_if (some store) namespace name = store.list namespace name

  unfoldable pub handle_get_agent_history : Request → Io W Response
  unfolding ns_name with_agent list_if
  handle_get_agent_history c =
      let (namespace, name) = ns_name c in
      with_agent e namespace name (λ a. do
        history ← list_if e.history namespace name
        pure (respond_ok (history_body name (length history) history)))

  -- `Update` sends the whole object.
  unfoldable pub handle_update_agent : Request → Body UpdateAgentRequest → Io W Response
  unfolding ns_name with_agent emit log_history updated_spec
  handle_update_agent c (invalid message) = pure (respond_error 400 ("invalid body: " <> message))
  handle_update_agent c (valid req) =
      let (namespace, name) = ns_name c in
      let text : String = "Agent spec updated via REST API" in
      with_agent e namespace name (λ a. do
        reply ← e.update_agent (record a { spec = updated_spec req a.spec })
        elim reply [
          | err x ↦ pure (respond_error 500 x.text)
          | ok a' ↦ do
            emit e a' "SpecUpdated" text
            log_history e namespace name "SpecUpdated" text
            pure (respond_ok (agent_body a'))
        ])

  abbrev deleted_text : String
  deleted_text =
      "Agent permanently deleted via REST API (self-healing was disabled before deletion)"

  -- From the history entry on; `a` is the object as the patch left it.
  delete_now : CacheStore W → String → String → Agent → Io W Response
  unfolding emit log_history
  delete_now cache namespace name a = do
    log_history e namespace name "Deleted" deleted_text
    reply ← e.delete_agent a
    elim reply [
      | err x ↦ pure (respond_error 500 x.text)
      | ok _ ↦ do
        emit e a "Deleted" deleted_text
        cache.clear_agent namespace name
        pure (record { code = 200; content = deleted_body name })
    ]

  unfoldable pub handle_delete_agent : CacheStore W → Request → Io W Response
  unfolding ns_name with_agent delete_now
  handle_delete_agent cache c =
      let (namespace, name) = ns_name c in
      let disable_first = λ (a : Agent). λ (w : W).
        (do
          reply ← e.patch_agent a (with_healing_disabled true a)
          elim reply [
            | err x ↦ pure (respond_error 500 ("disabling self-healing: " <> x.text))
            | ok a' ↦ delete_now cache namespace name a'
          ])
          w in
      with_agent e namespace name (λ a.
        if not a.spec.self_healing_disabled
        then disable_first a
        else delete_now cache namespace name a)

-- ===== src/Rest.antt =====
-- internal/rest: the server, requests and responses, and the helpers of handlers.go. A handler is a
-- function on the world; the JSON body of a request comes as gin's binding leaves it, and an answer is
-- its status code and its content.
pub mod Environment
pub mod Lifecycle
pub mod Crud
pub mod Requests
pub mod Wake
pub mod CacheRoutes
pub mod Logs
pub mod Routes
pub mod Server
use k8sagent_orchestrator.Prelude.{
  ℕ, String, Bool, Option, none, some, List, [], ◌==◌, if◌then◌else◌, ◌<>◌,
}
use k8sagent_orchestrator.Prelude.Int.{ℤ}
use k8sagent_orchestrator.Prelude.Map
use k8sagent_orchestrator.Prelude.Map.{Map}
use k8sagent_orchestrator.Cache.{Entry, Value}
use k8sagent_orchestrator.Api.{Agent, EnvVar, LifecycleEvent, or_empty}
use k8sagent_orchestrator.Io.{Io, ◌>>=◌, ◌>>◌, pure, Result, ok, err, ApiError, is_not_found}
use k8sagent_orchestrator.History.{HistoryStore}
use k8sagent_orchestrator.Kube.{Env}

-- The path parameters of a request, empty where the route has none, and the server's default namespace.
pub record Request : Type 0 where
  pub namespace : String
  pub name : String
  pub default_namespace : String

-- A body as `ShouldBindJSON` leaves it: the text of its error, or the value.
pub data Body (A : Type 0) : Type 0 where
  invalid : String → Body A
  valid : A → Body A

pub record AgentServiceInfo : Type 0 where
  pub agent : String
  pub namespace : String
  pub port : ℤ
  pub protocol : String
  pub url : String

pub data Content : Type 0 where
  error_body : (message : String) → Content
  agent_body : Agent → Content
  agents_body : List Agent → Content
  env_body : List EnvVar → Content
  services_body : List AgentServiceInfo → Content
  history_body : (name : String) (count : ℕ) → List LifecycleEvent → Content
  flag_body : (field : String) → Bool → Content
  text_body : (field value : String) → Content
  field_flag_body : (field flag : String) → Content
  status_body : (status : String) → Content
  deleted_body : (name : String) → Content
  woken_body : (status phase svc_url : String) → Content
  entry_body : Entry → Content
  entries_body : Map Entry → Content
  bytes_body : List ℕ → Content

pub record Response : Type 0 where
  pub code : ℕ
  pub content : Content

abbrev pub respond_ok : Content → Response
respond_ok content = record { code = 200; content = content }

abbrev pub respond_created : Content → Response
respond_created content = record { code = 201; content = content }

abbrev pub respond_error : ℕ → String → Response
respond_error code message = record { code = code; content = error_body message }

-- `nsName`
unfoldable pub ns_name : Request → String × String
ns_name c = (if c.namespace == "" then c.default_namespace else c.namespace, c.name)

-- `agent.Annotations[key] = value`, behind the guard that allocates a nil map
abbrev pub annotate : String → String → Agent → Agent
annotate key value a = record a {
  meta = record a.meta { annotations = some (Map.insert key value (or_empty a.meta.annotations)) };
}

module _ {W : Type 0} (env : Env W) where
  -- `ts()` in front of a text
  unfoldable pub stamped : String → Io W String
  stamped text = do now ← env.now; pure ("[" <> env.timestamp now <> "] " <> text)

  append_if : Option (HistoryStore W) → String → String → String → String → String → W → W
  append_if none namespace name event_type reason message w = w
  append_if (some store) namespace name event_type reason message w =
      store.append namespace name event_type reason message w

  unfoldable pub append_history : String → String → String → String → String → W → W
  unfolding append_if
  append_history namespace name event_type reason message w =
      append_if env.history namespace name event_type reason message w

  -- `s.recorder.Eventf(agent, Normal, reason, "[%s] …", ts())`
  unfoldable pub emit : Agent → String → String → W → W
  unfolding stamped
  emit a reason text w =
      let (message, w') = stamped text w in env.event a "Normal" reason message w'

  -- `s.appendHistory(ctx, namespace, name, Normal, reason, fmt.Sprintf("[%s] …", ts()))`
  unfoldable pub log_history : String → String → String → String → W → W
  unfolding append_history stamped
  log_history namespace name reason text w =
      let (message, w') = stamped text w in append_history namespace name "Normal" reason message w'

  -- The lookup that most handlers begin with: 404 for a missing agent, 500 for any other error.
  unfoldable pub with_agent : String → String → (Agent → Io W Response) → Io W Response
  with_agent namespace name handle = do
    reply ← env.get_agent namespace name
    elim reply [
      | err e ↦
          if is_not_found e
          then pure (respond_error 404 "agent not found")
          else pure (respond_error 500 e.text)
      | ok a ↦ handle a
    ]

  -- The patch of an agent, from the object that was read to the changed one; 500 if it is refused.
  unfoldable pub patched : Agent → Agent → (Agent → Io W Response) → Io W Response
  patched base changed handle = do
    reply ← env.patch_agent base changed
    elim reply [ err e ↦ pure (respond_error 500 e.text) | ok a ↦ handle a ]

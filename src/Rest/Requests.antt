-- ===== src/Rest/Requests.antt =====
-- internal/rest/handlers.go: the bodies of creation and update, and what is made of them.
use k8sagent_orchestrator.Prelude.{String, Bool, not, Option, none, some, List, ◌==◌, if◌then◌else◌}
use k8sagent_orchestrator.Prelude.Int.{ℤ}
use k8sagent_orchestrator.Prelude.Map.{Map}
use k8sagent_orchestrator.Api.{Json, Agent, AgentSpec, EnvVar, empty_meta, empty_spec, empty_status}

pub record CreateAgentRequest : Type 0 where
  pub name : String
  pub image : String
  pub image_pull_policy : String
  pub env : List EnvVar
  pub env_from : List Json
  pub resources : Json
  pub command : List String
  pub args : List String
  pub service_account : String
  pub restart_policy : String
  pub pod_labels : Map String
  pub pod_annotations : Map String
  pub labels : Map String
  pub annotations : Option (Map String)
  pub self_healing_disabled : Bool
  pub paused : Bool
  pub service_port : ℤ
  pub service_protocol : String
  pub idle_timeout : ℤ

-- `none` is nil: the field was not given.
pub record UpdateAgentRequest : Type 0 where
  pub image : String
  pub image_pull_policy : String
  pub env : Option (List EnvVar)
  pub env_from : Option (List Json)
  pub resources : Json
  pub command : Option (List String)
  pub args : Option (List String)
  pub service_account : String
  pub restart_policy : String
  pub pod_labels : Option (Map String)
  pub pod_annotations : Option (Map String)
  pub idle_timeout : Option ℤ

unfoldable pub new_agent : String → CreateAgentRequest → Agent
new_agent namespace req = record {
  meta = record empty_meta {
    name = req.name;
    namespace = namespace;
    labels = req.labels;
    annotations = req.annotations;
  };
  spec = record empty_spec {
    image = req.image;
    image_pull_policy = req.image_pull_policy;
    env = req.env;
    env_from = req.env_from;
    resources = req.resources;
    command = req.command;
    args = req.args;
    service_account_name = req.service_account;
    restart_policy = req.restart_policy;
    pod_labels = req.pod_labels;
    pod_annotations = req.pod_annotations;
    self_healing_disabled = req.self_healing_disabled;
    paused = req.paused;
    service_port = req.service_port;
    service_protocol = req.service_protocol;
    idle_timeout = req.idle_timeout;
  };
  status = empty_status;
}

-- `if req.X != nil { spec.X = req.X }`, and the same for a text that is not empty.
abbrev pub given {ℓ} : {A : Type ℓ} → Option A → A → A
given none old = old
given (some new) old = new

abbrev pub given_text : String → String → String
given_text new old = if not (new == "") then new else old

unfoldable pub updated_spec : UpdateAgentRequest → AgentSpec → AgentSpec
updated_spec req spec = record spec {
  image = given_text req.image spec.image;
  image_pull_policy = given_text req.image_pull_policy spec.image_pull_policy;
  env = given req.env spec.env;
  env_from = given req.env_from spec.env_from;
  command = given req.command spec.command;
  args = given req.args spec.args;
  service_account_name = given_text req.service_account spec.service_account_name;
  restart_policy = given_text req.restart_policy spec.restart_policy;
  pod_labels = given req.pod_labels spec.pod_labels;
  pod_annotations = given req.pod_annotations spec.pod_annotations;
  idle_timeout = given req.idle_timeout spec.idle_timeout;
}

-- ===== src/Api.antt =====
-- api/v1alpha1/agent_types.go, and the fields of the Kubernetes types that the program reads. Values
-- that the program only carries (volumes, resources, secret references and the like) stand as their
-- JSON text. A nil slice and an empty one are one list here; annotations keep the difference, since
-- the program allocates a nil map before it writes to it.
pub mod Heap
pub mod Copying
use k8sagent_orchestrator.Prelude.{
  ℕ, String, Bool, false, Option, none, some, List, [], ◌==◌, if◌then◌else◌,
}
use k8sagent_orchestrator.Prelude.Int.{ℤ, pos}
use k8sagent_orchestrator.Prelude.Map.{Map}
use k8sagent_orchestrator.Cache.{Time}

-- The JSON text of a value that is only passed on.
abbrev pub Json : Type 0
Json = String

abbrev pub AgentPhase : Type 0
AgentPhase = String

abbrev pub pending : AgentPhase
pending = "Pending"

abbrev pub running : AgentPhase
running = "Running"

abbrev pub failed : AgentPhase
failed = "Failed"

abbrev pub stopped : AgentPhase
stopped = "Stopped"

abbrev pub updating : AgentPhase
updating = "Updating"

-- `corev1.EnvVar`; `value_from` is the JSON text of the source, empty for nil.
pub record EnvVar : Type 0 where
  pub name : String
  pub value : String
  pub value_from : Json

pub record AgentSpec : Type 0 where
  pub image : String
  pub image_pull_policy : String
  pub image_pull_secrets : List Json
  pub env : List EnvVar
  pub env_from : List Json
  pub resources : Json
  pub service_account_name : String
  pub command : List String
  pub args : List String
  pub volumes : List Json
  pub volume_mounts : List Json
  pub restart_policy : String
  pub pod_labels : Map String
  pub pod_annotations : Map String
  pub paused : Bool
  pub self_healing_disabled : Bool
  pub service_port : ℤ  -- int32
  pub service_protocol : String
  pub idle_timeout : ℤ  -- int32

pub record LifecycleEvent : Type 0 where
  pub time : Time
  pub reason : String
  pub event_type : String
  pub message : String

pub record AgentCondition : Type 0 where
  pub condition_type : String
  pub status : String
  pub last_transition_time : Time
  pub reason : String
  pub message : String

pub record AgentStatus : Type 0 where
  pub phase : AgentPhase
  pub pod_name : String
  pub pod_ip : String
  pub message : String
  pub observed_generation : ℕ
  pub last_updated : Option Time
  pub conditions : List AgentCondition
  pub restored_at : Option Time
  pub restored_from : String
  pub service_name : String

-- The part of `metav1.ObjectMeta` that is read. The API server counts generations from 1.
pub record ObjectMeta : Type 0 where
  pub name : String
  pub namespace : String
  pub labels : Map String
  pub annotations : Option (Map String)
  pub uid : String
  pub generation : ℕ
  pub deletion_timestamp : Option Time
  pub finalizers : List String

pub record Agent : Type 0 where
  pub meta : ObjectMeta
  pub spec : AgentSpec
  pub status : AgentStatus

abbrev pub empty_meta : ObjectMeta
empty_meta = record {
  name = "";
  namespace = "";
  labels = [];
  annotations = none;
  uid = "";
  generation = 0;
  deletion_timestamp = none;
  finalizers = [];
}

abbrev pub empty_status : AgentStatus
empty_status = record {
  phase = "";
  pod_name = "";
  pod_ip = "";
  message = "";
  observed_generation = 0;
  last_updated = none;
  conditions = [];
  restored_at = none;
  restored_from = "";
  service_name = "";
}

abbrev pub empty_spec : AgentSpec
empty_spec = record {
  image = "";
  image_pull_policy = "";
  image_pull_secrets = [];
  env = [];
  env_from = [];
  resources = "";
  service_account_name = "";
  command = [];
  args = [];
  volumes = [];
  volume_mounts = [];
  restart_policy = "";
  pod_labels = [];
  pod_annotations = [];
  paused = false;
  self_healing_disabled = false;
  service_port = pos 0;
  service_protocol = "";
  idle_timeout = pos 0;
}

-- `if m == nil { m = make(map[string]string) }`
abbrev pub or_empty : Option (Map String) → Map String
or_empty none = []
or_empty (some m) = m

-- The value, or the default where it is the empty text.
abbrev pub or_default : String → String → String
or_default value default = if value == "" then default else value

-- ===== src/Kube.antt =====
-- What the program calls outside the repository, over a state `W` of the world: the Kubernetes API
-- through controller-runtime's client, the event recorder, the clock; and pods and services as far as
-- the program reads or builds them. A successful write returns the object that the server answered.
pub mod Trace
use k8sagent_orchestrator.Prelude.{ℕ, String, Option, List}
use k8sagent_orchestrator.Prelude.Int.{ℤ}
use k8sagent_orchestrator.Prelude.Map.{Map}
use k8sagent_orchestrator.Cache.{Time}
use k8sagent_orchestrator.Api.{Json, EnvVar, Agent}
use k8sagent_orchestrator.History.{HistoryStore}
use k8sagent_orchestrator.Io.{Io, Result}

pub record Container : Type 0 where
  pub name : String
  pub image : String
  pub image_pull_policy : String
  pub env : List EnvVar
  pub env_from : List Json
  pub resources : Json
  pub command : List String
  pub args : List String
  pub volume_mounts : List Json

pub record Pod : Type 0 where
  pub name : String
  pub generate_name : String
  pub namespace : String
  pub labels : Map String
  pub annotations : Map String
  pub deletion_timestamp : Option Time
  pub owner : Json
  pub phase : String
  pub containers : List Container
  pub restart_policy : String
  pub service_account_name : String
  pub image_pull_secrets : List Json
  pub volumes : List Json

pub record ServicePort : Type 0 where
  pub name : String
  pub protocol : String
  pub port : ℤ  -- int32
  pub target_port : ℤ

pub record Service : Type 0 where
  pub name : String
  pub namespace : String
  pub labels : Map String
  pub owner : Json
  pub service_type : String
  pub selector : Map String
  pub ports : List ServicePort

pub record Env (W : Type 0) : Type 0 where
  pub get_agent : String → String → Io W (Result Agent)
  pub list_agents : Option String → Io W (Result (List Agent))
  pub create_agent : Agent → Io W (Result Agent)
  pub update_agent : Agent → Io W (Result Agent)
  -- the object before the change and after it: the server gets their difference
  pub patch_agent : Agent → Agent → Io W (Result Agent)
  pub patch_status : Agent → Agent → Io W (Result Agent)
  pub delete_agent : Agent → Io W (Result (Unit {0}))
  -- the pods of a namespace that carry all these labels
  pub list_pods : String → Map String → Io W (Result (List Pod))
  pub create_pod : Pod → Io W (Result (Unit {0}))
  pub delete_pod : Pod → Io W (Result (Unit {0}))
  pub get_service : String → String → Io W (Result Service)
  pub create_service : Service → Io W (Result (Unit {0}))
  pub patch_service : Service → Service → Io W (Result (Unit {0}))
  pub delete_service : Service → Io W (Result (Unit {0}))
  -- `controllerutil.SetControllerReference`
  pub own_pod : Agent → Pod → Result Pod
  pub own_service : Agent → Service → Result Service
  -- type, reason, message
  pub event : Agent → String → String → String → W → W
  pub now : Io W Time
  pub sleep : ℕ → W → W
  -- the layouts "2006-01-02T15:04:05" and RFC 3339, in UTC
  pub timestamp : Time → String
  pub rfc3339 : Time → String
  pub history : Option (HistoryStore W)

-- ===== src/Docs/Spec.antt =====
-- docs/docs.go: the parts of a Swagger document that the documentation uses.
use k8sagent_orchestrator.Prelude.{ℕ, String, Bool, true, Option, none, List}

-- The type of a value: a named definition, an object with any members or with texts for members, or a scalar.
pub data Schema : Type 0 where
  definition : (ref : String) → Schema
  object texts text integer boolean : Schema

-- `default` is its JSON.
pub record Parameter : Type 0 where
  pub name : String
  pub place : String
  pub description : String
  pub required : Bool
  pub schema : Schema
  pub default : Option String

pub record Answer : Type 0 where
  pub code : ℕ
  pub description : String
  pub schema : Schema

pub record Operation : Type 0 where
  pub path : String
  pub method : String
  pub description : String
  pub consumes : List String
  pub produces : List String
  pub tags : List String
  pub summary : String
  pub parameters : List Parameter
  pub responses : List Answer

-- `swag.Spec`, but for the template of the document and its delimiters.
pub record SwaggerInfo : Type 0 where
  pub version : String
  pub host : String
  pub base_path : String
  pub schemes : List String
  pub title : String
  pub description : String
  pub info_instance_name : String

abbrev pub answer : ℕ → String → Schema → Answer
answer code description schema = record { code = code; description = description; schema = schema }

-- The parameter of every path below an agent.
abbrev pub agent_name : Parameter
agent_name = record {
  name = "name";
  place = "path";
  description = "Agent name";
  required = true;
  schema = text;
  default = none;
}

-- ===== src/Rest/Crud/Updating.antt =====
-- Updates of an agent's spec over the REST API.
use k8sagent_orchestrator.Prelude.{
  String, ◌≡◌, refl, sym, subst, ◌≢◌, eq_iff, Option, none, some, List, [], ◌∷◌, arith,
}
use k8sagent_orchestrator.Api.{Agent, AgentSpec}
use k8sagent_orchestrator.Io.{ok}
use k8sagent_orchestrator.Kube.{Env}
use k8sagent_orchestrator.Kube.Trace.{Call, traced, updated_agents, recorded}
use k8sagent_orchestrator.Rest.{Request, Response, valid, ns_name}
use k8sagent_orchestrator.Rest.Crud.{handle_update_agent}
use k8sagent_orchestrator.Rest.Requests.{UpdateAgentRequest, updated_spec, given, given_text}

-- The later of two values that may be absent.
abbrev pub later {ℓ} : {A : Type ℓ} → Option A → Option A → Option A
later earlier none = earlier
later earlier (some new) = some new

-- One request for two, the second of which goes first where both give a field.
abbrev pub combine : UpdateAgentRequest → UpdateAgentRequest → UpdateAgentRequest
combine q r = record {
  image = given_text r.image q.image;
  image_pull_policy = given_text r.image_pull_policy q.image_pull_policy;
  env = later q.env r.env;
  env_from = later q.env_from r.env_from;
  resources = r.resources;
  command = later q.command r.command;
  args = later q.args r.args;
  service_account = given_text r.service_account q.service_account;
  restart_policy = given_text r.restart_policy q.restart_policy;
  pod_labels = later q.pod_labels r.pod_labels;
  pod_annotations = later q.pod_annotations r.pod_annotations;
  idle_timeout = later q.idle_timeout r.idle_timeout;
}

given-later : {A : Type 0} (a b : Option A) (x : A) → given b (given a x) ≡ given (later a b) x
given-later a none x = refl
given-later a (some b) x = refl

given_text_twice : (a b x : String) → given_text b (given_text a x) ≡ given_text (given_text b a) x
given_text_twice a b x = ground arith

-- Two updates in a row are one update by the combined request; so repeating a request changes nothing
-- more.
pub updated_spec-combine :
    (q r : UpdateAgentRequest) (spec : AgentSpec)
    → updated_spec r (updated_spec q spec) ≡ updated_spec (combine q r) spec
unfolding updated_spec
updated_spec-combine q r spec = λ i. record spec {
  image = given_text_twice q.image r.image spec.image i;
  image_pull_policy =
      given_text_twice q.image_pull_policy r.image_pull_policy spec.image_pull_policy i;
  env = given-later q.env r.env spec.env i;
  env_from = given-later q.env_from r.env_from spec.env_from i;
  command = given-later q.command r.command spec.command i;
  args = given-later q.args r.args spec.args i;
  service_account_name =
      given_text_twice q.service_account r.service_account spec.service_account_name i;
  restart_policy = given_text_twice q.restart_policy r.restart_policy spec.restart_policy i;
  pod_labels = given-later q.pod_labels r.pod_labels spec.pod_labels i;
  pod_annotations = given-later q.pod_annotations r.pod_annotations spec.pod_annotations i;
  idle_timeout = given-later q.idle_timeout r.idle_timeout spec.idle_timeout i;
}

-- A field that the request may leave out: what it gives, or what was there.
abbrev Takes {ℓ} : {A : Type ℓ} → Option A → A → A → Type ℓ
Takes none old new = new ≡ old
Takes (some x) old new = new ≡ x

abbrev TakesText : String → String → String → Type 0
TakesText x old new = (x ≡ "" → new ≡ old) × (x ≢ "" → new ≡ x)

-- What an update by this request may make of a spec; the resources of the request are not among it.
pub record Updates (req : UpdateAgentRequest) (old new : AgentSpec) : Type 0 where
  pub image : TakesText req.image old.image new.image
  pub image_pull_policy :
      TakesText req.image_pull_policy old.image_pull_policy new.image_pull_policy
  pub env : Takes req.env old.env new.env
  pub env_from : Takes req.env_from old.env_from new.env_from
  pub command : Takes req.command old.command new.command
  pub args : Takes req.args old.args new.args
  pub service_account :
      TakesText req.service_account old.service_account_name new.service_account_name
  pub restart_policy : TakesText req.restart_policy old.restart_policy new.restart_policy
  pub pod_labels : Takes req.pod_labels old.pod_labels new.pod_labels
  pub pod_annotations : Takes req.pod_annotations old.pod_annotations new.pod_annotations
  pub idle_timeout : Takes req.idle_timeout old.idle_timeout new.idle_timeout
  pub resources : new.resources ≡ old.resources
  pub image_pull_secrets : new.image_pull_secrets ≡ old.image_pull_secrets
  pub volumes : new.volumes ≡ old.volumes
  pub volume_mounts : new.volume_mounts ≡ old.volume_mounts
  pub paused : new.paused ≡ old.paused
  pub self_healing_disabled : new.self_healing_disabled ≡ old.self_healing_disabled
  pub service_port : new.service_port ≡ old.service_port
  pub service_protocol : new.service_protocol ≡ old.service_protocol

given-Takes {ℓ} : {A : Type ℓ} (x : Option A) (old : A) → Takes x old (given x old)
given-Takes none old = refl
given-Takes (some x) old = refl

given_text-TakesText : (x old : String) → TakesText x old (given_text x old)
given_text-TakesText x old = (λ e. ground (arith, eq_iff x ""), λ e. ground (arith, eq_iff x ""))

updated_spec-Updates :
    (req : UpdateAgentRequest) (old : AgentSpec) → Updates req old (updated_spec req old)
unfolding updated_spec
updated_spec-Updates req old = record {
  image = given_text-TakesText req.image old.image;
  image_pull_policy = given_text-TakesText req.image_pull_policy old.image_pull_policy;
  env = given-Takes req.env old.env;
  env_from = given-Takes req.env_from old.env_from;
  command = given-Takes req.command old.command;
  args = given-Takes req.args old.args;
  service_account = given_text-TakesText req.service_account old.service_account_name;
  restart_policy = given_text-TakesText req.restart_policy old.restart_policy;
  pod_labels = given-Takes req.pod_labels old.pod_labels;
  pod_annotations = given-Takes req.pod_annotations old.pod_annotations;
  idle_timeout = given-Takes req.idle_timeout old.idle_timeout;
  resources = refl;
  image_pull_secrets = refl;
  volumes = refl;
  volume_mounts = refl;
  paused = refl;
  self_healing_disabled = refl;
  service_port = refl;
  service_protocol = refl;
}

-- One update is sent: the metadata and the status of the agent, and a spec that the request may make of its.
abbrev pub OneUpdate : UpdateAgentRequest → Agent → List Agent → Type 0
OneUpdate req agent [] = ⊥
OneUpdate req agent (new ∷ rest) =
    (new.meta ≡ agent.meta)
    × (new.status ≡ agent.status)
    × Updates req agent.spec new.spec
    × (rest ≡ [])

module _ {W : Type 0} (env : Env W) (c : Request) (req : UpdateAgentRequest) (w : W) where
  abbrev pub answer : Response
  answer = (handle_update_agent (traced env) c (valid req) (w, [])).0

  abbrev pub sent : List Call
  sent = (handle_update_agent (traced env) c (valid req) (w, [])).1.1

  sends_updated :
      (agent : Agent)
      → (env.get_agent (ns_name c).0 (ns_name c).1 w).0 ≡ ok agent
      → (updated_agents sent ≡ record agent { spec = updated_spec req agent.spec } ∷ [])
        × (answer.code ≡ 200 → recorded sent ≡ ("Normal", "SpecUpdated") ∷ [])
        × (answer.code ≢ 200 → recorded sent ≡ [])
  unfolding handle_update_agent
  sends_updated agent got = ground arith

  -- Of an agent that was read, an update sends the whole object once, with the metadata and the status it
  -- had. Each of eleven fields of the spec is what the request gives, or what it was where the request
  -- leaves it out (an empty text counts as left out); all others are what they were, among them the
  -- resources, whatever resources the request gives. One event is recorded if the answer is 200, else none.
  pub handle_update_agent-Updates :
      (agent : Agent)
      → (env.get_agent (ns_name c).0 (ns_name c).1 w).0 ≡ ok agent
      → OneUpdate req agent (updated_agents sent)
        × (answer.code ≡ 200 → recorded sent ≡ ("Normal", "SpecUpdated") ∷ [])
        × (answer.code ≢ 200 → recorded sent ≡ [])
  handle_update_agent-Updates agent got =
      let (one, done, failed) = sends_updated agent got in
      (
        subst (OneUpdate req agent) (sym one)
            (refl, refl, updated_spec-Updates req agent.spec, refl),
        done,
        failed,
      )

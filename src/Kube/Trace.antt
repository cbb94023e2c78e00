-- ===== src/Kube/Trace.antt =====
-- The same world with a list of the writes that were sent, the newest first: what a statement about the
-- calls that code makes, whatever the server answers, is about.
use k8sagent_orchestrator.Prelude.{
  ℕ, suc, String, ◌≡◌, ◌==◌, if◌then◌else◌, Option, none, some, List, [], ◌∷◌,
}
use k8sagent_orchestrator.Api.{Agent}
use k8sagent_orchestrator.Cache.{CacheStore}
use k8sagent_orchestrator.History.{HistoryStore}
use k8sagent_orchestrator.Io.{Io}
use k8sagent_orchestrator.Kube.{Env, Pod, Service}

pub data Call : Type 0 where
  create_agent update_agent delete_agent : Agent → Call
  patch_agent patch_status : Agent → Agent → Call
  create_pod delete_pod : Pod → Call
  create_service delete_service : Service → Call
  patch_service : Service → Service → Call
  event : Agent → (event_type reason message : String) → Call
  append_history : (namespace name event_type reason message : String) → Call
  clear_history : (namespace name : String) → Call

-- A read: the list stays.
abbrev read : {W A : Type 0} → Io W A → Io (W × List Call) A
read m (w, calls) = let (a, w') = m w in (a, (w', calls))

-- A write that is listed.
abbrev write : {W A : Type 0} → Call → Io W A → Io (W × List Call) A
write c m (w, calls) = let (a, w') = m w in (a, (w', c ∷ calls))

abbrev act : {W : Type 0} → Call → (W → W) → W × List Call → W × List Call
act c f (w, calls) = (f w, c ∷ calls)

abbrev traced_history : {W : Type 0} → HistoryStore W → HistoryStore (W × List Call)
traced_history h = record {
  append = λ ns name event_type reason message.
      act (append_history ns name event_type reason message)
        (h.append ns name event_type reason message);
  list = λ ns name. read (h.list ns name);
  clear = λ ns name. act (clear_history ns name) (h.clear ns name);
}

abbrev traced_store : {W : Type 0} → Option (HistoryStore W) → Option (HistoryStore (W × List Call))
traced_store none = none
traced_store (some h) = some (traced_history h)

abbrev pub traced : {W : Type 0} → Env W → Env (W × List Call)
traced env = record {
  get_agent = λ ns name. read (env.get_agent ns name);
  list_agents = λ ns. read (env.list_agents ns);
  create_agent = λ a. write (create_agent a) (env.create_agent a);
  update_agent = λ a. write (update_agent a) (env.update_agent a);
  patch_agent = λ base a. write (patch_agent base a) (env.patch_agent base a);
  patch_status = λ base a. write (patch_status base a) (env.patch_status base a);
  delete_agent = λ a. write (delete_agent a) (env.delete_agent a);
  list_pods = λ ns labels. read (env.list_pods ns labels);
  create_pod = λ p. write (create_pod p) (env.create_pod p);
  delete_pod = λ p. write (delete_pod p) (env.delete_pod p);
  get_service = λ ns name. read (env.get_service ns name);
  create_service = λ s. write (create_service s) (env.create_service s);
  patch_service = λ base s. write (patch_service base s) (env.patch_service base s);
  delete_service = λ s. write (delete_service s) (env.delete_service s);
  own_pod = env.own_pod;
  own_service = env.own_service;
  event = λ a event_type reason message.
      act (event a event_type reason message) (env.event a event_type reason message);
  now = read env.now;
  sleep = λ d (w, calls). (env.sleep d w, calls);
  timestamp = env.timestamp;
  rfc3339 = env.rfc3339;
  history = traced_store env.history;
}

-- The pods that were asked for, the pods that were deleted, and the agents that were created or
-- deleted, the newest call first.
abbrev pub created_pods : List Call → List Pod
created_pods [] = []
created_pods (create_pod p ∷ calls) = p ∷ created_pods calls
created_pods (_ ∷ calls) = created_pods calls

abbrev pub deleted_pods : List Call → List Pod
deleted_pods [] = []
deleted_pods (delete_pod p ∷ calls) = p ∷ deleted_pods calls
deleted_pods (_ ∷ calls) = deleted_pods calls

abbrev pub created_agents : List Call → List Agent
created_agents [] = []
created_agents (create_agent a ∷ calls) = a ∷ created_agents calls
created_agents (_ ∷ calls) = created_agents calls

abbrev pub deleted_services : List Call → List Service
deleted_services [] = []
deleted_services (delete_service s ∷ calls) = s ∷ deleted_services calls
deleted_services (_ ∷ calls) = deleted_services calls

-- The call does not change the conditions of a status: the difference that it sends leaves them out.
abbrev pub KeepsConditions : Call → Type 0
KeepsConditions (patch_status base new) = base.status.conditions ≡ new.status.conditions
KeepsConditions _ = Unit

abbrev pub updated_agents : List Call → List Agent
updated_agents [] = []
updated_agents (update_agent a ∷ calls) = a ∷ updated_agents calls
updated_agents (_ ∷ calls) = updated_agents calls

-- How many events of this type were recorded with the event recorder.
abbrev pub events_of : String → List Call → ℕ
events_of wanted [] = 0
events_of wanted (event a event_type reason message ∷ calls) =
    let rest = events_of wanted calls in if event_type == wanted then suc rest else rest
events_of wanted (_ ∷ calls) = events_of wanted calls

-- Type and reason of every event that was recorded with the event recorder, the newest first.
abbrev pub recorded : List Call → List (String × String)
recorded [] = []
recorded (event a event_type reason message ∷ calls) = (event_type, reason) ∷ recorded calls
recorded (_ ∷ calls) = recorded calls

-- The changes of agents that were sent, as the object before and the object after.
abbrev pub patches : List Call → List (Agent × Agent)
patches [] = []
patches (patch_agent base new ∷ calls) = (base, new) ∷ patches calls
patches (_ ∷ calls) = patches calls

abbrev pub deleted_agents : List Call → List Agent
deleted_agents [] = []
deleted_agents (delete_agent a ∷ calls) = a ∷ deleted_agents calls
deleted_agents (_ ∷ calls) = deleted_agents calls

-- The cache beside the list.
abbrev pub traced_cache : {W : Type 0} → CacheStore W → CacheStore (W × List Call)
traced_cache cache = record {
  set = λ ns name field value ttl (w, calls). (cache.set ns name field value ttl w, calls);
  get = λ ns name field. read (cache.get ns name field);
  get_entry = λ ns name field. read (cache.get_entry ns name field);
  delete = λ ns name field (w, calls). (cache.delete ns name field w, calls);
  list = λ ns name. read (cache.list ns name);
  clear_agent = λ ns name (w, calls). (cache.clear_agent ns name w, calls);
}

abbrev pub created_services : List Call → List Service
created_services [] = []
created_services (create_service s ∷ calls) = s ∷ created_services calls
created_services (_ ∷ calls) = created_services calls

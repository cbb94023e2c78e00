-- ===== src/Tests/World.antt =====
-- A cluster with at most one agent, its pods and its service, whose server accepts every call; and sample
-- objects in it.
use k8sagent_orchestrator.Prelude.{ℕ, ◌+◌, true, Option, none, some, List, [], ◌∷◌, decimal}
use k8sagent_orchestrator.Prelude.Int.{pos}
use k8sagent_orchestrator.Cache.{Value, CacheStore}
use k8sagent_orchestrator.Api.{Agent, empty_meta, empty_spec, empty_status}
use k8sagent_orchestrator.Io.{Result, ok, err, ApiError, Reason}
use k8sagent_orchestrator.Kube.{Env, Pod, Service}
use k8sagent_orchestrator.Controller.Pods.{agent_finalizer, build_pod}

pub record World : Type 0 where
  pub agents : List Agent
  pub pods : List Pod
  pub services : List Service
  pub clock : ℕ
  pub cached : Option Value

abbrev pub absent : ApiError
absent = record { reason = Reason.not_found; text = "not found" }

abbrev first : {A : Type 0} → List A → Result A
first [] = err absent
first (x ∷ xs) = ok x

-- The server gives a changed agent the generation it had.
abbrev pub changed : Agent → Agent → Agent
changed base new = record new { meta = record new.meta { generation = base.meta.generation } }

abbrev pub cluster : Env World
cluster = record {
  get_agent = λ ns name w. (first w.agents, w);
  list_agents = λ ns w. (ok w.agents, w);
  create_agent = λ a w. (ok a, record w { agents = a ∷ [] });
  update_agent = λ a w. (ok a, record w { agents = a ∷ [] });
  patch_agent = λ base new w. (ok (changed base new), record w { agents = changed base new ∷ [] });
  patch_status = λ base new w. (ok new, record w { agents = new ∷ [] });
  delete_agent = λ a w. (ok tt, record w { agents = [] });
  list_pods = λ ns labels w. (ok w.pods, w);
  create_pod = λ p w. (ok tt, record w { pods = p ∷ w.pods });
  delete_pod = λ p w. (ok tt, record w { pods = [] });
  get_service = λ ns name w. (first w.services, w);
  create_service = λ s w. (ok tt, record w { services = s ∷ [] });
  patch_service = λ base s w. (ok tt, record w { services = s ∷ [] });
  delete_service = λ s w. (ok tt, record w { services = [] });
  own_pod = λ a p. ok (record p { owner = a.meta.uid });
  own_service = λ a s. ok (record s { owner = a.meta.uid });
  event = λ a event_type reason message w. w;
  now = λ w. (w.clock, w);
  sleep = λ d w. record w { clock = w.clock + d };
  timestamp = decimal;
  rfc3339 = decimal;
  history = none;
}

abbrev pub agent : Agent
agent = record {
  meta = record empty_meta {
    name = "demo";
    namespace = "default";
    labels = ("team", "a") ∷ [];
    annotations = some (("note", "x") ∷ []);
    uid = "u1";
    generation = 3;
    finalizers = agent_finalizer ∷ [];
  };
  spec = record empty_spec { image = "img"; service_port = pos 8080; idle_timeout = pos 60 };
  status = empty_status;
}

abbrev pub paused_agent : Agent
paused_agent = record agent { spec = record agent.spec { paused = true } }

abbrev pub deleted_agent : Agent
deleted_agent = record agent { meta = record agent.meta { deletion_timestamp = some 5 } }

-- The pod that was built for the agent.
abbrev pub pod : Pod
pod = record (build_pod agent) { name = "demo-1"; owner = "u1"; phase = "Running" }

abbrev pub with_agents : List Agent → List Pod → World
with_agents agents pods = record {
  agents = agents;
  pods = pods;
  services = [];
  clock = 100;
  cached = none;
}

-- A cache of one value.
abbrev pub cell : CacheStore World
cell = record {
  set = λ ns name field value ttl w. record w { cached = some value };
  get = λ ns name field w. (w.cached, w);
  get_entry = λ ns name field w. (none, w);
  delete = λ ns name field w. record w { cached = none };
  list = λ ns name w. ([], w);
  clear_agent = λ ns name w. record w { cached = none };
}

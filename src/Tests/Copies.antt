-- ===== src/Tests/Copies.antt =====
-- The theorems on deep copies, at an agent in a small memory.
use k8sagent_orchestrator.Prelude.{
  ℕ, ◌≤◌, ◌<◌, String, refl, ap, none, some, List, [], ◌∷◌, arith, if◌then◌else◌, eqb, false,
}
use k8sagent_orchestrator.Prelude.Int.{pos}
use k8sagent_orchestrator.Cache.{Time}
use k8sagent_orchestrator.Api.{EnvVar}
use k8sagent_orchestrator.Api.Heap.{
  AgentCell, AgentListCell, Cell, free, texts, labels, envs, an_agent, agent_items, an_agent_list,
  Heap, alloc, Extends-alloc,
}
use k8sagent_orchestrator.Api.Copying.{
  Foreign, texts_in, as_agent, as_agent_list, deep_copy_agent, deep_copy_agent_list,
}
use k8sagent_orchestrator.Api.Copying.Contents.{IsCopy, assigned-IsCopy}
use k8sagent_orchestrator.Api.Copying.Fields.{ForeignLaws}
use k8sagent_orchestrator.Api.Copying.Structs.{view_agent, view_agent_list}
use k8sagent_orchestrator.Api.Copying.Pointers.{
  IsApart, deep_copy_agent-IsApart, deep_copy_agent_list-IsApart,
}

-- Other foreign structures are texts that are pointed at.
abbrev Memory : Type 0
Memory = Heap EnvVar ℕ Time

abbrev copy_text : ℕ → Memory → ℕ × Memory
copy_text a h = alloc (texts (texts_in (h.cells a))) h

abbrev foreign : Foreign EnvVar ℕ Time
foreign = record {
  zero_env = record { name = ""; value = ""; value_from = "" };
  zero_item = 0;
  copy_env = λ e h. (e, h);
  copy_item = copy_text;
  copy_pointer = λ t h. (t, h);
  copy_time = λ t. t;
}

abbrev head : List String → String
head [] = ""
head (s ∷ ss) = s

copy_text-IsCopy :
    IsCopy
      (λ (h : Memory) (a : ℕ). head (texts_in (h.cells a)))
      (λ lo hi h a. (lo ≤ a) × (a < hi))
      copy_text
copy_text-IsCopy = record {
  widen = λ lo hi lo' hi' h a p q w. omega arith;
  stable = λ lo hi h h' a e w. (w, ap (λ c. head (texts_in c)) (e a w.0 w.1));
  copied = λ a h w. (Extends-alloc (texts (texts_in (h.cells a))) h, omega arith, ground arith);
}

abbrev laws : ForeignLaws foreign
laws = record {
  view_env = λ h e. e;
  WithinEnv = λ lo hi h e. Unit;
  copy_env-IsCopy = assigned-IsCopy;
  view_item = λ h a. head (texts_in (h.cells a));
  WithinItem = λ lo hi h a. (lo ≤ a) × (a < hi);
  copy_item-IsCopy = copy_text-IsCopy;
  view_time = λ h t. t;
  WithinPointer = λ lo hi h t. Unit;
  copy_pointer-IsCopy = assigned-IsCopy;
  copy_time_lem = λ t. refl;
}

abbrev the_agent : AgentCell EnvVar ℕ Time
the_agent = record {
  meta = 0;
  spec = record {
    image = "img";
    image_pull_policy = "";
    image_pull_secrets = none;
    env = some 4;
    env_from = none;
    resources = 1;
    service_account_name = "";
    command = some 2;
    args = none;
    volumes = none;
    volume_mounts = none;
    restart_policy = "";
    pod_labels = some 3;
    pod_annotations = none;
    paused = false;
    self_healing_disabled = false;
    service_port = pos 80;
    service_protocol = "";
    idle_timeout = pos 0;
  };
  status = record {
    phase = "Running";
    pod_name = "";
    pod_ip = "";
    message = "";
    observed_generation = 1;
    last_updated = some 7;
    conditions = none;
    restored_at = none;
    restored_from = "";
    service_name = "";
  };
}

abbrev the_list : AgentListCell ℕ
the_list = record { meta = 0; agents = some 6 }

abbrev cells : ℕ → Cell EnvVar ℕ Time
cells a =
    if eqb a 0
    then texts ("meta" ∷ [])
    else if eqb a 1
    then texts ("resources" ∷ [])
    else if eqb a 2
    then texts ("run" ∷ "fast" ∷ [])
    else if eqb a 3
    then labels (("team", "a") ∷ [])
    else if eqb a 4
    then envs (record { name = "A"; value = "1"; value_from = "" } ∷ [])
    else if eqb a 5
    then an_agent the_agent
    else if eqb a 6
    then agent_items (the_agent ∷ [])
    else if eqb a 7
    then an_agent_list the_list
    else free

abbrev memory : Memory
memory = record { cells = cells; next = 8 }

deep_copy_agent-IsApart_example :
    IsApart
      (view_agent foreign laws)
      as_agent
      memory
      the_agent
      (deep_copy_agent foreign (some 5) memory)
deep_copy_agent-IsApart_example =
    deep_copy_agent-IsApart foreign laws 5 the_agent memory refl (ground arith)

deep_copy_agent_list-IsApart_example :
    IsApart
      (view_agent_list foreign laws the_agent)
      as_agent_list
      memory
      the_list
      (deep_copy_agent_list foreign the_agent (some 7) memory)
deep_copy_agent_list-IsApart_example =
    deep_copy_agent_list-IsApart foreign laws the_agent 7 the_list memory refl (ground arith)

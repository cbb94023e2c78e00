-- ===== src/Api/Copying.antt =====
-- api/v1alpha1/deepcopy_extra.go and zz_generated.deepcopy.go: deep copies in memory. A `DeepCopyInto`
-- gives what it leaves in `*out`; a `DeepCopy` takes and gives a pointer.
pub mod Contents
pub mod Slices
pub mod Fields
pub mod Copiers
pub mod Structs
pub mod Pointers
use k8sagent_orchestrator.Prelude.{
  ℕ, ◌+◌, String, Option, none, some, List, [], ◌∷◌, map, if◌then◌else◌, eqb,
}
use k8sagent_orchestrator.Prelude.Map
use k8sagent_orchestrator.Prelude.Map.{Map}
use k8sagent_orchestrator.Cache.{Time}
use k8sagent_orchestrator.Api.{AgentCondition, LifecycleEvent}
use k8sagent_orchestrator.Api.Heap.{
  SpecCell, StatusCell, AgentCell, AgentListCell, Cell, texts, labels, envs, items, condition_items,
  a_condition, an_event, a_spec, a_status, an_agent, agent_items, an_agent_list, free, Heap, alloc,
  write,
}

-- The deep copies of foreign structures: `DeepCopyInto` of an `EnvVar` and of the others, `DeepCopy` of a
-- time that is pointed at, and `DeepCopyInto` of a time. A new array holds zero values.
pub record Foreign (E F T : Type 0) : Type 0 where
  pub zero_env : E
  pub zero_item : F
  pub copy_env : E → Heap E F T → E × Heap E F T
  pub copy_item : F → Heap E F T → F × Heap E F T
  pub copy_pointer : T → Heap E F T → T × Heap E F T
  pub copy_time : Time → Time

module _ {E F T : Type 0} where
  abbrev pub texts_in : Cell E F T → List String
  texts_in c = elim c [ texts xs ↦ xs | _ ↦ [] ]

  abbrev pub labels_in : Cell E F T → Map String
  labels_in c = elim c [ labels m ↦ m | _ ↦ [] ]

  abbrev pub envs_in : Cell E F T → List E
  envs_in c = elim c [ envs xs ↦ xs | _ ↦ [] ]

  abbrev pub items_in : Cell E F T → List F
  items_in c = elim c [ items xs ↦ xs | _ ↦ [] ]

  abbrev pub conditions_in : Cell E F T → List AgentCondition
  conditions_in c = elim c [ condition_items xs ↦ xs | _ ↦ [] ]

  abbrev pub agents_in : Cell E F T → List (AgentCell E F T)
  agents_in c = elim c [ agent_items xs ↦ xs | _ ↦ [] ]

  -- A loop of `DeepCopyInto` over the elements.
  unfoldable pub copy_each :
      {X : Type 0} → (X → Heap E F T → X × Heap E F T) → List X → Heap E F T → List X × Heap E F T
  copy_each f [] h = ([], h)
  copy_each f (x ∷ xs) h = let (y, h') = f x h in let (ys, h'') = copy_each f xs h' in (y ∷ ys, h'')

  -- `if in.X != nil { *out = make(.., len(*in)); for i := range *in { .. } }`
  unfoldable pub copy_slice :
      {X : Type 0}
      → (List X → Cell E F T)
      → (Cell E F T → List X)
      → X
      → (X → Heap E F T → X × Heap E F T)
      → Option ℕ
      → Heap E F T
      → Option ℕ × Heap E F T
  unfolding copy_each
  copy_slice cell items_of zero f none h = (none, h)
  copy_slice cell items_of zero f (some a) h =
      let (b, made) = alloc (cell (map (λ _. zero) (items_of (h.cells a)))) h in
      let (ys, h') = copy_each f (items_of (h.cells a)) made in (some b, write b (cell ys) h')

  -- An element that holds no pointer: assignment, as `copy(*out, *in)` does it.
  abbrev pub assigned : {X : Type 0} → X → Heap E F T → X × Heap E F T
  assigned x h = (x, h)

  unfoldable pub copy_texts : Option ℕ → Heap E F T → Option ℕ × Heap E F T
  unfolding copy_slice
  copy_texts = copy_slice texts texts_in "" assigned

  unfoldable pub copy_labels : Option ℕ → Heap E F T → Option ℕ × Heap E F T
  unfolding Map.overlay
  copy_labels none h = (none, h)
  copy_labels (some a) h =
      let (b, made) = alloc (labels []) h in
      (some b, write b (labels (Map.overlay [] (labels_in (h.cells a)))) made)

module _ {E F T : Type 0} (foreign : Foreign E F T) where
  -- `AgentCondition` and `LifecycleEvent`
  unfoldable pub condition_copy : AgentCondition → AgentCondition
  condition_copy c = record c { last_transition_time = foreign.copy_time c.last_transition_time }

  unfoldable pub event_copy : LifecycleEvent → LifecycleEvent
  event_copy e = record e { time = foreign.copy_time e.time }

  abbrev pub zero_condition : AgentCondition
  zero_condition = record {
    condition_type = "";
    status = "";
    last_transition_time = 0;
    reason = "";
    message = "";
  }

  abbrev pub copy_condition : AgentCondition → Heap E F T → AgentCondition × Heap E F T
  copy_condition c h = (condition_copy c, h)

  abbrev pub copy_event : LifecycleEvent → Heap E F T → LifecycleEvent × Heap E F T
  copy_event e h = (event_copy e, h)

  unfoldable pub copy_envs : Option ℕ → Heap E F T → Option ℕ × Heap E F T
  unfolding copy_slice
  copy_envs = copy_slice envs envs_in foreign.zero_env foreign.copy_env

  unfoldable pub copy_items : Option ℕ → Heap E F T → Option ℕ × Heap E F T
  unfolding copy_slice
  copy_items = copy_slice items items_in foreign.zero_item foreign.copy_item

  unfoldable pub copy_conditions : Option ℕ → Heap E F T → Option ℕ × Heap E F T
  unfolding copy_slice condition_copy
  copy_conditions = copy_slice condition_items conditions_in zero_condition copy_condition

  unfoldable pub copy_pointer : Option T → Heap E F T → Option T × Heap E F T
  copy_pointer none h = (none, h)
  copy_pointer (some t) h = let (t', h') = foreign.copy_pointer t h in (some t', h')

  -- `DeepCopyInto` of `AgentSpec`
  unfoldable pub copy_spec : SpecCell E F → Heap E F T → SpecCell E F × Heap E F T
  unfolding copy_texts copy_labels copy_envs copy_items
  copy_spec s h =
      let (image_pull_secrets, h1) = copy_texts s.image_pull_secrets h in
      let (env, h2) = copy_envs s.env h1 in
      let (env_from, h3) = copy_items s.env_from h2 in
      let (resources, h4) = foreign.copy_item s.resources h3 in
      let (command, h5) = copy_texts s.command h4 in
      let (args, h6) = copy_texts s.args h5 in
      let (volumes, h7) = copy_items s.volumes h6 in
      let (volume_mounts, h8) = copy_items s.volume_mounts h7 in
      let (pod_labels, h9) = copy_labels s.pod_labels h8 in
      let (pod_annotations, h10) = copy_labels s.pod_annotations h9 in
      (
        record s {
          image_pull_secrets = image_pull_secrets;
          env = env;
          env_from = env_from;
          resources = resources;
          command = command;
          args = args;
          volumes = volumes;
          volume_mounts = volume_mounts;
          pod_labels = pod_labels;
          pod_annotations = pod_annotations;
        },
        h10,
      )

  -- `DeepCopyInto` of `AgentStatus`
  unfoldable pub copy_status : StatusCell T → Heap E F T → StatusCell T × Heap E F T
  unfolding copy_pointer copy_conditions
  copy_status s h =
      let (last_updated, h1) = copy_pointer s.last_updated h in
      let (conditions, h2) = copy_conditions s.conditions h1 in
      let (restored_at, h3) = copy_pointer s.restored_at h2 in
      (
        record s {
          last_updated = last_updated;
          conditions = conditions;
          restored_at = restored_at;
        },
        h3,
      )

  -- `DeepCopyInto` of `Agent`
  unfoldable pub copy_agent : AgentCell E F T → Heap E F T → AgentCell E F T × Heap E F T
  unfolding copy_spec copy_status
  copy_agent a h =
      let (meta, h1) = foreign.copy_item a.meta h in
      let (spec, h2) = copy_spec a.spec h1 in
      let (status, h3) = copy_status a.status h2 in
      (record { meta = meta; spec = spec; status = status }, h3)

  -- The items of `AgentList`. `zero` is an `Agent` with zero fields.
  unfoldable pub copy_agents : AgentCell E F T → Option ℕ → Heap E F T → Option ℕ × Heap E F T
  unfolding copy_slice copy_agent
  copy_agents zero = copy_slice agent_items agents_in zero copy_agent

  -- `DeepCopyInto` of `AgentList`
  unfoldable pub copy_agent_list :
      AgentCell E F T → AgentListCell F → Heap E F T → AgentListCell F × Heap E F T
  unfolding copy_agents
  copy_agent_list zero l h =
      let (meta, h1) = foreign.copy_item l.meta h in
      let (agents, h2) = copy_agents zero l.agents h1 in
      (record { meta = meta; agents = agents }, h2)

module _ {E F T : Type 0} where
  -- `if in == nil { return nil }; out := new(X); in.DeepCopyInto(out); return out`
  unfoldable pub deep_copy :
      {X : Type 0}
      → (X → Cell E F T)
      → (Cell E F T → Option X)
      → (X → Heap E F T → X × Heap E F T)
      → Option ℕ
      → Heap E F T
      → Option ℕ × Heap E F T
  deep_copy cell as_x into none h = (none, h)
  deep_copy cell as_x into (some a) h = elim (as_x (h.cells a)) [
    | none ↦ (none, h)
    | some x ↦
        let (b, made) = alloc free h in let (y, h') = into x made in (some b, write b (cell y) h')
  ]

  abbrev pub as_spec : Cell E F T → Option (SpecCell E F)
  as_spec c = elim c [ a_spec s ↦ some s | _ ↦ none ]

  abbrev pub as_status : Cell E F T → Option (StatusCell T)
  as_status c = elim c [ a_status s ↦ some s | _ ↦ none ]

  abbrev pub as_agent : Cell E F T → Option (AgentCell E F T)
  as_agent c = elim c [ an_agent a ↦ some a | _ ↦ none ]

  abbrev pub as_agent_list : Cell E F T → Option (AgentListCell F)
  as_agent_list c = elim c [ an_agent_list l ↦ some l | _ ↦ none ]

  abbrev pub as_condition : Cell E F T → Option AgentCondition
  as_condition c = elim c [ a_condition d ↦ some d | _ ↦ none ]

  abbrev pub as_event : Cell E F T → Option LifecycleEvent
  as_event c = elim c [ an_event e ↦ some e | _ ↦ none ]

-- `DeepCopy` of each type
module _ {E F T : Type 0} (foreign : Foreign E F T) where
  unfoldable pub deep_copy_spec : Option ℕ → Heap E F T → Option ℕ × Heap E F T
  unfolding deep_copy copy_spec
  deep_copy_spec = deep_copy a_spec as_spec (copy_spec foreign)

  unfoldable pub deep_copy_status : Option ℕ → Heap E F T → Option ℕ × Heap E F T
  unfolding deep_copy copy_status
  deep_copy_status = deep_copy a_status as_status (copy_status foreign)

  unfoldable pub deep_copy_condition : Option ℕ → Heap E F T → Option ℕ × Heap E F T
  unfolding deep_copy
  deep_copy_condition = deep_copy a_condition as_condition (copy_condition foreign)

  unfoldable pub deep_copy_event : Option ℕ → Heap E F T → Option ℕ × Heap E F T
  unfolding deep_copy
  deep_copy_event = deep_copy an_event as_event (copy_event foreign)

  -- `DeepCopyObject` of `Agent` and `AgentList` gives the same pointer.
  unfoldable pub deep_copy_agent : Option ℕ → Heap E F T → Option ℕ × Heap E F T
  unfolding deep_copy copy_agent
  deep_copy_agent = deep_copy an_agent as_agent (copy_agent foreign)

  unfoldable pub deep_copy_agent_list :
      AgentCell E F T → Option ℕ → Heap E F T → Option ℕ × Heap E F T
  unfolding deep_copy copy_agent_list
  deep_copy_agent_list zero = deep_copy an_agent_list as_agent_list (copy_agent_list foreign zero)

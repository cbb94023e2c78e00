-- ===== src/Api/Copying/Structs.antt =====
-- The deep copies of `AgentSpec`, `AgentStatus`, `Agent` and `AgentList`, field after field.
use k8sagent_orchestrator.Prelude.{ℕ, String, refl, Option, List}
use k8sagent_orchestrator.Prelude.Map.{Map}
use k8sagent_orchestrator.Cache.{Time}
use k8sagent_orchestrator.Api.{Json, EnvVar, AgentCondition, AgentSpec, AgentStatus}
use k8sagent_orchestrator.Api.Heap.{
  SpecCell, StatusCell, AgentCell, AgentListCell, agent_items, Heap,
}
use k8sagent_orchestrator.Api.Copying.{
  Foreign, agents_in, copy_texts, copy_envs, copy_items, copy_conditions, copy_slice, copy_spec,
  copy_status, copy_agent, copy_agents, copy_agent_list,
}
use k8sagent_orchestrator.Api.Copying.Contents.{IsCopy}
use k8sagent_orchestrator.Api.Copying.Slices.{copy_slice-IsCopy}
use k8sagent_orchestrator.Api.Copying.Fields.{ForeignLaws}
use k8sagent_orchestrator.Api.Copying.Copiers.{
  Copier, both, by_fields-IsCopy, texts_copier, envs_copier, items_copier, conditions_copier,
  item_copier, labels_copier, pointer_copier,
}

module _ {E F T : Type 0} (foreign : Foreign E F T) (laws : ForeignLaws foreign) where
  abbrev spec_copier :
      Copier E F T
        (Option ℕ
          × (Option ℕ
              × (Option ℕ
                  × (F
                      × (Option ℕ
                          × (Option ℕ × (Option ℕ × (Option ℕ × (Option ℕ × Option ℕ)))))))))
        (List String
          × (List EnvVar
              × (List Json
                  × (Json
                      × (List String
                          × (List String
                              × (List Json × (List Json × (Map String × Map String)))))))))
  spec_copier = both (texts_copier foreign laws) (
      both (envs_copier foreign laws) (
        both (items_copier foreign laws) (
          both (item_copier foreign laws) (
            both (texts_copier foreign laws) (
              both (texts_copier foreign laws) (
                both (items_copier foreign laws) (
                  both (items_copier foreign laws)
                    (both (labels_copier foreign laws) (labels_copier foreign laws)))))))))

  abbrev spec_fields :
      SpecCell E F
      → Option ℕ
        × (Option ℕ
            × (Option ℕ
                × (F × (Option ℕ × (Option ℕ × (Option ℕ × (Option ℕ × (Option ℕ × Option ℕ))))))))
  spec_fields s = (
    s.image_pull_secrets,
    (
      s.env,
      (
        s.env_from,
        (
          s.resources,
          (s.command, (s.args, (s.volumes, (s.volume_mounts, (s.pod_labels, s.pod_annotations))))),
        ),
      ),
    ),
  )

  abbrev spec_put :
      SpecCell E F
      → Option ℕ
        × (Option ℕ
            × (Option ℕ
                × (F × (Option ℕ × (Option ℕ × (Option ℕ × (Option ℕ × (Option ℕ × Option ℕ))))))))
      → SpecCell E F
  spec_put s y = record s {
    image_pull_secrets = y.0;
    env = y.1.0;
    env_from = y.1.1.0;
    resources = y.1.1.1.0;
    command = y.1.1.1.1.0;
    args = y.1.1.1.1.1.0;
    volumes = y.1.1.1.1.1.1.0;
    volume_mounts = y.1.1.1.1.1.1.1.0;
    pod_labels = y.1.1.1.1.1.1.1.1.0;
    pod_annotations = y.1.1.1.1.1.1.1.1.1;
  }

  abbrev spec_built :
      SpecCell E F
      → List String
        × (List EnvVar
            × (List Json
                × (Json
                    × (List String
                        × (List String × (List Json × (List Json × (Map String × Map String))))))))
      → AgentSpec
  spec_built s v = record {
    image = s.image;
    image_pull_policy = s.image_pull_policy;
    image_pull_secrets = v.0;
    env = v.1.0;
    env_from = v.1.1.0;
    resources = v.1.1.1.0;
    service_account_name = s.service_account_name;
    command = v.1.1.1.1.0;
    args = v.1.1.1.1.1.0;
    volumes = v.1.1.1.1.1.1.0;
    volume_mounts = v.1.1.1.1.1.1.1.0;
    restart_policy = s.restart_policy;
    pod_labels = v.1.1.1.1.1.1.1.1.0;
    pod_annotations = v.1.1.1.1.1.1.1.1.1;
    paused = s.paused;
    self_healing_disabled = s.self_healing_disabled;
    service_port = s.service_port;
    service_protocol = s.service_protocol;
    idle_timeout = s.idle_timeout;
  }

  abbrev pub view_spec : Heap E F T → SpecCell E F → AgentSpec
  view_spec h s = spec_built s (spec_copier.view h (spec_fields s))

  abbrev pub WithinSpec : ℕ → ℕ → Heap E F T → SpecCell E F → Type 0
  WithinSpec lo hi h s = spec_copier.Within lo hi h (spec_fields s)

  pub copy_spec-IsCopy : IsCopy view_spec WithinSpec (copy_spec foreign)
  unfolding copy_spec copy_texts copy_envs copy_items
  copy_spec-IsCopy =
      by_fields-IsCopy spec_copier spec_fields spec_put spec_built (λ x y. refl) (λ x y u. refl)

  abbrev status_copier :
      Copier E F T
        (Option T × (Option ℕ × Option T))
        (Option Time × (List AgentCondition × Option Time))
  status_copier =
      both (pointer_copier foreign laws)
        (both (conditions_copier foreign laws) (pointer_copier foreign laws))

  abbrev status_fields : StatusCell T → Option T × (Option ℕ × Option T)
  status_fields s = (s.last_updated, (s.conditions, s.restored_at))

  abbrev status_built :
      StatusCell T → Option Time × (List AgentCondition × Option Time) → AgentStatus
  status_built s v = record {
    phase = s.phase;
    pod_name = s.pod_name;
    pod_ip = s.pod_ip;
    message = s.message;
    observed_generation = s.observed_generation;
    last_updated = v.0;
    conditions = v.1.0;
    restored_at = v.1.1;
    restored_from = s.restored_from;
    service_name = s.service_name;
  }

  abbrev pub view_status : Heap E F T → StatusCell T → AgentStatus
  view_status h s = status_built s (status_copier.view h (status_fields s))

  abbrev pub WithinStatus : ℕ → ℕ → Heap E F T → StatusCell T → Type 0
  WithinStatus lo hi h s = status_copier.Within lo hi h (status_fields s)

  pub copy_status-IsCopy : IsCopy view_status WithinStatus (copy_status foreign)
  unfolding copy_status copy_conditions
  copy_status-IsCopy =
      by_fields-IsCopy status_copier status_fields
        (λ s y. record s { last_updated = y.0; conditions = y.1.0; restored_at = y.1.1 })
        status_built (λ x y. refl) (λ x y u. refl)

  abbrev agent_copier :
      Copier E F T (F × (SpecCell E F × StatusCell T)) (Json × (AgentSpec × AgentStatus))
  agent_copier = both (item_copier foreign laws) (
      both
        (record {
          view = view_spec;
          Within = WithinSpec;
          copy = copy_spec foreign;
          deep = copy_spec-IsCopy;
        })
        (record {
          view = view_status;
          Within = WithinStatus;
          copy = copy_status foreign;
          deep = copy_status-IsCopy;
        }))

  abbrev pub view_agent : Heap E F T → AgentCell E F T → Json × (AgentSpec × AgentStatus)
  view_agent h a = (laws.view_item h a.meta, (view_spec h a.spec, view_status h a.status))

  abbrev pub WithinAgent : ℕ → ℕ → Heap E F T → AgentCell E F T → Type 0
  WithinAgent lo hi h a =
      laws.WithinItem lo hi h a.meta × (WithinSpec lo hi h a.spec × WithinStatus lo hi h a.status)

  pub copy_agent-IsCopy : IsCopy view_agent WithinAgent (copy_agent foreign)
  unfolding copy_agent
  copy_agent-IsCopy =
      by_fields-IsCopy agent_copier (λ a. (a.meta, (a.spec, a.status)))
        (λ a y. record { meta = y.0; spec = y.1.0; status = y.1.1 }) (λ a v. v) (λ x y. refl)
        (λ x y u. refl)

  module _ (zero : AgentCell E F T) where
    abbrev agents_copier : Copier E F T (Option ℕ) (List (Json × (AgentSpec × AgentStatus)))
    agents_copier = record {
      view = _;
      Within = _;
      copy = copy_slice agent_items agents_in zero (copy_agent foreign);
      deep =
          copy_slice-IsCopy view_agent WithinAgent (copy_agent foreign) copy_agent-IsCopy
            agent_items agents_in zero (λ xs. refl);
    }

    abbrev pub view_agent_list :
        Heap E F T → AgentListCell F → Json × List (Json × (AgentSpec × AgentStatus))
    view_agent_list h l = (laws.view_item h l.meta, agents_copier.view h l.agents)

    abbrev pub WithinAgentList : ℕ → ℕ → Heap E F T → AgentListCell F → Type 0
    WithinAgentList lo hi h l =
        laws.WithinItem lo hi h l.meta × agents_copier.Within lo hi h l.agents

    pub copy_agent_list-IsCopy :
        IsCopy view_agent_list WithinAgentList (copy_agent_list foreign zero)
    unfolding copy_agent_list copy_agents
    copy_agent_list-IsCopy =
        by_fields-IsCopy (both (item_copier foreign laws) agents_copier) (λ l. (l.meta, l.agents))
          (λ l y. record { meta = y.0; agents = y.1 }) (λ l v. v) (λ x y. refl) (λ x y u. refl)

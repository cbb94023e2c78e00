-- ===== src/Rest/Lifecycle/Recorded.antt =====
-- What the history endpoint shows after a lifecycle endpoint, over any history that keeps its laws.
use k8sagent_orchestrator.Prelude.{String, ◌≡◌, ap, ◌∙◌, Option, none, some, arith}
use k8sagent_orchestrator.Api.{Agent}
use k8sagent_orchestrator.History.{HistoryStore}
use k8sagent_orchestrator.History.Laws.{newest_of, HistoryLaws}
use k8sagent_orchestrator.Io.{ok}
use k8sagent_orchestrator.Kube.{Env}
use k8sagent_orchestrator.Rest.{Request, Response, history_body, ns_name}
use k8sagent_orchestrator.Rest.Crud.{handle_get_agent_history}
use k8sagent_orchestrator.Rest.Lifecycle.{
  handle_restart_agent, handle_stop_agent, handle_start_agent, handle_disable_self_healing,
  handle_enable_self_healing,
}
use k8sagent_orchestrator.Rest.Lifecycle.Effects.{
  Action, restart, stop, start, disable_healing, enable_healing, run, reason_of,
}

abbrev heading : Option (String × (String × String)) → Option (String × String)
heading none = none
heading (some (event_type, (reason, message))) = some (event_type, reason)

-- The type and the reason of the newest event that an answer shows.
abbrev pub shown : Response → Option (String × String)
shown answer = elim answer.content [
  | history_body name count events ↦ heading (newest_of events)
  | _ ↦ none
]

module _ {W : Type 0} (env : Env W) (store : HistoryStore W) (laws : HistoryLaws store)
    (enabled : env.history ≡ some store) where
  abbrev newest_at : Request → W → Option (String × String)
  newest_at c w = heading (laws.newest w (ns_name c).0 (ns_name c).1)

  listed :
      (c : Request) (agent : Agent) (w : W)
      → (env.get_agent (ns_name c).0 (ns_name c).1 w).0 ≡ ok agent
      → shown (handle_get_agent_history env c w).0
        ≡ newest_at c (env.get_agent (ns_name c).0 (ns_name c).1 w).1
  unfolding handle_get_agent_history
  listed c agent w found =
      let (ns, name) = ns_name c in
      let list_lem = laws.list-newest ns name (env.get_agent ns name w).1 in ground arith

  run-newest :
      (x : Action) (c : Request) (w : W)
      → (run env x c w).0.code ≡ 200
      → newest_at c (run env x c w).1 ≡ some ("Normal", reason_of x)
  unfolding handle_restart_agent handle_stop_agent handle_start_agent handle_disable_self_healing
      handle_enable_self_healing
  run-newest restart c w done = grind (arith, laws.newest-append)
  run-newest stop c w done = grind (arith, laws.newest-append)
  run-newest start c w done = grind (arith, laws.newest-append)
  run-newest disable_healing c w done = grind (arith, laws.newest-append)
  run-newest enable_healing c w done = grind (arith, laws.newest-append)

  -- After a lifecycle endpoint answered 200, the history endpoint, where it finds the agent, shows the event of
  -- the operation as the newest; over any history that keeps its laws and that a read of an agent leaves
  -- alone.
  pub run-shown :
      ((ns name : String) (w : W) (a b : String)
        → laws.newest (env.get_agent ns name w).1 a b ≡ laws.newest w a b)
      → (x : Action) (c : Request) (agent : Agent) (w : W) → (run env x c w).0.code ≡ 200
      → (env.get_agent (ns_name c).0 (ns_name c).1 (run env x c w).1).0 ≡ ok agent
      → shown (handle_get_agent_history env c (run env x c w).1).0 ≡ some ("Normal", reason_of x)
  run-shown kept x c agent w done found =
      let (ns, name) = ns_name c in
      listed c agent (run env x c w).1 found
      ∙ ap heading (kept ns name (run env x c w).1 ns name)
      ∙ run-newest x c w done

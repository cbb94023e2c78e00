-- ===== src/History/Memory.antt =====
-- internal/history/history.go: `InMemoryHistory`.
pub mod Refinement
pub mod Store
use k8sagent_orchestrator.Prelude.{
  ℕ, ◌-◌, String, Option, none, some, List, [], ◌∷◌, ◌++◌, ltb, if◌then◌else◌, length, drop,
}
use k8sagent_orchestrator.Prelude.Int.{ℤ}
use k8sagent_orchestrator.Prelude.Map
use k8sagent_orchestrator.Prelude.Map.{Map}
use k8sagent_orchestrator.Cache.{Time}
use k8sagent_orchestrator.Api.{LifecycleEvent}
use k8sagent_orchestrator.History.{agent_key, effective_max}

pub record InMemoryHistory : Type 0 where
  pub events : Map (List LifecycleEvent)
  pub max_entries : ℕ

unfoldable pub new_in_memory_history : ℤ → InMemoryHistory
unfolding effective_max
new_in_memory_history max_entries = record { events = []; max_entries = effective_max max_entries }

-- `m.events[key]`, nil where there is none.
abbrev pub at : Option (List LifecycleEvent) → List LifecycleEvent
at none = []
at (some events) = events

-- `if len(events) > max { events = events[len(events)-max:] }`
abbrev evict : ℕ → List LifecycleEvent → List LifecycleEvent
evict max events = if ltb max (length events) then drop (length events - max) events else events

-- `now` is the reading of `metav1.Now()`.
unfoldable pub append :
    InMemoryHistory → String → String → String → String → String → Time → InMemoryHistory
append m namespace name event_type reason message now =
    let key = agent_key namespace name in
    let event : LifecycleEvent = record {
      time = now;
      reason = reason;
      event_type = event_type;
      message = message;
    } in
    record m {
      events =
          Map.insert key (evict m.max_entries (at (Map.lookup key m.events) ++ event ∷ []))
            m.events;
    }

unfoldable pub list : InMemoryHistory → String → String → List LifecycleEvent
list m namespace name = at (Map.lookup (agent_key namespace name) m.events)

unfoldable pub clear : InMemoryHistory → String → String → InMemoryHistory
clear m namespace name = record m { events = Map.remove (agent_key namespace name) m.events }

-- ===== src/History/Memory/Store.antt =====
-- `InMemoryHistory` as a `HistoryStore`: its events beside a world whose clock it reads.
use k8sagent_orchestrator.Prelude.{
  ℕ, zero, suc, ◌-◌, ◌≤◌, ◌<◌, ◌≡◌, refl, ap, ◌∙◌, some, List, [], ◌∷◌, ◌++◌, arith, length, drop,
  length-append,
}
use k8sagent_orchestrator.Prelude.Int.{ℤ}
use k8sagent_orchestrator.Prelude.Map
use k8sagent_orchestrator.Prelude.Map.{Map, lookup-insert_self}
use k8sagent_orchestrator.Cache.{Time}
use k8sagent_orchestrator.Api.{LifecycleEvent}
use k8sagent_orchestrator.History.{HistoryStore, agent_key, effective_max}
use k8sagent_orchestrator.History.Laws.{newest_of, HistoryLaws}
use k8sagent_orchestrator.History.Memory.{InMemoryHistory, at, evict, append, list, clear}

module _ {W : Type 0} (max : ℤ) (clock : W → Time × W) where
  -- The store with these events; its limit never changes.
  abbrev pub holding : Map (List LifecycleEvent) → InMemoryHistory
  holding events = record { events = events; max_entries = effective_max max }

  unfoldable pub in_memory_history : HistoryStore (Map (List LifecycleEvent) × W)
  in_memory_history = record {
    append = λ namespace name event_type reason message (m, w).
        let (now, w') = clock w in
        ((append (holding m) namespace name event_type reason message now).events, w');
    list = λ namespace name (m, w). (list (holding m) namespace name, (m, w));
    clear = λ namespace name (m, w). ((clear (holding m) namespace name).events, w);
  }

  newest_of-drop :
      (k : ℕ) (events : List LifecycleEvent) (e : LifecycleEvent)
      → k ≤ length events
      → newest_of (drop k (events ++ e ∷ [])) ≡ some (e.event_type, (e.reason, e.message))
  newest_of-drop zero [] e h = refl
  newest_of-drop zero (f ∷ []) e h = refl
  newest_of-drop zero (f ∷ g ∷ events) e h = newest_of-drop zero (g ∷ events) e (omega arith)
  newest_of-drop (suc k) [] e h = elim h [ ]
  newest_of-drop (suc k) (f ∷ events) e h = newest_of-drop k events e (omega arith)

  positive : 0 < effective_max max
  unfolding effective_max
  positive = ground arith

  newest_of-evict :
      (n : ℕ) (events : List LifecycleEvent) (e : LifecycleEvent)
      → 0 < n
      → newest_of (evict n (events ++ e ∷ [])) ≡ some (e.event_type, (e.reason, e.message))
  newest_of-evict n events e h =
      let size = length-append events (e ∷ []) in
      ground
        (arith, newest_of-drop 0 events e, newest_of-drop (length (events ++ e ∷ []) - n) events e)

  pub in_memory_history_laws : HistoryLaws in_memory_history
  unfolding in_memory_history list append
  in_memory_history_laws = record {
    newest = λ (m, w) namespace name. newest_of (at (Map.lookup (agent_key namespace name) m));
    list-newest = λ namespace name (m, w). refl;
    newest-append = λ namespace name event_type reason message (m, w).
        ap (λ o. newest_of (at o)) (lookup-insert_self (agent_key namespace name) _ m)
        ∙ newest_of-evict (effective_max max) (at (Map.lookup (agent_key namespace name) m)) _
            positive;
  }

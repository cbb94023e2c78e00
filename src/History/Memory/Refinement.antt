-- ===== src/History/Memory/Refinement.antt =====
-- `InMemoryHistory` against the specification of History/Log.antt.
use k8sagent_orchestrator.Prelude.{
  ℕ, ◌-◌, String, ◌≡◌, refl, sym, ap, ◌&&◌, List, [], ◌∷◌, ◌++◌, arith, ◌==◌, eq_iff, if◌then◌else◌,
  length, drop, ltb, Bool-cases, inl, inr, All,
}
use k8sagent_orchestrator.Prelude.Int.{ℤ}
use k8sagent_orchestrator.Prelude.Map
use k8sagent_orchestrator.Prelude.Map.{lookup-insert, lookup-remove}
use k8sagent_orchestrator.Cache.{Time}
use k8sagent_orchestrator.Api.{LifecycleEvent}
use k8sagent_orchestrator.History.{agent_key, effective_max}
use k8sagent_orchestrator.History.Keys.{IsNamespace, agent_key-eq}
use k8sagent_orchestrator.History.Log.{Op, event_of, recorded, last_n, last_n-nil, trimmed, IsNamed}
use k8sagent_orchestrator.History.Memory.{
  InMemoryHistory, new_in_memory_history, at, evict, append, list, clear,
}

unfoldable pub apply : Op → InMemoryHistory → InMemoryHistory
apply (Op.append ns name event_type reason message now) m =
    append m ns name event_type reason message now
apply (Op.clear ns name) m = clear m ns name

-- The store after a log of calls, the newest first.
unfoldable pub after : ℤ → List Op → InMemoryHistory
unfolding apply
after max [] = new_in_memory_history max
after max (op ∷ log) = apply op (after max log)

evict-last_n : (max : ℕ) (events : List LifecycleEvent) → evict max events ≡ last_n max events
evict-last_n max events = elim (Bool-cases (ltb max (length events))) [
  | inl more ↦ rw more refl
  | inr few ↦
      let none_over : length events - max ≡ 0 = ground arith in
      rw few (sym (ap (λ i. drop i events) none_over))
]

-- The events of a key.
stored : InMemoryHistory → String → List LifecycleEvent
stored m key = at (Map.lookup key m.events)

stored-append :
    (m : InMemoryHistory) (ns name event_type reason message : String) (now : Time) (k : String)
    → let key = agent_key ns name in
      stored (append m ns name event_type reason message now) k ≡ (
        if key == k
        then last_n m.max_entries (stored m k ++ event_of event_type reason message now ∷ [])
        else stored m k)
unfolding append stored
stored-append m ns name event_type reason message now k =
    let key = agent_key ns name in
    let more = stored m key ++ event_of event_type reason message now ∷ [] in
    ground (
      arith,
      eq_iff key k,
      lookup-insert key k (evict m.max_entries more) m.events,
      evict-last_n m.max_entries more,
    )

stored-clear :
    (m : InMemoryHistory) (ns name k : String)
    → stored (clear m ns name) k ≡ (if agent_key ns name == k then [] else stored m k)
unfolding clear stored
stored-clear m ns name k = ground (arith, lookup-remove (agent_key ns name) k m.events)

max_entries-after : (max : ℤ) (log : List Op) → (after max log).max_entries ≡ effective_max max
unfolding after append clear new_in_memory_history
max_entries-after max [] = refl
max_entries-after max (Op.append ns name event_type reason message now ∷ log) =
    max_entries-after max log
max_entries-after max (Op.clear ns name ∷ log) = max_entries-after max log

stored-after :
    (max : ℤ) (log : List Op) (ns name : String)
    → IsNamespace ns
    → All IsNamed log
    → stored (after max log) (agent_key ns name) ≡ last_n (effective_max max) (recorded log ns name)
unfolding after recorded stored new_in_memory_history Map.lookup
stored-after max [] ns name n h = sym (last_n-nil (effective_max max))
stored-after max (Op.append a b event_type reason message now ∷ log) ns name n (ok, h) =
    rw (stored-append (after max log) a b event_type reason message now (agent_key ns name)) (
      rw (agent_key-eq a b ns name ok n) (
        rw (stored-after max log ns name n h, max_entries-after max log)
          (trimmed (a == ns && b == name) (effective_max max) (recorded log ns name)
            (event_of event_type reason message now ∷ []))))
stored-after max (Op.clear a b ∷ log) ns name n (ok, h) =
    rw (stored-clear (after max log) a b (agent_key ns name))
      (rw (agent_key-eq a b ns name ok n) (ground (arith, stored-after max log ns name n h)))

-- After any calls on any agents, the history of an agent lists the newest `max` of its events since
-- it was last cleared, oldest first; a `max` of 0 or less counts as 1000. Namespaces hold no slash.
pub list-after :
    (max : ℤ) (log : List Op) (ns name : String)
    → IsNamespace ns
    → All IsNamed log
    → list (after max log) ns name ≡ last_n (effective_max max) (recorded log ns name)
unfolding list stored
list-after max log ns name n h = stored-after max log ns name n h

-- ===== src/Cache/Memory/Valid.antt =====
-- Distinct keys in the in-memory cache, operation by operation.
use k8sagent_orchestrator.Prelude.{String, not, [], ◌∷◌, arith, ◌==◌, Bool-cases, inl, inr}
use k8sagent_orchestrator.Prelude.Map
use k8sagent_orchestrator.Prelude.Map.{
  Map, lookup-insert, lookup-remove, lookup_of_IsFresh, IsFresh, HasDistinctKeys,
  insert-HasDistinctKeys, remove-HasDistinctKeys, select-HasDistinctKeys, lookup-select,
}
use k8sagent_orchestrator.Cache.{Time, Duration, Value, Entry, is_expired, expiry}
use k8sagent_orchestrator.Cache.Memory.{
  AgentCache, InMemoryCache, agent_key, set, delete, clear_agent, gc_agent,
}
use k8sagent_orchestrator.Cache.Memory.Views.{table, AllDistinct, IsValid, table-HasDistinctKeys}

insert-AllDistinct :
    (key : String) (ac : AgentCache) (m : Map AgentCache)
    → HasDistinctKeys ac.entries
    → AllDistinct m
    → AllDistinct (Map.insert key ac m)
unfolding Map.insert
insert-AllDistinct key ac [] d h = (d, tt)
insert-AllDistinct key ac ((k, a) ∷ m) d h = elim (Bool-cases (k == key)) [
  | inl e ↦ rw e (d, h.1)
  | inr e ↦ rw e (h.0, insert-AllDistinct key ac m d h.1)
]

remove-AllDistinct :
    (key : String) (m : Map AgentCache) → AllDistinct m → AllDistinct (Map.remove key m)
unfolding Map.remove
remove-AllDistinct key [] h = tt
remove-AllDistinct key ((k, a) ∷ m) h = elim (Bool-cases (k == key)) [
  | inl e ↦ rw e (remove-AllDistinct key m h.1)
  | inr e ↦ rw e (h.0, remove-AllDistinct key m h.1)
]

-- ---------------------------------------------------------------- tables after each operation

pub set-IsValid :
    (m : InMemoryCache) (namespace name field : String) (value : Value) (ttl : Duration)
    (created now : Time)
    → IsValid m
    → IsValid (set m namespace name field value ttl created now)
unfolding set table
set-IsValid m namespace name field value ttl created now v =
    let key = agent_key namespace name in
    let entry : Entry = record {
      value = value;
      created_at = created;
      expires_at = expiry ttl now;
    } in
    let ac : AgentCache = record { entries = [] } in
    let full : AgentCache = record { entries = Map.insert field entry (table m key) } in
    let d = insert-HasDistinctKeys field entry (table m key) (table-HasDistinctKeys m key v) in
    ground (
      arith,
      insert-AllDistinct key full m.agents d v,
      insert-AllDistinct key full (Map.insert key ac m.agents) d
          (insert-AllDistinct key ac m.agents tt v),
    )

pub delete-IsValid :
    (m : InMemoryCache) (namespace name field : String)
    → IsValid m
    → IsValid (delete m namespace name field)
unfolding delete table
delete-IsValid m namespace name field v =
    let key = agent_key namespace name in
    ground (
      arith,
      insert-AllDistinct key (record { entries = Map.remove field (table m key) }) m.agents
          (remove-HasDistinctKeys field (table m key) (table-HasDistinctKeys m key v)) v,
    )

pub clear_agent-IsValid :
    (m : InMemoryCache) (namespace name : String)
    → IsValid m
    → IsValid (clear_agent m namespace name)
unfolding clear_agent
clear_agent-IsValid m namespace name v = remove-AllDistinct (agent_key namespace name) m.agents v

pub gc_agent-IsValid :
    (m : InMemoryCache) (key : String) (now : String → Time)
    → IsValid m
    → IsValid (gc_agent m key now)
unfolding gc_agent table
gc_agent-IsValid m key now v =
    let p = λ (field : String) (e : Entry). not (is_expired e (now field)) in
    ground (
      arith,
      insert-AllDistinct key (record { entries = Map.select p (table m key) }) m.agents
          (select-HasDistinctKeys p (table m key) (table-HasDistinctKeys m key v)) v,
    )

-- ---------------------------------------------------------------- reads

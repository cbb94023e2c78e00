-- ===== src/Cache/Memory/Views.antt =====
-- What each operation of `InMemoryCache` does to the table of an agent, seen through lookups.
use k8sagent_orchestrator.Prelude.{
  String, ◌≡◌, refl, not, ◌&&◌, Option, none, some, [], ◌∷◌, arith, ◌==◌, eq_iff, if◌then◌else◌,
  Bool-cases, inl, inr,
}
use k8sagent_orchestrator.Prelude.Map
use k8sagent_orchestrator.Prelude.Map.{
  Map, lookup-insert, lookup-remove, lookup_of_IsFresh, IsFresh, HasDistinctKeys,
  insert-HasDistinctKeys, remove-HasDistinctKeys, select-HasDistinctKeys, lookup-select,
}
use k8sagent_orchestrator.Cache.{Time, Duration, Value, Entry, is_expired, expiry}
use k8sagent_orchestrator.Cache.Memory.{
  AgentCache, InMemoryCache, new_in_memory_cache, agent_key, set, get, get_entry, delete, list,
  clear_agent, gc_agent,
}

abbrev pub entries_of : Option AgentCache → Map Entry
entries_of none = []
entries_of (some ac) = ac.entries

-- The table of an agent, empty where there is none.
unfoldable pub table : InMemoryCache → String → Map Entry
table m key = entries_of (Map.lookup key m.agents)

-- The stored entry, expired or not.
unfoldable pub view : InMemoryCache → String → String → Option Entry
view m key field = Map.lookup field (table m key)

abbrev pub fresh : Option Entry → Time → Option Entry
fresh none t = none
fresh (some e) t = if is_expired e t then none else some e

-- The tables of a cache hold each field once: Go's maps cannot do otherwise.
abbrev pub AllDistinct : Map AgentCache → Type 0
AllDistinct [] = Unit
AllDistinct ((k, ac) ∷ m) = HasDistinctKeys ac.entries × AllDistinct m

abbrev pub IsValid : InMemoryCache → Type 0
IsValid m = AllDistinct m.agents

pub entries_of-HasDistinctKeys :
    (key : String) (m : Map AgentCache)
    → AllDistinct m
    → HasDistinctKeys (entries_of (Map.lookup key m))
unfolding Map.lookup
entries_of-HasDistinctKeys key [] h = tt
entries_of-HasDistinctKeys key ((k, ac) ∷ m) h = elim (Bool-cases (k == key)) [
  | inl e ↦ rw e h.0
  | inr e ↦ rw e (entries_of-HasDistinctKeys key m h.1)
]

pub table-HasDistinctKeys :
    (m : InMemoryCache) (key : String) → IsValid m → HasDistinctKeys (table m key)
unfolding table
table-HasDistinctKeys m key v = entries_of-HasDistinctKeys key m.agents v

table-set :
    (m : InMemoryCache) (namespace name field : String) (value : Value) (ttl : Duration)
    (created now : Time) (k : String)
    → let key = agent_key namespace name in
      let entry : Entry = record {
        value = value;
        created_at = created;
        expires_at = expiry ttl now;
      } in
      table (set m namespace name field value ttl created now) k
      ≡ (if key == k then Map.insert field entry (table m key) else table m k)
unfolding set table
table-set m namespace name field value ttl created now k =
    let key = agent_key namespace name in
    let entry : Entry = record {
      value = value;
      created_at = created;
      expires_at = expiry ttl now;
    } in
    let ac : AgentCache = record { entries = [] } in
    let old : AgentCache = record { entries = Map.insert field entry (table m key) } in
    ground (
      arith,
      eq_iff key k,
      lookup-insert key k ac m.agents,
      lookup-insert key k old m.agents,
      lookup-insert key k old (Map.insert key ac m.agents),
    )

table-delete :
    (m : InMemoryCache) (namespace name field k : String)
    → let key = agent_key namespace name in
      table (delete m namespace name field) k
      ≡ (if key == k then Map.remove field (table m key) else table m k)
unfolding delete table Map.remove
table-delete m namespace name field k =
    let key = agent_key namespace name in
    let old : AgentCache = record { entries = Map.remove field (table m key) } in
    ground (arith, eq_iff key k, lookup-insert key k old m.agents)

table-clear_agent :
    (m : InMemoryCache) (namespace name k : String)
    → table (clear_agent m namespace name) k
      ≡ (if agent_key namespace name == k then [] else table m k)
unfolding clear_agent table
table-clear_agent m namespace name k =
    ground (arith, lookup-remove (agent_key namespace name) k m.agents)

table-gc_agent :
    (m : InMemoryCache) (key : String) (now : String → Time) (k : String)
    → table (gc_agent m key now) k ≡ (
        if key == k
        then Map.select (λ field e. not (is_expired e (now field))) (table m key)
        else table m k)
unfolding gc_agent table Map.select
table-gc_agent m key now k =
    let old : AgentCache = record {
      entries = Map.select (λ field e. not (is_expired e (now field))) (table m key);
    } in
    ground (arith, eq_iff key k, lookup-insert key k old m.agents)

-- ---------------------------------------------------------------- entries after each operation

pub view-set :
    (m : InMemoryCache) (namespace name field : String) (value : Value) (ttl : Duration)
    (created now : Time) (k j : String)
    → view (set m namespace name field value ttl created now) k j ≡ (
        if agent_key namespace name == k && field == j
        then some (record { value = value; created_at = created; expires_at = expiry ttl now })
        else view m k j)
unfolding view
view-set m namespace name field value ttl created now k j =
    rw (table-set m namespace name field value ttl created now k) (
      ground (
        arith,
        eq_iff (agent_key namespace name) k,
        lookup-insert field j
            (record { value = value; created_at = created; expires_at = expiry ttl now })
            (table m (agent_key namespace name)),
      ))

pub view-delete :
    (m : InMemoryCache) (namespace name field k j : String)
    → view (delete m namespace name field) k j
      ≡ (if agent_key namespace name == k && field == j then none else view m k j)
unfolding view
view-delete m namespace name field k j = rw (table-delete m namespace name field k) (
    ground (
      arith,
      eq_iff (agent_key namespace name) k,
      lookup-remove field j (table m (agent_key namespace name)),
    ))

pub view-clear_agent :
    (m : InMemoryCache) (namespace name k j : String)
    → view (clear_agent m namespace name) k j
      ≡ (if agent_key namespace name == k then none else view m k j)
unfolding view Map.lookup
view-clear_agent m namespace name k j =
    rw (table-clear_agent m namespace name k) (ground (arith, eq_iff (agent_key namespace name) k))

-- A sweep keeps exactly the entries that have not expired at the reading taken for their field.
pub view-gc_agent :
    (m : InMemoryCache) (key : String) (now : String → Time) (k j : String)
    → IsValid m
    → view (gc_agent m key now) k j ≡ (if key == k then fresh (view m k j) (now j) else view m k j)
unfolding view
view-gc_agent m key now k j v = ground (
  arith,
  table-gc_agent m key now k,
  eq_iff key k,
  lookup-select (λ field e. not (is_expired e (now field))) j (table m key)
      (table-HasDistinctKeys m key v),
)

pub lookup-list :
    (m : InMemoryCache) (namespace name : String) (now : String → Time) (j : String)
    → IsValid m
    → Map.lookup j (list m namespace name now) ≡ get_entry m namespace name j (now j)
unfolding list get_entry table Map.lookup
lookup-list m namespace name now j v = ground (
  arith,
  lookup-select (λ field e. not (is_expired e (now field))) j (table m (agent_key namespace name))
      (table-HasDistinctKeys m (agent_key namespace name) v),
)

-- ---------------------------------------------------------------- validity

pub view-new : (k j : String) → view new_in_memory_cache k j ≡ none
unfolding view table Map.lookup
view-new k j = refl

pub get_entry-view :
    (m : InMemoryCache) (namespace name field : String) (t : Time)
    → get_entry m namespace name field t ≡ fresh (view m (agent_key namespace name) field) t
unfolding get_entry view table Map.lookup
get_entry-view m namespace name field t = ground arith

abbrev pub value_of : Option Entry → Option Value
value_of none = none
value_of (some e) = some e.value

pub get-get_entry :
    (m : InMemoryCache) (namespace name field : String) (t : Time)
    → get m namespace name field t ≡ value_of (get_entry m namespace name field t)
unfolding get get_entry
get-get_entry m namespace name field t = ground arith

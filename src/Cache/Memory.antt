-- ===== src/Cache/Memory.antt =====
-- internal/cache/cache.go: `InMemoryCache`. Every clock reading is an argument. The locks make each
-- operation one step; the pointer to an agent's table is not kept between operations here.
pub mod Keys
pub mod Expiry
pub mod Views
pub mod Valid
pub mod Refinement
pub mod Store
pub mod Shared
use k8sagent_orchestrator.Prelude.{
  ℕ, String, Bool, not, Option, none, some, List, [], ◌∷◌, if◌then◌else◌, ◌<>◌,
}
use k8sagent_orchestrator.Prelude.Map
use k8sagent_orchestrator.Prelude.Map.{Map}
use k8sagent_orchestrator.Cache.{Time, Duration, Value, Entry, is_expired, expiry}

-- `agentCache`
pub record AgentCache : Type 0 where
  pub entries : Map Entry

pub record InMemoryCache : Type 0 where
  pub agents : Map AgentCache

abbrev pub new_in_memory_cache : InMemoryCache
new_in_memory_cache = record { agents = [] }

unfoldable pub agent_key : String → String → String
agent_key namespace name = namespace <> "/" <> name

-- The state with the agent's table in it, and the table.
unfoldable pub get_or_create : InMemoryCache → String → String → InMemoryCache × AgentCache
get_or_create m namespace name = elim (Map.lookup (agent_key namespace name) m.agents) [
  | some ac ↦ (m, ac)
  | none ↦
      let ac : AgentCache = record { entries = [] } in
      (record { agents = Map.insert (agent_key namespace name) ac m.agents }, ac)
]

-- A write through the pointer that `getOrCreate` or the lookup returned.
abbrev store_table : InMemoryCache → String → Map Entry → InMemoryCache
store_table m key entries = record {
  agents = Map.insert key (record { entries = entries }) m.agents;
}

-- `created` and `now` are the two readings of the clock.
unfoldable pub set :
    InMemoryCache → String → String → String → Value → Duration → Time → Time → InMemoryCache
unfolding get_or_create expiry
set m namespace name field value ttl created now =
    let (m', ac) = get_or_create m namespace name in
    let entry : Entry = record {
      value = value;
      created_at = created;
      expires_at = expiry ttl now;
    } in
    store_table m' (agent_key namespace name) (Map.insert field entry ac.entries)

live_entry : Map Entry → String → Time → Option Entry
unfolding is_expired
live_entry entries field now = elim (Map.lookup field entries) [
  | none ↦ none
  | some entry ↦ if is_expired entry now then none else some entry
]

unfoldable pub get_entry : InMemoryCache → String → String → String → Time → Option Entry
unfolding live_entry
get_entry m namespace name field now = elim (Map.lookup (agent_key namespace name) m.agents) [
  | none ↦ none
  | some ac ↦ live_entry ac.entries field now
]

unfoldable pub get : InMemoryCache → String → String → String → Time → Option Value
unfolding is_expired
get m namespace name field now = elim (Map.lookup (agent_key namespace name) m.agents) [
  | none ↦ none
  | some ac ↦ elim (Map.lookup field ac.entries) [
    | none ↦ none
    | some entry ↦ if is_expired entry now then none else some entry.value
  ]
]

unfoldable pub delete : InMemoryCache → String → String → String → InMemoryCache
delete m namespace name field = elim (Map.lookup (agent_key namespace name) m.agents) [
  | none ↦ m
  | some ac ↦ store_table m (agent_key namespace name) (Map.remove field ac.entries)
]

-- `now field` is the reading at which the entry of that field is tested.
unfoldable pub list : InMemoryCache → String → String → (String → Time) → Map Entry
unfolding is_expired
list m namespace name now = elim (Map.lookup (agent_key namespace name) m.agents) [
  | none ↦ []
  | some ac ↦ Map.select (λ field e. not (is_expired e (now field))) ac.entries
]

unfoldable pub clear_agent : InMemoryCache → String → String → InMemoryCache
clear_agent m namespace name = record { agents = Map.remove (agent_key namespace name) m.agents }

-- The body of the inner loop of `gcLoop`: one agent's table. `now field` is the reading for a field.
unfoldable pub gc_agent : InMemoryCache → String → (String → Time) → InMemoryCache
unfolding is_expired
gc_agent m key now = elim (Map.lookup key m.agents) [
  | none ↦ m
  | some ac ↦ store_table m key (Map.select (λ field e. not (is_expired e (now field))) ac.entries)
]

-- The loop over the keys that were copied, and one tick of the ticker.
unfoldable pub gc_keys : InMemoryCache → List String → (String → String → Time) → InMemoryCache
unfolding gc_agent
gc_keys m [] now = m
gc_keys m (key ∷ keys) now = gc_keys (gc_agent m key (now key)) keys now

keys_of : Map AgentCache → List String
keys_of [] = []
keys_of ((k, ac) ∷ m) = k ∷ keys_of m

unfoldable pub gc_tick : InMemoryCache → (String → String → Time) → InMemoryCache
unfolding gc_keys keys_of
gc_tick m now = gc_keys m (keys_of m.agents) now

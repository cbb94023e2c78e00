-- ===== src/Cache/Memory/Store.antt =====
-- `InMemoryCache` as a `CacheStore`: the cache beside a world whose clock it reads.
use k8sagent_orchestrator.Prelude.{String, ◌≡◌, ap, ◌∙◌, none, some, [], ◌∷◌, ◌==◌, if◌then◌else◌}
use k8sagent_orchestrator.Prelude.Int.{pos}
use k8sagent_orchestrator.Prelude.Map
use k8sagent_orchestrator.Prelude.Map.{Map}
use k8sagent_orchestrator.Cache.{Time, Value, Entry, CacheStore}
use k8sagent_orchestrator.Cache.Memory.{
  InMemoryCache, agent_key, set, get, get_entry, delete, list, clear_agent,
}
use k8sagent_orchestrator.Cache.Memory.Expiry.{get_entry-set}
use k8sagent_orchestrator.Cache.Memory.Views.{get-get_entry, value_of}

module _ {W : Type 0} (clock : W → Time × W) where
  -- One reading of the clock for each entry of a table.
  readings : Map Entry → W → (String → Time) × W
  readings [] w = (λ field. 0, w)
  readings ((k, e) ∷ m) w =
      let (t, w') = clock w in
      let (rest, w'') = readings m w' in (λ field. if field == k then t else rest field, w'')

  listed : InMemoryCache → String → String → W → Map Entry × W
  listed m namespace name w = elim (Map.lookup (agent_key namespace name) m.agents) [
    | none ↦ ([], w)
    | some ac ↦ let (now, w') = readings ac.entries w in (list m namespace name now, w')
  ]

  unfoldable pub in_memory : CacheStore (InMemoryCache × W)
  unfolding listed readings
  in_memory = record {
    set = λ namespace name field value ttl (m, w).
        let (created, w₁) = clock w in
        let (now, w₂) = clock w₁ in (set m namespace name field value ttl created now, w₂);
    get = λ namespace name field (m, w).
        let (now, w') = clock w in (get m namespace name field now, (m, w'));
    get_entry = λ namespace name field (m, w).
        let (now, w') = clock w in (get_entry m namespace name field now, (m, w'));
    delete = λ namespace name field (m, w). (delete m namespace name field, w);
    list = λ namespace name (m, w).
        let (entries, w') = listed m namespace name w in (entries, (m, w'));
    clear_agent = λ namespace name (m, w). (clear_agent m namespace name, w);
  }

-- What the code that uses a cache relies on: a value that is stored without a lifetime is read back.
pub record CacheLaws {W : Type 0} (cache : CacheStore W) : Type 0 where
  pub get-set :
      (namespace name field : String) (value : Value) (w : W)
      → (cache.get namespace name field (cache.set namespace name field value (pos 0) w)).0
        ≡ some value

stored :
    (m : InMemoryCache) (namespace name field : String) (value : Value) (created now t : Time)
    → get (set m namespace name field value (pos 0) created now) namespace name field t ≡ some value
stored m namespace name field value created now t =
    get-get_entry (set m namespace name field value (pos 0) created now) namespace name field t
    ∙ ap value_of ((get_entry-set m namespace name field value (pos 0) created now t).1 tt)

pub in_memory_laws : {W : Type 0} (clock : W → Time × W) → CacheLaws (in_memory clock)
unfolding in_memory
in_memory_laws clock = record {
  get-set = λ namespace name field value (m, w).
      let w₁ = (clock w).1 in
      let w₂ = (clock w₁).1 in
      stored m namespace name field value (clock w).0 (clock w₁).0 (clock w₂).0;
}

-- ===== src/Cache/Memory/Shared.antt =====
-- internal/cache/cache.go with its locks: the tables stand in memory, `m.mu` guards the map of pointers to
-- them and the lock of a table its entries. What one lock guards is one step, and between the steps of one
-- call come those of others.
pub mod Links
pub mod Interleaved
use k8sagent_orchestrator.Prelude.{
  ℕ, ◌+◌, String, Bool, true, false, ◌||◌, Option, none, some, List, [], ◌∷◌, ◌==◌, eqb,
  if◌then◌else◌,
}
use k8sagent_orchestrator.Prelude.Map
use k8sagent_orchestrator.Prelude.Map.{Map}
use k8sagent_orchestrator.Cache.{Entry}

-- `m.agents`, the tables by address, and the first address that is free.
pub record Shared : Type 0 where
  pub agents : Map ℕ
  pub tables : ℕ → Map Entry
  pub next : ℕ

abbrev pub no_tables : Shared
no_tables = record { agents = []; tables = λ p. []; next = 0 }

-- The lookup of a pointer under `m.mu`.
unfoldable pub peek : String → Shared → Option ℕ
peek key m = Map.lookup key m.agents

-- The part of `getOrCreate` that holds `m.mu` for writing: it looks again, and makes a table only if there
-- is still none.
unfoldable pub create_table : String → Shared → ℕ × Shared
create_table key m = elim (Map.lookup key m.agents) [
  | some p ↦ (p, m)
  | none ↦ (
    m.next,
    record {
      agents = Map.insert key m.next m.agents;
      tables = λ a. if eqb a m.next then [] else m.tables a;
      next = m.next + 1;
    },
  )
]

-- `ac.entries[field] = entry` and `delete(ac.entries, field)` through a pointer.
unfoldable pub write_entry : ℕ → String → Entry → Shared → Shared
write_entry p field entry m = record m {
  tables = λ a. if eqb a p then Map.insert field entry (m.tables p) else m.tables a;
}

unfoldable pub drop_entry : ℕ → String → Shared → Shared
drop_entry p field m = record m {
  tables = λ a. if eqb a p then Map.remove field (m.tables p) else m.tables a;
}

-- `delete(m.agents, key)`
unfoldable pub unlink : String → Shared → Shared
unlink key m = record m { agents = Map.remove key m.agents }

-- A step of another call: of `Set`, of `Delete` or the garbage collector, or of `ClearAgent`. Its pointer
-- may be to any table.
pub data Action : Type 0 where
  creates : (key : String) → Action
  writes : (table : ℕ) → (field : String) → Entry → Action
  drops : (table : ℕ) → (field : String) → Action
  unlinks : (key : String) → Action

unfoldable pub act : Action → Shared → Shared
unfolding create_table write_entry drop_entry unlink
act (creates key) m = (create_table key m).1
act (writes p field entry) m = write_entry p field entry m
act (drops p field) m = drop_entry p field m
act (unlinks key) m = unlink key m

-- Steps in their order.
unfoldable pub acts : List Action → Shared → Shared
unfolding act
acts [] m = m
acts (a ∷ rest) m = acts rest (act a m)

-- `getOrCreate`, with the steps of others between its two looks.
unfoldable pub get_or_create : String → List Action → Shared → ℕ × Shared
unfolding peek create_table acts
get_or_create key between m = elim (peek key m) [
  | some p ↦ (p, m)
  | none ↦ create_table key (acts between m)
]

-- `Set`, with the steps of others inside `getOrCreate` and between it and the write.
unfoldable pub set_shared : String → String → Entry → List Action → List Action → Shared → Shared
unfolding get_or_create acts write_entry
set_shared key field entry between after m =
    let (p, m') = get_or_create key between m in write_entry p field entry (acts after m')

-- The entry that `GetEntry` finds under the locks, before it looks whether it has expired.
unfoldable pub entry_at : String → String → Shared → Option Entry
entry_at key field m = elim (Map.lookup key m.agents) [
  | none ↦ none
  | some p ↦ Map.lookup field (m.tables p)
]

-- Some step is a `ClearAgent` of the key.
abbrev pub clears : String → List Action → Bool
clears key [] = false
clears key (unlinks j ∷ rest) = j == key || clears key rest
clears key (creates j ∷ rest) = clears key rest
clears key (writes p field entry ∷ rest) = clears key rest
clears key (drops p field ∷ rest) = clears key rest

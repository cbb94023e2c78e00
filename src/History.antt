-- ===== src/History.antt =====
-- internal/history/history.go: the interface `HistoryStore` and the key of an agent.
pub mod Memory
pub mod Redis
pub mod Log
pub mod Keys
pub mod Laws
use k8sagent_orchestrator.Prelude.{ℕ, String, List, ◌<>◌, leb, if◌then◌else◌}
use k8sagent_orchestrator.Prelude.Int.{ℤ, pos, negsuc}
use k8sagent_orchestrator.Api.{LifecycleEvent}

-- Over a state `W` that holds the store and the clock: namespace, name, event type, reason, message.
pub record HistoryStore (W : Type 0) : Type 0 where
  pub append : String → String → String → String → String → W → W
  pub list : String → String → W → List LifecycleEvent × W
  pub clear : String → String → W → W

unfoldable pub agent_key : String → String → String
agent_key namespace name = namespace <> "/" <> name

-- `if maxEntries <= 0 { maxEntries = 1000 }`, of both constructors.
unfoldable pub effective_max : ℤ → ℕ
effective_max (pos n) = if leb n 0 then 1000 else n
effective_max (negsuc n) = 1000

-- ===== src/History/Keys.antt =====
-- `agentKey` of internal/history/history.go is that of internal/cache/cache.go.
use k8sagent_orchestrator.Prelude.{String, ◌≡◌, ◌&&◌, ◌==◌}
use k8sagent_orchestrator.Cache.Memory
use k8sagent_orchestrator.Cache.Memory.Keys
use k8sagent_orchestrator.History.{agent_key}

abbrev pub IsNamespace : String → Type 0
IsNamespace s = Keys.IsNamespace s

pub agent_key-eq :
    (ns name ns' name' : String)
    → IsNamespace ns
    → IsNamespace ns'
    → (agent_key ns name == agent_key ns' name') ≡ (ns == ns' && name == name')
unfolding agent_key Memory.agent_key
agent_key-eq ns name ns' name' h h' = Keys.agent_key-eq ns name ns' name' h h'

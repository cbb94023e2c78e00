-- ===== src/Cache/Memory/Keys.antt =====
-- `agentKey` of internal/cache/cache.go: whose key is whose.
use Prim.Native.Char.{Char, code}
use text.Mathlib.TextLemmas.{nil-append, cons-append, append_assoc}
use k8sagent_orchestrator.Prelude.{
  String, ◌≡◌, sym, ap, ◌∙◌, ◌&&◌, arith, ◌==◌, eq_iff, Lacks, append_separator_injective, ◌<>◌,
}
use k8sagent_orchestrator.Cache.Memory.{agent_key}

-- Kubernetes namespaces hold no slash.
abbrev pub IsNamespace : String → Type 0
IsNamespace s = Lacks b'/' s

abbrev slash : Char
slash = Prim.Native.Char.char b'/' tt

agent_key_lem :
    (namespace name : String) → agent_key namespace name ≡ namespace <> (String.◌∷◌ slash name)
unfolding agent_key
agent_key_lem namespace name =
    append_assoc namespace "/" name
    ∙ ap (λ s. namespace <> s) (cons-append slash "" name ∙ ap (String.◌∷◌ slash) (nil-append name))

-- Agents with the same key have the same namespace and name, if the namespaces hold no slash.
pub agent_key_injective :
    (ns name ns' name' : String)
    → IsNamespace ns
    → IsNamespace ns'
    → agent_key ns name ≡ agent_key ns' name'
    → (ns ≡ ns') × (name ≡ name')
agent_key_injective ns name ns' name' h h' e =
    append_separator_injective slash ns ns' name name' h h'
      (sym (agent_key_lem ns name) ∙ e ∙ agent_key_lem ns' name')

pub agent_key-eq :
    (ns name ns' name' : String)
    → IsNamespace ns
    → IsNamespace ns'
    → (agent_key ns name == agent_key ns' name') ≡ (ns == ns' && name == name')
agent_key-eq ns name ns' name' h h' = ground (
  arith,
  eq_iff (agent_key ns name) (agent_key ns' name'),
  eq_iff ns ns',
  eq_iff name name',
  agent_key_injective ns name ns' name' h h',
)

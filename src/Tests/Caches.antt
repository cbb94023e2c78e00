-- ===== src/Tests/Caches.antt =====
-- The theorems on the in-memory cache, at concrete logs of calls.
use k8sagent_orchestrator.Prelude.{String, ◌≡◌, some, List, [], ◌∷◌, arith}
use k8sagent_orchestrator.Prelude.Int.{pos}
use k8sagent_orchestrator.Cache.{int64, Entry, expiry, is_expired}
use k8sagent_orchestrator.Cache.Memory.{InMemoryCache, new_in_memory_cache, set, get_entry}
use k8sagent_orchestrator.Cache.Memory.Keys.{IsNamespace}
use k8sagent_orchestrator.Cache.Memory.Refinement.{
  Op, put, clear, gc, after, last_write, get_entry-after,
}
use k8sagent_orchestrator.Prelude.Map
use k8sagent_orchestrator.Cache.Memory.Shared.{
  no_tables, set_shared, get_or_create, entry_at, acts, unlinks,
}
use k8sagent_orchestrator.Cache.Memory.Shared.Links.{IsValid}
use k8sagent_orchestrator.Cache.Memory.Shared.Interleaved.{set_shared-interleaved}

default_IsNamespace : IsNamespace "default"
default_IsNamespace = ground arith

demo_IsNamespace : IsNamespace "demo"
demo_IsNamespace = ground arith

abbrev name : String
name = "demo"

-- A field with a lifetime of 50, set at 10; another agent's clear; and a sweep at 20.
abbrev calls : List Op
calls =
    gc "default" "demo" (λ field. 20)
    ∷ clear "default" "other"
    ∷ put "default" "demo" "f" (int64 (pos 7)) (pos 50) 9 10
    ∷ []

abbrev entry : Entry
entry = record { value = int64 (pos 7); created_at = 9; expires_at = some 60 }

get_entry-after_example : get_entry (after calls) "default" "demo" "f" 60 ≡ some entry
unfolding last_write is_expired expiry
get_entry-after_example =
    get_entry-after calls "default" "demo" "f" 60 default_IsNamespace (
      (default_IsNamespace, λ field. omega arith),
      (default_IsNamespace, (default_IsNamespace, tt)),
    )

abbrev filled : InMemoryCache
filled = set new_in_memory_cache "default" "demo" "f" (int64 (pos 7)) (pos 50) 9 10

no_tables-IsValid : IsValid no_tables
unfolding Map.lookup
no_tables-IsValid = record {
  made = λ key p e. absurd (ground arith);
  apart = λ j k p e f. absurd (ground arith);
}

-- Another call clears the agent while `Set` holds its table.
set_shared-interleaved_example :
    entry_at "default/demo" "f"
      (set_shared "default/demo" "f" entry [] (unlinks "default/demo" ∷ []) no_tables)
    ≡ entry_at "default/demo" "f" (
        acts
          (unlinks "default/demo" ∷ [])
          (set_shared "default/demo" "f" entry [] [] (get_or_create "default/demo" [] no_tables).1))
set_shared-interleaved_example =
    set_shared-interleaved "default/demo" "f" entry [] (unlinks "default/demo" ∷ []) no_tables
      "default/demo" "f" no_tables-IsValid

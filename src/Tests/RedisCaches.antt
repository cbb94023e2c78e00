-- ===== src/Tests/RedisCaches.antt =====
-- The theorems on the Redis cache, at concrete logs of calls.
use k8sagent_orchestrator.Prelude.{
  Option, String, ◌≡◌, refl, none, some, List, [], ◌∷◌, arith, All, decimal,
}
use k8sagent_orchestrator.Prelude.Int.{pos}
use k8sagent_orchestrator.Cache.{Entry, int64, other, expiry}
use k8sagent_orchestrator.Cache.Memory.Keys.{IsNamespace}
use k8sagent_orchestrator.Prelude.Map
use k8sagent_orchestrator.Cache.Redis.{get_entry, list, clear_agent}
use k8sagent_orchestrator.Cache.Redis.Uneven.{lapsed, clear_agent-lapsed}
use k8sagent_orchestrator.Cache.Redis.Unlimited.{day, unlimited, clear_agent-unlimited}
use k8sagent_orchestrator.Cache.Redis.Names.{IsName}
use k8sagent_orchestrator.Cache.Redis.Log.{Op, put, del, clear, wait, IsNamed, after, standing}
use k8sagent_orchestrator.Cache.Redis.Refinement.{get_entry-standing}
use k8sagent_orchestrator.Tests.RedisServer.{Server, server, laws, codec, codec_laws}

default_IsNamespace : IsNamespace "default"
default_IsNamespace = ground arith

demo_IsName : IsName "demo"
demo_IsName = ground arith

other_IsName : IsName "other"
other_IsName = ground arith

abbrev empty : Server
empty = record { clock = 10; strings = λ k. none; sets = λ k. []; dues = λ k. none }

-- A field with a lifetime of two seconds; a second later another agent's clear and another field's delete.
abbrev calls : List Op
calls =
    del "default" "demo" "g"
    ∷ clear "default" "other"
    ∷ wait 1000000000
    ∷ put "default" "demo" "f" (int64 (pos 7)) 20
    ∷ []

named : All IsNamed calls
named = (
  (default_IsNamespace, demo_IsName),
  ((default_IsNamespace, other_IsName), (tt, ((default_IsNamespace, demo_IsName), tt))),
)

abbrev found : Option Entry
found = some (record { value = other "7"; created_at = 20; expires_at = some 2000000020 })

get_entry-standing_example :
    let w = after server codec laws codec_laws 2000000000 calls empty in
    (get_entry server codec "default" "demo" "f" w ≡ (found, w))
    × (Map.lookup "f" (list server codec "default" "demo" w).0 ≡ found)
unfolding standing expiry laws codec_laws decimal
get_entry-standing_example =
    get_entry-standing server codec laws codec_laws 2000000000 "default" "demo" "f" (omega arith)
      (omega arith) default_IsNamespace demo_IsName calls empty (λ k. refl) named

-- `f` lives an hour and `g` two seconds; five seconds later the index is gone.
clear_agent-lapsed_example :
    ((x : String)
      → Map.lookup x
          (list server codec "default" "demo" (
            lapsed server codec laws "default" "demo" "f" "g" 3600000000000 2000000000
              (int64 (pos 7))
              (int64 (pos 8))
              10
              11
              5000000000
              empty)).0
        ≡ none)
    × ((get_entry server codec "default" "demo" "f" (
          clear_agent server codec "default" "demo" (
            lapsed server codec laws "default" "demo" "f" "g" 3600000000000 2000000000
              (int64 (pos 7))
              (int64 (pos 8))
              10
              11
              5000000000
              empty))).0
        ≡ some (record { value = other "7"; created_at = 10; expires_at = some 3600000000010 }))
unfolding expiry laws codec_laws decimal
clear_agent-lapsed_example =
    clear_agent-lapsed server codec laws codec_laws "default" "demo" "f" "g" refl
      default_IsNamespace demo_IsName 3600000000000 2000000000 (omega arith) (omega arith)
      (omega arith) (omega arith) (int64 (pos 7)) (int64 (pos 8)) 10 11 empty 5000000000
      (ground arith) (ground arith)

-- `f` has no lifetime; a day later the index is gone.
clear_agent-unlimited_example :
    ((x : String)
      → Map.lookup x
          (list server codec "default" "demo" (
            unlimited server codec laws codec_laws "default" "demo" "f" default_IsNamespace
              demo_IsName
              (int64 (pos 7))
              10
              empty
              day)).0
        ≡ none)
    × ((get_entry server codec "default" "demo" "f" (
          clear_agent server codec "default" "demo" (
            unlimited server codec laws codec_laws "default" "demo" "f" default_IsNamespace
              demo_IsName
              (int64 (pos 7))
              10
              empty
              day))).0
        ≡ some (record { value = other "7"; created_at = 10; expires_at = none }))
unfolding laws codec_laws decimal
clear_agent-unlimited_example =
    clear_agent-unlimited server codec laws codec_laws "default" "demo" "f" default_IsNamespace
      demo_IsName (int64 (pos 7)) 10 empty day (ground arith)

-- ===== src/Tests/Histories.antt =====
-- The theorems on the histories, at a concrete log of calls, on a Redis server of lists.
use k8sagent_orchestrator.Prelude.{
  suc, ◌-◌, String, ◌≡◌, refl, none, some, List, [], ◌∷◌, ◌++◌, arith, eq_iff, if◌then◌else◌,
  length, drop, All,
}
use k8sagent_orchestrator.Prelude.Int.{ℤ, pos, negsuc}
use k8sagent_orchestrator.Prelude.Map
use k8sagent_orchestrator.Prelude.Map.{Map, lookup-insert, lookup-remove}
use k8sagent_orchestrator.Api.{LifecycleEvent}
use k8sagent_orchestrator.Redis.{Redis, ListLaws, is_one_of}
use k8sagent_orchestrator.History.{effective_max}
use k8sagent_orchestrator.History.Keys.{IsNamespace}
use k8sagent_orchestrator.History.Log.{Op, append, clear, event_of, recorded, IsNamed}
use k8sagent_orchestrator.History.Memory
use k8sagent_orchestrator.History.Memory.Refinement.{after, list-after}
use k8sagent_orchestrator.History.Redis
use k8sagent_orchestrator.History.Redis.{EventCodec, CodecLaws, new_redis_history}
use k8sagent_orchestrator.History.Redis.Refinement
use k8sagent_orchestrator.History.Redis.Refinement.{list-after_redis}

default_IsNamespace : IsNamespace "default"
default_IsNamespace = ground arith

abbrev Lists : Type 0
Lists = Map (List String)

abbrev items : Lists → String → List String
items w k = elim (Map.lookup k w) [ none ↦ [] | some xs ↦ xs ]

del_all : List String → Lists → Lists
del_all [] w = w
del_all (k ∷ ks) w = del_all ks (Map.remove k w)

trim : String → ℤ → ℤ → Lists → Lists
trim k (negsuc n) to w = Map.insert k (drop (length (items w k) - suc n) (items w k)) w
trim k (pos n) to w = w

-- Commands on other types than lists do nothing here.
abbrev server : Redis Lists
server = record {
  set = λ k v ttl w. w;
  get = λ k w. (none, w);
  del = del_all;
  expire = λ k ttl w. w;
  sadd = λ k v w. w;
  srem = λ k v w. w;
  smembers = λ k w. (none, w);
  rpush = λ k v w. Map.insert k (items w k ++ v ∷ []) w;
  ltrim = trim;
  lrange = λ k from to w. (some (items w k), w);
}

del_all-items :
    (ks : List String) (w : Lists) (j : String)
    → items (del_all ks w) j ≡ (if is_one_of j ks then [] else items w j)
unfolding del_all
del_all-items [] w j = refl
del_all-items (k ∷ ks) w j =
    ground (arith, del_all-items ks (Map.remove k w) j, lookup-remove k j w)

server_laws : ListLaws server
unfolding trim
server_laws = record {
  stored = items;
  stored-rpush = λ k v w j. ground (arith, lookup-insert k j (items w k ++ v ∷ []) w, eq_iff k j);
  stored-ltrim = λ k n w j.
      ground
        (arith, lookup-insert k j (drop (length (items w k) - suc n) (items w k)) w, eq_iff k j);
  lrange-stored = λ k w. refl;
  stored-del = del_all-items;
}

-- A codec that keeps the message.
abbrev kept_event : LifecycleEvent → LifecycleEvent
kept_event e = record { time = 0; reason = ""; event_type = ""; message = e.message }

abbrev codec : EventCodec
codec = record {
  marshal = λ e. some e.message;
  unmarshal = λ s. some (record { time = 0; reason = ""; event_type = ""; message = s });
}

codec_laws : CodecLaws codec
codec_laws = record {
  kept = kept_event;
  encoded = λ e. e.message;
  marshal_lem = λ e. refl;
  unmarshal-encoded = λ e. refl;
}

-- Three events of an agent, with room for two, and the clear of another agent's history.
abbrev calls : List Op
calls =
    append "default" "demo" "Normal" "Started" "three" 3
    ∷ clear "default" "other"
    ∷ append "default" "demo" "Normal" "Stopped" "two" 2
    ∷ append "default" "demo" "Normal" "Created" "one" 1
    ∷ []

named : All IsNamed calls
named =
    (default_IsNamespace, (default_IsNamespace, (default_IsNamespace, (default_IsNamespace, tt))))

abbrev two : LifecycleEvent
two = event_of "Normal" "Stopped" "two" 2

abbrev three : LifecycleEvent
three = event_of "Normal" "Started" "three" 3

list-after_example : Memory.list (after (pos 2) calls) "default" "demo" ≡ two ∷ three ∷ []
unfolding recorded effective_max
list-after_example = list-after (pos 2) calls "default" "demo" default_IsNamespace named

list-after_redis_example :
    (Redis.list server codec "default" "demo"
      (Refinement.after server codec server_laws codec_laws (new_redis_history (pos 2)) calls [])).0
    ≡ kept_event two ∷ kept_event three ∷ []
unfolding recorded effective_max server_laws codec_laws Map.lookup
list-after_redis_example =
    list-after_redis server codec server_laws codec_laws (pos 2) calls [] "default" "demo"
      (λ k. refl) default_IsNamespace named

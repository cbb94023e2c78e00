-- ===== src/Cache/Memory/Refinement.antt =====
-- `InMemoryCache` against its specification, a log of calls.
use k8sagent_orchestrator.Prelude.{
  ◌≤◌, String, ◌≡◌, refl, Bool, ◌&&◌, Option, none, some, List, [], ◌∷◌, arith, ◌==◌, if◌then◌else◌,
  All,
}
use k8sagent_orchestrator.Cache.{Time, Duration, Value, Entry, is_expired, expiry}
use k8sagent_orchestrator.Cache.Memory.{
  InMemoryCache, new_in_memory_cache, agent_key, set, get_entry, delete, clear_agent, gc_agent,
}
use k8sagent_orchestrator.Cache.Memory.Keys.{IsNamespace, agent_key-eq}
use k8sagent_orchestrator.Cache.Memory.Views.{
  fresh, view, view-new, IsValid, get_entry-view, view-set, view-delete, view-clear_agent,
  view-gc_agent,
}
use k8sagent_orchestrator.Cache.Memory.Valid.{
  set-IsValid, delete-IsValid, clear_agent-IsValid, gc_agent-IsValid,
}

-- One call on the cache, with the clock readings that it made. `gc` is the sweep of one agent's table.
pub data Op : Type 0 where
  put : (namespace name field : String) → Value → Duration → (created now : Time) → Op
  del : (namespace name field : String) → Op
  clear : (namespace name : String) → Op
  gc : (namespace name : String) → (now : String → Time) → Op

unfoldable pub apply : Op → InMemoryCache → InMemoryCache
apply (put namespace name field value ttl created now) m =
    set m namespace name field value ttl created now
apply (del namespace name field) m = delete m namespace name field
apply (clear namespace name) m = clear_agent m namespace name
apply (gc namespace name now) m = gc_agent m (agent_key namespace name) now

-- The cache after a log of calls, the newest first.
unfoldable pub after : List Op → InMemoryCache
unfolding apply
after [] = new_in_memory_cache
after (op ∷ log) = apply op (after log)

abbrev same : String → String → String → String → Bool
same a b c d = a == c && b == d

-- The specification: the newest call in the log that names the field decides; sweeps do not count.
unfoldable pub last_write : List Op → String → String → String → Option Entry
last_write [] ns name field = none
last_write (put a b f value ttl created now ∷ log) ns name field =
    if same a b ns name && f == field
    then some (record { value = value; created_at = created; expires_at = expiry ttl now })
    else last_write log ns name field
last_write (del a b f ∷ log) ns name field =
    if same a b ns name && f == field then none else last_write log ns name field
last_write (clear a b ∷ log) ns name field =
    if same a b ns name then none else last_write log ns name field
last_write (gc a b now ∷ log) ns name field = last_write log ns name field

-- The call names a Kubernetes namespace, and a sweep read the clock no later than `t`.
abbrev pub IsBefore : Time → Op → Type 0
IsBefore t (put a b f value ttl created now) = IsNamespace a
IsBefore t (del a b f) = IsNamespace a
IsBefore t (clear a b) = IsNamespace a
IsBefore t (gc a b now) = IsNamespace a × ((field : String) → now field ≤ t)

pub after-IsValid : (log : List Op) → IsValid (after log)
unfolding after
after-IsValid [] = tt
after-IsValid (put a b f value ttl created now ∷ log) =
    set-IsValid (after log) a b f value ttl created now (after-IsValid log)
after-IsValid (del a b f ∷ log) = delete-IsValid (after log) a b f (after-IsValid log)
after-IsValid (clear a b ∷ log) = clear_agent-IsValid (after log) a b (after-IsValid log)
after-IsValid (gc a b now ∷ log) =
    gc_agent-IsValid (after log) (agent_key a b) now (after-IsValid log)

-- An entry that is gone at one reading is gone at every later one.
pub fresh-fresh : (o : Option Entry) (n t : Time) → n ≤ t → fresh (fresh o n) t ≡ fresh o t
unfolding is_expired
fresh-fresh none n t h = refl
fresh-fresh (some e) n t h = ground arith

fresh-view :
    (log : List Op) (ns name field : String) (t : Time)
    → IsNamespace ns
    → All (IsBefore t) log
    → fresh (view (after log) (agent_key ns name) field) t ≡ fresh (last_write log ns name field) t
unfolding after last_write
fresh-view [] ns name field t n h = rw (view-new (agent_key ns name) field) refl
fresh-view (put a b f value ttl created now ∷ log) ns name field t n (ok, h) =
    rw (view-set (after log) a b f value ttl created now (agent_key ns name) field)
      (rw (agent_key-eq a b ns name ok n) (ground (arith, fresh-view log ns name field t n h)))
fresh-view (del a b f ∷ log) ns name field t n (ok, h) =
    rw (view-delete (after log) a b f (agent_key ns name) field)
      (rw (agent_key-eq a b ns name ok n) (ground (arith, fresh-view log ns name field t n h)))
fresh-view (clear a b ∷ log) ns name field t n (ok, h) =
    rw (view-clear_agent (after log) a b (agent_key ns name) field)
      (rw (agent_key-eq a b ns name ok n) (ground (arith, fresh-view log ns name field t n h)))
fresh-view (gc a b now ∷ log) ns name field t n ((ok, early), h) =
    rw (view-gc_agent (after log) (agent_key a b) now (agent_key ns name) field (after-IsValid log))
      (ground (
        arith,
        fresh-view log ns name field t n h,
        fresh-fresh (view (after log) (agent_key ns name) field) (now field) t (early field),
      ))

-- After any calls whatever, on any agents, a read at time `t` answers with the newest write of that
-- field of that agent that no later delete or clear undid, unless it has expired at `t`; garbage
-- collection and calls on other agents are invisible. The namespaces hold no slash, and the sweeps
-- read the clock no later than `t`.
pub get_entry-after :
    (log : List Op) (ns name field : String) (t : Time)
    → IsNamespace ns
    → All (IsBefore t) log
    → get_entry (after log) ns name field t ≡ fresh (last_write log ns name field) t
get_entry-after log ns name field t n h =
    rw (get_entry-view (after log) ns name field t) (fresh-view log ns name field t n h)

-- ===== src/Cache/Memory/Expiry.antt =====
-- Lifetimes in `InMemoryCache`, and a whole tick of `gcLoop`.
use k8sagent_orchestrator.Prelude.{
  zero, suc, ◌+◌, ◌≤◌, String, ◌≡◌, refl, ◌↔◌, some, List, [], ◌∷◌, arith, text_self,
}
use k8sagent_orchestrator.Prelude.Int.{pos, negsuc}
use k8sagent_orchestrator.Cache.{Time, Duration, Value, Entry, is_expired, expiry}
use k8sagent_orchestrator.Cache.Memory.{
  InMemoryCache, agent_key, set, get_entry, gc_agent, gc_keys, keys_of, gc_tick,
}
use k8sagent_orchestrator.Cache.Memory.Views.{
  fresh, view, IsValid, get_entry-view, view-set, view-gc_agent,
}
use k8sagent_orchestrator.Cache.Memory.Valid.{gc_agent-IsValid}
use k8sagent_orchestrator.Cache.Memory.Refinement.{fresh-fresh}

-- The time at which an entry with this lifetime can last be read: none for a lifetime of 0 or less.
abbrev pub IsReadableAt : Duration → Time → Time → Type 0
IsReadableAt (pos zero) now t = Unit
IsReadableAt (pos (suc n)) now t = t ≤ now + suc n
IsReadableAt (negsuc n) now t = Unit

pub fresh-lifetime :
    (value : Value) (ttl : Duration) (created now t : Time)
    → let entry : Entry = record {
      value = value;
      created_at = created;
      expires_at = expiry ttl now;
    } in
      (fresh (some entry) t ≡ some entry) ↔ IsReadableAt ttl now t
unfolding is_expired expiry
fresh-lifetime value (pos zero) created now t = ground arith
fresh-lifetime value (pos (suc n)) created now t = ground arith
fresh-lifetime value (negsuc n) created now t = ground arith

pub get_entry-set_self :
    (m : InMemoryCache) (ns name field : String) (value : Value) (ttl : Duration)
    (created now t : Time)
    → let entry : Entry = record {
      value = value;
      created_at = created;
      expires_at = expiry ttl now;
    } in
      get_entry (set m ns name field value ttl created now) ns name field t ≡ fresh (some entry) t
get_entry-set_self m ns name field value ttl created now t =
    rw (get_entry-view (set m ns name field value ttl created now) ns name field t) (
      rw (view-set m ns name field value ttl created now (agent_key ns name) field)
        (rw (text_self (agent_key ns name), text_self field) refl))

-- A field that was just set is read back at time `t` exactly while its lifetime lasts, the last
-- nanosecond included; with a lifetime of 0 or less it is read back at any time.
pub get_entry-set :
    (m : InMemoryCache) (ns name field : String) (value : Value) (ttl : Duration)
    (created now t : Time)
    → let entry : Entry = record {
      value = value;
      created_at = created;
      expires_at = expiry ttl now;
    } in
      (get_entry (set m ns name field value ttl created now) ns name field t ≡ some entry)
      ↔ IsReadableAt ttl now t
get_entry-set m ns name field value ttl created now t =
    rw (get_entry-set_self m ns name field value ttl created now t)
      (fresh-lifetime value ttl created now t)

gc_keys-fresh :
    (keys : List String) (m : InMemoryCache) (now : String → String → Time) (k j : String)
    (t : Time)
    → IsValid m
    → ((key field : String) → now key field ≤ t)
    → fresh (view (gc_keys m keys now) k j) t ≡ fresh (view m k j) t
unfolding gc_keys
gc_keys-fresh [] m now k j t v h = refl
gc_keys-fresh (key ∷ keys) m now k j t v h = ground (
  arith,
  gc_keys-fresh keys (gc_agent m key (now key)) now k j t (gc_agent-IsValid m key (now key) v) h,
  view-gc_agent m key (now key) k j v,
  fresh-fresh (view m k j) (now key j) t (h key j),
)

-- A tick of the garbage collector changes no read, now or later: every read at a time not before the
-- tick's clock readings answers as it would have without the tick.
pub get_entry-gc_tick :
    (m : InMemoryCache) (now : String → String → Time) (ns name field : String) (t : Time)
    → IsValid m
    → ((key f : String) → now key f ≤ t)
    → get_entry (gc_tick m now) ns name field t ≡ get_entry m ns name field t
unfolding gc_tick
get_entry-gc_tick m now ns name field t v h =
    rw
      (
        get_entry-view (gc_keys m (keys_of m.agents) now) ns name field t,
        get_entry-view m ns name field t,
      )
      (gc_keys-fresh (keys_of m.agents) m now (agent_key ns name) field t v h)

-- ===== src/History/Redis/Refinement.antt =====
-- `RedisHistory` against the specification of History/Log.antt, on a server with laws.
use mathlib.Core.List.{map-append}
use text.Mathlib.TextLemmas.{append_cancel_left, append_assoc}
use k8sagent_orchestrator.Prelude.{
  ℕ, zero, suc, ◌-◌, String, ◌≡◌, refl, sym, ap, ◌∙◌, ◌&&◌, List, [], ◌∷◌, ◌++◌, map, arith, ◌==◌,
  eq_iff, if◌then◌else◌, length, length-map, drop-map, Bool, true, false, All, ◌<>◌,
}
use k8sagent_orchestrator.Prelude.Int.{ℤ, pos, negsuc}
use k8sagent_orchestrator.Cache.{Time}
use k8sagent_orchestrator.Redis.{Redis, ListLaws}
use k8sagent_orchestrator.Api.{LifecycleEvent}
use k8sagent_orchestrator.History.{agent_key, effective_max}
use k8sagent_orchestrator.History.Keys.{IsNamespace, agent_key-eq}
use k8sagent_orchestrator.History.Log.{Op, event_of, recorded, last_n, IsNamed, trimmed, last_n-nil}
use k8sagent_orchestrator.History.Redis.{
  EventCodec, CodecLaws, RedisHistory, new_redis_history, key, append, decode_all, list, clear,
}

key-agent_key : (ns name : String) → key ns name ≡ "history:" <> agent_key ns name
unfolding key agent_key
key-agent_key ns name = ap (λ s. "history:" <> s) (sym (append_assoc ns "/" name))

key-eq :
    (ns name ns' name' : String)
    → IsNamespace ns
    → IsNamespace ns'
    → (key ns name == key ns' name') ≡ (ns == ns' && name == name')
key-eq ns name ns' name' h h' =
    rw (key-agent_key ns name, key-agent_key ns' name')
      (ground (
        arith,
        eq_iff ("history:" <> agent_key ns name) ("history:" <> agent_key ns' name'),
        eq_iff (agent_key ns name) (agent_key ns' name'),
        agent_key-eq ns name ns' name' h h',
        append_cancel_left "history:" (agent_key ns name) (agent_key ns' name'),
      ))

last_n-map {ℓ κ} :
    {A : Type ℓ} {B : Type κ} (f : A → B) (n : ℕ) (xs : List A)
    → last_n n (map f xs) ≡ map f (last_n n xs)
last_n-map f n xs = rw (length-map f xs) (drop-map f (length xs - n) xs)

effective_max-pos : (max : ℤ) → (n : ℕ) × (effective_max max ≡ suc n)
unfolding effective_max
effective_max-pos (pos zero) = (999, refl)
effective_max-pos (pos (suc n)) = (n, ground arith)
effective_max-pos (negsuc n) = (999, refl)

module _ {W : Type 0} (redis : Redis W) (codec : EventCodec) (laws : ListLaws redis)
    (codec_laws : CodecLaws codec) where
  apply : RedisHistory → Op → W → W
  apply r (Op.append ns name event_type reason message now) w =
      append redis codec r ns name event_type reason message now w
  apply r (Op.clear ns name) w = clear redis codec ns name w

  -- The server after a log of calls, the newest first.
  unfoldable pub after : RedisHistory → List Op → W → W
  unfolding apply
  after r [] w = w
  after r (op ∷ log) w = apply r op (after r log w)

  stored-append :
      (max : ℤ) (ns name event_type reason message : String) (now : Time) (w : W) (k : String)
      → laws.stored
          (append redis codec (new_redis_history max) ns name event_type reason message now w)
          k
        ≡ (if key ns name == k
            then last_n (effective_max max) (
                laws.stored w k ++ codec_laws.encoded (event_of event_type reason message now) ∷ [])
            else laws.stored w k)
  unfolding append new_redis_history
  stored-append max ns name event_type reason message now w k =
      let event = event_of event_type reason message now in
      let (n, e) = effective_max-pos max in
      let pushed = redis.rpush (key ns name) (codec_laws.encoded event) w in
      rw e (
        ground (
          arith,
          codec_laws.marshal_lem event,
          laws.stored-rpush (key ns name) (codec_laws.encoded event) w k,
          laws.stored-ltrim (key ns name) n pushed k,
        ))

  stored-clear :
      (ns name : String) (w : W) (k : String)
      → laws.stored (clear redis codec ns name w) k
        ≡ (if key ns name == k then [] else laws.stored w k)
  unfolding clear
  stored-clear ns name w k = ground (arith, laws.stored-del (key ns name ∷ []) w k)

  map-recorded :
      (here : Bool) (events : List LifecycleEvent) (e : LifecycleEvent)
      → (if here
          then map codec_laws.encoded events ++ codec_laws.encoded e ∷ []
          else map codec_laws.encoded events)
        ≡ map codec_laws.encoded (if here then events ++ e ∷ [] else events)
  map-recorded true events e = sym (map-append codec_laws.encoded events (e ∷ []))
  map-recorded false events e = refl

  cleared :
      (here : Bool) (n : ℕ) (events : List LifecycleEvent)
      → (if here then [] else last_n n (map codec_laws.encoded events))
        ≡ last_n n (map codec_laws.encoded (if here then [] else events))
  cleared true n events = sym (last_n-nil n)
  cleared false n events = refl

  stored-after :
      (max : ℤ) (log : List Op) (w : W) (ns name : String)
      → ((k : String) → laws.stored w k ≡ [])
      → IsNamespace ns
      → All IsNamed log
      → laws.stored (after (new_redis_history max) log w) (key ns name)
        ≡ last_n (effective_max max) (map codec_laws.encoded (recorded log ns name))
  unfolding after recorded
  stored-after max [] w ns name fresh n h =
      fresh (key ns name) ∙ sym (last_n-nil (effective_max max))
  stored-after max (Op.append a b event_type reason message now ∷ log) w ns name fresh n (ok, h) =
      rw
        (stored-append max a b event_type reason message now (after (new_redis_history max) log w)
          (key ns name))
        (rw (key-eq a b ns name ok n, stored-after max log w ns name fresh n h)
          (trimmed (a == ns && b == name) (effective_max max)
              (map codec_laws.encoded (recorded log ns name))
              (codec_laws.encoded (event_of event_type reason message now) ∷ [])
            ∙ ap (last_n (effective_max max)) (
                map-recorded (a == ns && b == name) (recorded log ns name)
                  (event_of event_type reason message now))))
  stored-after max (Op.clear a b ∷ log) w ns name fresh n (ok, h) =
      rw (stored-clear a b (after (new_redis_history max) log w) (key ns name)) (
        rw (key-eq a b ns name ok n, stored-after max log w ns name fresh n h)
          (cleared (a == ns && b == name) (effective_max max) (recorded log ns name)))

  decode_all-encoded :
      (events : List LifecycleEvent)
      → decode_all redis codec (map codec_laws.encoded events) ≡ map codec_laws.kept events
  unfolding decode_all
  decode_all-encoded [] = refl
  decode_all-encoded (e ∷ events) =
      rw (codec_laws.unmarshal-encoded e)
        (ap (λ r. codec_laws.kept e ∷ r) (decode_all-encoded events))

  -- On an empty server, after any calls on any agents, the history of an agent lists the newest `max`
  -- of its events since it was last cleared, oldest first, each as the codec keeps it; a `max` of 0 or
  -- less counts as 1000. Namespaces hold no slash; the server and the codec keep their laws.
  pub list-after_redis :
      (max : ℤ) (log : List Op) (w : W) (ns name : String)
      → ((k : String) → laws.stored w k ≡ [])
      → IsNamespace ns
      → All IsNamed log
      → (list redis codec ns name (after (new_redis_history max) log w)).0
        ≡ map codec_laws.kept (last_n (effective_max max) (recorded log ns name))
  unfolding list
  list-after_redis max log w ns name fresh n h =
      let end = after (new_redis_history max) log w in
      rw (laws.lrange-stored (key ns name) end) (
        rw (stored-after max log w ns name fresh n h) (
          rw (last_n-map codec_laws.encoded (effective_max max) (recorded log ns name))
            (decode_all-encoded (last_n (effective_max max) (recorded log ns name)))))

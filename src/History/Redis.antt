-- ===== src/History/Redis.antt =====
-- internal/history/history.go: `RedisHistory`. The server and the JSON codec of events are parameters.
pub mod Refinement
use k8sagent_orchestrator.Prelude.{
  ℕ, zero, suc, String, ◌≡◌, Option, none, some, List, [], ◌∷◌, ◌<>◌,
}
use k8sagent_orchestrator.Prelude.Int.{ℤ, pos, negsuc}
use k8sagent_orchestrator.Cache.{Time}
use k8sagent_orchestrator.Redis.{Redis}
use k8sagent_orchestrator.Api.{LifecycleEvent}
use k8sagent_orchestrator.History.{effective_max}

-- `json.Marshal` and `json.Unmarshal` at `LifecycleEvent`, whose time is encoded by a foreign type.
pub record EventCodec : Type 0 where
  pub marshal : LifecycleEvent → Option String
  pub unmarshal : String → Option LifecycleEvent

-- Decoding what was encoded gives the event as `kept` (`metav1.Time` is written to the second).
pub record CodecLaws (codec : EventCodec) : Type 0 where
  pub kept : LifecycleEvent → LifecycleEvent
  pub encoded : LifecycleEvent → String
  pub marshal_lem : (e : LifecycleEvent) → codec.marshal e ≡ some (encoded e)
  pub unmarshal-encoded : (e : LifecycleEvent) → codec.unmarshal (encoded e) ≡ some (kept e)

pub record RedisHistory : Type 0 where
  pub max_entries : ℕ

unfoldable pub new_redis_history : ℤ → RedisHistory
unfolding effective_max
new_redis_history max_entries = record { max_entries = effective_max max_entries }

unfoldable pub key : String → String → String
key namespace name = "history:" <> (namespace <> ("/" <> name))

-- `-int64(n)`
abbrev pub negate : ℕ → ℤ
negate zero = pos 0
negate (suc n) = negsuc n

module _ {W : Type 0} (redis : Redis W) (codec : EventCodec) where
  -- `now` is the reading of `metav1.Now()`.
  unfoldable pub append : RedisHistory → String → String → String → String → String → Time → W → W
  unfolding key
  append r namespace name event_type reason message now w =
      let event : LifecycleEvent = record {
        time = now;
        reason = reason;
        event_type = event_type;
        message = message;
      } in
      elim (codec.marshal event) [
        | none ↦ w
        | some encoded ↦
            let k = key namespace name in
            redis.ltrim k (negate r.max_entries) (negsuc 0) (redis.rpush k encoded w)
      ]

  -- The items that decode, in their order.
  unfoldable pub decode_all : List String → List LifecycleEvent
  decode_all [] = []
  decode_all (item ∷ items) =
      let rest = decode_all items in
      elim (codec.unmarshal item) [ none ↦ rest | some event ↦ event ∷ rest ]

  abbrev decode_reply : Option (List String) → List LifecycleEvent
  decode_reply none = []
  decode_reply (some items) = decode_all items

  unfoldable pub list : String → String → W → List LifecycleEvent × W
  unfolding key decode_all
  list namespace name w =
      let (items, w') = redis.lrange (key namespace name) (pos 0) (negsuc 0) w in
      (decode_reply items, w')

  unfoldable pub clear : String → String → W → W
  unfolding key
  clear namespace name w = redis.del (key namespace name ∷ []) w

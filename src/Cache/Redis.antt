-- ===== src/Cache/Redis.antt =====
-- internal/cache/redis_cache.go: `RedisCache`. The server and the JSON codec are parameters.
pub mod Names
pub mod Indexed
pub mod Removed
pub mod Listed
pub mod Log
pub mod Holding
pub mod Refinement
pub mod Uneven
pub mod Unlimited
use k8sagent_orchestrator.Prelude.{
  ℕ, ◌*◌, String, Option, none, some, List, [], ◌∷◌, ◌++◌, ◌<>◌, map, ltb, if◌then◌else◌,
}
use k8sagent_orchestrator.Prelude.Int.{ℤ, pos, negsuc, ◌*ℤ◌, wrap64, ltb_ℤ}
use k8sagent_orchestrator.Prelude.Map
use k8sagent_orchestrator.Prelude.Map.{Map}
use k8sagent_orchestrator.Cache.{Time, Duration, Value, Entry, expiry}
use k8sagent_orchestrator.Redis.{Redis}

-- `redisEntry`: the value as its JSON text.
pub record RedisEntry : Type 0 where
  pub value : String
  pub created_at : Time
  pub expires_at : Option Time

-- `json.Marshal` and `json.Unmarshal` at values and at entries. A value that does not decode is left nil.
pub record EntryCodec : Type 0 where
  pub marshal_value : Value → Option String
  pub marshal_entry : RedisEntry → Option String
  pub unmarshal_entry : String → Option RedisEntry
  pub unmarshal_value : String → Value

unfoldable pub field_key : String → String → String → String
field_key namespace name field = "cache:" <> (namespace <> ("/" <> (name <> (":" <> field))))

unfoldable pub index_key : String → String → String
index_key namespace name = "cache-idx:" <> (namespace <> ("/" <> name))

-- The lifetime of the index: twice that of the entry, in `int64`, or 24 hours.
unfoldable pub index_life : Duration → Duration
index_life ttl = if ltb_ℤ (pos 0) ttl then wrap64 (ttl *ℤ pos 2) else pos 86400000000000

module _ {W : Type 0} (redis : Redis W) (codec : EntryCodec) where
  -- The pipeline of `Set`.
  unfoldable pub store : String → String → String → String → Duration → W → W
  store namespace name field text ttl w =
      let idx_key = index_key namespace name in
      redis.expire idx_key (index_life ttl)
        (redis.sadd idx_key field (redis.set (field_key namespace name field) text ttl w))

  -- `now` is the one reading of the clock.
  unfoldable pub set : String → String → String → Value → Duration → Time → W → W
  unfolding store expiry
  set namespace name field value ttl now w = elim (codec.marshal_value value) [
    | none ↦ w
    | some raw ↦
        elim (codec.marshal_entry
          (record { value = raw; created_at = now; expires_at = expiry ttl now })) [
            | none ↦ w
            | some text ↦ store namespace name field text ttl w
          ]
  ]

  unfoldable pub decode : Option String → Option Entry
  decode none = none
  decode (some text) = elim (codec.unmarshal_entry text) [
    | none ↦ none
    | some re ↦ some (record {
      value = codec.unmarshal_value re.value;
      created_at = re.created_at;
      expires_at = re.expires_at;
    })
  ]

  unfoldable pub get_entry : String → String → String → W → Option Entry × W
  unfolding decode
  get_entry namespace name field w =
      let (data_text, w') = redis.get (field_key namespace name field) w in (decode data_text, w')

  unfoldable pub get : String → String → String → W → Option Value × W
  unfolding get_entry
  get namespace name field w =
      let (entry, w') = get_entry namespace name field w in
      (elim entry [ none ↦ none | some e ↦ some e.value ], w')

  unfoldable pub delete : String → String → String → W → W
  delete namespace name field w =
      redis.srem (index_key namespace name) field
        (redis.del (field_key namespace name field ∷ []) w)

  -- The loop of `List`, with the result so far.
  unfoldable pub list_fields : String → String → List String → Map Entry → W → Map Entry × W
  unfolding get_entry
  list_fields namespace name [] result w = (result, w)
  list_fields namespace name (field ∷ fields) result w =
      let (entry, w') = get_entry namespace name field w in
      elim entry [
        | some e ↦ list_fields namespace name fields (Map.insert field e result) w'
        | none ↦
            list_fields namespace name fields result
              (redis.srem (index_key namespace name) field w')
      ]

  unfoldable pub list : String → String → W → Map Entry × W
  unfolding list_fields
  list namespace name w =
      let (reply, w') = redis.smembers (index_key namespace name) w in
      elim reply [ none ↦ ([], w') | some fields ↦ list_fields namespace name fields [] w' ]

  unfoldable pub clear_agent : String → String → W → W
  clear_agent namespace name w =
      let idx_key = index_key namespace name in
      let (reply, w') = redis.smembers idx_key w in
      elim reply [
        | none ↦ w'
        | some fields ↦ redis.del (map (field_key namespace name) fields ++ idx_key ∷ []) w'
      ]

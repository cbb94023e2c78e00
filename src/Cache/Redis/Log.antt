-- ===== src/Cache/Redis/Log.antt =====
-- What `RedisCache` promises, over a log of calls with the time that goes by between them, where every
-- entry is written with one lifetime; and the calls run on a server.
use k8sagent_orchestrator.Prelude.{
  ℕ, ◌+◌, String, ◌≡◌, ap, ◌∙◌, ◌&&◌, Option, none, some, List, [], ◌∷◌, ◌==◌, if◌then◌else◌, leb,
}
use k8sagent_orchestrator.Prelude.Int.{pos}
use k8sagent_orchestrator.Redis.{Redis}
use k8sagent_orchestrator.Redis.Live.{LiveLaws}
use k8sagent_orchestrator.Cache.{Time, Value, Entry, expiry}
use k8sagent_orchestrator.Cache.Memory.Keys.{IsNamespace}
use k8sagent_orchestrator.Cache.Redis.{
  EntryCodec, RedisEntry, set, store, delete, clear_agent, decode,
}
use k8sagent_orchestrator.Cache.Redis.Names.{IsName}

-- The codec loses nothing of an entry but what `kept` says of its value.
pub record EntryCodecLaws (codec : EntryCodec) : Type 0 where
  pub kept : Value → Value
  pub encoded_value : Value → String
  pub encoded : RedisEntry → String
  pub marshal_value_lem : (v : Value) → codec.marshal_value v ≡ some (encoded_value v)
  pub marshal_entry_lem : (e : RedisEntry) → codec.marshal_entry e ≡ some (encoded e)
  pub unmarshal_entry-encoded : (e : RedisEntry) → codec.unmarshal_entry (encoded e) ≡ some e
  pub unmarshal_value-encoded_value : (v : Value) → codec.unmarshal_value (encoded_value v) ≡ kept v

-- One call, a write with the reading of its clock; or time that goes by.
pub data Op : Type 0 where
  put : (namespace name field : String) → Value → (now : Time) → Op
  del : (namespace name field : String) → Op
  clear : (namespace name : String) → Op
  wait : ℕ → Op

-- A write that stands: its value, when it was made, and when the server drops it.
pub record Standing : Type 0 where
  pub value : Value
  pub written : Time
  pub due : ℕ

-- The server's clock after a log, the newest call first.
abbrev pub elapsed : ℕ → List Op → ℕ
elapsed start [] = start
elapsed start (wait d ∷ log) = elapsed start log + d
elapsed start (put a b g v now ∷ log) = elapsed start log
elapsed start (del a b g ∷ log) = elapsed start log
elapsed start (clear a b ∷ log) = elapsed start log

abbrev pub unless_due : ℕ → Option Standing → Option Standing
unless_due t none = none
unless_due t (some s) = if leb s.due t then none else some s

-- The specification, for entries that live `life` on the server: the newest call that names the field
-- decides, and time drops what is due.
unfoldable pub standing : (start life : ℕ) → List Op → String → String → String → Option Standing
standing start life [] ns name f = none
standing start life (put a b g v now ∷ log) ns name f =
    if (a == ns && b == name) && g == f
    then some (record { value = v; written = now; due = elapsed start log + life })
    else standing start life log ns name f
standing start life (del a b g ∷ log) ns name f =
    if (a == ns && b == name) && g == f then none else standing start life log ns name f
standing start life (clear a b ∷ log) ns name f =
    if a == ns && b == name then none else standing start life log ns name f
standing start life (wait d ∷ log) ns name f =
    unless_due (elapsed start log + d) (standing start life log ns name f)

-- The call names a Kubernetes object.
abbrev pub IsNamed : Op → Type 0
IsNamed (put a b g v now) = IsNamespace a × IsName b
IsNamed (del a b g) = IsNamespace a × IsName b
IsNamed (clear a b) = IsNamespace a × IsName b
IsNamed (wait d) = Unit

module _ {W : Type 0} (redis : Redis W) (codec : EntryCodec) (laws : LiveLaws redis)
    (codec_laws : EntryCodecLaws codec) (n : ℕ) where
  unfoldable pub apply : Op → W → W
  apply (put a b g v now) w = set redis codec a b g v (pos n) now w
  apply (del a b g) w = delete redis codec a b g w
  apply (clear a b) w = clear_agent redis codec a b w
  apply (wait d) w = laws.pass d w

  unfoldable pub after : List Op → W → W
  after [] w = w
  after (op ∷ log) w = apply op (after log w)

  abbrev pub entry_text : Value → Time → String
  entry_text v now = codec_laws.encoded (record {
    value = codec_laws.encoded_value v;
    created_at = now;
    expires_at = expiry (pos n) now;
  })

  abbrev pub read : Option Standing → Option Entry
  read none = none
  read (some s) = some (record {
    value = codec_laws.kept s.value;
    created_at = s.written;
    expires_at = expiry (pos n) s.written;
  })

  pub set-store :
      (a b g : String) (v : Value) (now : Time) (w : W)
      → set redis codec a b g v (pos n) now w ≡ store redis codec a b g (entry_text v now) (pos n) w
  unfolding set
  set-store a b g v now w =
      let finish : Option String → W =
        λ x. elim x as (λ _. W) [ none ↦ w | some text ↦ store redis codec a b g text (pos n) w ] in
      let entry : String → RedisEntry =
        λ raw. record { value = raw; created_at = now; expires_at = expiry (pos n) now } in
      ap
        (λ (x : Option String). elim x as (λ _. W) [
          | none ↦ w
          | some raw ↦ finish (codec.marshal_entry (entry raw))
        ])
        (codec_laws.marshal_value_lem v)
      ∙ ap finish (codec_laws.marshal_entry_lem (entry (codec_laws.encoded_value v)))

  pub decode-entry_text :
      (v : Value) (now : Time)
      → decode redis codec (some (entry_text v now))
        ≡ read (some (record { value = v; written = now; due = 0 }))
  unfolding decode
  decode-entry_text v now =
      ap
        (λ (x : Option RedisEntry). elim x as (λ _. Option Entry) [
          | none ↦ none
          | some re ↦ some (record {
            value = codec.unmarshal_value re.value;
            created_at = re.created_at;
            expires_at = re.expires_at;
          })
        ])
        (codec_laws.unmarshal_entry-encoded _)
      ∙ ap (λ x. some (record { value = x; created_at = now; expires_at = expiry (pos n) now }))
          (codec_laws.unmarshal_value-encoded_value v)

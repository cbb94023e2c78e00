-- ===== src/Cache/Redis/Unlimited.antt =====
-- `RedisCache` where a field is written without a lifetime: its index still ends after a day.
use k8sagent_orchestrator.Prelude.{
  ℕ, ◌+◌, ◌≤◌, String, ◌≡◌, ap, ◌∙◌, true, false, Option, none, some, arith, text_self,
}
use k8sagent_orchestrator.Prelude.Int.{pos}
use k8sagent_orchestrator.Prelude.Map
use k8sagent_orchestrator.Redis.{Redis}
use k8sagent_orchestrator.Redis.Live.{LiveLaws}
use k8sagent_orchestrator.Cache.{Time, Value, Entry, expiry}
use k8sagent_orchestrator.Cache.Memory.Keys.{IsNamespace}
use k8sagent_orchestrator.Cache.Redis.{
  EntryCodec, field_key, index_key, index_life, set, store, clear_agent, get_entry, list, decode,
}
use k8sagent_orchestrator.Cache.Redis.Names.{IsName, index-ne-field}
use k8sagent_orchestrator.Cache.Redis.Listed.{lookup-list, get_entry_lem}
use k8sagent_orchestrator.Cache.Redis.Removed.{string-clear_agent}
use k8sagent_orchestrator.Cache.Redis.Log.{EntryCodecLaws, entry_text, set-store, decode-entry_text}

abbrev pub day : ℕ
day = 86400000000000

module _ {W : Type 0} (redis : Redis W) (codec : EntryCodec) (laws : LiveLaws redis)
    (codec_laws : EntryCodecLaws codec) (ns name f : String) (hn : IsNamespace ns)
    (kn : IsName name) (v : Value) (t : Time) (w : W) where
  abbrev text : String
  text = entry_text redis codec laws codec_laws 0 v t

  abbrev set_only : W
  set_only = redis.set (field_key ns name f) text (pos 0) w

  abbrev indexed : W
  indexed = redis.sadd (index_key ns name) f set_only

  abbrev written : W
  written = redis.expire (index_key ns name) (pos day) indexed

  -- A write of `f`, and a wait.
  abbrev pub unlimited : ℕ → W
  unlimited d = laws.pass d (set redis codec ns name f v (pos 0) t w)

  unlimited_lem : (d : ℕ) → unlimited d ≡ laws.pass d written
  unfolding store index_life
  unlimited_lem d = ap (laws.pass d) (set-store redis codec laws codec_laws 0 ns name f v t w)

  member-indexed : laws.member indexed (index_key ns name) f ≡ true
  member-indexed = ground (
    arith,
    laws.member-sadd (index_key ns name) f set_only (index_key ns name) f,
    text_self (index_key ns name),
    text_self f,
  )

  string-written : laws.string written (field_key ns name f) ≡ some text
  string-written = ground (
    arith,
    laws.string-expire (index_key ns name) day indexed (field_key ns name f) (omega arith),
    laws.string-sadd (index_key ns name) f set_only (field_key ns name f)
        (index-ne-field ns name ns name f),
    laws.string-set (field_key ns name f) text 0 w (field_key ns name f),
    text_self (field_key ns name f),
  )

  due-written : laws.due written (field_key ns name f) ≡ none
  due-written = ground (
    arith,
    laws.due-expire (index_key ns name) day indexed f (field_key ns name f) member-indexed
        (omega arith),
    laws.due-sadd (index_key ns name) f set_only (field_key ns name f),
    laws.due-set (field_key ns name f) text 0 w (field_key ns name f),
    index-ne-field ns name ns name f,
    text_self (field_key ns name f),
  )

  clock-indexed : laws.clock indexed ≡ laws.clock w
  clock-indexed =
      laws.clock-sadd (index_key ns name) f set_only ∙ laws.clock-set (field_key ns name f) text 0 w

  due_index-written :
      laws.due written (index_key ns name) ≡ some (laws.clock w + laws.expire_life day)
  due_index-written = ground (
    arith,
    laws.due-expire (index_key ns name) day indexed f (index_key ns name) member-indexed
        (omega arith),
    clock-indexed,
    text_self (index_key ns name),
  )

  clock-written : laws.clock written ≡ laws.clock w
  clock-written = laws.clock-expire (index_key ns name) day indexed ∙ clock-indexed

  module _ (d : ℕ) (gone : laws.expire_life day ≤ d) where
    member-unlimited : (x : String) → laws.member (unlimited d) (index_key ns name) x ≡ false
    member-unlimited x =
        ap (λ a. laws.member a (index_key ns name) x) (unlimited_lem d)
        ∙ ground (
          arith,
          laws.member-pass d written (index_key ns name) x,
          due_index-written,
          clock-written,
        )

    string-unlimited : laws.string (unlimited d) (field_key ns name f) ≡ some text
    string-unlimited =
        ap (λ a. laws.string a (field_key ns name f)) (unlimited_lem d)
        ∙ ground
            (arith, laws.string-pass d written (field_key ns name f), due-written, string-written)

    -- Where a field is written without a lifetime and nothing is written for a day or longer: `List` has no
    -- field, and `ClearAgent` leaves the entry, which does not expire, where `GetEntry` finds it.
    pub clear_agent-unlimited :
        ((x : String) → Map.lookup x (list redis codec ns name (unlimited d)).0 ≡ none)
        × ((get_entry redis codec ns name f (clear_agent redis codec ns name (unlimited d))).0
            ≡ some (record { value = codec_laws.kept v; created_at = t; expires_at = none }))
    unfolding expiry
    clear_agent-unlimited = (
      λ x. ground (arith, member-unlimited x, lookup-list redis codec laws ns name (unlimited d) x),
      ap (λ (x : Option Entry × W). x.0) (get_entry_lem redis codec laws ns name f _)
          ∙ ap (decode redis codec) (
              ground (
                arith,
                member-unlimited f,
                string-unlimited,
                string-clear_agent redis codec laws ns name (unlimited d) ns name f hn hn kn kn,
              ))
          ∙ decode-entry_text redis codec laws codec_laws 0 v t,
    )

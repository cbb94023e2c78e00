-- ===== src/Cache/Redis/Holding.antt =====
-- The server holds what stands of one field, and each operation keeps that.
use k8sagent_orchestrator.Prelude.{
  ℕ, ◌+◌, ◌*◌, ◌≤◌, ◌<◌, String, ◌≡◌, Bool, true, ◌&&◌, Option, none, some, arith, ◌==◌, eq_iff,
  if◌then◌else◌,
}
use k8sagent_orchestrator.Prelude.Int.{pos, two63}
use k8sagent_orchestrator.Redis.{Redis}
use k8sagent_orchestrator.Redis.Live.{LiveLaws}
use k8sagent_orchestrator.Cache.{Time, Value}
use k8sagent_orchestrator.Cache.Memory.Keys.{IsNamespace}
use k8sagent_orchestrator.Cache.Redis.{EntryCodec, field_key, index_key, store, delete, clear_agent}
use k8sagent_orchestrator.Cache.Redis.Names.{IsName, field_key-eq, index_key-eq}
use k8sagent_orchestrator.Cache.Redis.Indexed.{
  clock-store, string-store, due-store, member-store, due_index-store,
}
use k8sagent_orchestrator.Cache.Redis.Removed.{
  clock-delete, string-delete, due-delete, member-delete, due_index-delete, clock-clear_agent,
  string-clear_agent, due-clear_agent, member-clear_agent, due_index-clear_agent,
}
use k8sagent_orchestrator.Cache.Redis.Log.{EntryCodecLaws, Standing, unless_due, entry_text}

module _ {W : Type 0} (redis : Redis W) (codec : EntryCodec) (laws : LiveLaws redis)
    (codec_laws : EntryCodecLaws codec) (n : ℕ) where
  -- The index outlives the entry.
  abbrev Covers : ℕ → Option ℕ → Type 0
  Covers t none = Unit
  Covers t (some u) = t ≤ u

  module _ (ns name f : String) where
    -- What the server holds of the field, against what stands.
    abbrev pub Holds : Option Standing → W → Type 0
    Holds none w = laws.string w (field_key ns name f) ≡ none
    Holds (some s) w =
        (laws.string w (field_key ns name f)
          ≡ some (entry_text redis codec laws codec_laws n s.value s.written))
        × (laws.due w (field_key ns name f) ≡ some s.due)
        × (laws.member w (index_key ns name) f ≡ true)
        × Covers s.due (laws.due w (index_key ns name))
        × (s.due ≤ laws.clock w + laws.set_life n)

    pub pass-Holds :
        (s : Option Standing) (d : ℕ) (w : W)
        → Holds s w
        → Holds (unless_due (laws.clock w + d) s) (laws.pass d w)
    pass-Holds none d w h = ground (arith, laws.string-pass d w (field_key ns name f))
    pass-Holds (some s) d w h = ground (
      arith,
      laws.string-pass d w (field_key ns name f),
      laws.due-pass d w (field_key ns name f),
      laws.due-pass d w (index_key ns name),
      laws.member-pass d w (index_key ns name) f,
      laws.clock-pass d w,
    )

    module _ (p : 0 < n) (h : n * 2 < two63) (a b g : String) (hn : IsNamespace ns)
        (kn : IsName name) (ha : IsNamespace a) (kb : IsName b) (w : W) where
      abbrev same : Bool
      same = (a == ns && b == name) && g == f

      pub store-Holds :
          (s : Option Standing) (v : Value) (now : Time)
          → Holds s w
          → Holds
              (if same
                then some
                    (record { value = v; written = now; due = laws.clock w + laws.set_life n })
                else s)
              (store redis codec a b g (entry_text redis codec laws codec_laws n v now) (pos n) w)
      store-Holds none v now k = ground (
        arith,
        field_key-eq a b g ns name f ha hn kb kn,
        index_key-eq a b ns name ha hn,
        string-store redis codec laws a b g (entry_text redis codec laws codec_laws n v now) n p h w
            ns name f,
        due-store redis codec laws a b g (entry_text redis codec laws codec_laws n v now) n p h w ns
            name f,
        member-store redis codec laws a b g (entry_text redis codec laws codec_laws n v now) n p h w
            ns name f,
        due_index-store redis codec laws a b g (entry_text redis codec laws codec_laws n v now) n p
            h w ns name f,
        clock-store redis codec laws a b g (entry_text redis codec laws codec_laws n v now) n p h w,
        laws.set_life-expire_life n,
      )
      store-Holds (some s) v now k = ground (
        arith,
        field_key-eq a b g ns name f ha hn kb kn,
        index_key-eq a b ns name ha hn,
        string-store redis codec laws a b g (entry_text redis codec laws codec_laws n v now) n p h w
            ns name f,
        due-store redis codec laws a b g (entry_text redis codec laws codec_laws n v now) n p h w ns
            name f,
        member-store redis codec laws a b g (entry_text redis codec laws codec_laws n v now) n p h w
            ns name f,
        due_index-store redis codec laws a b g (entry_text redis codec laws codec_laws n v now) n p
            h w ns name f,
        clock-store redis codec laws a b g (entry_text redis codec laws codec_laws n v now) n p h w,
        laws.set_life-expire_life n,
      )

      pub delete-Holds :
          (s : Option Standing)
          → Holds s w
          → Holds (if same then none else s) (delete redis codec a b g w)
      delete-Holds none k = ground (
        arith,
        field_key-eq a b g ns name f ha hn kb kn,
        string-delete redis codec laws a b g w ns name f,
      )
      delete-Holds (some s) k = ground (
        arith,
        field_key-eq a b g ns name f ha hn kb kn,
        index_key-eq a b ns name ha hn,
        string-delete redis codec laws a b g w ns name f,
        due-delete redis codec laws a b g w ns name f,
        member-delete redis codec laws a b g w ns name f,
        due_index-delete redis codec laws a b g w ns name f,
        clock-delete redis codec laws a b g w ns name f,
      )

      pub clear_agent-Holds :
          (s : Option Standing)
          → Holds s w
          → Holds (if a == ns && b == name then none else s) (clear_agent redis codec a b w)
      clear_agent-Holds none k =
          ground (arith, string-clear_agent redis codec laws a b w ns name f ha hn kb kn)
      clear_agent-Holds (some s) k = ground (
        arith,
        index_key-eq a b ns name ha hn,
        eq_iff a ns,
        eq_iff b name,
        string-clear_agent redis codec laws a b w ns name f ha hn kb kn,
        due-clear_agent redis codec laws a b w ns name f ha hn kb kn,
        member-clear_agent redis codec laws a b w ns name f ha hn kb kn,
        due_index-clear_agent redis codec laws a b w ns name f ha hn kb kn,
        clock-clear_agent redis codec laws a b w,
      )

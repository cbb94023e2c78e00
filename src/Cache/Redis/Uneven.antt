-- ===== src/Cache/Redis/Uneven.antt =====
-- `RedisCache` where the fields of one agent are written with lifetimes that differ: the index lives as
-- long as the last write says.
use k8sagent_orchestrator.Prelude.{
  ℕ, ◌+◌, ◌*◌, ◌≤◌, ◌<◌, String, ◌≡◌, ap, ◌∙◌, false, Option, none, some, arith, ◌==◌, eq_iff,
}
use k8sagent_orchestrator.Prelude.Int.{pos, two63}
use k8sagent_orchestrator.Prelude.Map
use k8sagent_orchestrator.Redis.{Redis}
use k8sagent_orchestrator.Redis.Live.{LiveLaws}
use k8sagent_orchestrator.Cache.{Time, Value, Entry, expiry}
use k8sagent_orchestrator.Cache.Memory.Keys.{IsNamespace}
use k8sagent_orchestrator.Cache.Redis.{
  EntryCodec, field_key, index_key, set, store, clear_agent, get_entry, list, decode,
}
use k8sagent_orchestrator.Cache.Redis.Names.{IsName, field_key-eq}
use k8sagent_orchestrator.Cache.Redis.Listed.{lookup-list, get_entry_lem}
use k8sagent_orchestrator.Cache.Redis.Indexed.{
  clock-store, string-store, due-store, due_index-store,
}
use k8sagent_orchestrator.Cache.Redis.Removed.{string-clear_agent}
use k8sagent_orchestrator.Cache.Redis.Log.{EntryCodecLaws, entry_text, set-store, decode-entry_text}

-- A write of `f`, a write of `g`, and a wait.
abbrev pub lapsed :
    {W : Type 0} (redis : Redis W)
    → EntryCodec
    → LiveLaws redis
    → (ns name f g : String) → (n m : ℕ) → Value
    → Value
    → Time
    → Time
    → ℕ
    → W
    → W
lapsed redis codec laws ns name f g n m v u t1 t2 d w =
    laws.pass d (set redis codec ns name g u (pos m) t2 (set redis codec ns name f v (pos n) t1 w))

module _ {W : Type 0} (redis : Redis W) (codec : EntryCodec) (laws : LiveLaws redis)
    (codec_laws : EntryCodecLaws codec) (ns name f g : String) (distinct : (f == g) ≡ false)
    (hn : IsNamespace ns) (kn : IsName name) (n m : ℕ) (pn : 0 < n) (ln : n * 2 < two63)
    (pm : 0 < m) (lm : m * 2 < two63) (v u : Value) (t1 t2 : Time) where
  abbrev text_f : String
  text_f = entry_text redis codec laws codec_laws n v t1

  abbrev text_g : String
  text_g = entry_text redis codec laws codec_laws m u t2

  module _ (w : W) where
    abbrev waited : ℕ → W
    waited d = lapsed redis codec laws ns name f g n m v u t1 t2 d w

    abbrev first : W
    first = store redis codec ns name f text_f (pos n) w

    abbrev second : W
    second = store redis codec ns name g text_g (pos m) first

    lapsed_lem : (d : ℕ) → waited d ≡ laws.pass d second
    lapsed_lem d = ap (laws.pass d) (
        set-store redis codec laws codec_laws m ns name g u t2 _
        ∙ ap (store redis codec ns name g text_g (pos m))
            (set-store redis codec laws codec_laws n ns name f v t1 w))

    string-second : laws.string second (field_key ns name f) ≡ some text_f
    string-second = ground (
      arith,
      eq_iff g f,
      eq_iff f g,
      eq_iff f f,
      eq_iff ns ns,
      eq_iff name name,
      string-store redis codec laws ns name g text_g m pm lm first ns name f,
      string-store redis codec laws ns name f text_f n pn ln w ns name f,
      field_key-eq ns name g ns name f hn hn kn kn,
      field_key-eq ns name f ns name f hn hn kn kn,
    )

    due-second : laws.due second (field_key ns name f) ≡ some (laws.clock w + laws.set_life n)
    due-second = ground (
      arith,
      eq_iff g f,
      eq_iff f g,
      eq_iff f f,
      eq_iff ns ns,
      eq_iff name name,
      due-store redis codec laws ns name g text_g m pm lm first ns name f,
      due-store redis codec laws ns name f text_f n pn ln w ns name f,
      field_key-eq ns name g ns name f hn hn kn kn,
      field_key-eq ns name f ns name f hn hn kn kn,
    )

    due_index-second :
        laws.due second (index_key ns name) ≡ some (laws.clock w + laws.expire_life (m * 2))
    due_index-second = ground (
      arith,
      eq_iff (index_key ns name) (index_key ns name),
      due_index-store redis codec laws ns name g text_g m pm lm first ns name f,
      clock-store redis codec laws ns name f text_f n pn ln w,
    )

    clock-second : laws.clock second ≡ laws.clock w
    clock-second =
        clock-store redis codec laws ns name g text_g m pm lm first
        ∙ clock-store redis codec laws ns name f text_f n pn ln w

    module _ (d : ℕ) (gone : laws.expire_life (m * 2) ≤ d) (alive : d < laws.set_life n) where
      member-lapsed : (x : String) → laws.member (waited d) (index_key ns name) x ≡ false
      member-lapsed x =
          ap (λ a. laws.member a (index_key ns name) x) (lapsed_lem d)
          ∙ ground (
            arith,
            laws.member-pass d second (index_key ns name) x,
            due_index-second,
            clock-second,
          )

      string-lapsed : laws.string (waited d) (field_key ns name f) ≡ some text_f
      string-lapsed =
          ap (λ a. laws.string a (field_key ns name f)) (lapsed_lem d)
          ∙ ground (
            arith,
            laws.string-pass d second (field_key ns name f),
            due-second,
            string-second,
            clock-second,
          )

      -- Where `f` is written with one lifetime and then `g` with another, and twice the second passes while
      -- the first has not: `List` has neither field, and `ClearAgent` leaves the entry of `f` where
      -- `GetEntry` finds it.
      pub clear_agent-lapsed :
          ((x : String) → Map.lookup x (list redis codec ns name (waited d)).0 ≡ none)
          × ((get_entry redis codec ns name f (clear_agent redis codec ns name (waited d))).0
              ≡ some (record {
                value = codec_laws.kept v;
                created_at = t1;
                expires_at = expiry (pos n) t1;
              }))
      clear_agent-lapsed = (
        λ x. ground (arith, member-lapsed x, lookup-list redis codec laws ns name (waited d) x),
        ap (λ (x : Option Entry × W). x.0) (get_entry_lem redis codec laws ns name f _)
            ∙ ap (decode redis codec) (
                ground (
                  arith,
                  member-lapsed f,
                  string-lapsed,
                  string-clear_agent redis codec laws ns name (waited d) ns name f hn hn kn kn,
                ))
            ∙ decode-entry_text redis codec laws codec_laws n v t1,
      )

-- ===== src/Cache/Redis/Refinement.antt =====
-- `RedisCache` against its specification.
use k8sagent_orchestrator.Prelude.{
  ℕ, ◌+◌, ◌*◌, ◌<◌, String, ◌≡◌, refl, sym, ap, ◌∙◌, ◌&&◌, Option, none, some, List, [], ◌∷◌, subst,
  arith, ◌==◌, if◌then◌else◌, All,
}
use k8sagent_orchestrator.Prelude.Int.{pos, two63}
use k8sagent_orchestrator.Redis.{Redis}
use k8sagent_orchestrator.Redis.Live.{LiveLaws}
use k8sagent_orchestrator.Cache.Memory.Keys.{IsNamespace}
use k8sagent_orchestrator.Cache.Redis.{EntryCodec, field_key, set, get_entry, decode, list}
use k8sagent_orchestrator.Cache.Redis.Names.{IsName}
use k8sagent_orchestrator.Prelude.Map
use k8sagent_orchestrator.Cache.Redis.Listed.{lookup-list}
use k8sagent_orchestrator.Cache.Redis.Indexed.{clock-store}
use k8sagent_orchestrator.Cache.Redis.Removed.{clock-delete, clock-clear_agent}
use k8sagent_orchestrator.Cache.Redis.Log.{
  EntryCodecLaws, Op, put, del, clear, wait, Standing, elapsed, unless_due, standing, IsNamed,
  apply, after, entry_text, read, set-store, decode-entry_text,
}
use k8sagent_orchestrator.Cache.Redis.Holding.{
  Holds, pass-Holds, store-Holds, delete-Holds, clear_agent-Holds,
}

module _ {W : Type 0} (redis : Redis W) (codec : EntryCodec) (laws : LiveLaws redis)
    (codec_laws : EntryCodecLaws codec) (n : ℕ) where
  module _ (ns name f : String) where
    abbrev Stands : Option Standing → W → Type 0
    Stands = Holds redis codec laws codec_laws n ns name f

    module _ (p : 0 < n) (h : n * 2 < two63) (hn : IsNamespace ns) (kn : IsName name) where
      apply-Holds :
          (op : Op) (w : W) (start : ℕ) (log : List Op)
          → laws.clock w ≡ elapsed start log
          → IsNamed op
          → Stands (standing start (laws.set_life n) log ns name f) w
          → (Stands
              (standing start (laws.set_life n) (op ∷ log) ns name f)
              (apply redis codec laws codec_laws n op w))
            × (laws.clock (apply redis codec laws codec_laws n op w) ≡ elapsed start (op ∷ log))
      unfolding apply standing
      apply-Holds (put a b g v now) w start log e (ha, kb) k =
          let set_lem = sym (set-store redis codec laws codec_laws n a b g v now w) in
          let holds =
            store-Holds redis codec laws codec_laws n ns name f p h a b g hn kn ha kb w
              (standing start (laws.set_life n) log ns name f) v now k in
          (
            subst
                (λ t.
                  Stands
                    (if (a == ns && b == name) && g == f
                      then some (record { value = v; written = now; due = t + laws.set_life n })
                      else standing start (laws.set_life n) log ns name f)
                    (set redis codec a b g v (pos n) now w))
                e (subst (Stands _) set_lem holds),
            ap laws.clock (set-store redis codec laws codec_laws n a b g v now w)
                ∙ clock-store redis codec laws a b g
                    (entry_text redis codec laws codec_laws n v now) n p h w
                ∙ e,
          )
      apply-Holds (del a b g) w start log e (ha, kb) k = (
        delete-Holds redis codec laws codec_laws n ns name f p h a b g hn kn ha kb w
            (standing start (laws.set_life n) log ns name f) k,
        clock-delete redis codec laws a b g w ns name f ∙ e,
      )
      apply-Holds (clear a b) w start log e (ha, kb) k = (
        clear_agent-Holds redis codec laws codec_laws n ns name f p h a b f hn kn ha kb w
            (standing start (laws.set_life n) log ns name f) k,
        clock-clear_agent redis codec laws a b w ∙ e,
      )
      apply-Holds (wait d) w start log e _ k = (
        subst
            (λ t.
              Stands (unless_due (t + d) (standing start (laws.set_life n) log ns name f))
                (laws.pass d w))
            e (pass-Holds redis codec laws codec_laws n ns name f _ d w k),
        laws.clock-pass d w ∙ ap (λ t. t + d) e,
      )

      after-Holds :
          (log : List Op) (w : W)
          → ((k : String) → laws.string w k ≡ none)
          → All IsNamed log
          → (Stands
              (standing (laws.clock w) (laws.set_life n) log ns name f)
              (after redis codec laws codec_laws n log w))
            × (laws.clock (after redis codec laws codec_laws n log w) ≡ elapsed (laws.clock w) log)
      unfolding after standing
      after-Holds [] w empty _ = (empty (field_key ns name f), refl)
      after-Holds (op ∷ log) w empty (named, rest) =
          let (holds, clock) = after-Holds log w empty rest in
          apply-Holds op (after redis codec laws codec_laws n log w) (laws.clock w) log clock named
            holds

      get_entry-Holds :
          (s : Option Standing) (w : W)
          → Stands s w
          → get_entry redis codec ns name f w ≡ (read redis codec laws codec_laws n s, w)
      unfolding get_entry decode
      get_entry-Holds none w e = rw (laws.get_lem (field_key ns name f) w) (rw e refl)
      get_entry-Holds (some s) w (e, _, _, _, _) = rw (laws.get_lem (field_key ns name f) w) (
          rw e
            (ap (λ x. (x, w)) (decode-entry_text redis codec laws codec_laws n s.value s.written)))

      lookup-list_of_Holds :
          (s : Option Standing) (w : W)
          → Stands s w
          → Map.lookup f (list redis codec ns name w).0 ≡ read redis codec laws codec_laws n s
      lookup-list_of_Holds none w k =
          ground (arith, lookup-list redis codec laws ns name w f, get_entry-Holds none w k)
      lookup-list_of_Holds (some s) w k =
          ground (arith, lookup-list redis codec laws ns name w f, get_entry-Holds (some s) w k)

      -- From an empty server, and for entries that all have one lifetime, `GetEntry` after any log of calls
      -- and waits gives what the specification says: the newest write that no later call removed and that
      -- is not yet due, and it leaves the server as it is. `List` gives the same, of every field. Namespaces
      -- hold no slash, names no colon.
      pub get_entry-standing :
          (log : List Op) (w : W)
          → ((k : String) → laws.string w k ≡ none)
          → All IsNamed log
          → let stands =
              read redis codec laws codec_laws n
                (standing (laws.clock w) (laws.set_life n) log ns name f) in
            (get_entry redis codec ns name f (after redis codec laws codec_laws n log w)
              ≡ (stands, after redis codec laws codec_laws n log w))
            × (Map.lookup f (list redis codec ns name (after redis codec laws codec_laws n log w)).0
                ≡ stands)
      get_entry-standing log w empty named =
          let holds = (after-Holds log w empty named).0 in
          (
            get_entry-Holds (standing (laws.clock w) (laws.set_life n) log ns name f)
                (after redis codec laws codec_laws n log w) holds,
            lookup-list_of_Holds (standing (laws.clock w) (laws.set_life n) log ns name f)
                (after redis codec laws codec_laws n log w) holds,
          )

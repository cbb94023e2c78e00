-- ===== src/Cache/Redis/Listed.antt =====
-- `List` of `RedisCache` against `GetEntry`.
use k8sagent_orchestrator.Prelude.{
  String, ◌≡◌, refl, ap, ◌∙◌, Option, none, some, List, [], ◌∷◌, arith, eq_iff, if◌then◌else◌,
}
use k8sagent_orchestrator.Prelude.Map
use k8sagent_orchestrator.Prelude.Map.{Map, lookup-insert, or_else}
use k8sagent_orchestrator.Redis.{Redis, is_one_of}
use k8sagent_orchestrator.Redis.Live.{LiveLaws}
use k8sagent_orchestrator.Cache.{Entry}
use k8sagent_orchestrator.Cache.Redis.{
  EntryCodec, field_key, index_key, decode, get_entry, list_fields, list,
}
use k8sagent_orchestrator.Cache.Redis.Names.{index-ne-field}

module _ {W : Type 0} (redis : Redis W) (codec : EntryCodec) (laws : LiveLaws redis)
    (ns name : String) where
  abbrev entry : String → W → Option Entry
  entry f w = decode redis codec (laws.string w (field_key ns name f))

  pub get_entry_lem : (f : String) (w : W) → get_entry redis codec ns name f w ≡ (entry f w, w)
  unfolding get_entry
  get_entry_lem f w = rw (laws.get_lem (field_key ns name f) w) refl

  -- One turn of the loop, once the entry is read.
  abbrev turn : String → List String → Map Entry → Option Entry × W → Map Entry × W
  turn g fields result x = elim x.0 as (λ _. Map Entry × W) [
    | some e ↦ list_fields redis codec ns name fields (Map.insert g e result) x.1
    | none ↦ list_fields redis codec ns name fields result (redis.srem (index_key ns name) g x.1)
  ]

  list_fields_cons :
      (g : String) (fields : List String) (result : Map Entry) (w : W)
      → list_fields redis codec ns name (g ∷ fields) result w ≡ turn g fields result (entry g w, w)
  unfolding list_fields
  list_fields_cons g fields result w = ap (turn g fields result) (get_entry_lem g w)

  entry-srem : (g f : String) (w : W) → entry f (redis.srem (index_key ns name) g w) ≡ entry f w
  entry-srem g f w = ap (decode redis codec) (
      laws.string-srem (index_key ns name) g w (field_key ns name f)
        (index-ne-field ns name ns name f))

  -- The fields that the reply names, over what the result held.
  abbrev listed : List String → Map Entry → W → String → Option Entry
  listed fields result w f =
      if is_one_of f fields then or_else (entry f w) (Map.lookup f result) else Map.lookup f result

  abbrev Listing : List String → Type 0
  Listing fields =
      (result : Map Entry) (w : W) (f : String)
      → Map.lookup f (list_fields redis codec ns name fields result w).0 ≡ listed fields result w f

  lookup-turn :
      (g : String) (fields : List String)
      → Listing fields
      → (x : Option Entry) (result : Map Entry) (w : W) → entry g w ≡ x
      → (f : String) → Map.lookup f (turn g fields result (x, w)).0 ≡ listed (g ∷ fields) result w f
  lookup-turn g fields ih (some e) result w h f =
      ground (arith, ih (Map.insert g e result) w f, lookup-insert g f e result, eq_iff g f)
  lookup-turn g fields ih none result w h f =
      ground
        (arith, h, ih result (redis.srem (index_key ns name) g w) f, eq_iff g f, entry-srem g f w)

  lookup-list_fields : (fields : List String) → Listing fields
  unfolding list_fields
  lookup-list_fields [] result w f = refl
  lookup-list_fields (g ∷ fields) result w f =
      ap (λ (x : Map Entry × W). Map.lookup f x.0) (list_fields_cons g fields result w)
      ∙ lookup-turn g fields (lookup-list_fields fields) (entry g w) result w refl f

  -- `List` has an entry exactly for the fields of the index that `GetEntry` finds, and it is that entry.
  pub lookup-list :
      (w : W) (f : String)
      → Map.lookup f (list redis codec ns name w).0 ≡ (
          if laws.member w (index_key ns name) f
          then (get_entry redis codec ns name f w).0
          else none)
  unfolding list Map.lookup
  lookup-list w f =
      let (fields, reply, members) = laws.smembers_lem (index_key ns name) w in
      ap
        (λ (x : Option (List String) × W).
          Map.lookup f
            (elim x.0 as (λ _. Map Entry × W) [
              | none ↦ ([], x.1)
              | some fields ↦ list_fields redis codec ns name fields [] x.1
            ]).0)
        reply
      ∙ lookup-list_fields fields [] w f
      ∙ ground (arith, members f, ap (λ (x : Option Entry × W). x.0) (get_entry_lem f w))

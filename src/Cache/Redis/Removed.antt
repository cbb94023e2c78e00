-- ===== src/Cache/Redis/Removed.antt =====
-- What `Delete` and `ClearAgent` of `RedisCache` do to one field and to the index of its agent.
use k8sagent_orchestrator.Prelude.{
  String, ◌≡◌, ap, ◌∙◌, Bool, true, not, ◌&&◌, Option, none, some, List, [], ◌∷◌, ◌++◌, map, arith,
  ◌==◌, if◌then◌else◌,
}
use k8sagent_orchestrator.Redis.{Redis, is_one_of}
use k8sagent_orchestrator.Redis.Live.{LiveLaws}
use k8sagent_orchestrator.Cache.Memory.Keys.{IsNamespace}
use k8sagent_orchestrator.Cache.Redis.{EntryCodec, field_key, index_key, delete, clear_agent}
use k8sagent_orchestrator.Cache.Redis.Names.{IsName, field_key-eq, index-ne-field, field-ne-index}

-- The keys that a clear deletes hold the key of a field exactly if it is an indexed field of the agent.
cleared_fields :
    (a b ns name f : String) (fs : List String)
    → IsNamespace a
    → IsNamespace ns
    → IsName b
    → IsName name
    → is_one_of (field_key ns name f) (map (field_key a b) fs ++ index_key a b ∷ [])
      ≡ ((a == ns && b == name) && is_one_of f fs)
cleared_fields a b ns name f [] ha hn kb kn = ground (arith, index-ne-field a b ns name f)
cleared_fields a b ns name f (g ∷ fs) ha hn kb kn =
    ground
      (arith, cleared_fields a b ns name f fs ha hn kb kn, field_key-eq a b g ns name f ha hn kb kn)

cleared_index :
    (a b ns name : String) (fs : List String)
    → is_one_of (index_key ns name) (map (field_key a b) fs ++ index_key a b ∷ [])
      ≡ (index_key a b == index_key ns name)
cleared_index a b ns name [] = ground arith
cleared_index a b ns name (g ∷ fs) =
    ground (arith, cleared_index a b ns name fs, field-ne-index ns name a b g)

module _ {W : Type 0} (redis : Redis W) (codec : EntryCodec) (laws : LiveLaws redis) where
  module _ (a b g : String) (w : W) (ns name f : String) where
    abbrev removed : W
    removed = redis.del (field_key a b g ∷ []) w

    abbrev pub deleted : W
    deleted = delete redis codec a b g w

    pub clock-delete : laws.clock deleted ≡ laws.clock w
    unfolding delete
    clock-delete =
        laws.clock-srem (index_key a b) g removed ∙ laws.clock-del (field_key a b g ∷ []) w

    pub string-delete : laws.string deleted (field_key ns name f) ≡ (
        if field_key a b g == field_key ns name f
        then none
        else laws.string w (field_key ns name f))
    unfolding delete
    string-delete =
        laws.string-srem (index_key a b) g removed (field_key ns name f)
          (index-ne-field a b ns name f)
        ∙ ground (arith, laws.string-del (field_key a b g ∷ []) w (field_key ns name f))

    pub due-delete : laws.due deleted (field_key ns name f) ≡ (
        if field_key a b g == field_key ns name f then none else laws.due w (field_key ns name f))
    unfolding delete
    due-delete =
        laws.due-srem_other (index_key a b) g removed (field_key ns name f)
          (index-ne-field a b ns name f)
        ∙ ground (arith, laws.due-del (field_key a b g ∷ []) w (field_key ns name f))

    pub member-delete : laws.member deleted (index_key ns name) f ≡ (
        not (index_key a b == index_key ns name && g == f) && laws.member w (index_key ns name) f)
    unfolding delete
    member-delete =
        laws.member-srem (index_key a b) g removed (index_key ns name) f
        ∙ ground (
          arith,
          laws.member-del (field_key a b g ∷ []) w (index_key ns name) f,
          field-ne-index ns name a b g,
        )

    pub due_index-delete :
        laws.member deleted (index_key ns name) f ≡ true
        → laws.due deleted (index_key ns name) ≡ laws.due w (index_key ns name)
    unfolding delete
    due_index-delete m =
        laws.due-srem (index_key a b) g removed (index_key ns name) f m
        ∙ ground (
          arith,
          laws.due-del (field_key a b g ∷ []) w (index_key ns name),
          field-ne-index ns name a b g,
        )

  module _ (a b : String) (w : W) where
    abbrev keys : List String
    keys = map (field_key a b) (laws.smembers_lem (index_key a b) w).0 ++ index_key a b ∷ []

    abbrev pub cleared : W
    cleared = clear_agent redis codec a b w

    cleared_lem : cleared ≡ redis.del keys w
    unfolding clear_agent
    cleared_lem =
        ap
          (λ (x : Option (List String) × W). elim x.0 as (λ _. W) [
            | none ↦ x.1
            | some fields ↦ redis.del (map (field_key a b) fields ++ index_key a b ∷ []) x.1
          ])
          (laws.smembers_lem (index_key a b) w).1

    pub clock-clear_agent : laws.clock cleared ≡ laws.clock w
    clock-clear_agent = ap laws.clock cleared_lem ∙ laws.clock-del keys w

    module _ (ns name f : String) (ha : IsNamespace a) (hn : IsNamespace ns) (kb : IsName b)
        (kn : IsName name) where
      -- The field is one of those that the index names.
      abbrev named : Bool
      named = (a == ns && b == name) && laws.member w (index_key a b) f

      named_lem : is_one_of (field_key ns name f) keys ≡ named
      named_lem =
          cleared_fields a b ns name f (laws.smembers_lem (index_key a b) w).0 ha hn kb kn
          ∙ ap (λ m. (a == ns && b == name) && m) ((laws.smembers_lem (index_key a b) w).2 f)

      pub string-clear_agent :
          laws.string cleared (field_key ns name f)
          ≡ (if named then none else laws.string w (field_key ns name f))
      string-clear_agent =
          ap (λ v. laws.string v (field_key ns name f)) cleared_lem
          ∙ laws.string-del keys w (field_key ns name f)
          ∙ ap (λ t. if t then none else laws.string w (field_key ns name f)) named_lem

      pub due-clear_agent :
          laws.due cleared (field_key ns name f)
          ≡ (if named then none else laws.due w (field_key ns name f))
      due-clear_agent =
          ap (λ v. laws.due v (field_key ns name f)) cleared_lem
          ∙ laws.due-del keys w (field_key ns name f)
          ∙ ap (λ t. if t then none else laws.due w (field_key ns name f)) named_lem

      pub member-clear_agent :
          laws.member cleared (index_key ns name) f
          ≡ (not (index_key a b == index_key ns name) && laws.member w (index_key ns name) f)
      member-clear_agent =
          ap (λ v. laws.member v (index_key ns name) f) cleared_lem
          ∙ laws.member-del keys w (index_key ns name) f
          ∙ ap (λ t. not t && laws.member w (index_key ns name) f)
              (cleared_index a b ns name (laws.smembers_lem (index_key a b) w).0)

      pub due_index-clear_agent :
          laws.due cleared (index_key ns name)
          ≡ (if index_key a b == index_key ns name then none else laws.due w (index_key ns name))
      due_index-clear_agent =
          ap (λ v. laws.due v (index_key ns name)) cleared_lem
          ∙ laws.due-del keys w (index_key ns name)
          ∙ ap (λ t. if t then none else laws.due w (index_key ns name))
              (cleared_index a b ns name (laws.smembers_lem (index_key a b) w).0)

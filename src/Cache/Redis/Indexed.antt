-- ===== src/Cache/Redis/Indexed.antt =====
-- What the operations of `RedisCache` do to one field and to the index of its agent.
use k8sagent_orchestrator.Prelude.{
  ℕ, ◌+◌, ◌*◌, ◌<◌, String, ◌≡◌, ap, ◌∙◌, true, ◌&&◌, ◌||◌, some, arith, ◌==◌, if◌then◌else◌,
  text_self,
}
use k8sagent_orchestrator.Prelude.Int.{pos, ◌*ℤ◌, wrap64, two63}
use k8sagent_orchestrator.Redis.{Redis}
use k8sagent_orchestrator.Redis.Live.{LiveLaws}
use k8sagent_orchestrator.Cache.Redis.{EntryCodec, field_key, index_key, index_life, store}
use k8sagent_orchestrator.Cache.Redis.Names.{index-ne-field, field-ne-index}

index_life_double : (n : ℕ) → 0 < n → n * 2 < two63 → index_life (pos n) ≡ pos (n * 2)
unfolding index_life wrap64 ◌*ℤ◌
index_life_double n p h = ground arith

module _ {W : Type 0} (redis : Redis W) (codec : EntryCodec) (laws : LiveLaws redis) where
  module _ (a b g text : String) (n : ℕ) (p : 0 < n) (h : n * 2 < two63) (w : W) where
    abbrev set_only : W
    set_only = redis.set (field_key a b g) text (pos n) w

    abbrev indexed : W
    indexed = redis.sadd (index_key a b) g set_only

    abbrev pub stored : W
    stored = store redis codec a b g text (pos n) w

    stored_lem : stored ≡ redis.expire (index_key a b) (pos (n * 2)) indexed
    unfolding store
    stored_lem = ap (λ life. redis.expire (index_key a b) life indexed) (index_life_double n p h)

    pub clock-store : laws.clock stored ≡ laws.clock w
    clock-store =
        ap laws.clock stored_lem
        ∙ laws.clock-expire (index_key a b) (n * 2) indexed
        ∙ laws.clock-sadd (index_key a b) g set_only
        ∙ laws.clock-set (field_key a b g) text n w

    member-indexed : laws.member indexed (index_key a b) g ≡ true
    member-indexed = ground (
      arith,
      laws.member-sadd (index_key a b) g set_only (index_key a b) g,
      text_self (index_key a b),
      text_self g,
    )

    module _ (ns name f : String) where
      pub string-store : laws.string stored (field_key ns name f) ≡ (
          if field_key a b g == field_key ns name f
          then some text
          else laws.string w (field_key ns name f))
      string-store =
          ap (λ v. laws.string v (field_key ns name f)) stored_lem
          ∙ laws.string-expire (index_key a b) (n * 2) indexed (field_key ns name f) (omega arith)
          ∙ laws.string-sadd (index_key a b) g set_only (field_key ns name f)
              (index-ne-field a b ns name f)
          ∙ laws.string-set (field_key a b g) text n w (field_key ns name f)

      pub due-store : laws.due stored (field_key ns name f) ≡ (
          if field_key a b g == field_key ns name f
          then some (laws.clock w + laws.set_life n)
          else laws.due w (field_key ns name f))
      due-store =
          ap (λ v. laws.due v (field_key ns name f)) stored_lem
          ∙ ground (
            arith,
            laws.due-expire (index_key a b) (n * 2) indexed g (field_key ns name f) member-indexed
                (omega arith),
            laws.due-sadd (index_key a b) g set_only (field_key ns name f),
            laws.due-set (field_key a b g) text n w (field_key ns name f),
            index-ne-field a b ns name f,
          )

      pub member-store :
          laws.member stored (index_key ns name) f
          ≡ ((index_key a b == index_key ns name && g == f) || laws.member w (index_key ns name) f)
      member-store =
          ap (λ v. laws.member v (index_key ns name) f) stored_lem
          ∙ ground (
            arith,
            laws.member-expire (index_key a b) (n * 2) indexed (index_key ns name) f (omega arith),
            laws.member-sadd (index_key a b) g set_only (index_key ns name) f,
            laws.member-set (field_key a b g) text n w (index_key ns name) f
                (field-ne-index ns name a b g),
          )

      pub due_index-store : laws.due stored (index_key ns name) ≡ (
          if index_key a b == index_key ns name
          then some (laws.clock w + laws.expire_life (n * 2))
          else laws.due w (index_key ns name))
      due_index-store =
          ap (λ v. laws.due v (index_key ns name)) stored_lem
          ∙ ground (
            arith,
            laws.due-expire (index_key a b) (n * 2) indexed g (index_key ns name) member-indexed
                (omega arith),
            laws.due-sadd (index_key a b) g set_only (index_key ns name),
            laws.due-set (field_key a b g) text n w (index_key ns name),
            field-ne-index ns name a b g,
            laws.clock-sadd (index_key a b) g set_only,
            laws.clock-set (field_key a b g) text n w,
          )

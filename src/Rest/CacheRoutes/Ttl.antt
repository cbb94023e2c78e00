-- ===== src/Rest/CacheRoutes/Ttl.antt =====
-- Lifetimes that are given over the REST API, down to what the in-memory cache makes of them.
use k8sagent_orchestrator.Prelude.{
  ℕ, zero, suc, ◌+◌, ◌*◌, ◌<◌, ◌≤◌, String, ◌≡◌, refl, ap, ◌∙◌, subst, ◌⊎◌, inl, inr, ◌↔◌, arith,
}
use k8sagent_orchestrator.Prelude.Int.{pos, wrap64, ◌*ℤ◌, two63}
use k8sagent_orchestrator.Cache.{Time, Duration, Entry, expiry}
use k8sagent_orchestrator.Cache.Memory.{InMemoryCache}
use k8sagent_orchestrator.Cache.Memory.Store.{in_memory}
use k8sagent_orchestrator.Cache.Memory.Expiry.{IsReadableAt, get_entry-set_self, fresh-lifetime}
use k8sagent_orchestrator.Rest.{Request, Response, valid, ns_name, entry_body}
use k8sagent_orchestrator.Rest.Wake.{second}
use k8sagent_orchestrator.Rest.CacheRoutes.{
  CacheSetRequest, ttl_duration, handle_set_cache_field, handle_get_cache_field,
}

-- A lifetime in seconds is kept exactly up to the largest `int64` of nanoseconds, about 292 years, and
-- not from there on, where the product wraps around.
ttl_duration-exact : (n : ℕ) → (ttl_duration (pos n) ≡ pos (n * second)) ↔ (n * second < two63)
unfolding ttl_duration wrap64 ◌*ℤ◌
ttl_duration-exact n = ground arith

module _ {W : Type 0} (clock : W → Time × W) (c : Request) (field : String) where
  module _ (req : CacheSetRequest) (m : InMemoryCache) (w : W) where
    -- The entry that a PUT of the field makes, from the two readings of the clock.
    abbrev pub made : Duration → Entry
    made lifetime = record {
      value = req.value;
      created_at = (clock w).0;
      expires_at = expiry lifetime (clock (clock w).1).0;
    }

    abbrev pub stored : InMemoryCache × W
    stored = (handle_set_cache_field (in_memory clock) c field (valid req) (m, w)).1

    abbrev pub read_back : Response
    read_back = (handle_get_cache_field (in_memory clock) c field stored).0

    read_back-ttl_duration :
        ((read_back.content ≡ entry_body (made (ttl_duration req.ttl)))
          ↔ IsReadableAt (ttl_duration req.ttl) (clock (clock w).1).0 (clock stored.1).0)
        × ((read_back.code ≡ 200) ↔ (read_back.content ≡ entry_body (made (ttl_duration req.ttl))))
    unfolding handle_set_cache_field handle_get_cache_field in_memory
    read_back-ttl_duration =
        let now = (clock (clock w).1).0 in
        let t = (clock stored.1).0 in
        ground (
          arith,
          get_entry-set_self m (ns_name c).0 (ns_name c).1 field req.value (ttl_duration req.ttl)
              (clock w).0 now t,
          fresh-lifetime req.value (ttl_duration req.ttl) (clock w).0 now t,
        )

    readable_for : (n : ℕ) (now t : Time) → IsReadableAt (pos n) now t ↔ ((n ≡ 0) ⊎ (t ≤ now + n))
    readable_for zero now t = (λ _. inl refl, λ _. tt)
    readable_for (suc n) now t = ground arith

    -- With a lifetime of `n` whole seconds that fits an `int64` of nanoseconds: a GET of a field right
    -- after its PUT answers with the entry exactly if `n` is 0 or, at the GET's reading of the clock, at most
    -- `n` seconds have gone by since the PUT's second reading; and it answers 200 exactly if it answers with
    -- the entry.
    pub handle_get_cache_field-set :
        (n : ℕ)
        → req.ttl ≡ pos n
        → n * second < two63
        → let entry = made (pos (n * second)) in
          ((read_back.content ≡ entry_body entry)
            ↔ ((n ≡ 0) ⊎ ((clock stored.1).0 ≤ (clock (clock w).1).0 + n * second)))
          × ((read_back.code ≡ 200) ↔ (read_back.content ≡ entry_body entry))
    handle_get_cache_field-set n e fits =
        let exact : ttl_duration req.ttl ≡ pos (n * second) =
          ap ttl_duration e ∙ (ttl_duration-exact n).1 fits in
        let (answered, coded) =
          subst
            (λ d.
              ((read_back.content ≡ entry_body (made d))
                ↔ IsReadableAt d (clock (clock w).1).0 (clock stored.1).0)
              × ((read_back.code ≡ 200) ↔ (read_back.content ≡ entry_body (made d))))
            exact read_back-ttl_duration in
        let lasts = readable_for (n * second) (clock (clock w).1).0 (clock stored.1).0 in
        let seconds : (n * second ≡ 0) ↔ (n ≡ 0) = (λ h. omega arith, λ h. omega arith) in
        (
          (
            λ h. elim (lasts.0 (answered.0 h)) [ inl z ↦ inl (seconds.0 z) | inr l ↦ inr l ],
            λ h. answered.1 (lasts.1 (elim h [ inl z ↦ inl (seconds.1 z) | inr l ↦ inr l ])),
          ),
          coded,
        )

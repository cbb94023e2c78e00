-- ===== src/Rest/CacheRoutes.antt =====
-- internal/rest/handlers.go: the cache endpoints.
pub mod Ttl
use k8sagent_orchestrator.Prelude.{
  ℕ, String, Bool, true, Option, none, some, ◌==◌, if◌then◌else◌, ◌<>◌,
}
use k8sagent_orchestrator.Prelude.Int.{ℤ, pos, ◌*ℤ◌, wrap64}
use k8sagent_orchestrator.Cache.{CacheStore, Value, Duration}
use k8sagent_orchestrator.Io.{Io, ◌>>=◌, ◌>>◌, pure}
use k8sagent_orchestrator.Rest.{
  Request, Response, Body, invalid, valid, entry_body, entries_body, flag_body, field_flag_body,
  respond_ok, respond_error, ns_name,
}
use k8sagent_orchestrator.Rest.Wake.{second}

-- `ttl` is an `int` of seconds; 0 where it was not given.
pub record CacheSetRequest : Type 0 where
  pub value : Value
  pub ttl : ℤ

-- `time.Duration(req.TTL) * time.Second`, a product of two `int64`
unfoldable pub ttl_duration : ℤ → Duration
ttl_duration ttl = wrap64 (ttl *ℤ pos second)

module _ {W : Type 0} (cache : CacheStore W) where
  unfoldable pub handle_list_cache : Request → Io W Response
  unfolding ns_name
  handle_list_cache c = do
    entries ← cache.list (ns_name c).0 (ns_name c).1
    pure (respond_ok (entries_body entries))

  unfoldable pub handle_get_cache_field : Request → String → Io W Response
  unfolding ns_name
  handle_get_cache_field c field = do
    found ← cache.get_entry (ns_name c).0 (ns_name c).1 field
    elim found [
      | none ↦ pure (respond_error 404 "cache field not found or expired")
      | some entry ↦ pure (respond_ok (entry_body entry))
    ]

  unfoldable pub handle_set_cache_field : Request → String → Body CacheSetRequest → Io W Response
  unfolding ns_name ttl_duration
  handle_set_cache_field c field (invalid message) =
      pure (respond_error 400 ("invalid body: " <> message))
  handle_set_cache_field c field (valid req) = do
    cache.set (ns_name c).0 (ns_name c).1 field req.value (ttl_duration req.ttl)
    pure (respond_ok (field_flag_body field "set"))

  unfoldable pub handle_delete_cache_field : Request → String → Io W Response
  unfolding ns_name
  handle_delete_cache_field c field = do
    cache.delete (ns_name c).0 (ns_name c).1 field
    pure (respond_ok (field_flag_body field "deleted"))

  unfoldable pub handle_clear_cache : Request → Io W Response
  unfolding ns_name
  handle_clear_cache c = do
    cache.clear_agent (ns_name c).0 (ns_name c).1
    pure (respond_ok (flag_body "cleared" true))

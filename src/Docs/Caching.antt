-- ===== src/Docs/Caching.antt =====
-- docs/docs.go: the documented operations on the cache of an agent.
use k8sagent_orchestrator.Prelude.{[], ◌∷◌, true, none}
use k8sagent_orchestrator.Docs.Spec.{Operation, agent_name, answer, definition, object, texts, text}

abbrev pub list_cache_operation : Operation
list_cache_operation = record {
  path = "/api/v1/agents/{name}/cache";
  method = "get";
  description = "Returns all in-memory cache entries for the given agent";
  consumes = [];
  produces = "application/json" ∷ [];
  tags = "cache" ∷ [];
  summary = "List cache entries";
  parameters = agent_name ∷ [];
  responses = answer 200 "OK" object ∷ [];
}

abbrev pub clear_cache_operation : Operation
clear_cache_operation = record {
  path = "/api/v1/agents/{name}/cache";
  method = "delete";
  description = "Removes all cache entries for the given agent";
  consumes = [];
  produces = "application/json" ∷ [];
  tags = "cache" ∷ [];
  summary = "Clear agent cache";
  parameters = agent_name ∷ [];
  responses = answer 200 "cleared: true" object ∷ [];
}

abbrev pub get_cache_field_operation : Operation
get_cache_field_operation = record {
  path = "/api/v1/agents/{name}/cache/{field}";
  method = "get";
  description = "Returns a single cache entry by field name. Returns 404 if missing or expired.";
  consumes = [];
  produces = "application/json" ∷ [];
  tags = "cache" ∷ [];
  summary = "Get cache field";
  parameters =
      agent_name
      ∷ record {
        name = "field";
        place = "path";
        description = "Cache field name";
        required = true;
        schema = text;
        default = none;
      }
      ∷ [];
  responses = answer 200 "OK" object ∷ answer 404 "Not Found" texts ∷ [];
}

abbrev pub set_cache_field_operation : Operation
set_cache_field_operation = record {
  path = "/api/v1/agents/{name}/cache/{field}";
  method = "put";
  description =
      "Stores a value in the per-agent cache with an optional TTL. ttl_seconds=0 means no expiry.";
  consumes = "application/json" ∷ [];
  produces = "application/json" ∷ [];
  tags = "cache" ∷ [];
  summary = "Set cache field";
  parameters =
      agent_name
      ∷ record {
        name = "field";
        place = "path";
        description = "Cache field name";
        required = true;
        schema = text;
        default = none;
      }
      ∷ record {
        name = "body";
        place = "body";
        description = "Value and optional TTL";
        required = true;
        schema = definition "#/definitions/internal_rest.CacheSetRequest";
        default = none;
      }
      ∷ [];
  responses = answer 200 "OK" object ∷ answer 400 "Bad Request" texts ∷ [];
}

abbrev pub delete_cache_field_operation : Operation
delete_cache_field_operation = record {
  path = "/api/v1/agents/{name}/cache/{field}";
  method = "delete";
  description = "Removes a single field from the per-agent cache";
  consumes = [];
  produces = "application/json" ∷ [];
  tags = "cache" ∷ [];
  summary = "Delete cache field";
  parameters =
      agent_name
      ∷ record {
        name = "field";
        place = "path";
        description = "Cache field name";
        required = true;
        schema = text;
        default = none;
      }
      ∷ [];
  responses = answer 200 "deleted: true" object ∷ [];
}

-- ===== src/Redis.antt =====
-- The Redis client that internal/cache/redis_cache.go and internal/history/history.go call. The
-- server is not part of the repository: it is a parameter over a state `W`, and what the code relies
-- on is stated as laws. The commands of a pipeline run in their order.
pub mod Live
use k8sagent_orchestrator.Prelude.{
  ℕ, suc, ◌-◌, String, ◌≡◌, Bool, false, ◌||◌, Option, some, List, [], ◌∷◌, ◌++◌, ◌==◌,
  if◌then◌else◌, length, drop,
}
use k8sagent_orchestrator.Prelude.Int.{ℤ, pos, negsuc}

pub record Redis (W : Type 0) : Type 0 where
  -- SET with a lifetime, where 0 means none; GET, where `none` stands for an error or a missing key
  pub set : String → String → ℤ → W → W
  pub get : String → W → Option String × W
  pub del : List String → W → W
  pub expire : String → ℤ → W → W
  pub sadd : String → String → W → W
  pub srem : String → String → W → W
  pub smembers : String → W → Option (List String) × W
  pub rpush : String → String → W → W
  pub ltrim : String → ℤ → ℤ → W → W
  pub lrange : String → ℤ → ℤ → W → Option (List String) × W

abbrev pub is_one_of : String → List String → Bool
is_one_of k [] = false
is_one_of k (j ∷ js) = j == k || is_one_of k js

-- The list commands of a server that answers: RPUSH appends, LTRIM from -n to -1 keeps the last n,
-- LRANGE from 0 to -1 gives the whole list, DEL removes keys, and other keys are left alone.
pub record ListLaws {W : Type 0} (redis : Redis W) : Type 0 where
  pub stored : W → String → List String
  pub stored-rpush :
      (k v : String) (w : W) (j : String)
      → stored (redis.rpush k v w) j ≡ (if k == j then stored w j ++ v ∷ [] else stored w j)
  pub stored-ltrim :
      (k : String) (n : ℕ) (w : W) (j : String)
      → stored (redis.ltrim k (negsuc n) (negsuc 0) w) j
        ≡ (if k == j then drop (length (stored w j) - suc n) (stored w j) else stored w j)
  pub lrange-stored :
      (k : String) (w : W) → redis.lrange k (pos 0) (negsuc 0) w ≡ (some (stored w k), w)
  pub stored-del :
      (ks : List String) (w : W) (j : String)
      → stored (redis.del ks w) j ≡ (if is_one_of j ks then [] else stored w j)

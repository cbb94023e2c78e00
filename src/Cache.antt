-- ===== src/Cache.antt =====
-- internal/cache/cache.go: the entry type and its expiry, and the interface `CacheStore`.
pub mod Memory
pub mod Redis
use k8sagent_orchestrator.Prelude.{
  ℕ, ◌+◌, String, Bool, false, Option, none, some, ltb, if◌then◌else◌,
}
use k8sagent_orchestrator.Prelude.Int.{ℤ, pos, negsuc}
use k8sagent_orchestrator.Prelude.Map.{Map}

-- A reading of the clock, in nanoseconds since the Unix epoch.
abbrev pub Time : Type 0
Time = ℕ

-- A length of time in nanoseconds: Go's `time.Duration`, an `int64`.
abbrev pub Duration : Type 0
Duration = ℤ

-- What an `interface{}` holds here. A `float64` is its 64 bits; any other value is carried as its
-- JSON text.
pub data Value : Type 0 where
  int64 : ℤ → Value
  float64 : ℕ → Value
  other : String → Value

pub record Entry : Type 0 where
  pub value : Value
  pub created_at : Time
  pub expires_at : Option Time

-- `now` is the reading that `time.Now()` gives inside the method.
unfoldable pub is_expired : Entry → Time → Bool
is_expired e now = elim e.expires_at [ none ↦ false | some t ↦ ltb t now ]

-- `ttl > 0`, and `now.Add(ttl)`.
unfoldable pub expiry : Duration → Time → Option Time
expiry (pos n) now = if ltb 0 n then some (now + n) else none
expiry (negsuc n) now = none

-- The interface, over a state `W` that holds the store and the clock that it reads.
pub record CacheStore (W : Type 0) : Type 0 where
  pub set : String → String → String → Value → Duration → W → W
  pub get : String → String → String → W → Option Value × W
  pub get_entry : String → String → String → W → Option Entry × W
  pub delete : String → String → String → W → W
  pub list : String → String → W → Map Entry × W
  pub clear_agent : String → String → W → W

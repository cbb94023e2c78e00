-- ===== src/Idle.antt =====
-- internal/idle/watcher.go: pausing the agents that were not active for their idle timeout. The value of
-- the activity field goes through the cache; `float_to_int64` is Go's conversion of the 64 bits of a
-- `float64`.
pub mod Pausing
pub mod Activity
pub mod Middleware
use k8sagent_orchestrator.Prelude.{
  ℕ, suc, zero, ◌+◌, String, Bool, true, false, not, Option, none, some, List, [], ◌∷◌,
  if◌then◌else◌, ltb,
}
use k8sagent_orchestrator.Prelude.Int.{
  ℤ, pos, negsuc, ◌-ℤ◌, ◌*ℤ◌, ltb_ℤ, leb_ℤ, eqb_ℤ, wrap64, two63,
}
use k8sagent_orchestrator.Cache.{Time, Duration, Value, int64, float64, other, CacheStore}
use k8sagent_orchestrator.Api.{Agent}
use k8sagent_orchestrator.Io.{Io, ◌>>=◌, ◌>>◌, pure, Result, ok, err}
use k8sagent_orchestrator.Kube.{Env}
use k8sagent_orchestrator.Rest.{annotate}
use k8sagent_orchestrator.Rest.Wake.{second}
use k8sagent_orchestrator.Rest.Lifecycle.{with_paused, stopped_at}

abbrev pub activity_key : String
activity_key = "_idle_last_activity"

pub record Watcher : Type 0 where
  pub global_timeout : Duration
  pub check_interval : Duration

-- `time.Duration(agent.Spec.IdleTimeout) * time.Second` where it is given, else the global timeout.
unfoldable pub effective_timeout : Watcher → Agent → Duration
effective_timeout watcher agent =
    if ltb_ℤ (pos 0) agent.spec.idle_timeout
    then wrap64 (agent.spec.idle_timeout *ℤ pos second)
    else watcher.global_timeout

-- `Time.Sub` stops at the ends of `int64`.
unfoldable pub saturate : ℤ → Duration
saturate (pos n) = if ltb n two63 then pos n else pos 9223372036854775807
saturate (negsuc n) = if ltb n two63 then negsuc n else negsuc 9223372036854775807

unfoldable pub sub_time : Time → ℤ → Duration
unfolding saturate
sub_time now nano = saturate (pos now -ℤ nano)

-- The type switch on the cached value.
unfoldable pub last_activity : (ℕ → ℤ) → Value → Option ℤ
last_activity float_to_int64 (int64 v) = some v
last_activity float_to_int64 (float64 v) = some (float_to_int64 v)
last_activity float_to_int64 (other v) = none

-- What `pauseAgent` sends, at the given stamp.
unfoldable pub idle_paused : String → Agent → Agent
idle_paused stamp agent =
    annotate "orchestrator.dev/stop-reason" "idle-timeout"
      (annotate stopped_at stamp (with_paused true agent))

module _ {W : Type 0} (env : Env W) (cache : CacheStore W) (float_to_int64 : ℕ → ℤ) where
  unfoldable pub touch_activity : String → String → W → W
  touch_activity namespace name w =
      let (now, w') = env.now w in
      cache.set namespace name activity_key (int64 (wrap64 (pos now))) (pos 0) w'

  unfoldable pub pause_agent : Agent → W → W
  unfolding idle_paused
  pause_agent agent w =
      let (now, w') = env.now w in
      (env.patch_agent agent (idle_paused (env.rfc3339 now) agent) w').1

  check_activity : Duration → Time → Agent → Option ℤ → W → W
  unfolding touch_activity pause_agent sub_time
  check_activity timeout now agent none w = touch_activity agent.meta.namespace agent.meta.name w
  check_activity timeout now agent (some nano) w =
      if ltb_ℤ (sub_time now nano) timeout then w else pause_agent agent w

  check_value : Duration → Time → Agent → Option Value → W → W
  unfolding check_activity touch_activity last_activity
  check_value timeout now agent none w = touch_activity agent.meta.namespace agent.meta.name w
  check_value timeout now agent (some value) w =
      check_activity timeout now agent (last_activity float_to_int64 value) w

  -- One round of the loop of `check`.
  unfoldable pub check_agent : Watcher → Time → Agent → W → W
  unfolding effective_timeout check_value
  check_agent watcher now agent w =
      let timeout = effective_timeout watcher agent in
      let (found, w') = cache.get agent.meta.namespace agent.meta.name activity_key w in
      let tracked = check_value timeout now agent found w' in
      if agent.spec.paused then w else if eqb_ℤ timeout (pos 0) then w else tracked

  unfoldable pub check_agents : Watcher → Time → List Agent → W → W
  check_agents watcher now [] w = w
  check_agents watcher now (agent ∷ items) w =
      check_agents watcher now items (check_agent watcher now agent w)

  unfoldable pub check : Watcher → W → W
  check watcher w =
      let (reply, w₁) = env.list_agents none w in
      let (now, w₂) = env.now w₁ in
      elim reply [ err _ ↦ w₁ | ok items ↦ check_agents watcher now items w₂ ]

  -- The interval that `Start` falls back to.
  unfoldable pub with_interval : Watcher → Watcher
  with_interval watcher =
      if leb_ℤ watcher.check_interval (pos 0)
      then record watcher { check_interval = pos 30000000000 }
      else watcher

  ticks : Watcher → ℕ → W → W
  ticks watcher zero w = w
  ticks watcher (suc n) w = ticks watcher n (check watcher w)

  -- `Start`, for the number of ticks that come before the context is cancelled.
  unfoldable pub start : Watcher → ℕ → W → W
  unfolding ticks with_interval
  start watcher n w = ticks (with_interval watcher) n w

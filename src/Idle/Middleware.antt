-- ===== src/Idle/Middleware.antt =====
-- `activityMiddleware` of internal/rest/server.go: a request on an agent counts as its activity.
use k8sagent_orchestrator.Prelude.{
  ℕ, ◌+◌, ◌≤◌, ◌<◌, ◌≡◌, refl, ◌≢◌, ◌↔◌, false, Option, none, some, ◌==◌, if◌then◌else◌, ne-eqb,
}
use k8sagent_orchestrator.Prelude.Int.{ℤ, pos, two63, IsInt32}
use k8sagent_orchestrator.Cache.{Time, CacheStore}
use k8sagent_orchestrator.Cache.Memory.Store.{CacheLaws}
use k8sagent_orchestrator.Api.{Agent}
use k8sagent_orchestrator.Kube.{Env}
use k8sagent_orchestrator.Kube.Trace.{patches}
use k8sagent_orchestrator.Rest.{Request, ns_name}
use k8sagent_orchestrator.Idle.{Watcher, touch_activity}
use k8sagent_orchestrator.Idle.Pausing.{limit, sent, stamp, Pauses}
use k8sagent_orchestrator.Idle.Activity.{touched, at, check_agent-Pauses}

module _ {W : Type 0} (env : Env W) (cache : CacheStore W) (float_to_int64 : ℕ → ℤ) where
  -- What the middleware does before the handler; `watcher` is `s.idleWatcher`.
  unfoldable pub activity_middleware : Option Watcher → Request → W → W
  activity_middleware none c w = w
  activity_middleware (some watcher) c w =
      let namespace = if c.namespace == "" then c.default_namespace else c.namespace in
      if c.name == "" then w else touch_activity env cache float_to_int64 namespace c.name w

  middleware-touched :
      (watcher : Watcher) (c : Request) (agent : Agent) (w : W)
      → (ns_name c).0 ≡ agent.meta.namespace
      → c.name ≡ agent.meta.name
      → agent.meta.name ≢ ""
      → activity_middleware (some watcher) c w ≡ touched env cache float_to_int64 agent w
  unfolding activity_middleware ns_name
  middleware-touched watcher c agent w s n d = rw (s, n, ne-eqb agent.meta.name "" d) refl

  -- On a cache that gives back what was stored, with a global timeout that is not negative: after a request
  -- on an agent, and nothing else, a round of the watcher at `now` sends one change, which sets `paused` and
  -- nothing else of the spec, exactly if the agent is unpaused, has a limit other than 0, and the limit has
  -- gone by since the request.
  pub check_agent-activity_middleware :
      CacheLaws cache
      → (watcher : Watcher) (global : ℕ) (now : Time) (c : Request) (agent : Agent) (w : W)
      → (ns_name c).0 ≡ agent.meta.namespace
      → c.name ≡ agent.meta.name
      → agent.meta.name ≢ ""
      → watcher.global_timeout ≡ pos global
      → global < two63
      → IsInt32 agent.spec.idle_timeout
      → at env cache float_to_int64 agent w < two63
      → ((agent.spec.paused ≡ false)
          × (limit global agent.spec.idle_timeout ≢ 0)
          × (at env cache float_to_int64 agent w + limit global agent.spec.idle_timeout ≤ now))
        ↔ Pauses agent
            (stamp env cache float_to_int64 agent (activity_middleware (some watcher) c w))
            (patches (
              sent env cache float_to_int64 watcher now agent
                (activity_middleware (some watcher) c w)))
  check_agent-activity_middleware laws watcher global now c agent w s n d g h t early =
      rw (middleware-touched watcher c agent w s n d)
        (check_agent-Pauses env cache float_to_int64 agent w laws watcher global now g h t early)

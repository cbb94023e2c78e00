-- ===== src/Idle/Activity.antt =====
-- The idle watcher on an agent whose activity was recorded.
use k8sagent_orchestrator.Prelude.{
  ℕ, ◌+◌, ◌≤◌, ◌<◌, ◌≡◌, refl, subst, ◌≢◌, ◌↔◌, false, some, [], ◌∷◌, arith,
}
use k8sagent_orchestrator.Prelude.Int.{
  ℤ, pos, wrap64, wrap64_of_IsInt64, two63, IsInt32, pos_part, neg_part,
}
use k8sagent_orchestrator.Cache.{Time, int64, CacheStore}
use k8sagent_orchestrator.Cache.Memory.Store.{CacheLaws}
use k8sagent_orchestrator.Api.{Agent}
use k8sagent_orchestrator.Kube.{Env}
use k8sagent_orchestrator.Kube.Trace.{patches}
use k8sagent_orchestrator.Idle.{Watcher, touch_activity, activity_key, last_activity}
use k8sagent_orchestrator.Idle.Pausing.{
  limit, activity, sent, pausing, stamp, Pauses, check_agent-pausing, check_agent-IsIdle,
}

elapsed_at :
    (n at now : ℕ) (last : ℤ)
    → last ≡ pos at
    → n + pos_part last ≤ now + neg_part last
    → at + n ≤ now
elapsed_at n at now last e h = ground arith

module _ {W : Type 0} (env : Env W) (cache : CacheStore W) (float_to_int64 : ℕ → ℤ) (agent : Agent)
    (w : W) where
  -- The world after a recorded activity, and when it was.
  abbrev pub touched : W
  touched = touch_activity env cache float_to_int64 agent.meta.namespace agent.meta.name w

  abbrev pub at : Time
  at = (env.now w).0

  activity-touched :
      CacheLaws cache → at < two63 → activity env cache float_to_int64 agent touched ≡ some (pos at)
  unfolding touch_activity last_activity
  activity-touched laws h =
      let exact = wrap64_of_IsInt64 (pos at) h in
      let got =
        laws.get-set agent.meta.namespace agent.meta.name activity_key (int64 (wrap64 (pos at)))
          (env.now w).1 in
      rw (got, exact) refl

  -- On a cache that gives back what was stored, with a global timeout that is not negative: if an agent's
  -- activity was recorded at a time before the year 2262 and nothing else happened since, a round at
  -- `now` sends the change that pauses the agent if it is unpaused, has a limit other than 0, and the
  -- limit has gone by; and it sends a change only then.
  check_agent-touched :
      CacheLaws cache
      → (watcher : Watcher) (global : ℕ) (now : Time) → watcher.global_timeout ≡ pos global
      → global < two63
      → IsInt32 agent.spec.idle_timeout
      → at < two63
      → ((agent.spec.paused ≡ false)
          × (limit global agent.spec.idle_timeout ≢ 0)
          × (at + limit global agent.spec.idle_timeout ≤ now))
        ↔ (patches (sent env cache float_to_int64 watcher now agent touched)
            ≡ pausing env cache float_to_int64 watcher now agent touched ∷ [])
  check_agent-touched laws watcher global now g h t early =
      let (then, only) =
        check_agent-pausing env cache float_to_int64 watcher now agent touched global g h t in
      let known = activity-touched laws early in
      (
        λ (unpaused, limited, elapsed). then (record {
          unpaused = unpaused;
          limited = limited;
          last = pos at;
          known = known;
          elapsed = omega arith;
        }),
        λ e.
            let idle = only (λ q. cc e) in
            let same : idle.last ≡ pos at = cc idle.known in
            (idle.unpaused, idle.limited, elapsed_at _ _ now idle.last same idle.elapsed),
      )

  -- The same, by what the change is.
  pub check_agent-Pauses :
      CacheLaws cache
      → (watcher : Watcher) (global : ℕ) (now : Time) → watcher.global_timeout ≡ pos global
      → global < two63
      → IsInt32 agent.spec.idle_timeout
      → at < two63
      → ((agent.spec.paused ≡ false)
          × (limit global agent.spec.idle_timeout ≢ 0)
          × (at + limit global agent.spec.idle_timeout ≤ now))
        ↔ Pauses agent
            (stamp env cache float_to_int64 agent touched)
            (patches (sent env cache float_to_int64 watcher now agent touched))
  check_agent-Pauses laws watcher global now g h t early =
      let (idle, sends) = check_agent-touched laws watcher global now g h t early in
      let (pauses, only) =
        check_agent-IsIdle env cache float_to_int64 watcher now agent touched global g h t in
      let (then, _) =
        check_agent-pausing env cache float_to_int64 watcher now agent touched global g h t in
      (
        λ due. let e = idle due in pauses (only (λ q. cc e)),
        λ p. sends (then (only (λ q. subst (Pauses agent _) q p))),
      )

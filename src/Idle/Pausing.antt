-- ===== src/Idle/Pausing.antt =====
-- When the idle watcher pauses an agent.
use k8sagent_orchestrator.Prelude.{
  ℕ, ◌+◌, ◌*◌, ◌≤◌, ◌<◌, String, ◌≡◌, refl, sym, ◌∙◌, subst, ◌≢◌, ◌↔◌, true, false, Option, none,
  some, List, [], ◌∷◌, ltb, if◌then◌else◌, arith,
}
use k8sagent_orchestrator.Prelude.Int.{
  ℤ, pos, negsuc, ◌-ℤ◌, ◌*ℤ◌, ltb_ℤ, eqb_ℤ, pos_part, neg_part, wrap64, two63, IsInt32,
}
use k8sagent_orchestrator.Prelude.Map
use k8sagent_orchestrator.Prelude.Map.{lookup-insert, lookup-insert_self}
use k8sagent_orchestrator.Cache.{Time, Duration, Value, CacheStore}
use k8sagent_orchestrator.Api.{Agent, or_empty}
use k8sagent_orchestrator.Kube.{Env}
use k8sagent_orchestrator.Kube.Trace.{Call, traced, traced_cache, patches}
use k8sagent_orchestrator.Idle.{
  Watcher, effective_timeout, sub_time, last_activity, idle_paused, activity_key, check_agent,
}
use k8sagent_orchestrator.Rest.Lifecycle.{stopped_at}
use k8sagent_orchestrator.Rest.Wake.{second}

-- The agent's own timeout in nanoseconds, or the global one.
abbrev pub limit : ℕ → ℤ → ℕ
limit global (pos n) = if ltb 0 n then n * second else global
limit global (negsuc n) = global

own_timeout :
    (global : ℕ) (t : ℤ)
    → IsInt32 t
    → (if ltb_ℤ (pos 0) t then wrap64 (t *ℤ pos second) else pos global) ≡ pos (limit global t)
unfolding wrap64 ◌*ℤ◌
own_timeout global (pos n) h = ground arith
own_timeout global (negsuc n) h = ground arith

-- An agent's timeout in seconds, an `int32`, never overflows as a duration; 0 and less stand for the
-- global timeout.
pub effective_timeout-limit :
    (watcher : Watcher) (global : ℕ) (agent : Agent)
    → watcher.global_timeout ≡ pos global
    → IsInt32 agent.spec.idle_timeout
    → effective_timeout watcher agent ≡ pos (limit global agent.spec.idle_timeout)
unfolding effective_timeout
effective_timeout-limit watcher global agent g h =
    rw g (own_timeout global agent.spec.idle_timeout h)

limit-bounded : (global : ℕ) (t : ℤ) → global < two63 → IsInt32 t → limit global t < two63
limit-bounded global (pos n) g h = ground arith
limit-bounded global (negsuc n) g h = g

elapsed_iff :
    (n : ℕ) (now : Time) (nano : ℤ) (d : Duration)
    → d ≡ pos n
    → n < two63
    → (ltb_ℤ (sub_time now nano) d ≡ false) ↔ (n + pos_part nano ≤ now + neg_part nano)
unfolding sub_time ◌-ℤ◌
elapsed_iff n now (pos m) d e h = ground arith
elapsed_iff n now (negsuc m) d e h = ground arith

abbrev pub recorded : (ℕ → ℤ) → Option Value → Option ℤ
recorded f none = none
recorded f (some v) = last_activity f v

-- One change of the agent is sent: to `paused`, with nothing else of the spec or the status changed, and
-- with the stamp and the reason of the stop in the annotations.
abbrev pub Pauses : Agent → String → List (Agent × Agent) → Type 0
Pauses agent stamp [] = ⊥
Pauses agent stamp ((base, new) ∷ rest) =
    (base ≡ agent)
    × (new.spec ≡ record agent.spec { paused = true })
    × (new.status ≡ agent.status)
    × (Map.lookup "orchestrator.dev/stopped-at" (or_empty new.meta.annotations) ≡ some stamp)
    × (Map.lookup "orchestrator.dev/stop-reason" (or_empty new.meta.annotations)
        ≡ some "idle-timeout")
    × (rest ≡ [])

idle_paused-Pauses :
    (agent : Agent) (stamp : String) → Pauses agent stamp ((agent, idle_paused stamp agent) ∷ [])
unfolding idle_paused
idle_paused-Pauses agent stamp =
    let stopped = Map.insert stopped_at stamp (or_empty agent.meta.annotations) in
    (
      refl,
      refl,
      refl,
      lookup-insert "orchestrator.dev/stop-reason" stopped_at "idle-timeout" stopped
          ∙ lookup-insert_self stopped_at stamp (or_empty agent.meta.annotations),
      lookup-insert_self "orchestrator.dev/stop-reason" "idle-timeout" stopped,
      refl,
    )

module _ {W : Type 0} (env : Env W) (cache : CacheStore W) (float_to_int64 : ℕ → ℤ) where
  -- The activity that the cache holds for the agent, and the world after the look at it.
  abbrev pub activity : Agent → W → Option ℤ
  activity agent w =
      recorded float_to_int64 (cache.get agent.meta.namespace agent.meta.name activity_key w).0

  abbrev pub looked : Agent → W → W
  looked agent w = (cache.get agent.meta.namespace agent.meta.name activity_key w).1

  -- When the change is made.
  abbrev pub stamp : Agent → W → String
  stamp agent w = env.rfc3339 (env.now (looked agent w)).0

  -- The agent is not paused, its limit is not 0, its activity is recorded as a number, and from then until
  -- `now` at least the limit has gone by.
  pub record IsIdle (global : ℕ) (now : Time) (agent : Agent) (w : W) : Type 0 where
    pub unpaused : agent.spec.paused ≡ false
    pub limited : limit global agent.spec.idle_timeout ≢ 0
    pub last : ℤ
    pub known : activity agent w ≡ some last
    pub elapsed : limit global agent.spec.idle_timeout + pos_part last ≤ now + neg_part last

  module _ (watcher : Watcher) (now : Time) (agent : Agent) (w : W) where
    abbrev pub sent : List Call
    sent =
        (check_agent (traced env) (traced_cache cache) float_to_int64 watcher now agent (w, [])).1

    abbrev pub pausing : Agent × Agent
    pausing = (agent, idle_paused (stamp agent w) agent)

    pauses_only :
        patches sent ≢ []
        → (agent.spec.paused ≡ false) × (eqb_ℤ (effective_timeout watcher agent) (pos 0) ≡ false)
    unfolding check_agent
    pauses_only h = ground arith

    -- The recorded activity is old enough.
    abbrev IsOver : Option ℤ → Type 0
    IsOver none = ⊥
    IsOver (some last) = ltb_ℤ (sub_time now last) (effective_timeout watcher agent) ≡ false

    pauses-IsOver : (seen : Option ℤ) → activity agent w ≡ seen → patches sent ≢ [] → IsOver seen
    unfolding check_agent
    pauses-IsOver none k h = ground arith
    pauses-IsOver (some last) k h = ground arith

    pauses_then :
        (last : ℤ)
        → agent.spec.paused ≡ false
        → eqb_ℤ (effective_timeout watcher agent) (pos 0) ≡ false
        → activity agent w ≡ some last
        → ltb_ℤ (sub_time now last) (effective_timeout watcher agent) ≡ false
        → patches sent ≡ pausing ∷ []
    unfolding check_agent
    pauses_then last p t k e = ground arith

    module _ (global : ℕ) (g : watcher.global_timeout ≡ pos global) (h : global < two63)
        (t : IsInt32 agent.spec.idle_timeout) where
      IsIdle-of_sent :
          (seen : Option ℤ)
          → activity agent w ≡ seen
          → patches sent ≢ []
          → IsIdle global now agent w
      IsIdle-of_sent none k d = absurd (pauses-IsOver none k d)
      IsIdle-of_sent (some last) k d =
          let (unpaused, tracked) = pauses_only d in
          let limited = effective_timeout-limit watcher global agent g t in
          let over = elapsed_iff _ now last _ limited (limit-bounded global _ h t) in
          record {
            unpaused = unpaused;
            limited = ground (arith, limited);
            last = last;
            known = k;
            elapsed = over.0 (pauses-IsOver (some last) k d);
          }

      sent_of_IsIdle : IsIdle global now agent w → patches sent ≡ pausing ∷ []
      sent_of_IsIdle i =
          let limited = effective_timeout-limit watcher global agent g t in
          let over = elapsed_iff _ now i.last _ limited (limit-bounded global _ h t) in
          pauses_then i.last i.unpaused (ground (arith, limited, i.limited)) i.known
            (over.1 i.elapsed)

  pub check_agent-pausing :
      (watcher : Watcher) (now : Time) (agent : Agent) (w : W) (global : ℕ)
      → watcher.global_timeout ≡ pos global
      → global < two63
      → IsInt32 agent.spec.idle_timeout
      → (IsIdle global now agent w
          → patches (sent watcher now agent w) ≡ pausing watcher now agent w ∷ [])
        × (patches (sent watcher now agent w) ≢ [] → IsIdle global now agent w)
  check_agent-pausing watcher now agent w global g h t = (
    sent_of_IsIdle watcher now agent w global g h t,
    IsIdle-of_sent watcher now agent w global g h t _ refl,
  )

  -- One round of the watcher's loop, with a global timeout that is not negative: if the agent is idle, it
  -- sends exactly one change, which sets `paused`, leaves the rest of the spec and the status, and notes the
  -- time and the reason of the stop; if not, it sends no change of an agent.
  pub check_agent-IsIdle :
      (watcher : Watcher) (now : Time) (agent : Agent) (w : W) (global : ℕ)
      → watcher.global_timeout ≡ pos global
      → global < two63
      → IsInt32 agent.spec.idle_timeout
      → (IsIdle global now agent w
          → Pauses agent (stamp agent w) (patches (sent watcher now agent w)))
        × (patches (sent watcher now agent w) ≢ [] → IsIdle global now agent w)
  check_agent-IsIdle watcher now agent w global g h t =
      let (sends, only) = check_agent-pausing watcher now agent w global g h t in
      (
        λ idle.
            subst (Pauses agent (stamp agent w)) (sym (sends idle))
              (idle_paused-Pauses agent (stamp agent w)),
        only,
      )

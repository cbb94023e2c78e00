-- ===== src/Main/Watching.antt =====
-- The flags of the idle watcher, down to what the watcher does to an agent.
use k8sagent_orchestrator.Prelude.{ℕ, ◌*◌, ◌≤◌, ◌≡◌, ◌≢◌, ap, ◌∙◌, [], ◌∷◌, arith}
use k8sagent_orchestrator.Prelude.Int.{ℤ, pos, ◌*ℤ◌, wrap64, IsInt32}
use k8sagent_orchestrator.Cache.{Time, CacheStore}
use k8sagent_orchestrator.Api.{Agent}
use k8sagent_orchestrator.Kube.{Env}
use k8sagent_orchestrator.Kube.Trace.{patches}
use k8sagent_orchestrator.Rest.Wake.{second}
use k8sagent_orchestrator.Idle.Pausing.{IsIdle, sent, pausing, check_agent-pausing}
use k8sagent_orchestrator.Main.{Flags, watcher_of}

-- The largest number of seconds that fits an `int64` of nanoseconds.
abbrev max_seconds : ℕ
max_seconds = 9223372036

seconds-exact : (n : ℕ) → n ≤ max_seconds → wrap64 (pos n *ℤ pos second) ≡ pos (n * second)
unfolding wrap64 ◌*ℤ◌
seconds-exact n h = ground arith

watcher_of-timeout :
    (flags : Flags) (n : ℕ)
    → flags.idle_timeout_default ≡ pos n
    → n ≤ max_seconds
    → (watcher_of flags).global_timeout ≡ pos (n * second)
unfolding watcher_of
watcher_of-timeout flags n e h = ap (λ t. wrap64 (t *ℤ pos second)) e ∙ seconds-exact n h

module _ {W : Type 0} (env : Env W) (cache : CacheStore W) (float_to_int64 : ℕ → ℤ) where
  -- With `--idle-timeout-default` of at most 9223372036 seconds, about 292 years: in a round of the watcher
  -- that the program starts, an agent that is idle by the flag's seconds, or its own, is sent exactly the
  -- change that pauses it, and one that is not is sent none.
  check_agent-watcher_of :
      (flags : Flags) (n : ℕ) (now : Time) (agent : Agent) (w : W)
      → flags.idle_timeout_default ≡ pos n
      → n ≤ max_seconds
      → IsInt32 agent.spec.idle_timeout
      → let watcher = watcher_of flags in
        (IsIdle env cache float_to_int64 (n * second) now agent w
          → patches (sent env cache float_to_int64 watcher now agent w)
            ≡ pausing env cache float_to_int64 watcher now agent w ∷ [])
        × (patches (sent env cache float_to_int64 watcher now agent w) ≢ []
            → IsIdle env cache float_to_int64 (n * second) now agent w)
  check_agent-watcher_of flags n now agent w e h t =
      check_agent-pausing env cache float_to_int64 (watcher_of flags) now agent w (n * second)
        (watcher_of-timeout flags n e h) (omega arith) t

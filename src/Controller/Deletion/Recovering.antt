-- ===== src/Controller/Deletion/Recovering.antt =====
-- The retry loop of `resurrectAgentAsync` against a cluster that frees the agent's name after some time.
use k8sagent_orchestrator.Prelude.{
  ℕ, zero, suc, ◌+◌, ◌*◌, ◌≤◌, String, ◌≡◌, ◌≢◌, Option, none, some, List,
}
use k8sagent_orchestrator.Cache.{Time}
use k8sagent_orchestrator.Api.{Agent}
use k8sagent_orchestrator.Io.{ok, err, ApiError}
use k8sagent_orchestrator.Kube.{Env}
use k8sagent_orchestrator.Kube.Trace.{Call, events_of}
use k8sagent_orchestrator.Controller.Deletion.{Resurrection}

-- The nanoseconds that `left` more attempts sleep, from the given attempt on.
abbrev pub budget : (left attempt : ℕ) → ℕ
budget zero attempt = 0
budget (suc left) attempt = attempt * 300000000 + budget left (attempt + 1)

-- The name is free, or the object with this UID still has it.
abbrev pub IsFreeOr : String → Option String → Type 0
IsFreeOr uid none = Unit
IsFreeOr uid (some u) = u ≡ uid

-- The server, for the name of the agent that was lost. `holder` is the UID of the object that has the name. A
-- creation under the name is accepted while nothing has it, and a read shows the object that has it. The
-- object that was lost is gone by the time `gone`. While the name is free or the lost object has it, nobody
-- else takes it: not during a sleep, a look at the clock, a read or a creation that was refused. The clock
-- is not turned back, and a sleep takes at least its duration.
pub record NameIsFreed {W : Type 0} (env : Env W) (r : Resurrection) (gone : Time) : Type 0 where
  pub clock : W → Time
  pub holder : W → Option String
  pub sleep_forward : (d : ℕ) (w : W) → clock w + d ≤ clock (env.sleep d w)
  pub now_forward : (w : W) → clock w ≤ clock (env.now w).1
  pub create_forward : (a : Agent) (w : W) → clock w ≤ clock (env.create_agent a w).1
  pub get_forward : (ns name : String) (w : W) → clock w ≤ clock (env.get_agent ns name w).1
  pub create_free :
      (a : Agent) (w : W)
      → a.meta.namespace ≡ r.namespace
      → a.meta.name ≡ r.name
      → holder w ≡ none
      → (b : Agent) × ((env.create_agent a w).0 ≡ ok b)
  pub get_holder :
      (w : W) (b : Agent)
      → (env.get_agent r.namespace r.name w).0 ≡ ok b
      → holder w ≡ some b.meta.uid
  pub gone_by : (w : W) → gone ≤ clock w → holder w ≢ some r.original_uid
  pub sleep_free :
      (d : ℕ) (w : W)
      → IsFreeOr r.original_uid (holder w)
      → IsFreeOr r.original_uid (holder (env.sleep d w))
  pub now_free :
      (w : W) → IsFreeOr r.original_uid (holder w) → IsFreeOr r.original_uid (holder (env.now w).1)
  pub get_free :
      (ns name : String) (w : W)
      → IsFreeOr r.original_uid (holder w)
      → IsFreeOr r.original_uid (holder (env.get_agent ns name w).1)
  pub refused_free :
      (a : Agent) (e : ApiError) (w : W)
      → (env.create_agent a w).0 ≡ err e
      → IsFreeOr r.original_uid (holder w)
      → IsFreeOr r.original_uid (holder (env.create_agent a w).1)

module _ {W : Type 0} (env : Env W) (r : Resurrection) (gone : Time)
    (laws : NameIsFreed env r gone) where
  -- The world in which attempt `n` creates.
  abbrev ready : ℕ → W → W
  ready n w = (env.now (env.sleep (n * 300000000) w)).1

  abbrev IsWaiting : W → Type 0
  IsWaiting w = IsFreeOr r.original_uid (laws.holder w)

  -- The loop has recreated the agent: one more success is recorded, and no failure.
  abbrev Recreates : (calls calls' : List Call) → Type 0
  Recreates calls calls' =
      (events_of "Normal" calls' ≡ suc (events_of "Normal" calls))
      × (events_of "Warning" calls' ≡ events_of "Warning" calls)

  -- The agent has the name that was lost.
  abbrev Bears : Agent → Type 0
  Bears a = (a.meta.namespace ≡ r.namespace) × (a.meta.name ≡ r.name)

-- ===== src/System.antt =====
-- The program as cmd/main.go starts it: the REST server, the watcher and the controller act on one cluster,
-- each call of theirs a step; a goroutine that handleDeletion starts runs as one step some time later.
-- Between the steps others change the cluster as they like.
pub mod Justified
pub mod Reconciling
pub mod Background
pub mod Requests
pub mod Invariant
use k8sagent_orchestrator.Prelude.{String, ◌≡◌, some, List, [], ◌∷◌, ◌++◌, Option, none}
use k8sagent_orchestrator.Controller.Deletion.{Resurrection, Outcome, resurrect_agent_async}
use k8sagent_orchestrator.Controller.Reconcile.{reconcile}
use k8sagent_orchestrator.Idle.{Watcher, check}
use k8sagent_orchestrator.Kube.Trace.{Call, traced, traced_cache}
use k8sagent_orchestrator.Rest.Server.{Server, HttpRequest, Router, serve}
use k8sagent_orchestrator.Rest.Server.Reading.{traced_server}

-- The world with the writes that the program sent, the newest first, and the resurrections that were started
-- and did not run yet.
pub record State (W : Type 0) : Type 0 where
  pub world : W
  pub calls : List Call
  pub pending : List Resurrection

abbrev pub started : Option Resurrection → List Resurrection → List Resurrection
started none pending = pending
started (some r) pending = r ∷ pending

-- What is left by code that ran on the world.
abbrev pub left_by : {W : Type 0} → W × List Call → List Resurrection → State W
left_by (w, calls) pending = record { world = w; calls = calls; pending = pending }

abbrev pub reconciled : {W : Type 0} → Outcome × (W × List Call) → List Resurrection → State W
reconciled (outcome, w) pending = left_by w (started outcome.spawned pending)

module _ {W C K : Type 0} (find : Router) (s : Server W C K) where
  pub data Step (x : State W) : State W → Type 0 where
    elsewhere : (change : W → W) → Step x (record x { world = change x.world })
    request :
        (r : HttpRequest)
        → Step x (left_by (serve find (traced_server s) r (x.world, x.calls)).1 x.pending)
    reconciliation :
        (namespace name : String)
        → Step x (reconciled (reconcile (traced s.env) namespace name (x.world, x.calls)) x.pending)
    watch :
        (watcher : Watcher)
        → s.idle_watcher ≡ some watcher
        → Step x (
            left_by
              (check
                (traced s.env)
                (traced_cache s.cache)
                s.float_to_int64
                watcher
                (x.world, x.calls))
              x.pending)
    resurrection :
        (before after : List Resurrection) (r : Resurrection)
        → x.pending ≡ before ++ r ∷ after
        → Step x
            (left_by (resurrect_agent_async (traced s.env) r (x.world, x.calls)) (before ++ after))

  -- Any number of steps.
  pub data Run (x : State W) : State W → Type 0 where
    start : Run x x
    step : {y z : State W} → Run x y → Step y z → Run x z

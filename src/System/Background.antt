-- ===== src/System/Background.antt =====
-- What the watcher and a resurrection send is justified.
use k8sagent_orchestrator.Prelude.{ℕ, zero, suc, ◌+◌, inr, refl, none, List, [], ◌∷◌, All, arith}
use k8sagent_orchestrator.Api.{Agent}
use k8sagent_orchestrator.Cache.{Time}
use k8sagent_orchestrator.Io.{ok, err}
use k8sagent_orchestrator.Kube.Trace.{Call, traced, traced_cache}
use k8sagent_orchestrator.Controller.Deletion.{
  Resurrection, recreated, skipped, retry, resurrected_agent, attempt_once, attempt_from,
  resurrect_agent_async,
}
use k8sagent_orchestrator.Idle.{Watcher, check_agent, check_agents, check}
use k8sagent_orchestrator.Rest.Server.{Server, Router}
use k8sagent_orchestrator.System.Justified.{Deed, resurrected_at, IsOfDeleted, IsMeant, Justified}

module _ {W C K : Type 0} (find : Router) (s : Server W C K) (Did : Deed W → Type 0) where
  check_agent-Justified :
      (watcher : Watcher) (now : Time) (agent : Agent) (w : W) (calls : List Call)
      → All (Justified find s Did) calls
      → All
          (Justified find s Did)
          (check_agent
            (traced s.env)
            (traced_cache s.cache)
            s.float_to_int64
            watcher
            now
            agent
            (w, calls)).1
  unfolding check_agent
  check_agent-Justified watcher now agent w calls h = ground arith

  check_agents-Justified :
      (watcher : Watcher) (now : Time) (items : List Agent) (x : W × List Call)
      → All (Justified find s Did) x.1
      → All
          (Justified find s Did)
          (check_agents
            (traced s.env)
            (traced_cache s.cache)
            s.float_to_int64
            watcher
            now
            items
            x).1
  unfolding check_agents
  check_agents-Justified watcher now [] x h = h
  check_agents-Justified watcher now (agent ∷ items) x h =
      check_agents-Justified watcher now items _ (check_agent-Justified watcher now agent x.0 x.1 h)

  pub check-Justified :
      (watcher : Watcher) (w : W) (calls : List Call)
      → All (Justified find s Did) calls
      → All
          (Justified find s Did)
          (check (traced s.env) (traced_cache s.cache) s.float_to_int64 watcher (w, calls)).1
  unfolding check
  check-Justified watcher w calls h =
      let (reply, w') = s.env.list_agents none w in
      let (now, w'') = s.env.now w' in
      elim reply
        as (λ reply.
          All (Justified find s Did)
            (elim reply as (λ _. W × List Call) [
              | err _ ↦ (w', calls)
              | ok items ↦
                  check_agents (traced s.env) (traced_cache s.cache) s.float_to_int64 watcher now
                    items (w'', calls)
            ]).1) [ err _ ↦ h | ok items ↦ check_agents-Justified watcher now items (w'', calls) h ]

module _ {W C K : Type 0} (find : Router) (s : Server W C K) (Did : Deed W → Type 0)
    (r : Resurrection) (a : Agent) (meant : IsMeant find s Did a) where
  attempt_once-Justified :
      (n : ℕ) (w : W) (calls : List Call)
      → All (Justified find s Did) calls
      → All (Justified find s Did) (attempt_once (traced s.env) r a n (w, calls)).1.1
  unfolding attempt_once
  attempt_once-Justified n w calls h = ground arith

  attempt_from-Justified :
      (left n : ℕ) (x : W × List Call)
      → All (Justified find s Did) x.1
      → All (Justified find s Did) (attempt_from (traced s.env) r a left n x).1
  unfolding attempt_from
  attempt_from-Justified zero n x h = ground arith
  attempt_from-Justified (suc left) n x h =
      let once = attempt_once (traced s.env) r a n x in
      let after = attempt_once-Justified n x.0 x.1 h in
      elim once.0
        as (λ ended.
          All (Justified find s Did)
            (elim ended as (λ _. W × List Call) [
              | recreated ↦ once.1
              | skipped ↦ once.1
              | retry ↦ attempt_from (traced s.env) r a left (n + 1) once.1
            ]).1) [
              | recreated ↦ after
              | skipped ↦ after
              | retry ↦ attempt_from-Justified left (n + 1) once.1 after
            ]

module _ {W C K : Type 0} (find : Router) (s : Server W C K) (Did : Deed W → Type 0) where
  pub resurrect_agent_async-Justified :
      (r : Resurrection) (w : W) (calls : List Call)
      → Did (resurrected_at r w)
      → IsOfDeleted find s Did r
      → All (Justified find s Did) calls
      → All (Justified find s Did) (resurrect_agent_async (traced s.env) r (w, calls)).1
  unfolding resurrect_agent_async
  resurrect_agent_async-Justified r w calls did of_deleted h =
      let (now, w') = s.env.now w in
      attempt_from-Justified find s Did r (resurrected_agent s.env r now)
        (inr (record { r = r; w = w; did = did; of_deleted = of_deleted; same = refl })) 15 1
        (w', calls) h

-- ===== src/Controller/Deletion/Resurrecting.antt =====
-- The retry loop of `resurrectAgentAsync`, and the agent that it creates.
use k8sagent_orchestrator.Prelude.{
  ℕ, zero, suc, ◌+◌, ◌≤◌, String, ◌≡◌, refl, sym, ap, ◌∙◌, subst, ◌≢◌, ◌⊎◌, some, List, [], ◌∷◌,
  arith, eq_iff, length, All,
}
use k8sagent_orchestrator.Prelude.Map
use k8sagent_orchestrator.Prelude.Map.{
  Map, HasDistinctKeys, lookup-overlay, lookup-insert, lookup-insert_self, or_else, overlay-empty,
}
use k8sagent_orchestrator.Api.{Agent, or_empty}
use k8sagent_orchestrator.Kube.{Env}
use k8sagent_orchestrator.Kube.Trace.{Call, traced, created_agents, events_of}
use k8sagent_orchestrator.Controller.Deletion.{
  Resurrection, Attempt, recreated, skipped, retry, resurrected_agent, attempt_once, attempt_from,
  resurrect_agent_async, resurrection_of,
}

module _ {W : Type 0} (env : Env W) (r : Resurrection) where
  attempts : List Call → ℕ
  attempts calls = length (created_agents calls)

  -- One attempt creates the agent once, and records an event only if it succeeds.
  attempt-creates :
      (a : Agent) (n : ℕ) (w : W) (calls : List Call)
      → let (ended, (w', calls')) = attempt_once (traced env) r a n (w, calls) in
        (created_agents calls' ≡ a ∷ created_agents calls)
        × (events_of "Warning" calls' ≡ events_of "Warning" calls)
        × (events_of "Normal" calls' ≡ elim ended [
          | recreated ↦ suc (events_of "Normal" calls)
          | skipped ↦ events_of "Normal" calls
          | retry ↦ events_of "Normal" calls
        ])
  unfolding attempt_once
  attempt-creates a n w calls = ground arith

  -- What the loop adds to a list of calls: at most `left` creations, all of this agent, and in the end
  -- at most one event: the warning after `left` failed attempts, or the success.
  record Tried (a : Agent) (left : ℕ) (calls calls' : List Call) : Type 0 where
    bounded : attempts calls' ≤ attempts calls + left
    only : All (λ c. c ≡ a) (created_agents calls) → All (λ c. c ≡ a) (created_agents calls')
    ended :
        ((events_of "Warning" calls' ≡ events_of "Warning" calls)
          × (events_of "Normal" calls' ≤ suc (events_of "Normal" calls)))
        ⊎ ((events_of "Warning" calls' ≡ suc (events_of "Warning" calls))
            × (events_of "Normal" calls' ≡ events_of "Normal" calls)
            × (attempts calls' ≡ attempts calls + left))

  -- One more attempt in front of a loop that is right.
  Tried-attempt :
      (a : Agent) (left : ℕ) (calls calls' : List Call) (ended : Attempt) (end : W × List Call)
      (w' : W)
      → created_agents calls' ≡ a ∷ created_agents calls
      → events_of "Warning" calls' ≡ events_of "Warning" calls
      → events_of "Normal" calls' ≡ elim ended [
        | recreated ↦ suc (events_of "Normal" calls)
        | skipped ↦ events_of "Normal" calls
        | retry ↦ events_of "Normal" calls
      ]
      → Tried a left calls' end.1
      → Tried a
          (suc left)
          calls
          (elim ended as (λ _. W × List Call) [
            | recreated ↦ (w', calls')
            | skipped ↦ (w', calls')
            | retry ↦ end
          ]).1
  unfolding attempts
  Tried-attempt a left calls calls' recreated end w' c e f t = record {
    bounded = ground arith;
    only = λ h. rw c (refl, h);
    ended = ground arith;
  }
  Tried-attempt a left calls calls' skipped end w' c e f t = record {
    bounded = ground arith;
    only = λ h. rw c (refl, h);
    ended = ground arith;
  }
  Tried-attempt a left calls calls' retry end w' c e f t = record {
    bounded = ground arith;
    only = λ h. t.only (rw c (refl, h));
    ended = ground arith;
  }

  attempt_from-Tried :
      (a : Agent) (left n : ℕ) (w : W) (calls : List Call)
      → Tried a left calls (attempt_from (traced env) r a left n (w, calls)).1
  unfolding attempt_from attempts
  attempt_from-Tried a zero n w calls = record {
    bounded = ground arith;
    only = λ h. h;
    ended = ground arith;
  }
  attempt_from-Tried a (suc left) n w calls =
      let x = attempt_once (traced env) r a n (w, calls) in
      let (c, e, f) = attempt-creates a n w calls in
      Tried-attempt a left calls x.1.1 x.0 (attempt_from (traced env) r a left (n + 1) x.1) x.1.0 c
        e f (attempt_from-Tried a left (n + 1) x.1.0 x.1.1)

  -- A resurrection sends at most 15 creations, each of the agent that was lost; it records at most one
  -- event: a success, or, after exactly 15 creations, the failure.
  pub resurrect_agent_async-bounded :
      (w : W)
      → let calls = (resurrect_agent_async (traced env) r (w, [])).1 in
        (length (created_agents calls) ≤ 15)
        × All (λ c. c ≡ resurrected_agent env r (env.now w).0) (created_agents calls)
        × (((events_of "Warning" calls ≡ 0) × (events_of "Normal" calls ≤ 1))
            ⊎ ((events_of "Warning" calls ≡ 1)
                × (events_of "Normal" calls ≡ 0)
                × (length (created_agents calls) ≡ 15)))
  unfolding resurrect_agent_async attempts
  resurrect_agent_async-bounded w =
      let (now, w') = env.now w in
      let t = attempt_from-Tried (resurrected_agent env r now) 15 1 w' [] in
      (ground arith, t.only tt, ground arith)

-- The agent that a resurrection creates has the spec, the name, the labels and the annotations of the
-- agent that was lost, under two more annotations, one of which holds the lost agent's UID.
resurrected_agent-fields :
    {W : Type 0} (env : Env W) (r : Resurrection) (now : ℕ)
    → HasDistinctKeys r.annotations
    → let a = resurrected_agent env r now in
      (a.spec ≡ r.spec)
      × (a.meta.name ≡ r.name)
      × (a.meta.namespace ≡ r.namespace)
      × (a.meta.labels ≡ r.labels)
      × (Map.lookup "orchestrator.dev/resurrection-uid" (or_empty a.meta.annotations)
          ≡ some r.original_uid)
      × ((k : String)
          → k ≢ "orchestrator.dev/resurrection-uid"
          → k ≢ "orchestrator.dev/resurrected-at"
          → Map.lookup k (or_empty a.meta.annotations) ≡ Map.lookup k r.annotations)
unfolding resurrected_agent Map.lookup
resurrected_agent-fields env r now d =
    let kept = λ (k : String). lookup-overlay k [] r.annotations d in
    let stamped =
      Map.insert "orchestrator.dev/resurrected-at" (env.rfc3339 now)
        (Map.overlay [] r.annotations) in
    (
      refl,
      refl,
      refl,
      refl,
      lookup-insert_self "orchestrator.dev/resurrection-uid" r.original_uid stamped,
      λ k n m. ground (
        arith,
        lookup-insert "orchestrator.dev/resurrection-uid" k r.original_uid stamped,
        lookup-insert "orchestrator.dev/resurrected-at" k (env.rfc3339 now)
            (Map.overlay [] r.annotations),
        eq_iff "orchestrator.dev/resurrection-uid" k,
        eq_iff "orchestrator.dev/resurrected-at" k,
        kept k,
      ),
    )

-- The agent that is created for a deleted one has its spec, name, namespace and labels, and its annotations
-- under two more, one of which holds its UID.
pub resurrected_agent-restores :
    {W : Type 0} (env : Env W) (agent : Agent) (r : Resurrection) (now : ℕ)
    → HasDistinctKeys agent.meta.labels
    → HasDistinctKeys (or_empty agent.meta.annotations)
    → resurrection_of agent ≡ some r
    → let a = resurrected_agent env r now in
      (a.spec ≡ agent.spec)
      × (a.meta.name ≡ agent.meta.name)
      × (a.meta.namespace ≡ agent.meta.namespace)
      × (a.meta.labels ≡ agent.meta.labels)
      × (Map.lookup "orchestrator.dev/resurrection-uid" (or_empty a.meta.annotations)
          ≡ some agent.meta.uid)
      × ((k : String)
          → k ≢ "orchestrator.dev/resurrection-uid"
          → k ≢ "orchestrator.dev/resurrected-at"
          → Map.lookup k (or_empty a.meta.annotations)
            ≡ Map.lookup k (or_empty agent.meta.annotations))
unfolding resurrection_of
resurrected_agent-restores env agent r now dl da h =
    let labels = overlay-empty agent.meta.labels dl in
    let annotations : r.annotations ≡ or_empty agent.meta.annotations =
      ground (arith, overlay-empty (or_empty agent.meta.annotations) da) in
    let (spec, name, namespace, same, uid, others) =
      resurrected_agent-fields env r now (subst HasDistinctKeys (sym annotations) da) in
    (
      ground arith,
      ground arith,
      ground arith,
      ground arith,
      ground arith,
      λ k n m. others k n m ∙ ap (Map.lookup k) annotations,
    )

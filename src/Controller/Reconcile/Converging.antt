-- ===== src/Controller/Reconcile/Converging.antt =====
-- An agent that is reconciled again and again, its calls being carried out, ends with a pod that is up to date.
use k8sagent_orchestrator.Prelude.{
  ℕ, ◌+◌, ◌-◌, ◌≤◌, String, ◌≡◌, refl, ap, ◌∙◌, subst, true, false, none, some, List, [], ◌∷◌,
  arith, inl, inr, length, Bool-cases,
}
use k8sagent_orchestrator.Redis.{is_one_of}
use k8sagent_orchestrator.Api.{ObjectMeta}
use k8sagent_orchestrator.Io.{ok}
use k8sagent_orchestrator.Kube.{Env, Pod}
use k8sagent_orchestrator.Kube.Trace.{Call, update_agent}
use k8sagent_orchestrator.Controller.Pods.{agent_finalizer, spec_changed, build_pod}
use k8sagent_orchestrator.Controller.Reconcile.{is_deleted, with_finalizer}
use k8sagent_orchestrator.Controller.Reconcile.Carried.{
  Cluster, CarriesOut, Shows, carried, live-kept, agent-kept, live-created, live-deleted,
}
use k8sagent_orchestrator.Controller.Reconcile.Safety.{
  FirstLiveIs, listing, sent, creates_then, MayCreate,
}
use k8sagent_orchestrator.Controller.Reconcile.Rounds.{
  is_registered, IsActive, head, stale, togo, Round, round, Rounds, start, later, Owns,
  calls_unregistered, no_update, calls_current, calls_stale,
}
use k8sagent_orchestrator.Controller.Reconcile.Stale.{
  stale-generation, stale-StartsLike, is_registered-with_finalizer, List-cases, first_listed,
  IsActive-kept, Shows-of_build_pod, togo-bound, first_current,
}

-- One thing less to do for the agent, which is still to run.
abbrev Progress : Cluster → Cluster → Type 0
Progress x y = (togo y ≡ togo x - 1) × IsActive y.agent

module _ {W : Type 0} (env : Env W) (effect : Call → Cluster → Cluster) (ns name : String)
    (server : CarriesOut effect) where
  module _ (x : Cluster) (w : W) (got : (env.get_agent ns name w).0 ≡ ok x.agent)
      (active : IsActive x.agent) where
    abbrev reached : Cluster
    reached = carried effect (sent env ns name w) x

    registers : is_registered x.agent ≡ false → Progress x reached
    unfolding togo
    registers r =
        let call = update_agent (with_finalizer x.agent) in
        let (meta, spec) = server.object call x refl refl in
        let y = effect call x in
        let here : is_registered y.agent ≡ true =
          ap (λ (m : ObjectMeta). is_one_of agent_finalizer m.finalizers) meta
          ∙ is_registered-with_finalizer x.agent in
        let same : stale y.agent y.live ≡ stale x.agent x.live =
          ap (stale y.agent) (server.pods call x)
          ∙ stale-generation x.agent y.agent x.live (ap (λ (m : ObjectMeta). m.generation) meta) in
        rw (calls_unregistered env ns name w x.agent got active r) (
          ground arith,
          IsActive-kept x.agent y.agent
              (ap (λ (m : ObjectMeta). is_deleted m.deletion_timestamp) meta)
              (ap (λ (m : ObjectMeta). m.name) meta) spec active,
        )

    module _ (registered : is_registered x.agent ≡ true) where
      kept : (reached.agent.meta ≡ x.agent.meta) × (reached.agent.spec ≡ x.agent.spec)
      kept =
          let (updates, changes) = no_update env ns name w x.agent got active registered in
          agent-kept effect server x (sent env ns name w) updates changes

      progress : stale x.agent reached.live ≡ stale x.agent x.live - 1 → Progress x reached
      unfolding togo
      progress one =
          let (meta, spec) = kept in
          let here : is_registered reached.agent ≡ true =
            ap (λ (m : ObjectMeta). is_one_of agent_finalizer m.finalizers) meta ∙ registered in
          let same =
            stale-generation x.agent reached.agent reached.live
              (ap (λ (m : ObjectMeta). m.generation) meta) in
          (
            ground arith,
            IsActive-kept x.agent reached.agent
                (ap (λ (m : ObjectMeta). is_deleted m.deletion_timestamp) meta)
                (ap (λ (m : ObjectMeta). m.name) meta) spec active,
          )

      creates :
          (pod : Pod)
          → env.own_pod x.agent (build_pod x.agent) ≡ ok pod
          → pod.annotations ≡ (build_pod x.agent).annotations
          → Shows x.agent.meta pod
          → FirstLiveIs none (listing env ns name w x.agent)
          → x.live ≡ []
          → Progress x reached
      creates pod own same shown missing none_live =
          let may : MayCreate env ns name w x.agent = record {
            unpaused = active.unpaused;
            not_deleted = active.not_deleted;
            registered = registered;
            missing = missing;
          } in
          let (one, no_deletion) = creates_then env ns name w x.agent pod got may own in
          let (updates, changes) = no_update env ns name w x.agent got active registered in
          let like =
            live-created effect server x (sent env ns name w) pod one no_deletion updates changes
              shown none_live in
          let before : stale x.agent x.live ≡ 1 = ap (stale x.agent) none_live in
          progress (omega (arith, stale-StartsLike x.agent pod reached.live active same like))

      continues :
          (p : Pod) (rest : List Pod)
          → FirstLiveIs (some p) (listing env ns name w x.agent)
          → x.live ≡ p ∷ rest
          → Progress x reached
      continues p rest listed first = elim (Bool-cases (spec_changed x.agent p)) [
        | inl changed ↦
            let (no_creation, one) =
              calls_stale env ns name w x.agent got active registered p listed changed in
            let gone =
              live-deleted effect server x (sent env ns name w) p rest no_creation one first in
            let before : stale x.agent x.live ≡ stale x.agent (p ∷ rest) =
              ap (stale x.agent) first in
            let after : stale x.agent reached.live ≡ stale x.agent rest = ap (stale x.agent) gone in
            progress (ground arith)
        | inr same ↦
            let (no_creation, no_deletion) =
              calls_current env ns name w x.agent got active registered p listed same in
            let left = live-kept effect server x (sent env ns name w) no_creation no_deletion in
            let before : stale x.agent x.live ≡ stale x.agent (p ∷ rest) =
              ap (stale x.agent) first in
            let after : stale x.agent reached.live ≡ stale x.agent x.live =
              ap (stale x.agent) left in
            progress (ground arith)
      ]

  Round-Progress :
      Owns env → {x y : Cluster} → Round env effect ns name x y → IsActive x.agent → Progress x y
  Round-Progress owns {x} (round w pods got listed shown) active =
      let first = first_listed (listing env ns name w x.agent) pods x.live listed shown in
      elim (Bool-cases (is_registered x.agent)) [
        | inr r ↦ registers x w got active r
        | inl r ↦ elim (List-cases x.live) [
          | inl none_live ↦
              let (pod, own, same, labels, namespace) = owns x.agent (build_pod x.agent) in
              creates x w got active r pod own same
                (Shows-of_build_pod x.agent pod active labels namespace)
                (subst (λ l. FirstLiveIs (head l) (listing env ns name w x.agent)) none_live first)
                none_live
          | inr (p, rest, some_live) ↦
              continues x w got active r p rest
                (subst (λ l. FirstLiveIs (head l) (listing env ns name w x.agent)) some_live first)
                some_live
        ]
      ]

  rounds-togo :
      Owns env
      → {x y : Cluster} {n : ℕ} → Rounds env effect ns name x n y
      → IsActive x.agent
      → (togo y ≡ togo x - n) × IsActive y.agent
  rounds-togo owns start active = (omega arith, active)
  rounds-togo owns {x} (later rounds one) active =
      let (before, still) = rounds-togo owns rounds active in
      let (after, end) = Round-Progress owns one still in (omega arith, end)

module _ {W : Type 0} (env : Env W) (effect : Call → Cluster → Cluster) (ns name : String) where
  -- Where the calls of the controller are carried out, nobody else changes the agent or its pods, and owner
  -- references can be set: after two reconciliations more than the agent has live pods, or any greater
  -- number, an agent that is unpaused and not being deleted, and whose pod annotations and labels have each key
  -- once and leave the generation, the owner and the manager alone, is registered, and its first live pod is one of its current
  -- generation.
  pub rounds-settle :
      {x y : Cluster} {n : ℕ}
      → CarriesOut effect
      → Owns env
      → Rounds env effect ns name x n y
      → IsActive x.agent
      → length x.live + 2 ≤ n
      → (is_registered y.agent ≡ true)
        × ((p : Pod) × (rest : List Pod) × (y.live ≡ p ∷ rest) × (spec_changed y.agent p ≡ false))
  unfolding togo
  rounds-settle {x} {y} {n} server owns rounds active enough =
      let (left, _) = rounds-togo env effect ns name server owns rounds active in
      let none_left : togo y ≡ 0 = omega (arith, togo-bound x) in
      (ground arith, first_current y.agent y.live (ground arith))

-- ===== src/System/Reconciling.antt =====
-- A reconciliation sends nothing but what is justified, and starts no resurrection but that of the agent it read.
use k8sagent_orchestrator.Prelude.{
  String, ◌≡◌, inl, inr, true, false, Bool-cases, Option-cases, refl, sym, subst, Option, none,
  some, List, All, arith,
}
use k8sagent_orchestrator.Redis.{is_one_of}
use k8sagent_orchestrator.Api.{Agent}
use k8sagent_orchestrator.Io.{Result, ok, err, ApiError, Result-cases}
use k8sagent_orchestrator.Kube.{Pod}
use k8sagent_orchestrator.Kube.Trace.{Call, traced}
use k8sagent_orchestrator.Controller.Pods.{agent_finalizer, build_pod, first_live}
use k8sagent_orchestrator.Controller.Deletion.{Resurrection, resurrection_of}
use k8sagent_orchestrator.Controller.Reconcile.{reconcile, is_deleted}
use k8sagent_orchestrator.Controller.Reconcile.Safety.{MayCreate, FirstLiveIs, listing}
use k8sagent_orchestrator.Rest.Server.{Server, Router}
use k8sagent_orchestrator.System.Justified.{Deed, reconciled_at, IsBuilt, IsOfDeleted, Justified}

-- A resurrection belongs to an agent with self-healing on.
resurrection_of-heals :
    (agent : Agent) (r : Resurrection)
    → resurrection_of agent ≡ some r
    → agent.spec.self_healing_disabled ≡ false
unfolding resurrection_of
resurrection_of-heals agent r e = ground arith

module _ {W C K : Type 0} (find : Router) (s : Server W C K) (Did : Deed W → Type 0)
    (ns name : String) (w : W) (did : Did (reconciled_at ns name w)) where
  module _ (calls : List Call) where
    abbrev sent : List Call
    sent = (reconcile (traced s.env) ns name (w, calls)).1.1

    module _ (h : All (Justified find s Did) calls) where
      unread :
          (e : ApiError) → (s.env.get_agent ns name w).0 ≡ err e → All (Justified find s Did) sent
      unfolding reconcile
      unread e got = ground arith

      module _ (agent : Agent) (got : (s.env.get_agent ns name w).0 ≡ ok agent) where
        unowned :
            (e : ApiError)
            → s.env.own_pod agent (build_pod agent) ≡ err e
            → All (Justified find s Did) sent
        unfolding reconcile
        unowned e own = ground arith

        owned :
            (pod : Pod)
            → s.env.own_pod agent (build_pod agent) ≡ ok pod
            → MayCreate s.env ns name w agent
            → All (Justified find s Did) sent
        unfolding reconcile
        owned pod own may =
            let built : IsBuilt find s Did pod = record {
              ns = ns;
              name = name;
              w = w;
              did = did;
              agent = agent;
              got = got;
              may = may;
              own = own;
            } in
            ground arith

        paused : agent.spec.paused ≡ true → All (Justified find s Did) sent
        unfolding reconcile
        paused a = ground arith

        deleted : is_deleted agent.meta.deletion_timestamp ≡ true → All (Justified find s Did) sent
        unfolding reconcile
        deleted a = ground arith

        unregistered :
            is_one_of agent_finalizer agent.meta.finalizers ≡ false
            → All (Justified find s Did) sent
        unfolding reconcile
        unregistered a = ground arith

        unlisted :
            (e : ApiError) → listing s.env ns name w agent ≡ err e → All (Justified find s Did) sent
        unfolding reconcile
        unlisted e l = ground arith

        running :
            (pods : List Pod) (p : Pod)
            → listing s.env ns name w agent ≡ ok pods
            → first_live pods ≡ some p
            → All (Justified find s Did) sent
        unfolding reconcile
        running pods p l live = ground arith

        missing : FirstLiveIs none (listing s.env ns name w agent) → All (Justified find s Did) sent
        missing none_live = elim (Result-cases (s.env.own_pod agent (build_pod agent))) [
          | inr (e, own) ↦ unowned e own
          | inl (pod, own) ↦ elim (Bool-cases agent.spec.paused) [
            | inl p ↦ paused p
            | inr p ↦ elim (Bool-cases (is_deleted agent.meta.deletion_timestamp)) [
              | inl d ↦ deleted d
              | inr d ↦ elim (Bool-cases (is_one_of agent_finalizer agent.meta.finalizers)) [
                | inl r ↦
                    owned pod own (record {
                      unpaused = p;
                      not_deleted = d;
                      registered = r;
                      missing = none_live;
                    })
                | inr r ↦ unregistered r
              ]
            ]
          ]
        ]

        read : All (Justified find s Did) sent
        read = elim (Result-cases (listing s.env ns name w agent)) [
          | inr (e, l) ↦ unlisted e l
          | inl (pods, l) ↦ elim (Option-cases (first_live pods)) [
            | inl none_live ↦ missing (subst (FirstLiveIs none) (sym l) none_live)
            | inr (p, live) ↦ running pods p l live
          ]
        ]

      pub reconcile-Justified : All (Justified find s Did) sent
      reconcile-Justified = elim (Result-cases (s.env.get_agent ns name w).0) [
        | inr (e, got) ↦ unread e got
        | inl (agent, got) ↦ read agent got
      ]

  -- What is true of a resurrection that may have been started.
  abbrev pub Starts : Option Resurrection → Type 0
  Starts none = Unit
  Starts (some r) = IsOfDeleted find s Did r

  module _ (calls : List Call) where
    abbrev spawned : Option Resurrection
    spawned = (reconcile (traced s.env) ns name (w, calls)).0.spawned

    unread_starts : (e : ApiError) → (s.env.get_agent ns name w).0 ≡ err e → spawned ≡ none
    unfolding reconcile
    unread_starts e got = ground arith

    read_starts :
        (agent : Agent) (r : Resurrection)
        → (s.env.get_agent ns name w).0 ≡ ok agent
        → spawned ≡ some r
        → (is_deleted agent.meta.deletion_timestamp ≡ true) × (resurrection_of agent ≡ some r)
    unfolding reconcile
    read_starts agent r got e = ground arith

    reconcile-Starts_of :
        (o : Option Resurrection) (reply : Result Agent)
        → spawned ≡ o
        → (s.env.get_agent ns name w).0 ≡ reply
        → Starts o
    reconcile-Starts_of none reply e got = tt
    reconcile-Starts_of (some r) (err x) e got = cc (unread_starts x got, e)
    reconcile-Starts_of (some r) (ok agent) e got =
        let (deleted, own) = read_starts agent r got e in
        record {
          ns = ns;
          name = name;
          w = w;
          did = did;
          agent = agent;
          got = got;
          deleted = deleted;
          heals = resurrection_of-heals agent r own;
          own = own;
        }

    pub reconcile-Starts : Starts spawned
    reconcile-Starts = reconcile-Starts_of _ _ refl refl

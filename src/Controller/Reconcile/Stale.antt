-- ===== src/Controller/Reconcile/Stale.antt =====
-- What remains to be done for an agent, and when nothing does.
use k8sagent_orchestrator.Prelude.{
  ◌+◌, ◌≤◌, String, ◌≡◌, refl, sym, ap, ◌∙◌, true, false, List, [], ◌∷◌, ◌++◌, arith, ◌⊎◌, inl, inr,
  length, Bool-cases, eq_iff,
}
use k8sagent_orchestrator.Redis.{is_one_of}
use k8sagent_orchestrator.Api.{Agent}
use k8sagent_orchestrator.Io.{Result, ok}
use k8sagent_orchestrator.Kube.{Pod}
use k8sagent_orchestrator.Controller.Pods.{agent_finalizer, spec_changed, build_pod}
use k8sagent_orchestrator.Controller.Pods.Drift.{spec_changed-build_pod, build_pod-Matches}
use k8sagent_orchestrator.Controller.Reconcile.{is_deleted, with_finalizer}
use k8sagent_orchestrator.Controller.Reconcile.Carried.{Cluster, StartsLike, Shows}
use k8sagent_orchestrator.Controller.Reconcile.Safety.{FirstLiveIs}
use k8sagent_orchestrator.Controller.Reconcile.Rounds.{
  is_registered, IsActive, live_pods, head, stale, togo, first_live-head,
}

annotations_compared :
    (agent : Agent) (p q : Pod)
    → p.annotations ≡ q.annotations
    → spec_changed agent p ≡ spec_changed agent q
unfolding spec_changed
annotations_compared agent p q same = rw same refl

-- What the comparison reads of an agent is its generation.
pub stale-generation :
    (agent agent' : Agent) (pods : List Pod)
    → agent'.meta.generation ≡ agent.meta.generation
    → stale agent' pods ≡ stale agent pods
unfolding spec_changed
stale-generation agent agent' [] e = refl
stale-generation agent agent' (p ∷ pods) e = ground (arith, stale-generation agent agent' pods e)

spec_changed-like :
    (agent : Agent) (q : Pod)
    → IsActive agent
    → q.annotations ≡ (build_pod agent).annotations
    → spec_changed agent q ≡ false
spec_changed-like agent q active same = elim (Bool-cases (spec_changed agent q)) [
  | inr e ↦ e
  | inl e ↦ absurd (
      (spec_changed-build_pod agent agent active.distinct active.unset).0
        (sym (annotations_compared agent q (build_pod agent) same) ∙ e) refl)
]

pub stale-StartsLike :
    (agent : Agent) (p : Pod) (pods : List Pod)
    → IsActive agent
    → p.annotations ≡ (build_pod agent).annotations
    → StartsLike p pods
    → stale agent pods ≡ 0
stale-StartsLike agent p [] active same like = elim like [ ]
stale-StartsLike agent p (q ∷ pods) active same like =
    rw (spec_changed-like agent q active (like ∙ same)) refl

is_one_of-append : (k : String) (l : List String) → is_one_of k (l ++ k ∷ []) ≡ true
is_one_of-append k [] = ground (arith, eq_iff k k)
is_one_of-append k (j ∷ l) = ground (arith, is_one_of-append k l)

pub is_registered-with_finalizer : (agent : Agent) → is_registered (with_finalizer agent) ≡ true
is_registered-with_finalizer agent = is_one_of-append agent_finalizer agent.meta.finalizers

pub List-cases : (l : List Pod) → (l ≡ []) ⊎ ((p : Pod) × (rest : List Pod) × (l ≡ p ∷ rest))
List-cases [] = inl refl
List-cases (p ∷ rest) = inr (p, rest, refl)

pub first_listed :
    (listed : Result (List Pod)) (pods live : List Pod)
    → listed ≡ ok pods
    → live_pods pods ≡ live
    → FirstLiveIs (head live) listed
first_listed listed pods live e shown = rw e (first_live-head pods ∙ ap head shown)

pub IsActive-kept :
    (agent agent' : Agent)
    → is_deleted agent'.meta.deletion_timestamp ≡ is_deleted agent.meta.deletion_timestamp
    → agent'.meta.name ≡ agent.meta.name
    → agent'.spec ≡ agent.spec
    → IsActive agent
    → IsActive agent'
IsActive-kept agent agent' e named f active = record {
  unpaused = rw f active.unpaused;
  not_deleted = e ∙ active.not_deleted;
  distinct = rw f active.distinct;
  unset = rw f active.unset;
  distinct_labels = rw f active.distinct_labels;
  owner = rw (f, named) active.owner;
  manager = rw f active.manager;
}

-- A pod like the one that was built for the agent is in its listing.
pub Shows-of_build_pod :
    (agent : Agent) (q : Pod)
    → IsActive agent
    → q.labels ≡ (build_pod agent).labels
    → q.namespace ≡ (build_pod agent).namespace
    → Shows agent.meta q
unfolding build_pod
Shows-of_build_pod agent q active labels namespace =
    let (owner, (manager, _)) =
      (build_pod-Matches agent active.distinct_labels).1 (active.owner, active.manager) in
    (namespace, rw labels owner, rw labels manager)

pub stale-bound : (agent : Agent) (pods : List Pod) → stale agent pods ≤ length pods + 1
stale-bound agent [] = omega arith
stale-bound agent (p ∷ pods) = ground (arith, stale-bound agent pods)

pub togo-bound : (c : Cluster) → togo c ≤ length c.live + 2
unfolding togo
togo-bound c = ground (arith, stale-bound c.agent c.live)

pub first_current :
    (agent : Agent) (pods : List Pod)
    → stale agent pods ≡ 0
    → (p : Pod) × (rest : List Pod) × (pods ≡ p ∷ rest) × (spec_changed agent p ≡ false)
first_current agent [] e = absurd (omega arith)
first_current agent (p ∷ rest) e = (p, rest, refl, ground arith)

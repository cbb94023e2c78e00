-- ===== src/Tests/Recovering.antt =====
-- The theorem on a cluster that frees the name of a deleted agent, at a cluster that takes five seconds.
use k8sagent_orchestrator.Prelude.{
  ℕ, ◌+◌, ◌≤◌, ◌≡◌, ◌≢◌, refl, sym, subst, String, Option, none, some, List, [], ◌∷◌, arith, leb,
  eq_iff, ◌==◌, ◌&&◌, if◌then◌else◌,
}
use k8sagent_orchestrator.Io.{Result, ok, err, ApiError, Reason}
use k8sagent_orchestrator.Api.{Agent}
use k8sagent_orchestrator.Kube.{Env}
use k8sagent_orchestrator.Controller.Deletion.{Resurrection}
use k8sagent_orchestrator.Controller.Deletion.Recovering.{IsFreeOr, NameIsFreed}
use k8sagent_orchestrator.Tests.World.{World, cluster, agent, with_agents}

abbrev taken : ApiError
taken = record { reason = Reason.already_exists; text = "taken" }

abbrev absent : ApiError
absent = record { reason = Reason.not_found; text = "not found" }

abbrev gone : ℕ
gone = 5000000000

-- What has the name: the agent that was deleted is there until the time `gone`, and a new one from its
-- creation on.
abbrev standing : ℕ → List Agent → List Agent
standing clock [] = []
standing clock (a ∷ agents) = if (a.meta.uid == "u1") && leb gone clock then [] else a ∷ []

abbrev held : World → List Agent
held w = standing w.clock w.agents

abbrev uid_of : List Agent → Option String
uid_of [] = none
uid_of (a ∷ agents) = some a.meta.uid

abbrev create : Agent → List Agent → World → Result Agent × World
create a [] w =
    let new = record a { meta = record a.meta { uid = "u2" } } in
    (ok new, record w { agents = new ∷ [] })
create a (b ∷ agents) w = (err taken, w)

abbrev read : List Agent → Result Agent
read [] = err absent
read (a ∷ agents) = ok a

-- A server on which the deletion of the first agent takes five seconds.
abbrev slow : Env World
slow = record cluster {
  create_agent = λ a w. create a (held w) w;
  get_agent = λ ns name w. (read (held w), w);
}

abbrev lost : Resurrection
lost = record {
  namespace = "default";
  name = "demo";
  original_uid = "u1";
  spec = agent.spec;
  labels = [];
  annotations = [];
}

create_clock : (a : Agent) (agents : List Agent) (w : World) → w.clock ≤ (create a agents w).1.clock
create_clock a [] w = omega arith
create_clock a (b ∷ agents) w = omega arith

create_free :
    (a : Agent) (agents : List Agent) (w : World)
    → uid_of agents ≡ none
    → (b : Agent) × ((create a agents w).0 ≡ ok b)
create_free a [] w h = (record a { meta = record a.meta { uid = "u2" } }, refl)
create_free a (b ∷ agents) w h = cc h

read_uid : (agents : List Agent) (b : Agent) → read agents ≡ ok b → uid_of agents ≡ some b.meta.uid
read_uid [] b e = cc e
read_uid (a ∷ agents) b e = ground arith

standing-gone :
    (clock : ℕ) (agents : List Agent) → gone ≤ clock → uid_of (standing clock agents) ≢ some "u1"
standing-gone clock [] h = λ e. cc e
standing-gone clock (a ∷ agents) h = λ e. ground (arith, eq_iff a.meta.uid "u1")

-- A sleep only lets the deleted agent go.
standing-later :
    (clock d : ℕ) (agents : List Agent)
    → IsFreeOr "u1" (uid_of (standing clock agents))
    → IsFreeOr "u1" (uid_of (standing (clock + d) agents))
standing-later clock d [] h = tt
standing-later clock d (a ∷ agents) h = ground arith

refused :
    (a : Agent) (e : ApiError) (agents : List Agent) (w : World)
    → (create a agents w).0 ≡ err e
    → (create a agents w).1 ≡ w
refused a e [] w h = cc h
refused a e (b ∷ agents) w h = refl

freed : NameIsFreed slow lost gone
freed = record {
  clock = λ w. w.clock;
  holder = λ w. uid_of (held w);
  sleep_forward = λ d w. omega arith;
  now_forward = λ w. omega arith;
  create_forward = λ a w. create_clock a (held w) w;
  get_forward = λ ns name w. omega arith;
  create_free = λ a w _ _ free. create_free a (held w) w free;
  get_holder = λ w b e. read_uid (held w) b e;
  gone_by = λ w h. standing-gone w.clock w.agents h;
  sleep_free = λ d w h. standing-later w.clock d w.agents h;
  now_free = λ w h. h;
  get_free = λ ns name w h. h;
  refused_free =
      λ a e w c h. subst (λ v. IsFreeOr "u1" (uid_of (held v))) (sym (refused a e (held w) w c)) h;
}

-- The agent was just deleted.
abbrev deleting : World
deleting = with_agents (agent ∷ []) []

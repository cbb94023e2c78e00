-- ===== src/Rest/Crud/Deleting.antt =====
-- What a deletion over the REST API sends, and what the controller makes of it.
use k8sagent_orchestrator.Prelude.{
  ◌≡◌, refl, ap, ◌≢◌, ◌↔◌, true, false, Option, none, some, List, [], ◌∷◌, arith, All, Bool-cases,
  inl, inr,
}
use k8sagent_orchestrator.Cache.{CacheStore}
use k8sagent_orchestrator.Api.{Agent}
use k8sagent_orchestrator.Io.{Result, ok, err, ApiError}
use k8sagent_orchestrator.Kube.{Env}
use k8sagent_orchestrator.Kube.Trace.{Call, traced, traced_cache, deleted_agents, events_of}
use k8sagent_orchestrator.Controller.Deletion.{Resurrection}
use k8sagent_orchestrator.Controller.Deletion.Release.{outcome, handle_deletion-spawned}
use k8sagent_orchestrator.Rest.{Request, Response, ns_name}
use k8sagent_orchestrator.Rest.Lifecycle.{with_healing_disabled}
use k8sagent_orchestrator.Rest.Crud.{handle_delete_agent}

-- A merge patch that changes the flag is answered with the object that has the new flag.
abbrev pub AnswersFlag : {W : Type 0} → Env W → Type 0
AnswersFlag {W} env =
    (base new answer : Agent) (w : W)
    → (env.patch_agent base new w).0 ≡ ok answer
    → base.spec.self_healing_disabled ≢ new.spec.self_healing_disabled
    → answer.spec.self_healing_disabled ≡ new.spec.self_healing_disabled

module _ {W : Type 0} (env : Env W) (cache : CacheStore W) (c : Request) (w : W) where
  abbrev pub answer : Response
  answer = (handle_delete_agent (traced env) (traced_cache cache) c (w, [])).0

  abbrev pub sent : List Call
  sent = (handle_delete_agent (traced env) (traced_cache cache) c (w, [])).1.1

  abbrev pub fetched : Result Agent × W
  fetched = env.get_agent (ns_name c).0 (ns_name c).1 w

  abbrev Disabled : List Agent → Type 0
  Disabled = All (λ a. a.spec.self_healing_disabled ≡ true)

  deletes_answered :
      (agent : Agent) (reply : Result Agent)
      → AnswersFlag env
      → fetched.0 ≡ ok agent
      → agent.spec.self_healing_disabled ≡ false
      → (env.patch_agent agent (with_healing_disabled true agent) fetched.1).0 ≡ reply
      → Disabled (deleted_agents sent)
  unfolding handle_delete_agent
  deletes_answered agent (ok x) law got flag e =
      let set : x.spec.self_healing_disabled ≡ true =
        law agent (with_healing_disabled true agent) x fetched.1 e (λ q. cc q) in
      ground arith
  deletes_answered agent (err x) law got flag e = ground arith

  deletes_read :
      (agent : Agent)
      → fetched.0 ≡ ok agent
      → agent.spec.self_healing_disabled ≡ true
      → Disabled (deleted_agents sent)
  unfolding handle_delete_agent
  deletes_read agent got flag = ground arith

  deletes_unread : (e : ApiError) → fetched.0 ≡ err e → Disabled (deleted_agents sent)
  unfolding handle_delete_agent
  deletes_unread e got = ground arith

  deletes-Disabled :
      (reply : Result Agent) → AnswersFlag env → fetched.0 ≡ reply → Disabled (deleted_agents sent)
  deletes-Disabled (ok agent) law got = elim (Bool-cases agent.spec.self_healing_disabled) [
    | inl on ↦ deletes_read agent got on
    | inr off ↦ deletes_answered agent _ law got off refl
  ]
  deletes-Disabled (err e) law got = deletes_unread e got

  -- However often and in whichever world the controller then handles the deletion of an object with this
  -- spec, it schedules no resurrection.
  abbrev pub StaysDeleted : Agent → Type 0
  StaysDeleted a =
      (seen : Agent) (w' : W) → seen.spec ≡ a.spec → (outcome env seen w').spawned ≡ none

  StaysDeleted_of_disabled :
      (a seen : Agent) (w' : W)
      → a.spec.self_healing_disabled ≡ true
      → seen.spec ≡ a.spec
      → (spawned : Option Resurrection) → (outcome env seen w').spawned ≡ spawned
      → spawned ≡ none
  StaysDeleted_of_disabled a seen w' off same none e = refl
  StaysDeleted_of_disabled a seen w' off same (some r) e = cc (
    ((handle_deletion-spawned env seen w' r).0.0 e).heals,
    ap (λ spec. spec.self_healing_disabled) same,
  )

  All-StaysDeleted : (agents : List Agent) → Disabled agents → All StaysDeleted agents
  All-StaysDeleted [] h = tt
  All-StaysDeleted (a ∷ agents) h = (
    λ seen w' same. StaysDeleted_of_disabled a seen w' h.0 same _ refl,
    All-StaysDeleted agents h.1,
  )

  -- Where a merge patch is answered with the new flag: whatever agent `handleDeleteAgent` asks the server
  -- to delete, the controller never schedules a resurrection when it handles the deletion of an object
  -- with its spec.
  pub handle_delete_agent-StaysDeleted : AnswersFlag env → All StaysDeleted (deleted_agents sent)
  handle_delete_agent-StaysDeleted law = All-StaysDeleted _ (deletes-Disabled _ law refl)

  -- Of an agent that was read: the delete is sent once, of the object that the answer to the patch holds,
  -- if self-healing was on, else of the object that was read; it is not sent where the patch was refused.
  -- The event of the deletion is recorded exactly where the answer is 200.
  pub handle_delete_agent-answer :
      (agent : Agent)
      → fetched.0 ≡ ok agent
      → (answer.code ≡ 200 ↔ events_of "Normal" sent ≡ 1)
        × (answer.code ≡ 200 → deleted_agents sent ≢ [])
        × (agent.spec.self_healing_disabled ≡ true → deleted_agents sent ≡ agent ∷ [])
        × ((refusal : ApiError)
            → agent.spec.self_healing_disabled ≡ false
            → (env.patch_agent agent (with_healing_disabled true agent) fetched.1).0 ≡ err refusal
            → (deleted_agents sent ≡ []) × (answer.code ≡ 500))
        × ((changed : Agent)
            → agent.spec.self_healing_disabled ≡ false
            → (env.patch_agent agent (with_healing_disabled true agent) fetched.1).0 ≡ ok changed
            → deleted_agents sent ≡ changed ∷ [])
  unfolding handle_delete_agent
  handle_delete_agent-answer agent got = (
    ground arith,
    λ h. ground arith,
    λ h. ground arith,
    λ refusal h e. ground arith,
    λ changed h e. ground arith,
  )

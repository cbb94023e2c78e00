-- ===== src/System/Invariant.antt =====
-- What holds in every state that the program reaches.
use k8sagent_orchestrator.Prelude.{◌≡◌, ◌⊎◌, All}
use k8sagent_orchestrator.Rest.Server.{Server, Router}
use k8sagent_orchestrator.System.{
  State, Step, elsewhere, request, reconciliation, watch, resurrection, Run, start, step,
}
use k8sagent_orchestrator.System.Justified.{
  Deed, served, reconciled_at, resurrected_at, other_deed, IsOfDeleted, Justified,
}

module _ {W C K : Type 0} (find : Router) (s : Server W C K) where
  abbrev deed : {x y : State W} → Step find s x y → Deed W
  deed (elsewhere change) = other_deed
  deed (request r) = served r
  deed {x} (reconciliation namespace name) = reconciled_at namespace name x.world
  deed (watch watcher enabled) = other_deed
  deed {x} (resurrection before after r e) = resurrected_at r x.world

  -- The run took this step.
  abbrev pub Did : {x y : State W} → Run find s x y → Deed W → Type 0
  Did start d = ⊥
  Did (step run one) d = Did run d ⊎ (d ≡ deed one)

  -- All that was sent is justified by the steps, and so are all resurrections that wait.
  pub record IsSound (P : Deed W → Type 0) (y : State W) : Type 0 where
    pub justified : All (Justified find s P) y.calls
    pub of_deleted : All (IsOfDeleted find s P) y.pending

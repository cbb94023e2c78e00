-- ===== src/Api/Copying/Pointers.antt =====
-- `DeepCopy` of api/v1alpha1: the original and the copy share no memory.
use k8sagent_orchestrator.Prelude.{ℕ, ◌≤◌, ◌<◌, ◌≡◌, refl, ap, ◌∙◌, Option, some, arith, inl}
use k8sagent_orchestrator.Api.Heap.{
  AgentCell, AgentListCell, Cell, free, an_agent, an_agent_list, Heap, alloc, write, Extends,
  Extends-trans, Extends-alloc, Extends-write, Agrees-write, cells-write,
}
use k8sagent_orchestrator.Api.Copying.{
  Foreign, deep_copy, as_agent, as_agent_list, copy_agent, copy_agent_list, deep_copy_agent,
  deep_copy_agent_list,
}
use k8sagent_orchestrator.Api.Copying.Contents.{IsCopy, kept}
use k8sagent_orchestrator.Api.Copying.Fields.{ForeignLaws}
use k8sagent_orchestrator.Api.Copying.Structs.{
  view_agent, WithinAgent, copy_agent-IsCopy, view_agent_list, WithinAgentList,
  copy_agent_list-IsCopy,
}

module _ {E F T X V : Type 0} (view : Heap E F T → X → V) (as_x : Cell E F T → Option X) where
  -- The reply points at a new copy of `x` with the same value, the old memory is as it was, a write to the
  -- old memory does not reach the copy, and one to the new memory does not reach `x`.
  abbrev pub IsApart : Heap E F T → X → Option ℕ × Heap E F T → Type 0
  IsApart h x (o, h') =
      (b : ℕ) × (y : X) × (o ≡ some b)
      × (h.next ≤ b)
      × (as_x (h'.cells b) ≡ some y)
      × (view h' y ≡ view h x)
      × Extends h h'
      × ((a : ℕ) (c : Cell E F T) → a < h.next → view (write a c h') y ≡ view h x)
      × ((a : ℕ) (c : Cell E F T) → h.next ≤ a → view (write a c h') x ≡ view h x)

module _ {E F T X V : Type 0} (view : Heap E F T → X → V) (Within : ℕ → ℕ → Heap E F T → X → Type 0)
    (into : X → Heap E F T → X × Heap E F T) (d : IsCopy view Within into) (cell : X → Cell E F T)
    (as_x : Cell E F T → Option X) (as_x-cell : (x : X) → as_x (cell x) ≡ some x) where
  abbrev made : Heap E F T → Heap E F T
  made h = (alloc free h).1

  abbrev placed : X → Heap E F T → Option ℕ × Heap E F T
  placed x h = let (y, h') = into x (made h) in (some h.next, write h.next (cell y) h')

  placed-IsApart :
      (x : X) (h : Heap E F T) → Within 0 h.next h x → IsApart view as_x h x (placed x h)
  placed-IsApart x h w =
      let h1 = made h in
      let y = (into x h1).0 in
      let h2 = (into x h1).1 in
      let h3 = write h.next (cell y) h2 in
      let e1 = Extends-alloc free h in
      let (k, s) = kept view Within into d h h1 x e1 w in
      let (e2, w2, v2) = d.copied x h1 k in
      let (w3, v3) =
        d.stable h1.next h2.next h2 h3 y
          (Agrees-write h1.next h2.next h.next (cell y) h2 (inl (omega arith))) w2 in
      let e3 = Extends-write h h2 h.next (cell y) (Extends-trans h h1 h2 e1 e2) (omega arith) in
      let v : view h3 y ≡ view h x = v3 ∙ v2 ∙ s in
      (
        h.next,
        y,
        refl,
        omega arith,
        ap as_x (cells-write h.next (cell y) h2) ∙ as_x-cell y,
        v,
        e3,
        λ a c p.
            (d.stable h1.next h2.next h3 (write a c h3) y
              (Agrees-write h1.next h2.next a c h3 (inl (omega arith))) w3).1
            ∙ v,
        λ a c p. (kept view Within into d h (write a c h3) x (Extends-write h h3 a c e3 p) w).1,
      )

  pub deep_copy-IsApart :
      (a : ℕ) (x : X) (h : Heap E F T)
      → as_x (h.cells a) ≡ some x
      → Within 0 h.next h x
      → IsApart view as_x h x (deep_copy cell as_x into (some a) h)
  unfolding deep_copy
  deep_copy-IsApart a x h e w = rw (e, deep_copy) (placed-IsApart x h w)

module _ {E F T : Type 0} (foreign : Foreign E F T) (laws : ForeignLaws foreign) where
  -- `DeepCopy` of an `Agent` all of whose memory is allocated points at a new agent with the same metadata,
  -- spec and status; the old memory is as it was, no write to it reaches the copy, and no write to the new
  -- memory reaches the original. The foreign copies are deep, and a map has each key once.
  pub deep_copy_agent-IsApart :
      (a : ℕ) (x : AgentCell E F T) (h : Heap E F T)
      → as_agent (h.cells a) ≡ some x
      → WithinAgent foreign laws 0 h.next h x
      → IsApart (view_agent foreign laws) as_agent h x (deep_copy_agent foreign (some a) h)
  unfolding deep_copy_agent
  deep_copy_agent-IsApart =
      deep_copy-IsApart (view_agent foreign laws) (WithinAgent foreign laws) (copy_agent foreign)
        (copy_agent-IsCopy foreign laws) an_agent as_agent (λ x. refl)

  -- The same of `DeepCopy` of an `AgentList`, and of every agent in it.
  pub deep_copy_agent_list-IsApart :
      (zero : AgentCell E F T) (a : ℕ) (x : AgentListCell F) (h : Heap E F T)
      → as_agent_list (h.cells a) ≡ some x
      → WithinAgentList foreign laws zero 0 h.next h x
      → IsApart
          (view_agent_list foreign laws zero)
          as_agent_list
          h
          x
          (deep_copy_agent_list foreign zero (some a) h)
  unfolding deep_copy_agent_list
  deep_copy_agent_list-IsApart zero =
      deep_copy-IsApart (view_agent_list foreign laws zero) (WithinAgentList foreign laws zero)
        (copy_agent_list foreign zero) (copy_agent_list-IsCopy foreign laws zero) an_agent_list
        as_agent_list (λ x. refl)

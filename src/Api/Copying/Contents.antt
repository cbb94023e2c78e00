-- ===== src/Api/Copying/Contents.antt =====
-- What it is for a copy in memory to be deep, and how deep copies combine.
use k8sagent_orchestrator.Prelude.{ℕ, ◌≤◌, ◌≡◌, refl, ap, ◌∙◌, arith}
use k8sagent_orchestrator.Api.Heap.{Heap, Agrees, Extends, Extends-refl, Extends-trans}
use k8sagent_orchestrator.Api.Copying.{assigned}

module _ {E F T : Type 0} where
  -- `view` is the value with everything that it points at, and `Within lo hi` says that all of its cells
  -- lie from `lo` up to `hi`. A deep copy writes new cells only, has the same view, and lies in the new
  -- cells.
  pub record IsCopy {X V : Type 0} (view : Heap E F T → X → V)
      (Within : ℕ → ℕ → Heap E F T → X → Type 0) (copy : X → Heap E F T → X × Heap E F T)
      : Type 0 where
    pub widen :
        (lo hi lo' hi' : ℕ) (h : Heap E F T) (x : X)
        → lo' ≤ lo
        → hi ≤ hi'
        → Within lo hi h x
        → Within lo' hi' h x
    pub stable :
        (lo hi : ℕ) (h h' : Heap E F T) (x : X)
        → Agrees lo hi h h'
        → Within lo hi h x
        → Within lo hi h' x × (view h' x ≡ view h x)
    pub copied :
        (x : X) (h : Heap E F T)
        → Within 0 h.next h x
        → let (x', h') = copy x h in
          Extends h h' × Within h.next h'.next h' x' × (view h' x' ≡ view h x)

  -- In a memory that extends the one of `x`, `x` is what it was.
  pub kept :
      {X V : Type 0} (view : Heap E F T → X → V) (Within : ℕ → ℕ → Heap E F T → X → Type 0)
      (copy : X → Heap E F T → X × Heap E F T)
      → IsCopy view Within copy
      → (h h' : Heap E F T) (x : X) → Extends h h'
      → Within 0 h.next h x
      → Within 0 h'.next h' x × (view h' x ≡ view h x)
  kept view Within copy d h h' x e w =
      let (w', v) = d.stable 0 h.next h h' x e.1 w in
      (d.widen 0 h.next 0 h'.next h' x (omega arith) e.0 w', v)

  -- A copy that lies above `lo` stays as it is where the memory grows.
  pub kept_copy :
      {X V : Type 0} (view : Heap E F T → X → V) (Within : ℕ → ℕ → Heap E F T → X → Type 0)
      (copy : X → Heap E F T → X × Heap E F T)
      → IsCopy view Within copy
      → (lo : ℕ) (h h' : Heap E F T) (x : X) → Extends h h'
      → Within lo h.next h x
      → Within lo h'.next h' x × (view h' x ≡ view h x)
  kept_copy view Within copy d lo h h' x e w =
      let (w', v) = d.stable lo h.next h h' x (λ a p q. e.1 a (omega arith) q) w in
      (d.widen lo h.next lo h'.next h' x (omega arith) e.0 w', v)

  pub assigned-IsCopy :
      {X : Type 0} → IsCopy (λ (h : Heap E F T) (x : X). x) (λ lo hi h x. Unit) assigned
  assigned-IsCopy = record {
    widen = λ lo hi lo' hi' h x p q w. tt;
    stable = λ lo hi h h' x e w. (tt, refl);
    copied = λ x h w. (Extends-refl h, tt, refl);
  }

  module _ {X Y V U : Type 0} (view : Heap E F T → X → V) (Within : ℕ → ℕ → Heap E F T → X → Type 0)
      (copy : X → Heap E F T → X × Heap E F T) (view' : Heap E F T → Y → U)
      (Within' : ℕ → ℕ → Heap E F T → Y → Type 0) (copy' : Y → Heap E F T → Y × Heap E F T) where
    abbrev pub view_both : Heap E F T → X × Y → V × U
    view_both h p = (view h p.0, view' h p.1)

    abbrev pub WithinBoth : ℕ → ℕ → Heap E F T → X × Y → Type 0
    WithinBoth lo hi h p = Within lo hi h p.0 × Within' lo hi h p.1

    abbrev pub copy_both : X × Y → Heap E F T → (X × Y) × Heap E F T
    copy_both p h = let (x, h') = copy p.0 h in let (y, h'') = copy' p.1 h' in ((x, y), h'')

    -- One after the other.
    pub copy_both-IsCopy :
        IsCopy view Within copy → IsCopy view' Within' copy' → IsCopy view_both WithinBoth copy_both
    copy_both-IsCopy d d' = record {
      widen = λ lo hi lo' hi' h p a b w.
          (d.widen lo hi lo' hi' h p.0 a b w.0, d'.widen lo hi lo' hi' h p.1 a b w.1);
      stable = λ lo hi h h' p e w.
          let (w1, v1) = d.stable lo hi h h' p.0 e w.0 in
          let (w2, v2) = d'.stable lo hi h h' p.1 e w.1 in
          ((w1, w2), ap (λ v. (v, view' h' p.1)) v1 ∙ ap (λ v. (view h p.0, v)) v2);
      copied = λ p h w.
          let h1 = (copy p.0 h).1 in
          let h2 = (copy' p.1 h1).1 in
          let (e1, w1, v1) = d.copied p.0 h w.0 in
          let (k, s) = kept view' Within' copy' d' h h1 p.1 e1 w.1 in
          let (e2, w2, v2) = d'.copied p.1 h1 k in
          let (w3, v3) = kept_copy view Within copy d h.next h1 h2 (copy p.0 h).0 e2 w1 in
          let w4 =
            d'.widen h1.next h2.next h.next h2.next h2 (copy' p.1 h1).0 e1.0 (omega arith) w2 in
          (
            Extends-trans h h1 h2 e1 e2,
            (w3, w4),
            ap (λ v. (v, view' h2 (copy' p.1 h1).0)) (v3 ∙ v1) ∙ ap (λ v. (view h p.0, v)) (v2 ∙ s),
          );
    }

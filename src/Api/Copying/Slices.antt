-- ===== src/Api/Copying/Slices.antt =====
-- A slice whose elements are copied deeply is a deep copy.
use k8sagent_orchestrator.Prelude.{
  ℕ, ◌≤◌, ◌<◌, ◌≡◌, refl, sym, ap, ◌∙◌, subst, Option, none, some, List, [], ◌∷◌, map, arith, All,
  inl,
}
use k8sagent_orchestrator.Api.Heap.{
  Cell, Heap, alloc, write, Agrees, Extends, Extends-refl, Extends-trans, Extends-alloc,
  cells-write, Agrees-write, Extends-write,
}
use k8sagent_orchestrator.Api.Copying.{copy_each, copy_slice}
use k8sagent_orchestrator.Api.Copying.Contents.{IsCopy, kept_copy}

module _ {E F T : Type 0} where
  module _ {X V : Type 0} (view : Heap E F T → X → V) (Within : ℕ → ℕ → Heap E F T → X → Type 0)
      (copy : X → Heap E F T → X × Heap E F T) (d : IsCopy view Within copy) where
    abbrev pub view_each : Heap E F T → List X → List V
    view_each h xs = map (view h) xs

    abbrev pub WithinEach : ℕ → ℕ → Heap E F T → List X → Type 0
    WithinEach lo hi h xs = All (Within lo hi h) xs

    widen_each :
        (lo hi lo' hi' : ℕ) (h : Heap E F T) (xs : List X)
        → lo' ≤ lo
        → hi ≤ hi'
        → WithinEach lo hi h xs
        → WithinEach lo' hi' h xs
    widen_each lo hi lo' hi' h [] p q w = tt
    widen_each lo hi lo' hi' h (x ∷ xs) p q w =
        (d.widen lo hi lo' hi' h x p q w.0, widen_each lo hi lo' hi' h xs p q w.1)

    stable_each :
        (lo hi : ℕ) (h h' : Heap E F T) (xs : List X)
        → Agrees lo hi h h'
        → WithinEach lo hi h xs
        → WithinEach lo hi h' xs × (view_each h' xs ≡ view_each h xs)
    stable_each lo hi h h' [] e w = (tt, refl)
    stable_each lo hi h h' (x ∷ xs) e w =
        let (w1, v1) = d.stable lo hi h h' x e w.0 in
        let (w2, v2) = stable_each lo hi h h' xs e w.1 in
        ((w1, w2), ap (λ v. v ∷ view_each h' xs) v1 ∙ ap (λ vs. view h x ∷ vs) v2)

    copied_each :
        (xs : List X) (h : Heap E F T)
        → WithinEach 0 h.next h xs
        → let (xs', h') = copy_each copy xs h in
          Extends h h' × WithinEach h.next h'.next h' xs' × (view_each h' xs' ≡ view_each h xs)
    unfolding copy_each
    copied_each [] h w = (Extends-refl h, tt, refl)
    copied_each (x ∷ xs) h w =
        let h1 = (copy x h).1 in
        let h2 = (copy_each copy xs h1).1 in
        let ys = (copy_each copy xs h1).0 in
        let (e1, w1, v1) = d.copied x h w.0 in
        let (k, s) = stable_each 0 h.next h h1 xs e1.1 w.1 in
        let (e2, w2, v2) =
          copied_each xs h1 (widen_each 0 h.next 0 h1.next h1 xs (omega arith) e1.0 k) in
        let (w3, v3) = kept_copy view Within copy d h.next h1 h2 (copy x h).0 e2 w1 in
        (
          Extends-trans h h1 h2 e1 e2,
          (w3, widen_each h1.next h2.next h.next h2.next h2 ys e1.0 (omega arith) w2),
          ap (λ v. v ∷ view_each h2 ys) (v3 ∙ v1) ∙ ap (λ vs. view h x ∷ vs) (v2 ∙ s),
        )

    module _ (cell : List X → Cell E F T) (items_of : Cell E F T → List X) (zero : X)
        (items_of-cell : (xs : List X) → items_of (cell xs) ≡ xs) where
      abbrev pub view_slice : Heap E F T → Option ℕ → List V
      view_slice h none = []
      view_slice h (some a) = view_each h (items_of (h.cells a))

      abbrev pub WithinSlice : ℕ → ℕ → Heap E F T → Option ℕ → Type 0
      WithinSlice lo hi h none = Unit
      WithinSlice lo hi h (some a) = (lo ≤ a) × (a < hi) × WithinEach lo hi h (items_of (h.cells a))

      abbrev pub made : ℕ → Heap E F T → Heap E F T
      made a h = (alloc (cell (map (λ _. zero) (items_of (h.cells a)))) h).1

      widen_slice :
          (lo hi lo' hi' : ℕ) (h : Heap E F T) (o : Option ℕ)
          → lo' ≤ lo
          → hi ≤ hi'
          → WithinSlice lo hi h o
          → WithinSlice lo' hi' h o
      widen_slice lo hi lo' hi' h none p q w = tt
      widen_slice lo hi lo' hi' h (some a) p q (u, v, w) =
          (omega arith, omega arith, widen_each lo hi lo' hi' h _ p q w)

      stable_slice :
          (lo hi : ℕ) (h h' : Heap E F T) (o : Option ℕ)
          → Agrees lo hi h h'
          → WithinSlice lo hi h o
          → WithinSlice lo hi h' o × (view_slice h' o ≡ view_slice h o)
      stable_slice lo hi h h' none e w = (tt, refl)
      stable_slice lo hi h h' (some a) e (u, v, w) =
          let same = e a u v in
          let (w', s) = stable_each lo hi h h' (items_of (h.cells a)) e w in
          (
            (u, v, subst (λ c. WithinEach lo hi h' (items_of c)) (sym same) w'),
            ap (λ c. view_each h' (items_of c)) same ∙ s,
          )

      copied_slice :
          (o : Option ℕ) (h : Heap E F T)
          → WithinSlice 0 h.next h o
          → let (o', h') = copy_slice cell items_of zero copy o h in
            Extends h h' × WithinSlice h.next h'.next h' o' × (view_slice h' o' ≡ view_slice h o)
      unfolding copy_slice copy_each
      copied_slice none h w = (Extends-refl h, tt, refl)
      copied_slice (some a) h (u, v, w) =
          let xs = items_of (h.cells a) in
          let h1 = made a h in
          let ys = (copy_each copy xs h1).0 in
          let h2 = (copy_each copy xs h1).1 in
          let h3 = write h.next (cell ys) h2 in
          let e1 = Extends-alloc (cell (map (λ _. zero) xs)) h in
          let (k, s) = stable_each 0 h.next h h1 xs e1.1 w in
          let (e2, w2, v2) =
            copied_each xs h1 (widen_each 0 h.next 0 h1.next h1 xs (omega arith) e1.0 k) in
          let (w3, v3) =
            stable_each h1.next h2.next h2 h3 ys
              (Agrees-write h1.next h2.next h.next (cell ys) h2 (inl (omega arith))) w2 in
          let there : items_of (h3.cells h.next) ≡ ys =
            ap items_of (cells-write h.next (cell ys) h2) ∙ items_of-cell ys in
          (
            Extends-write h h2 h.next (cell ys) (Extends-trans h h1 h2 e1 e2) (omega arith),
            (
              omega arith,
              omega (arith, e2.0),
              subst (λ zs. WithinEach h.next h3.next h3 zs) (sym there)
                  (widen_each h1.next h2.next h.next h3.next h3 ys (omega arith) (omega arith) w3),
            ),
            ap (view_each h3) there ∙ v3 ∙ v2 ∙ s,
          )

      pub copy_slice-IsCopy : IsCopy view_slice WithinSlice (copy_slice cell items_of zero copy)
      copy_slice-IsCopy = record {
        widen = widen_slice;
        stable = stable_slice;
        copied = copied_slice;
      }

-- ===== src/Api/Copying/Fields.antt =====
-- The deep copies of the fields, by what the foreign ones are relied on for.
use k8sagent_orchestrator.Prelude.{
  ℕ, ◌≤◌, ◌<◌, String, ◌≡◌, refl, sym, ap, ◌∙◌, subst, Option, none, some, [], arith,
}
use k8sagent_orchestrator.Prelude.Map
use k8sagent_orchestrator.Prelude.Map.{Map, HasDistinctKeys, overlay-empty}
use k8sagent_orchestrator.Cache.{Time}
use k8sagent_orchestrator.Api.{Json, EnvVar, AgentCondition}
use k8sagent_orchestrator.Api.Heap.{
  Cell, labels, Heap, alloc, Agrees, Extends, Extends-refl, Extends-alloc, Extends-write,
  cells-write,
}
use k8sagent_orchestrator.Api.Copying.{
  Foreign, labels_in, copy_labels, copy_condition, condition_copy, copy_pointer,
}
use k8sagent_orchestrator.Api.Copying.Contents.{IsCopy}

-- The foreign deep copies are deep, and the copy of a time is that time.
pub record ForeignLaws {E F T : Type 0} (foreign : Foreign E F T) : Type 1 where
  pub view_env : Heap E F T → E → EnvVar
  pub WithinEnv : ℕ → ℕ → Heap E F T → E → Type 0
  pub copy_env-IsCopy : IsCopy view_env WithinEnv foreign.copy_env
  pub view_item : Heap E F T → F → Json
  pub WithinItem : ℕ → ℕ → Heap E F T → F → Type 0
  pub copy_item-IsCopy : IsCopy view_item WithinItem foreign.copy_item
  pub view_time : Heap E F T → T → Time
  pub WithinPointer : ℕ → ℕ → Heap E F T → T → Type 0
  pub copy_pointer-IsCopy : IsCopy view_time WithinPointer foreign.copy_pointer
  pub copy_time_lem : (t : Time) → foreign.copy_time t ≡ t

module _ {E F T : Type 0} where
  abbrev pub view_labels : Heap E F T → Option ℕ → Map String
  view_labels h none = []
  view_labels h (some a) = labels_in (h.cells a)

  -- A map has each key once.
  abbrev pub WithinLabels : ℕ → ℕ → Heap E F T → Option ℕ → Type 0
  WithinLabels lo hi h none = Unit
  WithinLabels lo hi h (some a) = (lo ≤ a) × (a < hi) × HasDistinctKeys (labels_in (h.cells a))

  widen_labels :
      (lo hi lo' hi' : ℕ) (h : Heap E F T) (o : Option ℕ)
      → lo' ≤ lo
      → hi ≤ hi'
      → WithinLabels lo hi h o
      → WithinLabels lo' hi' h o
  widen_labels lo hi lo' hi' h none p q w = tt
  widen_labels lo hi lo' hi' h (some a) p q (u, v, w) = (omega arith, omega arith, w)

  stable_labels :
      (lo hi : ℕ) (h h' : Heap E F T) (o : Option ℕ)
      → Agrees lo hi h h'
      → WithinLabels lo hi h o
      → WithinLabels lo hi h' o × (view_labels h' o ≡ view_labels h o)
  stable_labels lo hi h h' none e w = (tt, refl)
  stable_labels lo hi h h' (some a) e (u, v, w) =
      let same = e a u v in
      ((u, v, subst (λ c. HasDistinctKeys (labels_in c)) (sym same) w), ap labels_in same)

  copied_labels :
      (o : Option ℕ) (h : Heap E F T)
      → WithinLabels 0 h.next h o
      → let (o', h') = copy_labels o h in
        Extends h h' × WithinLabels h.next h'.next h' o' × (view_labels h' o' ≡ view_labels h o)
  unfolding copy_labels
  copied_labels none h w = (Extends-refl h, tt, refl)
  copied_labels (some a) h (u, v, w) =
      let made = (alloc (labels []) h).1 in
      let filled : Cell E F T = labels (Map.overlay [] (labels_in (h.cells a))) in
      let there =
        ap labels_in (cells-write h.next filled made) ∙ overlay-empty (labels_in (h.cells a)) w in
      (
        Extends-write h made h.next filled (Extends-alloc (labels []) h) (omega arith),
        (omega arith, omega arith, subst HasDistinctKeys (sym there) w),
        there,
      )

  pub copy_labels-IsCopy : IsCopy view_labels WithinLabels copy_labels
  copy_labels-IsCopy = record {
    widen = widen_labels;
    stable = stable_labels;
    copied = copied_labels;
  }

module _ {E F T : Type 0} (foreign : Foreign E F T) (laws : ForeignLaws foreign) where
  pub copy_condition-IsCopy :
      IsCopy
        (λ (h : Heap E F T) (c : AgentCondition). c)
        (λ lo hi h c. Unit)
        (copy_condition foreign)
  unfolding condition_copy
  copy_condition-IsCopy = record {
    widen = λ lo hi lo' hi' h x p q w. tt;
    stable = λ lo hi h h' x e w. (tt, refl);
    copied = λ c h w. (
      Extends-refl h,
      tt,
      ap (λ t. record c { last_transition_time = t }) (laws.copy_time_lem c.last_transition_time),
    );
  }

  abbrev pub view_pointer : Heap E F T → Option T → Option Time
  view_pointer h none = none
  view_pointer h (some t) = some (laws.view_time h t)

  abbrev pub WithinPointer : ℕ → ℕ → Heap E F T → Option T → Type 0
  WithinPointer lo hi h none = Unit
  WithinPointer lo hi h (some t) = laws.WithinPointer lo hi h t

  widen_pointer :
      (lo hi lo' hi' : ℕ) (h : Heap E F T) (o : Option T)
      → lo' ≤ lo
      → hi ≤ hi'
      → WithinPointer lo hi h o
      → WithinPointer lo' hi' h o
  widen_pointer lo hi lo' hi' h none p q w = tt
  widen_pointer lo hi lo' hi' h (some t) p q w =
      laws.copy_pointer-IsCopy.widen lo hi lo' hi' h t p q w

  stable_pointer :
      (lo hi : ℕ) (h h' : Heap E F T) (o : Option T)
      → Agrees lo hi h h'
      → WithinPointer lo hi h o
      → WithinPointer lo hi h' o × (view_pointer h' o ≡ view_pointer h o)
  stable_pointer lo hi h h' none e w = (tt, refl)
  stable_pointer lo hi h h' (some t) e w =
      let (w', v) = laws.copy_pointer-IsCopy.stable lo hi h h' t e w in (w', ap some v)

  copied_pointer :
      (o : Option T) (h : Heap E F T)
      → WithinPointer 0 h.next h o
      → let (o', h') = copy_pointer foreign o h in
        Extends h h' × WithinPointer h.next h'.next h' o' × (view_pointer h' o' ≡ view_pointer h o)
  unfolding copy_pointer
  copied_pointer none h w = (Extends-refl h, tt, refl)
  copied_pointer (some t) h w =
      let (e, w', v) = laws.copy_pointer-IsCopy.copied t h w in (e, w', ap some v)

  pub copy_pointer-IsCopy : IsCopy view_pointer WithinPointer (copy_pointer foreign)
  copy_pointer-IsCopy = record {
    widen = widen_pointer;
    stable = stable_pointer;
    copied = copied_pointer;
  }

-- ===== src/Api/Copying/Copiers.antt =====
-- Copies with their views: of two fields, of a structure by its fields, and of each kind of field.
use k8sagent_orchestrator.Prelude.{ℕ, String, ◌≡◌, refl, sym, ap, ◌∙◌, subst, Option, List}
use k8sagent_orchestrator.Prelude.Map.{Map}
use k8sagent_orchestrator.Cache.{Time}
use k8sagent_orchestrator.Api.{Json, EnvVar, AgentCondition}
use k8sagent_orchestrator.Api.Heap.{texts, envs, items, condition_items, Heap}
use k8sagent_orchestrator.Api.Copying.{
  Foreign, assigned, texts_in, envs_in, items_in, conditions_in, copy_labels, copy_pointer,
  copy_condition, copy_slice, zero_condition,
}
use k8sagent_orchestrator.Api.Copying.Contents.{
  IsCopy, assigned-IsCopy, copy_both, copy_both-IsCopy,
}
use k8sagent_orchestrator.Api.Copying.Slices.{copy_slice-IsCopy}
use k8sagent_orchestrator.Api.Copying.Fields.{
  ForeignLaws, copy_labels-IsCopy, copy_condition-IsCopy, copy_pointer-IsCopy,
}

-- A copy with its view.
pub record Copier (E F T X V : Type 0) : Type 1 where
  pub view : Heap E F T → X → V
  pub Within : ℕ → ℕ → Heap E F T → X → Type 0
  pub copy : X → Heap E F T → X × Heap E F T
  pub deep : IsCopy view Within copy

module _ {E F T : Type 0} where
  abbrev pub both :
      {X Y V U : Type 0} → Copier E F T X V → Copier E F T Y U → Copier E F T (X × Y) (V × U)
  both c d = record {
    view = λ h p. (c.view h p.0, d.view h p.1);
    Within = λ lo hi h p. c.Within lo hi h p.0 × d.Within lo hi h p.1;
    copy = copy_both c.view c.Within c.copy d.view d.Within d.copy;
    deep = copy_both-IsCopy c.view c.Within c.copy d.view d.Within d.copy c.deep d.deep;
  }

  -- A structure is copied by its fields.
  module _ {X Y V U : Type 0} (c : Copier E F T Y U) (fields : X → Y) (put : X → Y → X)
      (build : X → U → V) (fields-put : (x : X) (y : Y) → fields (put x y) ≡ y)
      (build-put : (x : X) (y : Y) (u : U) → build (put x y) u ≡ build x u) where
    abbrev pub by_fields : X → Heap E F T → X × Heap E F T
    by_fields x h = let (y, h') = c.copy (fields x) h in (put x y, h')

    abbrev pub built : Heap E F T → X → V
    built h x = build x (c.view h (fields x))

    abbrev pub FieldsWithin : ℕ → ℕ → Heap E F T → X → Type 0
    FieldsWithin lo hi h x = c.Within lo hi h (fields x)

    pub by_fields-IsCopy : IsCopy built FieldsWithin by_fields
    by_fields-IsCopy = record {
      widen = λ lo hi lo' hi' h x p q w. c.deep.widen lo hi lo' hi' h (fields x) p q w;
      stable = λ lo hi h h' x e w.
          let (w', v) = c.deep.stable lo hi h h' (fields x) e w in (w', ap (build x) v);
      copied = λ x h w.
          let (e, w', v) = c.deep.copied (fields x) h w in
          let y = (c.copy (fields x) h).0 in
          let h' = (c.copy (fields x) h).1 in
          (
            e,
            subst (c.Within h.next h'.next h') (sym (fields-put x y)) w',
            build-put x y _ ∙ ap (λ z. build x (c.view h' z)) (fields-put x y) ∙ ap (build x) v,
          );
    }

module _ {E F T : Type 0} (foreign : Foreign E F T) (laws : ForeignLaws foreign) where
  abbrev pub texts_copier : Copier E F T (Option ℕ) (List String)
  texts_copier = record {
    view = _;
    Within = _;
    copy = copy_slice texts texts_in "" assigned;
    deep =
        copy_slice-IsCopy (λ h x. x) (λ lo hi h x. Unit) assigned assigned-IsCopy texts texts_in ""
          (λ xs. refl);
  }

  abbrev pub envs_copier : Copier E F T (Option ℕ) (List EnvVar)
  envs_copier = record {
    view = _;
    Within = _;
    copy = copy_slice envs envs_in foreign.zero_env foreign.copy_env;
    deep =
        copy_slice-IsCopy laws.view_env laws.WithinEnv foreign.copy_env laws.copy_env-IsCopy envs
          envs_in foreign.zero_env (λ xs. refl);
  }

  abbrev pub items_copier : Copier E F T (Option ℕ) (List Json)
  items_copier = record {
    view = _;
    Within = _;
    copy = copy_slice items items_in foreign.zero_item foreign.copy_item;
    deep =
        copy_slice-IsCopy laws.view_item laws.WithinItem foreign.copy_item laws.copy_item-IsCopy
          items items_in foreign.zero_item (λ xs. refl);
  }

  abbrev pub conditions_copier : Copier E F T (Option ℕ) (List AgentCondition)
  conditions_copier = record {
    view = _;
    Within = _;
    copy =
        copy_slice condition_items conditions_in (zero_condition foreign) (copy_condition foreign);
    deep =
        copy_slice-IsCopy (λ h x. x) (λ lo hi h x. Unit) (copy_condition foreign)
          (copy_condition-IsCopy foreign laws) condition_items conditions_in
          (zero_condition foreign) (λ xs. refl);
  }

  abbrev pub item_copier : Copier E F T F Json
  item_copier = record {
    view = laws.view_item;
    Within = laws.WithinItem;
    copy = foreign.copy_item;
    deep = laws.copy_item-IsCopy;
  }

  abbrev pub labels_copier : Copier E F T (Option ℕ) (Map String)
  labels_copier = record { view = _; Within = _; copy = copy_labels; deep = copy_labels-IsCopy }

  abbrev pub pointer_copier : Copier E F T (Option T) (Option Time)
  pointer_copier = record {
    view = _;
    Within = _;
    copy = copy_pointer foreign;
    deep = copy_pointer-IsCopy foreign laws;
  }

-- ===== src/Cache/Memory/Shared/Links.antt =====
-- Which tables the map of agents points at, under the steps of any calls.
use k8sagent_orchestrator.Prelude.{
  ℕ, ◌+◌, ◌<◌, String, ◌≡◌, refl, sym, ◌≢◌, subst, true, false, none, some, List, [], ◌∷◌, arith,
  ◌==◌, eq_iff, eqb, if◌then◌else◌, Bool-cases, inl, inr, Option-cases,
}
use k8sagent_orchestrator.Prelude.Map
use k8sagent_orchestrator.Prelude.Map.{Map, lookup-insert, lookup-remove}
use k8sagent_orchestrator.Cache.Memory.Shared.{
  Shared, create_table, write_entry, drop_entry, unlink, Action, creates, writes, drops, unlinks,
  act, acts, clears,
}

-- The map points at tables that were made, and no two agents share one.
pub record IsValid (m : Shared) : Type 0 where
  pub made : (key : String) (p : ℕ) → Map.lookup key m.agents ≡ some p → p < m.next
  pub apart :
      (j k : String) (p : ℕ)
      → Map.lookup j m.agents ≡ some p
      → Map.lookup k m.agents ≡ some p
      → j ≡ k

abbrev pub IsLinked : String → ℕ → Shared → Type 0
IsLinked key p m = Map.lookup key m.agents ≡ some p

-- The table was made, and the map does not point at it.
pub record IsOrphan (p : ℕ) (m : Shared) : Type 0 where
  pub made : p < m.next
  pub lost : (key : String) → Map.lookup key m.agents ≢ some p

-- The memory with a new table for the key.
abbrev pub fresh : String → Shared → Shared
fresh key m = record {
  agents = Map.insert key m.next m.agents;
  tables = λ a. if eqb a m.next then [] else m.tables a;
  next = m.next + 1;
}

pub create_table-found :
    (key : String) (p : ℕ) (m : Shared) → IsLinked key p m → create_table key m ≡ (p, m)
unfolding create_table
create_table-found key p m e = rw (e, create_table) refl

pub create_table-fresh :
    (key : String) (m : Shared)
    → Map.lookup key m.agents ≡ none
    → create_table key m ≡ (m.next, fresh key m)
unfolding create_table
create_table-fresh key m e = rw (e, create_table) refl

fresh-IsValid : (key : String) (m : Shared) → IsValid m → IsValid (fresh key m)
fresh-IsValid key m v = record {
  made = λ j p e. ground (arith, lookup-insert key j m.next m.agents, v.made j p);
  apart = λ j k p e f. ground (
    arith,
    lookup-insert key j m.next m.agents,
    lookup-insert key k m.next m.agents,
    eq_iff key j,
    eq_iff key k,
    v.made j p,
    v.made k p,
    v.apart j k p,
  );
}

unlink-IsValid : (key : String) (m : Shared) → IsValid m → IsValid (unlink key m)
unfolding unlink
unlink-IsValid key m v = record {
  made = λ j p e. ground (arith, lookup-remove key j m.agents, v.made j p);
  apart = λ j k p e f.
      ground
        (arith, e, f, lookup-remove key j m.agents, lookup-remove key k m.agents, v.apart j k p);
}

pub create_table-IsValid : (key : String) (m : Shared) → IsValid m → IsValid (create_table key m).1
create_table-IsValid key m v = elim (Option-cases (Map.lookup key m.agents)) [
  | inl e ↦
      subst (λ (r : ℕ × Shared). IsValid r.1) (sym (create_table-fresh key m e))
        (fresh-IsValid key m v)
  | inr (p, e) ↦ subst (λ (r : ℕ × Shared). IsValid r.1) (sym (create_table-found key p m e)) v
]

pub act-IsValid : (a : Action) (m : Shared) → IsValid m → IsValid (act a m)
unfolding act write_entry drop_entry
act-IsValid (creates key) m v = create_table-IsValid key m v
act-IsValid (writes p field entry) m v = record { made = v.made; apart = v.apart }
act-IsValid (drops p field) m v = record { made = v.made; apart = v.apart }
act-IsValid (unlinks key) m v = unlink-IsValid key m v

pub acts-IsValid : (rest : List Action) (m : Shared) → IsValid m → IsValid (acts rest m)
unfolding acts
acts-IsValid [] m v = v
acts-IsValid (a ∷ rest) m v = acts-IsValid rest (act a m) (act-IsValid a m v)

-- A creation links the key, and leaves the links of others.
pub create_table-links :
    (key : String) (m : Shared) → IsLinked key (create_table key m).0 (create_table key m).1
create_table-links key m = elim (Option-cases (Map.lookup key m.agents)) [
  | inl e ↦
      subst (λ (r : ℕ × Shared). IsLinked key r.0 r.1) (sym (create_table-fresh key m e))
        (ground (arith, lookup-insert key key m.next m.agents, eq_iff key key))
  | inr (p, e) ↦
      subst (λ (r : ℕ × Shared). IsLinked key r.0 r.1) (sym (create_table-found key p m e)) e
]

create_table-keeps :
    (j key : String) (p : ℕ) (m : Shared) → IsLinked key p m → IsLinked key p (create_table j m).1
create_table-keeps j key p m l = elim (Option-cases (Map.lookup j m.agents)) [
  | inl e ↦
      subst (λ (r : ℕ × Shared). IsLinked key p r.1) (sym (create_table-fresh j m e))
        (ground (arith, lookup-insert j key m.next m.agents, eq_iff j key))
  | inr (q, e) ↦ subst (λ (r : ℕ × Shared). IsLinked key p r.1) (sym (create_table-found j q m e)) l
]

create_table-IsOrphan :
    (j : String) (p : ℕ) (m : Shared) → IsOrphan p m → IsOrphan p (create_table j m).1
create_table-IsOrphan j p m o = elim (Option-cases (Map.lookup j m.agents)) [
  | inl e ↦
      subst (λ (r : ℕ × Shared). IsOrphan p r.1) (sym (create_table-fresh j m e))
        (record {
          made = omega (arith, o.made);
          lost = λ key f. ground (arith, o.made, o.lost key, lookup-insert j key m.next m.agents);
        })
  | inr (q, e) ↦ subst (λ (r : ℕ × Shared). IsOrphan p r.1) (sym (create_table-found j q m e)) o
]

-- An orphan stays one.
act-IsOrphan : (a : Action) (p : ℕ) (m : Shared) → IsOrphan p m → IsOrphan p (act a m)
unfolding act write_entry drop_entry unlink
act-IsOrphan (creates key) p m o = create_table-IsOrphan key p m o
act-IsOrphan (writes q field entry) p m o = record { made = o.made; lost = o.lost }
act-IsOrphan (drops q field) p m o = record { made = o.made; lost = o.lost }
act-IsOrphan (unlinks j) p m o = record {
  made = o.made;
  lost = λ key f. ground (arith, o.lost key, lookup-remove j key m.agents);
}

acts-IsOrphan : (rest : List Action) (p : ℕ) (m : Shared) → IsOrphan p m → IsOrphan p (acts rest m)
unfolding acts
acts-IsOrphan [] p m o = o
acts-IsOrphan (a ∷ rest) p m o = acts-IsOrphan rest p (act a m) (act-IsOrphan a p m o)

-- Clearing the agent makes its table an orphan; no other step takes it away.
unlink-IsOrphan :
    (j key : String) (p : ℕ) (m : Shared)
    → IsValid m
    → IsLinked key p m
    → (j == key) ≡ true
    → IsOrphan p (unlink j m)
unfolding unlink
unlink-IsOrphan j key p m v l e = record {
  made = v.made key p l;
  lost = λ k f.
      ground
        (arith, e, f, l, eq_iff j key, eq_iff j k, lookup-remove j k m.agents, v.apart key k p);
}

unlink_other :
    (j key : String) (p : ℕ) (m : Shared)
    → IsLinked key p m
    → (j == key) ≡ false
    → IsLinked key p (unlink j m)
unfolding unlink
unlink_other j key p m l e = ground (arith, lookup-remove j key m.agents)

-- After any steps, a table that was the agent's still is, exactly if none of them cleared the agent.
pub acts-IsLinked :
    (key : String) (p : ℕ) (rest : List Action) (m : Shared)
    → IsValid m
    → IsLinked key p m
    → (clears key rest ≡ false → IsLinked key p (acts rest m))
      × (clears key rest ≡ true → IsOrphan p (acts rest m))
unfolding acts act write_entry drop_entry
acts-IsLinked key p [] m v l = (λ _. l, λ e. absurd (ground arith))
acts-IsLinked key p (creates j ∷ rest) m v l =
    acts-IsLinked key p rest (create_table j m).1 (create_table-IsValid j m v)
      (create_table-keeps j key p m l)
acts-IsLinked key p (writes q field entry ∷ rest) m v l =
    acts-IsLinked key p rest (write_entry q field entry m) (act-IsValid (writes q field entry) m v)
      l
acts-IsLinked key p (drops q field ∷ rest) m v l =
    acts-IsLinked key p rest (drop_entry q field m) (act-IsValid (drops q field) m v) l
acts-IsLinked key p (unlinks j ∷ rest) m v l = elim (Bool-cases (j == key)) [
  | inl e ↦ (
    λ c. absurd (ground arith),
    λ _. acts-IsOrphan rest p (unlink j m) (unlink-IsOrphan j key p m v l e),
  )
  | inr e ↦
      let kept : IsLinked key p (unlink j m) = unlink_other j key p m l e in
      let (linked, orphan) = acts-IsLinked key p rest (unlink j m) (unlink-IsValid j m v) kept in
      (λ c. linked (ground arith), λ c. orphan (ground arith))
]

-- ===== src/Cache/Memory/Shared/Interleaved.antt =====
-- `Set` of `InMemoryCache` between the steps of other calls.
use k8sagent_orchestrator.Prelude.{
  ℕ, ◌+◌, String, ◌≡◌, refl, sym, ap, ◌∙◌, ◌≢◌, subst, Option, none, some, List, [], ◌∷◌, arith,
  if◌then◌else◌, Bool-cases, inl, inr, Option-cases,
}
use k8sagent_orchestrator.Prelude.Map
use k8sagent_orchestrator.Prelude.Map.{Map, lookup-insert, lookup-remove}
use k8sagent_orchestrator.Cache.{Entry}
use k8sagent_orchestrator.Cache.Memory.Shared.{
  Shared, peek, create_table, write_entry, drop_entry, unlink, Action, creates, writes, drops,
  unlinks, act, acts, clears, get_or_create, set_shared, entry_at,
}
use k8sagent_orchestrator.Cache.Memory.Shared.Links.{
  IsValid, IsLinked, IsOrphan, fresh, create_table-found, create_table-fresh, create_table-IsValid,
  acts-IsValid, create_table-links, acts-IsLinked,
}

-- Two memories that differ at most in one table.
pub record SameBut (p : ℕ) (m n : Shared) : Type 0 where
  pub agents : m.agents ≡ n.agents
  pub next : m.next ≡ n.next
  pub tables : (a : ℕ) → a ≢ p → m.tables a ≡ n.tables a

fresh-SameBut :
    (key : String) (p : ℕ) (m n : Shared) → SameBut p m n → SameBut p (fresh key m) (fresh key n)
fresh-SameBut key p m n s = record {
  agents = ap (λ q. Map.insert key q m.agents) s.next ∙ ap (Map.insert key n.next) s.agents;
  next = ap (λ q. q + 1) s.next;
  tables = λ a d. ground (arith, s.next, s.tables a d);
}

create_table-SameBut :
    (key : String) (p : ℕ) (m n : Shared)
    → SameBut p m n
    → SameBut p (create_table key m).1 (create_table key n).1
create_table-SameBut key p m n s = elim (Option-cases (Map.lookup key m.agents)) [
  | inl e ↦
      let f : Map.lookup key n.agents ≡ none = ap (Map.lookup key) (sym s.agents) ∙ e in
      rw (create_table-fresh key m e, create_table-fresh key n f) (fresh-SameBut key p m n s)
  | inr (q, e) ↦
      let f : Map.lookup key n.agents ≡ some q = ap (Map.lookup key) (sym s.agents) ∙ e in
      rw (create_table-found key q m e, create_table-found key q n f) s
]

act-SameBut : (a : Action) (p : ℕ) (m n : Shared) → SameBut p m n → SameBut p (act a m) (act a n)
unfolding act write_entry drop_entry unlink
act-SameBut (creates key) p m n s = create_table-SameBut key p m n s
act-SameBut (writes q field entry) p m n s = record {
  agents = s.agents;
  next = s.next;
  tables = λ a d. ground (arith, s.tables a, s.tables q);
}
act-SameBut (drops q field) p m n s = record {
  agents = s.agents;
  next = s.next;
  tables = λ a d. ground (arith, s.tables a, s.tables q);
}
act-SameBut (unlinks key) p m n s = record {
  agents = ap (Map.remove key) s.agents;
  next = s.next;
  tables = s.tables;
}

acts-SameBut :
    (rest : List Action) (p : ℕ) (m n : Shared)
    → SameBut p m n
    → SameBut p (acts rest m) (acts rest n)
unfolding acts
acts-SameBut [] p m n s = s
acts-SameBut (a ∷ rest) p m n s = acts-SameBut rest p (act a m) (act a n) (act-SameBut a p m n s)

write_entry-SameBut :
    (p : ℕ) (field : String) (entry : Entry) (m : Shared)
    → SameBut p m (write_entry p field entry m)
unfolding write_entry
write_entry-SameBut p field entry m = record {
  agents = refl;
  next = refl;
  tables = λ a d. ground arith;
}

-- Readers do not see a table that the map does not point at.
entry_at-SameBut :
    (p : ℕ) (j f : String) (m n : Shared)
    → SameBut p m n
    → IsOrphan p m
    → entry_at j f m ≡ entry_at j f n
unfolding entry_at
entry_at-SameBut p j f m n s o = elim (Option-cases (Map.lookup j m.agents)) [
  | inl e ↦
      let g : Map.lookup j n.agents ≡ none = ap (Map.lookup j) (sym s.agents) ∙ e in
      rw (e, g, entry_at) refl
  | inr (q, e) ↦
      let g : Map.lookup j n.agents ≡ some q = ap (Map.lookup j) (sym s.agents) ∙ e in
      let d : q ≢ p = λ h. o.lost j (e ∙ ap some h) in
      rw (e, g, entry_at) (ap (Map.lookup f) (s.tables q d))
]

get_or_create-found :
    (key : String) (between : List Action) (p : ℕ) (m : Shared)
    → IsLinked key p m
    → get_or_create key between m ≡ (p, m)
unfolding get_or_create peek
get_or_create-found key between p m l =
    ap
      (λ (x : Option ℕ). elim x as (λ _. ℕ × Shared) [
        | some q ↦ (q, m)
        | none ↦ create_table key (acts between m)
      ])
      l

get_or_create-absent :
    (key : String) (between : List Action) (m : Shared)
    → Map.lookup key m.agents ≡ none
    → get_or_create key between m ≡ create_table key (acts between m)
unfolding get_or_create peek
get_or_create-absent key between m e =
    ap
      (λ (x : Option ℕ). elim x as (λ _. ℕ × Shared) [
        | some q ↦ (q, m)
        | none ↦ create_table key (acts between m)
      ])
      e

abbrev IsGiven : String → ℕ × Shared → Type 0
IsGiven key r = IsValid r.1 × IsLinked key r.0 r.1

get_or_create-IsGiven :
    (key : String) (between : List Action) (m : Shared)
    → IsValid m
    → IsGiven key (get_or_create key between m)
get_or_create-IsGiven key between m v = elim (Option-cases (Map.lookup key m.agents)) [
  | inl e ↦ subst (IsGiven key) (sym (get_or_create-absent key between m e)) (
    create_table-IsValid key (acts between m) (acts-IsValid between m v),
    create_table-links key (acts between m),
  )
  | inr (p, e) ↦ subst (IsGiven key) (sym (get_or_create-found key between p m e)) (v, e)
]

-- Undisturbed, `Set` on an agent that has a table writes to it.
set_shared-IsLinked :
    (key field : String) (entry : Entry) (p : ℕ) (m : Shared)
    → IsLinked key p m
    → set_shared key field entry [] [] m ≡ write_entry p field entry m
unfolding set_shared acts
set_shared-IsLinked key field entry p m l =
    ap (λ (r : ℕ × Shared). write_entry r.0 field entry r.1) (get_or_create-found key [] p m l)

-- A `Set` between any steps of other calls is seen by readers as one that happens at once: at its write, or,
-- if the agent was cleared between the return of `getOrCreate` and the write, at that return, before the
-- clear.
pub set_shared-interleaved :
    (key field : String) (entry : Entry) (between after : List Action) (m : Shared) (j f : String)
    → IsValid m
    → let m' = (get_or_create key between m).1 in
      entry_at j f (set_shared key field entry between after m)
      ≡ entry_at j f (
          if clears key after
          then acts after (set_shared key field entry [] [] m')
          else set_shared key field entry [] [] (acts after m'))
unfolding set_shared
set_shared-interleaved key field entry between after m j f v =
    let p = (get_or_create key between m).0 in
    let m' = (get_or_create key between m).1 in
    let (v', l) = get_or_create-IsGiven key between m v in
    let (linked, orphan) = acts-IsLinked key p after m' v' l in
    elim (Bool-cases (clears key after)) [
      | inl c ↦
          let o = orphan c in
          let same = write_entry-SameBut p field entry m' in
          sym (
            entry_at-SameBut p j f (acts after m') _
              (write_entry-SameBut p field entry (acts after m')) o)
          ∙ entry_at-SameBut p j f (acts after m') _ (acts-SameBut after p m' _ same) o
          ∙ ap (λ n. entry_at j f (acts after n)) (sym (set_shared-IsLinked key field entry p m' l))
          ∙ ap
              (λ b. entry_at j f (
                if b
                then acts after (set_shared key field entry [] [] m')
                else set_shared key field entry [] [] (acts after m')))
              (sym c)
      | inr c ↦
          ap (entry_at j f) (sym (set_shared-IsLinked key field entry p (acts after m') (linked c)))
          ∙ ap
              (λ b. entry_at j f (
                if b
                then acts after (set_shared key field entry [] [] m')
                else set_shared key field entry [] [] (acts after m')))
              (sym c)
    ]

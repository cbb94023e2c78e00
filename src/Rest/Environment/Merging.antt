-- ===== src/Rest/Environment/Merging.antt =====
-- `mergeEnvVars` of internal/rest/handlers.go upserts by name.
use mathlib.Core.List.{append-nil, append_assoc}
use k8sagent_orchestrator.Prelude.{
  ℕ, zero, suc, ◌+◌, String, ◌≡◌, refl, sym, ap, ◌∙◌, Bool, true, false, Option, none, some, List,
  [], ◌∷◌, ◌++◌, ◌==◌, eq_iff, arith, length, set, if◌then◌else◌, Option-cases, inl, inr,
}
use k8sagent_orchestrator.Prelude.Map
use k8sagent_orchestrator.Prelude.Map.{Map, lookup-insert, or_else}
use k8sagent_orchestrator.Redis.{is_one_of}
use k8sagent_orchestrator.Api.{EnvVar}
use k8sagent_orchestrator.Rest.Environment.{index_from, merge_from, merge_env_vars}

abbrev pub names : List EnvVar → List String
names [] = []
names (e ∷ vars) = e.name ∷ names vars

-- The last variable of that name: the one that a container sees.
abbrev pub last_var : String → List EnvVar → Option EnvVar
last_var k [] = none
last_var k (e ∷ vars) = or_else (last_var k vars) (if e.name == k then some e else none)

-- The names that are not there yet, each once, in the order of their first occurrence.
abbrev pub added : List String → List String → List String
added seen [] = []
added seen (n ∷ ns) =
    let new = n ∷ added (seen ++ n ∷ []) ns in if is_one_of n seen then added seen ns else new

-- Where a name stands last.
position : String → List String → Option ℕ
position k [] = none
position k (n ∷ ns) = elim (position k ns) [
  | some p ↦ some (suc p)
  | none ↦ if n == k then some 0 else none
]

abbrev shifted : ℕ → Option ℕ → Option ℕ → Option ℕ
shifted i none o = o
shifted i (some p) o = some (i + p)

lookup-index_from :
    (k : String) (i : ℕ) (vars : List EnvVar) (idx : Map ℕ)
    → Map.lookup k (index_from i vars idx) ≡ shifted i (position k (names vars)) (Map.lookup k idx)
unfolding index_from position
lookup-index_from k i [] idx = refl
lookup-index_from k i (e ∷ vars) idx = ground (
  arith,
  lookup-index_from k (suc i) vars (Map.insert e.name i idx),
  lookup-insert e.name k i idx,
)

position-append :
    (k : String) (ns : List String) (n : String)
    → position k (ns ++ n ∷ []) ≡ (if n == k then some (length ns) else position k ns)
unfolding position
position-append k [] n = refl
position-append k (m ∷ ns) n = ground (arith, position-append k ns n)

last_var-append :
    (k : String) (vars : List EnvVar) (v : EnvVar)
    → last_var k (vars ++ v ∷ []) ≡ (if v.name == k then some v else last_var k vars)
last_var-append k [] v = ground arith
last_var-append k (e ∷ vars) v = ground (arith, last_var-append k vars v)

names-append :
    (vars : List EnvVar) (v : EnvVar) → names (vars ++ v ∷ []) ≡ names vars ++ v.name ∷ []
names-append [] v = refl
names-append (e ∷ vars) v = ap (λ ns. e.name ∷ ns) (names-append vars v)

length-names : (vars : List EnvVar) → length (names vars) ≡ length vars
length-names [] = refl
length-names (e ∷ vars) = ap suc (length-names vars)

-- A write at the last place of a name keeps the names, and is what is then seen under the name.
names-set :
    (vars : List EnvVar) (i : ℕ) (v : EnvVar)
    → position v.name (names vars) ≡ some i
    → names (set vars i v) ≡ names vars
unfolding position
names-set [] i v h = refl
names-set (e ∷ vars) zero v h = ground (arith, eq_iff e.name v.name)
names-set (e ∷ vars) (suc i) v h = ground (arith, names-set vars i v)

last_var_of_position :
    (k : String) (vars : List EnvVar) → position k (names vars) ≡ none → last_var k vars ≡ none
unfolding position
last_var_of_position k [] h = refl
last_var_of_position k (e ∷ vars) h = ground (arith, last_var_of_position k vars)

last_var-set :
    (k : String) (vars : List EnvVar) (i : ℕ) (v : EnvVar)
    → position v.name (names vars) ≡ some i
    → last_var k (set vars i v) ≡ (if v.name == k then some v else last_var k vars)
unfolding position
last_var-set k [] i v h = cc
last_var-set k (e ∷ vars) zero v h = ground (
  arith,
  eq_iff e.name v.name,
  eq_iff e.name k,
  eq_iff v.name k,
  last_var_of_position v.name vars,
)
last_var-set k (e ∷ vars) (suc i) v h = ground (arith, last_var-set k vars i v)

abbrev found : Option ℕ → Bool
found none = false
found (some p) = true

is_one_of-position : (k : String) (ns : List String) → is_one_of k ns ≡ found (position k ns)
unfolding position
is_one_of-position k [] = refl
is_one_of-position k (n ∷ ns) = ground (arith, is_one_of-position k ns)

-- The index of the program: under each name the last place where it stands.
abbrev IsIndex : Map ℕ → List EnvVar → Type 0
IsIndex idx vars = (k : String) → Map.lookup k idx ≡ position k (names vars)

index_from-IsIndex : (vars : List EnvVar) → IsIndex (index_from 0 vars []) vars
unfolding Map.lookup
index_from-IsIndex vars k = ground (arith, lookup-index_from k 0 vars [])

append-IsIndex :
    (idx : Map ℕ) (vars : List EnvVar) (v : EnvVar)
    → IsIndex idx vars
    → IsIndex (Map.insert v.name (length vars) idx) (vars ++ v ∷ [])
append-IsIndex idx vars v h k = ground (
  arith,
  lookup-insert v.name k (length vars) idx,
  h k,
  names-append vars v,
  position-append k (names vars) v.name,
  length-names vars,
)

set-IsIndex :
    (idx : Map ℕ) (vars : List EnvVar) (v : EnvVar) (i : ℕ)
    → IsIndex idx vars
    → Map.lookup v.name idx ≡ some i
    → IsIndex idx (set vars i v)
set-IsIndex idx vars v i h e k = rw (names-set vars i v (sym (h v.name) ∙ e)) (h k)

last_var-merge_from :
    (k : String) (vars : List EnvVar) (idx : Map ℕ) (new_vars : List EnvVar)
    → IsIndex idx vars
    → last_var k (merge_from vars idx new_vars) ≡ or_else (last_var k new_vars) (last_var k vars)
unfolding merge_from
last_var-merge_from k vars idx [] h = refl
last_var-merge_from k vars idx (nv ∷ new_vars) h = elim (Option-cases (Map.lookup nv.name idx)) [
  | inl e ↦
      let ih =
        last_var-merge_from k (vars ++ nv ∷ []) (Map.insert nv.name (length vars) idx) new_vars
          (append-IsIndex idx vars nv h) in
      rw (e, merge_from) (ground (arith, last_var-append k vars nv))
  | inr (i, e) ↦
      let ih = last_var-merge_from k (set vars i nv) idx new_vars (set-IsIndex idx vars nv i h e) in
      rw (e, merge_from) (ground (arith, last_var-set k vars i nv (sym (h nv.name) ∙ e)))
]

names-merge_from :
    (vars : List EnvVar) (idx : Map ℕ) (new_vars : List EnvVar)
    → IsIndex idx vars
    → names (merge_from vars idx new_vars) ≡ names vars ++ added (names vars) (names new_vars)
unfolding merge_from
names-merge_from vars idx [] h = sym (append-nil (names vars))
names-merge_from vars idx (nv ∷ new_vars) h = elim (Option-cases (Map.lookup nv.name idx)) [
  | inl e ↦
      let ih =
        names-merge_from (vars ++ nv ∷ []) (Map.insert nv.name (length vars) idx) new_vars
          (append-IsIndex idx vars nv h) in
      let new = is_one_of-position nv.name (names vars) ∙ ap found (sym (h nv.name) ∙ e) in
      rw (e, merge_from)
        (rw (ih, names-append vars nv, new)
          (append_assoc (names vars) (nv.name ∷ [])
            (added (names vars ++ nv.name ∷ []) (names new_vars))))
  | inr (i, e) ↦
      let at = sym (h nv.name) ∙ e in
      let ih = names-merge_from (set vars i nv) idx new_vars (set-IsIndex idx vars nv i h e) in
      let old = is_one_of-position nv.name (names vars) ∙ ap found at in
      rw (e, merge_from) (rw (ih, names-set vars i nv at, old) refl)
]

-- Merging upserts by name: under each name a container sees the last of the new variables of that name,
-- or, where there is none, what it saw before. The names of the existing variables stay in their places,
-- and the new names follow, each once, in the order in which they first come.
pub merge_env_vars-upserts :
    (existing new_vars : List EnvVar)
    → ((k : String)
        → last_var k (merge_env_vars existing new_vars)
          ≡ or_else (last_var k new_vars) (last_var k existing))
      × (names (merge_env_vars existing new_vars)
          ≡ names existing ++ added (names existing) (names new_vars))
unfolding merge_env_vars
merge_env_vars-upserts existing new_vars =
    let idx = index_from-IsIndex existing in
    (
      λ k. last_var-merge_from k existing (index_from 0 existing []) new_vars idx,
      names-merge_from existing (index_from 0 existing []) new_vars idx,
    )

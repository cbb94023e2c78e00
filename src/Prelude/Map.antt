-- ===== src/Prelude/Map.antt =====
-- Go's `map[string]V`, as an association list. The order of a `range` over it is not modelled:
-- statements about maps go through `lookup`.
use mathlib.Core.Path.{◌≡◌, refl, sym, ap, ◌∙◌}
use mathlib.Core.Bool.{Bool}
use mathlib.Core.Option.{Option, none, some}
use mathlib.Core.List.{List, [], ◌∷◌, ◌++◌, append-nil, append_assoc}
use mathlib.Core.Logic.{◌≢◌}
use Prim.Native.String.{String}
use native.Mathlib.Omega.{arith}
use text.Mathlib.Text.{◌==◌}
use text.Mathlib.TextEquality.{eq_iff}
use package.k8sagent_orchestrator.Prelude.Tests.{if◌then◌else◌}

abbrev pub Map {ℓ} : Type ℓ → Type ℓ
Map V = List (String × V)

module _ {ℓ} {V : Type ℓ} where
  -- `v, ok := m[k]`
  unfoldable pub lookup : String → Map V → Option V
  lookup k [] = none
  lookup k ((j, v) ∷ m) = if j == k then some v else lookup k m

  -- `m[k] = v`
  unfoldable pub insert : String → V → Map V → Map V
  insert k v [] = (k, v) ∷ []
  insert k v ((j, w) ∷ m) = if j == k then (k, v) ∷ m else (j, w) ∷ insert k v m

  -- `delete(m, k)`
  unfoldable pub remove : String → Map V → Map V
  remove k [] = []
  remove k ((j, v) ∷ m) = let rest = remove k m in if j == k then rest else (j, v) ∷ rest

  -- `for k, v := range n { m[k] = v }`
  unfoldable pub overlay : Map V → Map V → Map V
  unfolding insert
  overlay m [] = m
  overlay m ((k, v) ∷ n) = overlay (insert k v m) n

  -- The entries for which the test holds.
  unfoldable pub select : (String → V → Bool) → Map V → Map V
  select p [] = []
  select p ((k, v) ∷ m) = let rest = select p m in if p k v then (k, v) ∷ rest else rest

  -- Each key stands once.
  abbrev pub IsFresh : String → Map V → Type 0
  IsFresh k [] = Unit
  IsFresh k ((j, v) ∷ m) = (j ≢ k) × IsFresh k m

  abbrev pub HasDistinctKeys : Map V → Type 0
  HasDistinctKeys [] = Unit
  HasDistinctKeys ((k, v) ∷ m) = IsFresh k m × HasDistinctKeys m

module _ {ℓ} {V : Type ℓ} where
  pub lookup-insert :
      (written read : String) (value : V) (m : Map V)
      → lookup read (insert written value m)
        ≡ (if written == read then some value else lookup read m)
  unfolding insert lookup
  lookup-insert written read value [] = refl
  lookup-insert written read value ((held, old) ∷ rest) =
      let ih = lookup-insert written read value rest in
      ground (arith, eq_iff held written, eq_iff held read, eq_iff written read)

  pub lookup-insert_self : (k : String) (v : V) (m : Map V) → lookup k (insert k v m) ≡ some v
  lookup-insert_self k v m = ground (arith, lookup-insert k k v m, eq_iff k k)

  pub lookup-remove :
      (k j : String) (m : Map V) → lookup j (remove k m) ≡ (if k == j then none else lookup j m)
  unfolding lookup remove
  lookup-remove k j [] = ground arith
  lookup-remove k j ((i, v) ∷ m) =
      ground (arith, lookup-remove k j m, eq_iff i k, eq_iff i j, eq_iff k j)

  pub lookup_of_IsFresh : (k : String) (m : Map V) → IsFresh k m → lookup k m ≡ none
  unfolding lookup
  lookup_of_IsFresh k [] h = refl
  lookup_of_IsFresh k ((j, v) ∷ m) h = ground (arith, eq_iff j k, lookup_of_IsFresh k m h.1)

  pub IsFresh-insert :
      (k j : String) (v : V) (m : Map V) → k ≢ j → IsFresh j m → IsFresh j (insert k v m)
  unfolding insert
  IsFresh-insert k j v [] d h = (d, tt)
  IsFresh-insert k j v ((i, w) ∷ m) d h = ground (arith, IsFresh-insert k j v m d h.1)

  pub insert-HasDistinctKeys :
      (k : String) (v : V) (m : Map V) → HasDistinctKeys m → HasDistinctKeys (insert k v m)
  unfolding insert
  insert-HasDistinctKeys k v [] h = (tt, tt)
  insert-HasDistinctKeys k v ((j, w) ∷ m) h =
      ground (arith, eq_iff j k, insert-HasDistinctKeys k v m h.1, IsFresh-insert k j v m)

  pub IsFresh-select :
      (p : String → V → Bool) (k : String) (m : Map V) → IsFresh k m → IsFresh k (select p m)
  unfolding select
  IsFresh-select p k [] h = tt
  IsFresh-select p k ((j, v) ∷ m) h = ground (arith, IsFresh-select p k m h.1)

  pub IsFresh-remove : (j k : String) (m : Map V) → IsFresh k m → IsFresh k (remove j m)
  unfolding remove
  IsFresh-remove j k [] h = tt
  IsFresh-remove j k ((i, v) ∷ m) h = ground (arith, IsFresh-remove j k m h.1)

  pub remove-HasDistinctKeys :
      (k : String) (m : Map V) → HasDistinctKeys m → HasDistinctKeys (remove k m)
  unfolding remove
  remove-HasDistinctKeys k [] h = tt
  remove-HasDistinctKeys k ((j, v) ∷ m) h =
      ground (arith, remove-HasDistinctKeys k m h.1, IsFresh-remove k j m h.0)

  pub select-HasDistinctKeys :
      (p : String → V → Bool) (m : Map V) → HasDistinctKeys m → HasDistinctKeys (select p m)
  unfolding select
  select-HasDistinctKeys p [] h = tt
  select-HasDistinctKeys p ((j, v) ∷ m) h =
      ground (arith, select-HasDistinctKeys p m h.1, IsFresh-select p j m h.0)

  abbrev pub passing : (String → V → Bool) → String → Option V → Option V
  passing p k none = none
  passing p k (some v) = if p k v then some v else none

  pub lookup-select :
      (p : String → V → Bool) (k : String) (m : Map V)
      → HasDistinctKeys m
      → lookup k (select p m) ≡ passing p k (lookup k m)
  unfolding lookup select
  lookup-select p k [] h = refl
  lookup-select p k ((j, v) ∷ m) h = ground (
    arith,
    eq_iff j k,
    lookup-select p k m h.1,
    lookup_of_IsFresh j m h.0,
    lookup_of_IsFresh j (select p m) (IsFresh-select p j m h.0),
  )

  abbrev pub or_else : Option V → Option V → Option V
  or_else none o = o
  or_else (some v) o = some v

  -- What a `range` over `n` wrote stands, and the rest of `m` is kept.
  pub lookup-overlay :
      (k : String) (m n : Map V)
      → HasDistinctKeys n
      → lookup k (overlay m n) ≡ or_else (lookup k n) (lookup k m)
  unfolding lookup overlay
  lookup-overlay k m [] h = refl
  lookup-overlay k m ((j, v) ∷ n) h = ground (
    arith,
    lookup-overlay k (insert j v m) n h.1,
    lookup-insert j k v m,
    eq_iff j k,
    lookup_of_IsFresh j n h.0,
  )

  insert_of_IsFresh :
      (k : String) (v : V) (m : Map V) → IsFresh k m → insert k v m ≡ m ++ (k, v) ∷ []
  unfolding insert
  insert_of_IsFresh k v [] h = refl
  insert_of_IsFresh k v ((j, w) ∷ m) h =
      ground (arith, eq_iff j k, insert_of_IsFresh k v m h.1, h.0)

  IsFresh-append :
      (k j : String) (v : V) (m : Map V) → IsFresh k m → j ≢ k → IsFresh k (m ++ (j, v) ∷ [])
  IsFresh-append k j v [] h d = (d, tt)
  IsFresh-append k j v ((i, w) ∷ m) h d = (h.0, IsFresh-append k j v m h.1 d)

  -- No key of the second map is in the first.
  abbrev AreApart : Map V → Map V → Type 0
  AreApart m [] = Unit
  AreApart m ((k, v) ∷ n) = IsFresh k m × AreApart m n

  AreApart-append :
      (m n : Map V) (j : String) (v : V)
      → AreApart m n
      → IsFresh j n
      → AreApart (m ++ (j, v) ∷ []) n
  AreApart-append m [] j v h f = tt
  AreApart-append m ((k, w) ∷ n) j v h f =
      (IsFresh-append k j v m h.0 (λ e. f.0 (sym e)), AreApart-append m n j v h.1 f.1)

  overlay-append : (m n : Map V) → AreApart m n → HasDistinctKeys n → overlay m n ≡ m ++ n
  unfolding overlay
  overlay-append m [] h d = sym (append-nil m)
  overlay-append m ((k, v) ∷ n) h d =
      ap (λ a. overlay a n) (insert_of_IsFresh k v m h.0)
      ∙ overlay-append (m ++ (k, v) ∷ []) n (AreApart-append m n k v h.1 d.0) d.1
      ∙ append_assoc m ((k, v) ∷ []) n

  AreApart-empty : (n : Map V) → AreApart [] n
  AreApart-empty [] = tt
  AreApart-empty ((k, v) ∷ n) = (tt, AreApart-empty n)

  -- A range over a map, into an empty one, copies it.
  pub overlay-empty : (n : Map V) → HasDistinctKeys n → overlay [] n ≡ n
  overlay-empty n d = overlay-append [] n (AreApart-empty n) d

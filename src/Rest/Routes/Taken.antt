-- ===== src/Rest/Routes/Taken.antt =====
-- What holds of every route that a request fits.
use mathlib.Core.List.{Memᴰ}
use k8sagent_orchestrator.Prelude.{
  String, ◌≡◌, refl, sym, subst, Bool, true, false, Option, none, some, List, [], ◌∷◌, ◌++◌, map,
  ◌==◌, if◌then◌else◌, All,
}
use k8sagent_orchestrator.Prelude.Map.{Map}
use k8sagent_orchestrator.Rest.Routes.{
  Handler, Segment, Route, Match, Fits, matches, agent_table, below, namespaced, short,
  register_agent_routes, register_routes, fixed, wildcard, swagger, info, healthz, readyz,
}

-- `r` is kept for a path that it fits.
abbrev pub Keeps {ℓ} : (Match → Type ℓ) → Fits → (method : String) → List String → Route → Type ℓ
Keeps P fits method path r =
    (params : Map String)
    → (r.method == method) ≡ true
    → fits r.pattern path ≡ some params
    → P (r.handler, (r.tracked, params))

module _ {ℓ} (P : Match → Type ℓ) where
  one_match :
      (b : Bool) (o : Option (Map String)) (of : Map String → Match) (rest : List Match) (m : Match)
      → ((params : Map String) → b ≡ true → o ≡ some params → P (of params))
      → (Memᴰ m rest → P m)
      → Memᴰ m (if b then elim o [ none ↦ rest | some params ↦ of params ∷ rest ] else rest)
      → P m
  one_match false o of rest m h ih found = ih found
  one_match true none of rest m h ih found = ih found
  one_match true (some params) of rest m h ih (Memᴰ.head e) = subst P (sym e) (h params refl refl)
  one_match true (some params) of rest m h ih (Memᴰ.tail found) = ih found

  pub matches-All :
      (fits : Fits) (rs : List Route) (method : String) (path : List String) (m : Match)
      → All (Keeps P fits method path) rs
      → Memᴰ m (matches fits rs method path)
      → P m
  unfolding matches
  matches-All fits [] method path m h found = elim found [ ]
  matches-All fits (r ∷ rs) method path m h found =
      one_match (r.method == method) (fits r.pattern path)
        (λ params. (r.handler, (r.tracked, params))) (matches fits rs method path) m h.0
        (matches-All fits rs method path m h.1) found

module _ {ℓ} (P : Route → Type ℓ) where
  All-append : (rs qs : List Route) → All P rs → All P qs → All P (rs ++ qs)
  All-append [] qs h k = k
  All-append (r ∷ rs) qs h k = (h.0, All-append rs qs h.1 k)

  All-map : (f : Route → Route) (rs : List Route) → All (λ r. P (f r)) rs → All P (map f rs)
  All-map f [] h = tt
  All-map f (r ∷ rs) h = (h.0, All-map f rs h.1)

module _ {ℓ} (P Q : Route → Type ℓ) where
  pub All-implies : ((r : Route) → P r → Q r) → (rs : List Route) → All P rs → All Q rs
  All-implies f [] h = tt
  All-implies f (r ∷ rs) h = (f r h.0, All-implies f rs h.1)

abbrev pub own_route : Handler → List Segment → Route
own_route handler pattern = record {
  method = "GET";
  pattern = pattern;
  tracked = false;
  handler = handler;
}

-- The routes of the server itself.
abbrev pub own_table : List Route
own_table =
    own_route swagger (fixed "swagger" ∷ wildcard ∷ [])
    ∷ own_route info (fixed "api" ∷ fixed "v1" ∷ fixed "info" ∷ [])
    ∷ own_route healthz (fixed "healthz" ∷ [])
    ∷ own_route readyz (fixed "readyz" ∷ [])
    ∷ []

module _ {ℓ} (P : Route → Type ℓ) where
  -- What holds of the four routes of the server itself, and of the routes for agents below both paths, holds
  -- of every route.
  pub register_routes-All :
      All P own_table
      → All (λ r. P (below namespaced r)) agent_table
      → All (λ r. P (below short r)) agent_table
      → All P register_routes
  unfolding register_routes register_agent_routes
  register_routes-All own long agents =
      All-append P own_table (register_agent_routes namespaced ++ register_agent_routes short) own (
        All-append P (register_agent_routes namespaced) (register_agent_routes short)
          (All-map P (below namespaced) agent_table long)
          (All-map P (below short) agent_table agents))

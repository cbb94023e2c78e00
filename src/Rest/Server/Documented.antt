-- ===== src/Rest/Server/Documented.antt =====
-- The documentation of the API and what the handlers answer.
use mathlib.Core.List.{Memᴰ}
use k8sagent_orchestrator.Prelude.{
  ℕ, String, ◌≡◌, ◌≢◌, refl, sym, subst, Bool, true, false, Option, none, some, List, [], ◌∷◌, ◌==◌,
  if◌then◌else◌, ◌&&◌, eq_iff, ◌<>◌, All, arith,
}
use k8sagent_orchestrator.Prelude.Map.{Map}
use k8sagent_orchestrator.Docs.{operations, method_of, find_operation, codes, has_code}
use k8sagent_orchestrator.Docs.Spec.{Operation}
use k8sagent_orchestrator.Rest.{Request, Response}
use k8sagent_orchestrator.Rest.Routes.{
  Segment, fixed, param, Handler, Route, short, register_agent_routes,
}
use k8sagent_orchestrator.Rest.Routes.Taken.{own_route}
use k8sagent_orchestrator.Rest.Server.{Server, HttpRequest, run_handler}
use k8sagent_orchestrator.Rest.Server.Statuses.{codes_of, run_handler-codes}

-- A pattern in the notation of Swagger.
abbrev pub pattern_text : List Segment → String
pattern_text [] = ""
pattern_text (fixed s ∷ pattern) = "/" <> (s <> pattern_text pattern)
pattern_text (param k ∷ pattern) = "/{" <> (k <> ("}" <> pattern_text pattern))
pattern_text (Segment.wildcard ∷ pattern) = "/*" <> pattern_text pattern

-- The routes that are documented: all but the documentation itself and /api/v1/info, and of the two groups
-- for agents the short one.
abbrev pub documented_routes : List Route
unfolding register_agent_routes
documented_routes =
    own_route Handler.healthz (fixed "healthz" ∷ [])
    ∷ own_route Handler.readyz (fixed "readyz" ∷ [])
    ∷ register_agent_routes short

abbrev IsDescribed : Route → Type 0
IsDescribed route = elim (find_operation operations route.method (pattern_text route.pattern)) [
  | none ↦ ⊥
  | some op ↦ codes op ≡ codes_of route.handler
]

documented_routes-IsDescribed : All IsDescribed documented_routes
unfolding operations register_agent_routes
documented_routes-IsDescribed = ground arith

module _ {ℓ} {A : Type 0} (P : A → Type ℓ) where
  All-mem : (l : List A) (x : A) → All P l → Memᴰ x l → P x
  All-mem [] x h found = elim found [ ]
  All-mem (y ∷ l) x h (Memᴰ.head e) = subst P (sym e) h.0
  All-mem (y ∷ l) x h (Memᴰ.tail found) = All-mem l x h.1 found

-- A handler that has documented statuses is not that of the documentation.
documented_routes-own : All (λ r. r.handler ≢ Handler.swagger) documented_routes
unfolding register_agent_routes
documented_routes-own = ground arith

described :
    (found : Option Operation) (listed : List ℕ)
    → elim found as (λ _. Type 0) [ none ↦ ⊥ | some op ↦ codes op ≡ listed ]
    → (op : Operation) × (found ≡ some op) × (codes op ≡ listed)
described none listed d = elim d [ ]
described (some op) listed d = (op, refl, d)

module _ {W C K : Type 0} (s : Server W C K) where
  -- The answer of a handler has one of the statuses that are documented for its method and path.
  pub run_handler-documented :
      (route : Route)
      → Memᴰ route documented_routes
      → (c : Request) (params : Map String) (r : HttpRequest) (w : W) (answer : Response)
      → (run_handler s route.handler c params r w).0 ≡ some answer
      → (op : Operation) × (find_operation operations route.method (pattern_text route.pattern)
          ≡ some op)
        × (has_code (codes op) answer.code ≡ true)
  run_handler-documented route found c params r w answer answered =
      let h = route.handler in
      let (op, documented, listed) =
        described (find_operation operations route.method (pattern_text route.pattern)) (codes_of h)
          (All-mem IsDescribed documented_routes route documented_routes-IsDescribed found) in
      let own =
        All-mem (λ x. x.handler ≢ Handler.swagger) documented_routes route documented_routes-own
          found in
      let status : has_code (codes_of h) answer.code ≡ true =
        subst
          (λ (o : Option Response). elim o as (λ _. Type 0) [
            | none ↦ Unit
            | some a ↦ has_code (codes_of h) a.code ≡ true
          ])
          answered (run_handler-codes s h own c params r w) in
      (op, documented, rw listed status)

-- The route of a table with this method and path.
abbrev find_route : List Route → (method path : String) → Option Route
find_route [] method path = none
find_route (r ∷ rs) method path =
    let rest = find_route rs method path in
    if (r.method == method) && (pattern_text r.pattern == path) then some r else rest

abbrev IsRoute : List Route → (method path : String) → Option Route → Type 0
IsRoute rs method path none = Unit
IsRoute rs method path (some r) = Memᴰ r rs × (r.method ≡ method) × (pattern_text r.pattern ≡ path)

chosen :
    (r : Route) (rs : List Route) (method path : String) (a b : Bool) (rest : Option Route)
    → (a ≡ true → r.method ≡ method)
    → (b ≡ true → pattern_text r.pattern ≡ path)
    → IsRoute rs method path rest
    → IsRoute (r ∷ rs) method path (if a && b then some r else rest)
chosen r rs method path true true rest m p ih = (Memᴰ.head refl, m refl, p refl)
chosen r rs method path true false none m p ih = tt
chosen r rs method path true false (some q) m p ih = (Memᴰ.tail ih.0, ih.1, ih.2)
chosen r rs method path false b none m p ih = tt
chosen r rs method path false b (some q) m p ih = (Memᴰ.tail ih.0, ih.1, ih.2)

find_route-IsRoute :
    (rs : List Route) (method path : String) → IsRoute rs method path (find_route rs method path)
find_route-IsRoute [] method path = tt
find_route-IsRoute (r ∷ rs) method path =
    chosen r rs method path (r.method == method) (pattern_text r.pattern == path)
      (find_route rs method path) (eq_iff r.method method).0
      (eq_iff (pattern_text r.pattern) path).0 (find_route-IsRoute rs method path)

abbrev IsRouted : Operation → Type 0
IsRouted op = elim (find_route documented_routes (method_of op) op.path) [
  | none ↦ ⊥
  | some r ↦ Unit
]

operations-IsRouted : All IsRouted operations
unfolding operations register_agent_routes
operations-IsRouted = ground arith

routed :
    (rs : List Route) (method path : String) (found : Option Route)
    → IsRoute rs method path found
    → elim found as (λ _. Type 0) [ none ↦ ⊥ | some r ↦ Unit ]
    → (route : Route) × Memᴰ route rs
      × (route.method ≡ method)
      × (pattern_text route.pattern ≡ path)
routed rs method path none h d = elim d [ ]
routed rs method path (some r) h d = (r, h.0, h.1, h.2)

-- Every documented operation is a route of the server, with its method and path.
pub operations-routes :
    (op : Operation)
    → Memᴰ op operations
    → (route : Route) × Memᴰ route documented_routes
      × (route.method ≡ method_of op)
      × (pattern_text route.pattern ≡ op.path)
operations-routes op found =
    routed documented_routes (method_of op) op.path
      (find_route documented_routes (method_of op) op.path)
      (find_route-IsRoute documented_routes (method_of op) op.path)
      (All-mem IsRouted operations op operations-IsRouted found)
